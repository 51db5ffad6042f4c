-- ===== src/Server/Validators/Requests.antt =====
-- pkg/server/v0/validators.go: the validator of each request. A message has the fields of the
-- core's, but that a task is named by the text of its id.
use moab.Base.{
  ℕ, suc, Bool, true, false, String, List, [], ◌∷◌, Option, none, some, ◌||◌, ◌&&◌, not, ◌==◌,
  length, ltb, is_set,
}
use moab.Base.Word.{slt, sle, sign_extend}
use moab.Tasks.Types.{EnqueueRequestEntry, OverwriteOnDuplicate, Status}
use moab.Queues.Types.{
  CreateQueueRequest, UpdateQueueRequest, CreateScheduleRequest, UpdateScheduleRequest,
}
use moab.Validation.{◌then◌, check}
use moab.Ids.{Base62}
use moab.Server.Validators.{
  Invalid, at_entry, validate_name, validate_description, validate_dedupe_key, validate_payload,
  validate_keepalive_timeout, validate_expires_in, if_set, validate_retries, validate_dequeuing,
  validate_dead_letters, validate_limit, validate_pagination_token, validate_cron,
  validate_timezone, validate_task_id_text,
}

-- The entries of `ReportStatusRequest` and `RestartTasksRequest`.
pub record ReportEntry : Type 0 where
  pub task_id : List ℕ
  pub attempt : ℕ
  pub status : Status
  pub keepalive_timeout_in_seconds : ℕ

pub record RestartEntry : Type 0 where
  pub task_id : List ℕ
  pub scheduled_at : ℕ
  pub expires_at : ℕ

abbrev pub validate_overwrite : OverwriteOnDuplicate → Option Invalid
validate_overwrite OverwriteOnDuplicate.expires_at = none
validate_overwrite OverwriteOnDuplicate.payload = none
validate_overwrite OverwriteOnDuplicate.scheduled_at = none
validate_overwrite OverwriteOnDuplicate.invalid = some Invalid.overwrite_unrecognized

-- A loop over entries, up to the first that is invalid.
unfoldable pub validate_each : {A : Type 0} → (A → Option Invalid) → ℕ → List A → Option Invalid
validate_each validate i [] = none
validate_each validate i (e ∷ es) = at_entry i (validate e) then validate_each validate (suc i) es

unfoldable pub validate_enqueue_entry : EnqueueRequestEntry → Option Invalid
unfolding validate_each
validate_enqueue_entry e =
    validate_dedupe_key e.dedupe_key
    then validate_retries e.retry_strategy
    then check (slt e.expires_at 0) Invalid.expires_at_negative
    then check (slt e.scheduled_at 0) Invalid.scheduled_at_negative
    then validate_payload e.payload
    then check (ltb 0 (length e.overwrite_on_duplicate) && not (is_set e.dedupe_key))
        Invalid.overwrite_without_key
    then validate_each validate_overwrite 0 e.overwrite_on_duplicate

unfoldable pub validate_enqueue : String → List EnqueueRequestEntry → Option Invalid
validate_enqueue queue_name es =
    validate_name queue_name
    then check (length es == 0) Invalid.entries_empty
    then check (ltb 50 (length es)) Invalid.too_many_entries
    then validate_each validate_enqueue_entry 0 es

unfoldable pub validate_dequeue : String → ℕ → ℕ → Option Invalid
validate_dequeue queue_name batch_size keepalive =
    validate_name queue_name
    then check (sle (sign_extend batch_size) 0) Invalid.batch_size
    then if_set validate_keepalive_timeout keepalive

unfoldable pub validate_status : Status → Option Invalid
validate_status Status.succeeded = none
validate_status Status.in_progress = none
validate_status Status.failed = none
validate_status Status.invalid = some Invalid.status

-- The key sets of the loops that look for duplicates, as the list of the texts so far.
unfoldable pub same_text : List ℕ → List ℕ → Bool
same_text [] [] = true
same_text [] (_ ∷ _) = false
same_text (_ ∷ _) [] = false
same_text (a ∷ s) (b ∷ t) = (a == b) && same_text s t

unfoldable pub is_seen : List ℕ → List (List ℕ) → Bool
unfolding same_text
is_seen id [] = false
is_seen id (x ∷ xs) = same_text id x || is_seen id xs

module _ ⦃B : Base62⦄ where
  unfoldable pub validate_reports : ℕ → List ReportEntry → Option Invalid
  validate_reports i [] = none
  validate_reports i (e ∷ es) =
      at_entry i
        (validate_task_id_text e.task_id then check (sle (sign_extend e.attempt) 0) Invalid.attempt)
      then validate_status e.status
      then at_entry i (if_set validate_keepalive_timeout e.keepalive_timeout_in_seconds)
      then validate_reports (suc i) es

  unfoldable pub validate_report_status : String → List ReportEntry → Option Invalid
  validate_report_status queue_name es =
      validate_name queue_name
      then check (length es == 0) Invalid.entries_empty
      then check (ltb 50 (length es)) Invalid.too_many_entries
      then validate_reports 0 es

  unfoldable pub validate_task_ids : ℕ → List (List ℕ) → List (List ℕ) → Option Invalid
  unfolding is_seen
  validate_task_ids i seen [] = none
  validate_task_ids i seen (id ∷ ids) =
      check (is_seen id seen) Invalid.task_id_duplicated
      then at_entry i (validate_task_id_text id)
      then validate_task_ids (suc i) (id ∷ seen) ids

  unfoldable pub validate_delete_tasks : String → List (List ℕ) → Option Invalid
  validate_delete_tasks queue_name ids =
      validate_name queue_name
      then check (ltb (length ids) 1 || ltb 50 (length ids)) Invalid.task_ids_count
      then validate_task_ids 0 [] ids

  unfoldable pub validate_restarts : ℕ → List (List ℕ) → List RestartEntry → Option Invalid
  unfolding is_seen
  validate_restarts i seen [] = none
  validate_restarts i seen (e ∷ es) =
      at_entry i (
        check (is_seen e.task_id seen) Invalid.task_id_duplicated
        then validate_task_id_text e.task_id
        then check (slt e.scheduled_at 0) Invalid.scheduled_at_negative
        then check (slt e.expires_at 0) Invalid.expires_at_negative)
      then validate_restarts (suc i) (e.task_id ∷ seen) es

  unfoldable pub validate_restart_tasks : String → List RestartEntry → Option Invalid
  validate_restart_tasks queue_name es =
      validate_name queue_name
      then check (ltb (length es) 1 || ltb 50 (length es)) Invalid.task_ids_count
      then validate_restarts 0 [] es

unfoldable pub validate_create_queue : CreateQueueRequest → Option Invalid
validate_create_queue r =
    validate_name r.name
    then validate_description r.description
    then validate_dequeuing r.dequeuing_settings
    then validate_dead_letters r.dead_letter_queue_config
    then validate_retries r.retry_strategy
    then validate_keepalive_timeout r.keepalive_timeout_in_seconds
    then validate_expires_in r.expires_in_seconds

unfoldable pub validate_update_queue : UpdateQueueRequest → Option Invalid
validate_update_queue r =
    validate_name r.queue_name
    then validate_description r.description
    then validate_retries r.retry_strategy
    then validate_dequeuing r.dequeuing_settings
    then validate_dead_letters r.dead_letter_queue_config
    then validate_expires_in r.expires_in_seconds
    then validate_keepalive_timeout r.keepalive_timeout_in_seconds
    then check (sle r.expected_version 0) Invalid.expected_version

-- The name of a queue alone, and that of a schedule in a queue.
unfoldable pub validate_schedule_name : String → String → Option Invalid
validate_schedule_name queue_name schedule_name =
    validate_name queue_name then validate_name schedule_name

module _ (is_valid_cron is_valid_timezone : String → Bool) where
  unfoldable pub validate_create_schedule : CreateScheduleRequest → Option Invalid
  validate_create_schedule r =
      validate_name r.queue_name
      then validate_name r.schedule_name
      then validate_description r.description
      then validate_cron is_valid_cron r.cron
      then validate_dedupe_key r.dedupe_key
      then validate_payload r.payload
      then if_set validate_expires_in r.expires_in_seconds
      then validate_retries r.retry_strategy
      then validate_timezone is_valid_timezone r.timezone

  unfoldable pub validate_update_schedule : UpdateScheduleRequest → Option Invalid
  validate_update_schedule r =
      validate_name r.queue_name
      then validate_name r.schedule_name
      then validate_description r.description
      then if_set validate_expires_in r.expires_in_seconds
      then validate_retries r.retry_strategy
      then validate_payload r.payload
      then validate_cron is_valid_cron r.cron
      then validate_dedupe_key r.dedupe_key
      then validate_timezone is_valid_timezone r.timezone
      then check (sle r.expected_version 0) Invalid.expected_version

module _ (is_base64 : String → Bool) where
  unfoldable pub validate_list : String → ℕ → Option Invalid
  validate_list token limit = validate_pagination_token is_base64 token then validate_limit limit

  -- `ListSchedulesRequest`, and `ListTasksRequest` with a state that is recognized.
  unfoldable pub validate_list_in_queue : String → String → ℕ → Option Invalid
  validate_list_in_queue queue_name token limit =
      validate_name queue_name
      then validate_pagination_token is_base64 token
      then validate_limit limit
