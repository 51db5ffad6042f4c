-- ===== src/Validation.antt =====
-- pkg/corepb/validators.go: what a message of the tasks core must satisfy before its handler runs.
-- `none` is Go's nil error. An error names the field; `entry` is the prefix `Entries[i]`.
pub mod Messages
pub mod Soundness
mod Witnesses
use moab.Base.{
  ℕ, suc, ◌*◌, Bool, true, false, List, [], ◌∷◌, Option, none, some, ◌||◌, ◌==◌, if◌then◌else◌,
  length, ltb,
}
use moab.Base.Word.{slt}
use moab.Tasks.Types.{
  QueueId, TaskId, RetryStrategy, IntervalUnit, unrecognized, seconds, minutes, hours,
  TokenBucketRateLimiting, DequeuingSettings, DeadLetterQueueConfig, EnqueueRequestEntry,
  DequeueRequest, ReportStatusRequestEntry, RestartTasksRequestEntry,
}

pub data Violation : Type 0 where
  id_unset queue_id_zero task_id_zero expires_range keepalive_range : Violation
  retries_length retry_range max_in_progress_negative interval_negative : Violation
  max_tokens_negative interval_unit_unrecognized max_size_negative retention_range : Violation
  too_many_task_ids too_many_entries scheduled_at_negative expires_at_negative : Violation
  payload_too_large schedule_id_zero cron_invalid timezone_invalid : Violation
  next_scheduled_at_negative last_enqueued_for_negative : Violation
  entry : ℕ → Violation → Violation

abbrev pub max_retry_intervals : ℕ
max_retry_intervals = 21

abbrev pub max_retry_interval_in_seconds : ℕ
max_retry_interval_in_seconds = 900

abbrev pub min_expires_in_seconds : ℕ
min_expires_in_seconds = 60

abbrev pub max_expires_in_seconds : ℕ
max_expires_in_seconds = 14 * 86_400

-- The checks run in order, up to the first that fails.
infixr 4 ◌then◌
abbrev pub ◌then◌ : {E : Type 0} → Option E → Option E → Option E
none then next = next
(some v) then next = some v

abbrev pub check : {E : Type 0} → Bool → E → Option E
check true v = some v
check false v = none

-- Outside of `lo` to `hi`, as int64.
unfoldable pub outside : ℕ → ℕ → ℕ → Bool
outside lo hi value = slt value lo || slt hi value

unfoldable pub validate_queue_id : Option QueueId → Option Violation
validate_queue_id none = some Violation.id_unset
validate_queue_id (some q) = check (q.queue_id == 0) Violation.queue_id_zero

unfoldable pub validate_task_id : Option TaskId → Option Violation
validate_task_id none = some Violation.id_unset
validate_task_id (some t) =
    check (t.queue_id == 0) Violation.queue_id_zero
    then check (t.task_id == 0) Violation.task_id_zero

unfoldable pub validate_expires_in_seconds : ℕ → Option Violation
validate_expires_in_seconds value =
    check (outside min_expires_in_seconds max_expires_in_seconds value) Violation.expires_range

unfoldable pub validate_keepalive_timeout_in_seconds : ℕ → Option Violation
validate_keepalive_timeout_in_seconds value = check (outside 5 60 value) Violation.keepalive_range

-- `if value != 0`.
unfoldable pub unless_zero : (ℕ → Option Violation) → ℕ → Option Violation
unless_zero validate value = if value == 0 then none else validate value

unfoldable pub validate_intervals : ℕ → List ℕ → Option Violation
validate_intervals i [] = none
validate_intervals i (x ∷ xs) =
    check (outside 0 max_retry_interval_in_seconds x) (Violation.entry i Violation.retry_range)
    then validate_intervals (suc i) xs

unfoldable pub validate_retry_strategy : Option RetryStrategy → Option Violation
validate_retry_strategy none = none
validate_retry_strategy (some s) =
    check (ltb max_retry_intervals (length s.retry_intervals_in_seconds)) Violation.retries_length
    then validate_intervals 0 s.retry_intervals_in_seconds

abbrev pub validate_interval_unit : IntervalUnit → Option Violation
validate_interval_unit unrecognized = some Violation.interval_unit_unrecognized
validate_interval_unit seconds = none
validate_interval_unit minutes = none
validate_interval_unit hours = none

unfoldable pub validate_rate_limiting : Option TokenBucketRateLimiting → Option Violation
validate_rate_limiting none = none
validate_rate_limiting (some r) =
    check (slt r.interval 0) Violation.interval_negative
    then check (slt r.max_tokens 0) Violation.max_tokens_negative
    then validate_interval_unit r.interval_unit

unfoldable pub validate_dequeuing_settings : Option DequeuingSettings → Option Violation
validate_dequeuing_settings none = none
validate_dequeuing_settings (some s) =
    check (slt s.max_in_progress_tasks 0) Violation.max_in_progress_negative
    then validate_rate_limiting s.rate_limiting

unfoldable pub validate_dead_letter_queue_config : Option DeadLetterQueueConfig → Option Violation
validate_dead_letter_queue_config none = none
validate_dead_letter_queue_config (some c) =
    check (slt c.max_size 0) Violation.max_size_negative
    then check (outside min_expires_in_seconds max_expires_in_seconds c.retention_period_in_seconds)
        Violation.retention_range

-- `DequeueRequest.Validate`.
unfoldable pub validate_dequeue_request : DequeueRequest → Option Violation
validate_dequeue_request r =
    validate_queue_id (some r.queue_id)
    then validate_dequeuing_settings r.dequeuing_settings
    then validate_dead_letter_queue_config r.dead_letter_queue_config
    then unless_zero validate_keepalive_timeout_in_seconds r.keepalive_timeout_in_seconds

-- An error of an entry, under its number.
abbrev pub in_entry : ℕ → Option Violation → Option Violation
in_entry i none = none
in_entry i (some v) = some (Violation.entry i v)

unfoldable pub validate_entry : EnqueueRequestEntry → Option Violation
validate_entry e =
    check (slt e.scheduled_at 0) Violation.scheduled_at_negative
    then check (slt e.expires_at 0) Violation.expires_at_negative
    then validate_retry_strategy e.retry_strategy
    then check (ltb (64 * 1024) (length e.payload)) Violation.payload_too_large

unfoldable pub validate_entries :
    {A : Type 0} → (A → Option Violation) → ℕ → List A → Option Violation
validate_entries validate i [] = none
validate_entries validate i (e ∷ es) =
    in_entry i (validate e) then validate_entries validate (suc i) es

-- `EnqueueRequest.Validate`.
unfoldable pub validate_enqueue_request :
    Option QueueId → List EnqueueRequestEntry → Option Violation
validate_enqueue_request q es =
    validate_queue_id q
    then check (ltb 50 (length es)) Violation.too_many_entries
    then validate_entries validate_entry 0 es

-- `ReportStatusRequest.Validate`.
unfoldable pub validate_report_entry : ReportStatusRequestEntry → Option Violation
validate_report_entry e =
    validate_task_id (some e.task_id)
    then unless_zero validate_keepalive_timeout_in_seconds e.keepalive_timeout_in_seconds

unfoldable pub validate_report_status_request :
    List ReportStatusRequestEntry → Option DeadLetterQueueConfig → Option Violation
validate_report_status_request es config =
    check (ltb 50 (length es)) Violation.too_many_entries
    then validate_entries validate_report_entry 0 es
    then validate_dead_letter_queue_config config

-- `RestartTasksRequest.Validate` and `DeleteTasksRequest.Validate`.
unfoldable pub validate_restart_entry : RestartTasksRequestEntry → Option Violation
validate_restart_entry e =
    check (slt e.scheduled_at 0) Violation.scheduled_at_negative
    then check (slt e.expires_at 0) Violation.expires_at_negative

unfoldable pub validate_restart_tasks_request :
    Option QueueId → List RestartTasksRequestEntry → Option Violation
validate_restart_tasks_request q es =
    validate_queue_id q
    then check (ltb 50 (length es)) Violation.too_many_entries
    then validate_entries validate_restart_entry 0 es

unfoldable pub validate_delete_tasks_request : Option QueueId → List ℕ → Option Violation
validate_delete_tasks_request q ids =
    validate_queue_id q then check (ltb 50 (length ids)) Violation.too_many_task_ids
