-- ===== src/Tasks/Requests.antt =====
-- The other methods of pkg/tasks/core.go on single tasks and queues: `GetTask`, `GetStatistics`,
-- `ListTasks`, `ReportStatus`, `DeleteTasks` and `PurgeQueue`.
pub mod Reporting
pub mod Purging
use moab.Base.{
  ℕ, Bool, false, List, [], ◌∷◌, Option, none, some, Result, ok, fail, not, ◌&&◌, ◌==◌,
  if◌then◌else◌, reverse,
}
use moab.Base.Word.{sub64, slt, sign_extend}
use moab.Honey.{Item, Page, Token}
use moab.Pagination.{get_limit_with_defaults, in_order}
use moab.Tasks.Types.{
  QueueId, TaskId, TaskState, Task, DeadLetterQueueConfig, Status, ReportStatusRequestEntry,
  ReportResult, Response, answer, refused, ApplicationError, is_in_progress,
}
use moab.Tasks.Monad.{Stores, M, Db, ◌>>=◌, ◌>>◌, pure, task_in, for_each, map_m, transact, view}
use moab.Tasks.Access.{
  tasks_get, tasks_find, counters_get, queue_state_get, queue_index_range, purge_create, tasks_page,
  queue_index_page, in_progress_index_page, dead_tasks_index_page,
}
use moab.Tasks.Lifecycle.{delete_task, heartbeat_task, handle_task_failure, DeletionReason}
use moab.Tasks.Dequeue.{unless_purged}

pub record Statistics : Type 0 where
  pub enqueued_tasks_count : ℕ
  pub in_progress_tasks_count : ℕ
  pub dead_tasks_count : ℕ
  pub processed_tasks_count : ℕ
  pub expired_tasks_count : ℕ
  pub age_of_oldest_enqueued_task : ℕ
  pub task_id_sequence : ℕ

-- The age that the first entry gives; 0 if there is none.
abbrev pub age_of_first : ℕ → List (Item ℕ) → ℕ
age_of_first now [] = 0
age_of_first now (i ∷ is) = sub64 now i.time

module _ ⦃S : Stores⦄ where
  -- A task that has expired and is not in progress is reported as gone.
  unfoldable pub is_gone : ℕ → Task → Bool
  is_gone now task = not (is_in_progress task.state) && slt task.expires_at now

  unfoldable pub get_task_answer : TaskId → ℕ → Option Task → Response Task
  get_task_answer id now none = refused (ApplicationError.task_not_found id)
  get_task_answer id now (some task) =
      if is_gone now task then refused (ApplicationError.task_not_found id) else answer task

  unfoldable pub get_task : TaskId → ℕ → Db → Result (Response Task)
  get_task id now = view (do found ← tasks_find id; pure (get_task_answer id now found))

  unfoldable pub get_age_of_oldest_enqueued_task : QueueId → ℕ → M ℕ
  get_age_of_oldest_enqueued_task q now = do
    items ← queue_index_range q 0 now
    pure (age_of_first now items)

  unfoldable pub get_statistics : QueueId → ℕ → Db → Result Statistics
  get_statistics q now = view (do
    counters ← counters_get q
    state ← queue_state_get q
    age ← get_age_of_oldest_enqueued_task q now
    pure (record {
      enqueued_tasks_count = counters.enqueued_tasks_count;
      in_progress_tasks_count = counters.in_progress_tasks_count;
      dead_tasks_count = counters.dead_tasks_count;
      processed_tasks_count = counters.processed_tasks_count;
      expired_tasks_count = counters.expired_tasks_count;
      age_of_oldest_enqueued_task = age;
      task_id_sequence = state.task_id_sequence;
    }))

  -- `listFromIndex`: a page of an index, each entry read back.
  unfoldable pub list_from_index : QueueId → Option Token → M (Page (Item ℕ)) → M (Page Task)
  list_from_index q token read = do
    page ← read
    tasks ← map_m (λ (i : Item ℕ). tasks_get (task_in q i.ref)) (in_order token page.items)
    pure (record { items = tasks; next = page.next; previous = page.previous })

  unfoldable pub list_page : QueueId → TaskState → Option Token → ℕ → M (Page Task)
  list_page q TaskState.invalid token limit = do
    page ← tasks_page q token limit
    pure (record page { items = in_order token page.items })
  list_page q TaskState.enqueued token limit =
      list_from_index q token (queue_index_page q token limit)
  list_page q TaskState.in_progress token limit =
      list_from_index q token (in_progress_index_page q token limit)
  list_page q TaskState.dead token limit =
      list_from_index q token (dead_tasks_index_page q token limit)

  unfoldable pub list_tasks :
      QueueId → TaskState → Option Token → ℕ → Db → Result (Response (Page Task))
  list_tasks q state token limit =
      view (unless_purged q (list_page q state token (get_limit_with_defaults (sign_extend limit))))

  -- What a report does to the task that it is good for.
  unfoldable pub apply_status :
      Status → Task → ℕ → ℕ → Option DeadLetterQueueConfig → M ReportResult
  apply_status Status.in_progress task now keepalive config = do
    heartbeat_task task now keepalive
    pure ReportResult.ok
  apply_status Status.failed task now keepalive config = do
    handle_task_failure task now config
    pure ReportResult.ok
  apply_status Status.succeeded task now keepalive config = do
    delete_task task DeletionReason.succeeded
    pure ReportResult.ok
  apply_status Status.invalid task now keepalive config = pure ReportResult.invalid

  unfoldable pub report_found :
      ReportStatusRequestEntry → ℕ → Option DeadLetterQueueConfig → Option Task → M ReportResult
  report_found e now config none = pure ReportResult.not_found
  report_found e now config (some task) =
      if not (is_in_progress task.state)
      then pure ReportResult.not_in_progress
      else if not (task.attempts == e.attempt)
      then pure ReportResult.stale_attempt
      else apply_status e.status task now e.keepalive_timeout_in_seconds config

  -- `reportStatus`.
  unfoldable pub report_entry :
      ℕ → Option DeadLetterQueueConfig → ReportStatusRequestEntry → M ReportResult
  report_entry now config e = do found ← tasks_find e.task_id; report_found e now config found

  unfoldable pub report_status :
      ℕ
      → Option DeadLetterQueueConfig
      → List ReportStatusRequestEntry
      → Db
      → Result (List (TaskId × ReportResult)) × Db
  report_status now config entries = transact (
      map_m
        (λ (e : ReportStatusRequestEntry). (do
          result ← report_entry now config e
          pure (e.task_id, result)))
        entries)

  unfoldable pub delete_found : Option Task → M (Unit {0})
  delete_found none = pure tt
  delete_found (some task) = delete_task task DeletionReason.no_reason

  unfoldable pub delete_tasks : QueueId → List ℕ → Db → Result (Unit {0}) × Db
  delete_tasks q ids =
      transact (for_each ids (λ (n : ℕ). (do found ← tasks_find (task_in q n); delete_found found)))

  unfoldable pub purge_queue : QueueId → Db → Result (Unit {0}) × Db
  purge_queue q = transact (purge_create q)
