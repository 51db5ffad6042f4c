-- ===== src/Tasks/Dequeue.antt =====
-- `Dequeue` of pkg/tasks/core.go and its two passes: lapsed leases first, then fresh tasks.
pub mod Scanning
pub mod Pass
pub mod Bounds
pub mod Cursor
pub mod Dangling
pub mod Answers
pub mod Limiter
use moab.Base.{
  ℕ, suc, Bool, true, false, ◌&&◌, ◌||◌, List, [], ◌∷◌, ◌++◌, Option, none, some, Result,
  if◌then◌else◌, is_set, length, leb, ltb,
}
use moab.Base.Word.{add64, sub64, add32, slt, sle, sign_extend}
use moab.Honey.{Item}
use moab.Tasks.Types.{
  QueueId, TaskState, Task, TasksCounter, DequeuingSettings, DeadLetterQueueConfig, DequeueRequest,
  RateLimiterState, TokenBucketRateLimiting, ApplicationError, Response, answer, refused,
}
use moab.Tasks.Monad.{
  Stores, M, Db, ◌>>=◌, ◌>>◌, pure, item, task_in, for_each, map_m, when, lift, transact,
}
use moab.Tasks.Access.{
  tasks_get, tasks_set, tasks_delete, dedupe_delete, queue_index_delete, queue_index_range,
  in_progress_index_add, in_progress_index_range, expiration_remove, counters_get, counters_set,
  queue_state_get, queue_state_set, rate_limiters_get, rate_limiters_set, purge_exists,
}
use moab.Tasks.Lifecycle.{handle_task_failure, after_seconds}
use moab.Tasks.RateLimiter.{rate_limiting_enabled, refill}

abbrev pub max_visited_tasks_for_dequeuing : ℕ
max_visited_tasks_for_dequeuing = 100

-- What the scan for lapsed leases has collected.
pub record LeaseScan : Type 0 where
  pub timed_out : List Task
  pub visited : ℕ
  pub cursor : ℕ

-- What the scan for fresh tasks has collected.
pub record Scan : Type 0 where
  pub dequeued : List Task
  pub expired : List Task
  pub counters : TasksCounter
  pub visited : ℕ
  pub cursor : ℕ
  pub saw_any_candidate : Bool

-- `MaxInProgressTasks` is set and reached.
unfoldable pub is_saturated : Option DequeuingSettings → TasksCounter → Bool
is_saturated none c = false
is_saturated (some s) c =
    slt 0 s.max_in_progress_tasks && sle s.max_in_progress_tasks c.in_progress_tasks_count

-- The scan stops before it touches another entry.
unfoldable pub is_full : ℕ → Option DequeuingSettings → Scan → Bool
is_full limit settings s =
    (sle limit (length s.dequeued) || leb max_visited_tasks_for_dequeuing s.visited)
    || is_saturated settings s.counters

-- One task is taken: it has expired, or it is handed out.
unfoldable pub take_task : ℕ → ℕ → Task → Scan → Scan
take_task now time task s =
    if slt task.expires_at now
    then record s {
      expired = s.expired ++ task ∷ [];
      counters = record (s.counters) {
        enqueued_tasks_count = sub64 s.counters.enqueued_tasks_count 1;
      };
      visited = suc s.visited;
      cursor = time;
    }
    else record s {
      dequeued = s.dequeued ++ task ∷ [];
      counters = record (s.counters) {
        in_progress_tasks_count = add64 s.counters.in_progress_tasks_count 1;
        enqueued_tasks_count = sub64 s.counters.enqueued_tasks_count 1;
      };
      visited = suc s.visited;
      cursor = time;
    }

module _ ⦃S : Stores⦄ where
  -- The callback of the first pass, over the entries in range.
  unfoldable pub scan_leases : QueueId → List (Item ℕ) → LeaseScan → M LeaseScan
  scan_leases q [] s = pure s
  scan_leases q (i ∷ is) s = do
    task ← tasks_get (task_in q i.ref)
    let s' = record s {
      timed_out = s.timed_out ++ task ∷ [];
      visited = suc s.visited;
      cursor = i.time;
    }
    elim (ltb s'.visited max_visited_tasks_for_dequeuing) [
      | true ↦ scan_leases q is s'
      | false ↦ pure s'
    ]

  unfoldable pub dequeue_in_progress_tasks_before_time :
      QueueId → ℕ → Option DeadLetterQueueConfig → M (Unit {0})
  dequeue_in_progress_tasks_before_time q now config = do
    state ← queue_state_get q
    items ← in_progress_index_range q state.last_visited_in_progress now
    s ←
        scan_leases q items
          (record { timed_out = []; visited = 0; cursor = state.last_visited_in_progress })
    queue_state_set q
        (record state { last_visited_in_progress = if leb s.visited 0 then now else s.cursor })
    for_each s.timed_out (λ task. handle_task_failure task now config)

  -- The callback of the second pass.
  unfoldable pub scan_queue :
      QueueId → ℕ → ℕ → Option DequeuingSettings → List (Item ℕ) → Scan → M Scan
  scan_queue q now limit settings [] s = pure s
  scan_queue q now limit settings (i ∷ is) s = elim (is_full limit settings s) [
    | true ↦ pure (record s { saw_any_candidate = true })
    | false ↦ (do
      task ← tasks_get (task_in q i.ref)
      scan_queue q now limit settings is
          (take_task now i.time task (record s { saw_any_candidate = true })))
  ]

  unfoldable pub drop_expired : QueueId → Task → M (Unit {0})
  drop_expired q task = do
    queue_index_delete q (item task.scheduled_at task.id.task_id)
    expiration_remove task.id task.expires_at
    tasks_delete task.id
    when (is_set task.dedupe_key) (dedupe_delete q task.dedupe_key)

  unfoldable pub lease_task : QueueId → ℕ → ℕ → Task → M Task
  lease_task q now keepalive task = do
    queue_index_delete q (item task.scheduled_at task.id.task_id)
    expiration_remove task.id task.expires_at
    let leased = record task {
      visible_at = after_seconds now keepalive;
      attempts = add32 task.attempts 1;
      state = TaskState.in_progress;
    }
    tasks_set leased
    in_progress_index_add q (item leased.visible_at task.id.task_id)
    pure leased

  unfoldable pub dequeue_tasks_before_time :
      QueueId → ℕ → ℕ → Option DequeuingSettings → ℕ → M (List Task)
  dequeue_tasks_before_time q now limit settings keepalive = do
    state ← queue_state_get q
    counters ← counters_get q
    items ← queue_index_range q state.last_visited_enqueued now
    s ← scan_queue q now limit settings items (record {
      dequeued = [];
      expired = [];
      counters = counters;
      visited = 0;
      cursor = state.last_visited_enqueued;
      saw_any_candidate = false;
    })
    queue_state_set q
        (record state { last_visited_enqueued = if s.saw_any_candidate then s.cursor else now })
    counters_set q (record (s.counters) {
      expired_tasks_count = add64 s.counters.expired_tasks_count (length s.expired);
    })
    for_each s.expired (drop_expired q)
    map_m (lease_task q now keepalive) s.dequeued

  -- `checkQueueNotPurged`.
  unfoldable pub check_queue_not_purged : QueueId → M (Option ApplicationError)
  check_queue_not_purged q = do
    purged ← purge_exists q
    pure (if purged then some (ApplicationError.queue_not_found q) else none)

  -- The limiter's part: the refilled bucket, where the settings ask for one.
  unfoldable pub refill_bucket :
      QueueId → Option TokenBucketRateLimiting → ℕ → M (Option RateLimiterState)
  refill_bucket q none now = pure none
  refill_bucket q (some r) now = do
    state ← rate_limiters_get q r now
    state' ← lift (refill r now state)
    pure (some state')

  abbrev pub cap_by_tokens : Option RateLimiterState → ℕ → ℕ
  cap_by_tokens none limit = limit
  cap_by_tokens (some s) limit = if slt s.tokens limit then s.tokens else limit

  unfoldable pub spend_tokens : QueueId → Option RateLimiterState → ℕ → M (Unit {0})
  spend_tokens q none count = pure tt
  spend_tokens q (some s) count = rate_limiters_set q (record s { tokens = sub64 s.tokens count })

  unfoldable pub dequeue_unpurged : DequeueRequest → ℕ → M (List Task)
  dequeue_unpurged req now = do
    bucket ← refill_bucket req.queue_id (rate_limiting_enabled req.dequeuing_settings) now
    let limit = cap_by_tokens bucket (sign_extend req.dequeue_limit)
    dequeue_in_progress_tasks_before_time req.queue_id now req.dead_letter_queue_config
    tasks ←
        dequeue_tasks_before_time req.queue_id now limit req.dequeuing_settings
          req.keepalive_timeout_in_seconds
    spend_tokens req.queue_id bucket (length tasks)
    pure tasks

  -- The answer to a purged queue, or what `m` does.
  unfoldable pub unless_purged : {A : Type 0} → QueueId → M A → M (Response A)
  unless_purged q m = do
    problem ← check_queue_not_purged q
    elim problem [ some e ↦ pure (refused e) | none ↦ (do a ← m; pure (answer a)) ]

  unfoldable pub dequeue : DequeueRequest → ℕ → Db → Result (Response (List Task)) × Db
  dequeue req now = transact (unless_purged req.queue_id (dequeue_unpurged req now))
