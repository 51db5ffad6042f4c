-- ===== src/Tasks/Lifecycle.antt =====
-- The transitions of one task, of pkg/tasks/core.go: creation, deletion, the heartbeat and what
-- follows a failure, each with every index and counter that it touches.
pub mod Creating
pub mod Deleting
pub mod Retrying
use moab.Base.{
  ℕ, Bool, true, false, List, [], ◌∷◌, ◌++◌, Option, none, some, Fault, ◌==◌, if◌then◌else◌, is_set,
  length, get_elem?,
}
use moab.Base.Word.{add64, sub64, mul64, sub32, slt, sle, slt32, second}
use moab.Honey.{Item}
use moab.Tasks.Types.{QueueId, TaskState, Task, TasksCounter, DeadLetterQueueConfig}
use moab.Tasks.Monad.{Stores, M, ◌>>=◌, ◌>>◌, pure, raise, item, task_in, queue_of, for_each, when}
use moab.Tasks.Access.{
  tasks_get, tasks_set, tasks_delete, dedupe_set, dedupe_delete, queue_index_add,
  queue_index_delete, in_progress_index_add, in_progress_index_delete, dead_tasks_index_add,
  dead_tasks_index_delete, dead_tasks_items, expiration_add, expiration_remove, threads_get,
  threads_set, counters_get, counters_set,
}
use moab.Tasks.Threads.{attach_task_to_thread, detach_task_from_thread, reschedule_task_in_thread}

-- `now + s*int64(time.Second)`.
abbrev pub after_seconds : ℕ → ℕ → ℕ
after_seconds now s = add64 now (mul64 s second)

pub data DeletionReason : Type 0 where
  no_reason succeeded expired : DeletionReason

-- The counters' adjustments. A count is an int64 and wraps.
abbrev pub count_reason : DeletionReason → TasksCounter → TasksCounter
count_reason DeletionReason.no_reason c = c
count_reason DeletionReason.succeeded c = record c {
  processed_tasks_count = add64 c.processed_tasks_count 1;
}
count_reason DeletionReason.expired c = record c {
  expired_tasks_count = add64 c.expired_tasks_count 1;
}

module _ ⦃S : Stores⦄ where
  unfoldable pub create_task : Task → M (Unit {0})
  create_task task = do
    tasks_set task
    when (is_set task.dedupe_key) (dedupe_set (queue_of task.id) task.dedupe_key task.id.task_id)
    if is_set task.thread_id
        then attach_task_to_thread task
        else queue_index_add (queue_of task.id) (item task.scheduled_at task.id.task_id)
    expiration_add task.id task.expires_at
    counters ← counters_get (queue_of task.id)
    counters_set (queue_of task.id)
        (record counters { enqueued_tasks_count = add64 counters.enqueued_tasks_count 1 })

  -- What an active task gives up: its dedupe key and its place in its thread.
  unfoldable pub release_task : Task → M (Unit {0})
  release_task task = do
    when (is_set task.dedupe_key) (dedupe_delete (queue_of task.id) task.dedupe_key)
    when (is_set task.thread_id) (detach_task_from_thread task)

  -- The switch of `deleteTask`: the indexes of the task's state, and its gauge.
  unfoldable pub unindex_task : TaskState → Task → TasksCounter → M TasksCounter
  unindex_task TaskState.enqueued task c = do
    queue_index_delete (queue_of task.id) (item task.scheduled_at task.id.task_id)
    release_task task
    pure (record c { enqueued_tasks_count = sub64 c.enqueued_tasks_count 1 })
  unindex_task TaskState.dead task c = do
    dead_tasks_index_delete (queue_of task.id) (item task.last_failed_at task.id.task_id)
    pure (record c { dead_tasks_count = sub64 c.dead_tasks_count 1 })
  unindex_task TaskState.in_progress task c = do
    in_progress_index_delete (queue_of task.id) (item task.visible_at task.id.task_id)
    release_task task
    pure (record c { in_progress_tasks_count = sub64 c.in_progress_tasks_count 1 })
  unindex_task TaskState.invalid task c = pure c

  unfoldable pub delete_task : Task → DeletionReason → M (Unit {0})
  delete_task task reason = do
    before ← counters_get (queue_of task.id)
    counters ← unindex_task task.state task (count_reason reason before)
    expiration_remove task.id task.expires_at
    tasks_delete task.id
    counters_set (queue_of task.id) counters

  unfoldable pub heartbeat_task : Task → ℕ → ℕ → M (Unit {0})
  heartbeat_task task now keepalive = do
    let lease = record task { visible_at = after_seconds now keepalive }
    in_progress_index_delete (queue_of task.id) (item task.visible_at task.id.task_id)
    tasks_set lease
    when (is_set task.thread_id) (do
      thread ← threads_get (queue_of task.id) task.thread_id
      if thread.head_task_id.task_id == task.id.task_id
          then threads_set (queue_of task.id) (record thread { visible_at = lease.visible_at })
          else raise Fault.not_head)
    in_progress_index_add (queue_of task.id) (item lease.visible_at task.id.task_id)

  -- The oldest dead tasks, `overflow` of them.
  unfoldable pub read_oldest : QueueId → List (Item ℕ) → ℕ → List Task → M (List Task)
  read_oldest q [] overflow oldest = pure oldest
  read_oldest q (i ∷ is) overflow oldest = do
    task ← tasks_get (task_in q i.ref)
    let all = oldest ++ task ∷ []
    elim (slt (length all) overflow) [ true ↦ read_oldest q is overflow all | false ↦ pure all ]

  unfoldable pub evict_excess_dead_tasks : QueueId → ℕ → ℕ → M (Unit {0})
  evict_excess_dead_tasks q max_size dead_tasks_count =
      let overflow = sub64 dead_tasks_count max_size in
      if sle max_size 0 then pure tt else if sle overflow 0 then pure tt else (do
        items ← dead_tasks_items q
        oldest ← read_oldest q items overflow []
        for_each oldest (λ task. delete_task task DeletionReason.no_reason))

  unfoldable pub bury_task : Task → ℕ → DeadLetterQueueConfig → M (Unit {0})
  bury_task task now config = do
    let corpse = record task {
      state = TaskState.dead;
      last_failed_at = now;
      expires_at = after_seconds now config.retention_period_in_seconds;
    }
    in_progress_index_delete (queue_of task.id) (item task.visible_at task.id.task_id)
    tasks_set corpse
    expiration_add task.id corpse.expires_at
    release_task corpse
    dead_tasks_index_add (queue_of task.id) (item now task.id.task_id)
    before ← counters_get (queue_of task.id)
    let counters = record before {
      in_progress_tasks_count = sub64 before.in_progress_tasks_count 1;
      dead_tasks_count = add64 before.dead_tasks_count 1;
    }
    counters_set (queue_of task.id) counters
    evict_excess_dead_tasks (queue_of task.id) config.max_size counters.dead_tasks_count

  unfoldable pub fail_task_to_dead : Task → ℕ → Option DeadLetterQueueConfig → M (Unit {0})
  fail_task_to_dead task now none = delete_task task DeletionReason.no_reason
  fail_task_to_dead task now (some config) =
      if config.enable then bury_task task now config else delete_task task DeletionReason.no_reason

  -- `task.RetryStrategy.RetryIntervalsInSeconds[task.Attempts-1]`.
  unfoldable pub backoff : Task → M ℕ
  backoff task = elim task.retry_strategy [
    | none ↦ raise Fault.nil_dereference
    | some s ↦ elim (get_elem? s.retry_intervals_in_seconds (sub32 task.attempts 1)) [
      | none ↦ raise Fault.index_out_of_range
      | some interval ↦ pure interval
    ]
  ]

  unfoldable pub fail_task_to_retry : Task → ℕ → M (Unit {0})
  fail_task_to_retry task now = do
    in_progress_index_delete (queue_of task.id) (item task.visible_at task.id.task_id)
    interval ← backoff task
    let retried = record task {
      state = TaskState.enqueued;
      scheduled_at = after_seconds now interval;
      last_failed_at = now;
      visible_at = 0;
    }
    tasks_set retried
    expiration_add task.id task.expires_at
    if is_set task.thread_id
        then (do
          reschedule_task_in_thread retried task.scheduled_at
          thread ← threads_get (queue_of task.id) task.thread_id
          threads_set (queue_of task.id) (record thread { visible_at = 0 }))
        else queue_index_add (queue_of task.id) (item retried.scheduled_at task.id.task_id)
    counters ← counters_get (queue_of task.id)
    counters_set (queue_of task.id) (record counters {
      in_progress_tasks_count = sub64 counters.in_progress_tasks_count 1;
      enqueued_tasks_count = add64 counters.enqueued_tasks_count 1;
    })

  -- `task.RetryStrategy == nil || task.Attempts > int32(len(...))`.
  unfoldable pub is_exhausted : Task → Bool
  is_exhausted task = elim task.retry_strategy [
    | none ↦ true
    | some s ↦ slt32 (length s.retry_intervals_in_seconds) task.attempts
  ]

  unfoldable pub handle_task_failure : Task → ℕ → Option DeadLetterQueueConfig → M (Unit {0})
  handle_task_failure task now config =
      if slt task.expires_at now
      then delete_task task DeletionReason.expired
      else if is_exhausted task
      then fail_task_to_dead task now config
      else fail_task_to_retry task now
