-- ===== src/Tasks/Restore.antt =====
-- `RestoreEntity` of each section of the snapshot: `taskRestorer` of pkg/tasks/core.go and
-- `restoreIndexes` of tasks.go, and the tables whose rows carry or are keyed by a queue id.
-- `owns` is `bounds.Owns(sharding.ByAccountAndQueue(...))`, the shard of the core.
pub mod Divergence
use moab.Base.{Bool, true, false, ◌&&◌, not, ◌==◌, if◌then◌else◌, is_set}
use moab.Tasks.Types.{
  QueueId, TaskState, Task, Thread, TasksCounter, QueueState, RateLimiterState, is_dead,
}
use moab.Tasks.Monad.{Stores, M, ◌>>=◌, ◌>>◌, pure, item, queue_of, when}
use moab.Tasks.Access.{
  tasks_set, dedupe_set, queue_index_add, in_progress_index_add, dead_tasks_index_add,
  expiration_add, threads_get, threads_set, thread_index_add, counters_set, queue_state_set,
  rate_limiters_set, purge_create,
}

module _ ⦃S : Stores⦄ (owns : QueueId → Bool) where
  unfoldable pub restore_state_index : TaskState → Task → Bool → M (Unit {0})
  restore_state_index TaskState.enqueued task is_head =
      when is_head (queue_index_add (queue_of task.id) (item task.scheduled_at task.id.task_id))
  restore_state_index TaskState.in_progress task is_head =
      in_progress_index_add (queue_of task.id) (item task.visible_at task.id.task_id)
  restore_state_index TaskState.dead task is_head =
      dead_tasks_index_add (queue_of task.id) (item task.last_failed_at task.id.task_id)
  restore_state_index TaskState.invalid task is_head = pure tt

  unfoldable pub restore_indexes : Task → Bool → M (Unit {0})
  restore_indexes task is_head = do
    tasks_set task
    when (is_set task.dedupe_key && not (is_dead task.state))
        (dedupe_set (queue_of task.id) task.dedupe_key task.id.task_id)
    restore_state_index task.state task is_head
    expiration_add task.id task.expires_at

  -- A threaded task is put back into its thread, and is its head if the thread says so.
  unfoldable pub restore_thread_place : Task → M Bool
  restore_thread_place task =
      if is_set task.thread_id
      then (do
        thread_index_add (queue_of task.id) task.thread_id (item task.scheduled_at task.id.task_id)
        thread ← threads_get (queue_of task.id) task.thread_id
        pure (thread.head_task_id.task_id == task.id.task_id))
      else pure true

  unfoldable pub restore_task : Task → M Bool
  restore_task task =
      if owns (queue_of task.id)
      then (do is_head ← restore_thread_place task; restore_indexes task is_head; pure true)
      else pure false

  unfoldable pub restore_thread : Thread → M Bool
  restore_thread thread =
      if owns (queue_of thread.head_task_id)
      then (do threads_set (queue_of thread.head_task_id) thread; pure true)
      else pure false

  unfoldable pub restore_counter : QueueId → TasksCounter → M Bool
  restore_counter q c = if owns q then (do counters_set q c; pure true) else pure false

  unfoldable pub restore_queue_state : QueueId → QueueState → M Bool
  restore_queue_state q s = if owns q then (do queue_state_set q s; pure true) else pure false

  unfoldable pub restore_rate_limiter : QueueId → RateLimiterState → M Bool
  restore_rate_limiter q s = if owns q then (do rate_limiters_set q s; pure true) else pure false

  unfoldable pub restore_purge_record : QueueId → M Bool
  restore_purge_record q = if owns q then (do purge_create q; pure true) else pure false
