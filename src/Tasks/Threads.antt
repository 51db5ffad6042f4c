-- ===== src/Tasks/Threads.antt =====
-- "Thread head coordination" of pkg/tasks/core.go: only a thread's head is ever in the queue index.
pub mod Framing
pub mod Waiting
pub mod HandingOn
use moab.Base.{ℕ, List, [], ◌∷◌, Option, none, some, Fault, ◌==◌, if◌then◌else◌}
use moab.Honey.{Item}
use moab.Tasks.Types.{QueueId, Task, Thread, is_enqueued}
use moab.Tasks.Monad.{Stores, M, ◌>>=◌, ◌>>◌, pure, raise, item, task_in, queue_of}
use moab.Tasks.Access.{
  tasks_get, queue_index_add, queue_index_delete, threads_get, threads_find, threads_set,
  threads_delete, thread_index_add, thread_index_remove, thread_index_items,
}

module _ ⦃S : Stores⦄ where
  -- The listing stops at its first item, which is the earliest.
  unfoldable pub read_earliest : QueueId → List (Item ℕ) → M (Option Task)
  read_earliest q [] = pure none
  read_earliest q (i ∷ is) = do task ← tasks_get (task_in q i.ref); pure (some task)

  -- The head itself was rescheduled: its entry in the queue index moves, if it has one.
  unfoldable pub reposition_head : QueueId → Thread → Task → Task → M (Unit {0})
  reposition_head q thread earliest head =
      if is_enqueued head.state
      then (do
        queue_index_delete q (item thread.scheduled_at head.id.task_id)
        queue_index_add q (item earliest.scheduled_at head.id.task_id))
      else pure tt

  -- Another member is the earliest; it takes over unless the head is being processed.
  unfoldable pub replace_head : QueueId → Thread → Task → Task → M (Unit {0})
  replace_head q thread earliest head =
      if is_enqueued head.state
      then (do
        queue_index_delete q (item head.scheduled_at head.id.task_id)
        threads_set q
            (record thread { head_task_id = earliest.id; scheduled_at = earliest.scheduled_at })
        queue_index_add q (item earliest.scheduled_at earliest.id.task_id))
      else pure tt

  unfoldable pub reconcile_with : QueueId → Thread → Option Task → Task → M (Unit {0})
  reconcile_with q thread none head = raise Fault.nil_dereference
  reconcile_with q thread (some earliest) head =
      if earliest.id.task_id == head.id.task_id
      then (if thread.scheduled_at == earliest.scheduled_at then pure tt else (do
        reposition_head q thread earliest head
        threads_set q (record thread { scheduled_at = earliest.scheduled_at })))
      else replace_head q thread earliest head

  unfoldable pub reconcile_thread_head : QueueId → Thread → M (Unit {0})
  reconcile_thread_head q thread = do
    items ← thread_index_items q thread.thread_id
    earliest ← read_earliest q items
    head ← tasks_get thread.head_task_id
    reconcile_with q thread earliest head

  unfoldable pub promote_with : QueueId → Thread → Option Task → M (Unit {0})
  promote_with q thread none = threads_delete q thread.thread_id
  promote_with q thread (some next) = do
    threads_set q
        (record thread { visible_at = 0; head_task_id = next.id; scheduled_at = next.scheduled_at })
    queue_index_add q (item next.scheduled_at next.id.task_id)

  unfoldable pub promote_next_thread_head : QueueId → Thread → M (Unit {0})
  promote_next_thread_head q thread = do
    items ← thread_index_items q thread.thread_id
    next ← read_earliest q items
    promote_with q thread next

  unfoldable pub attach_with : Task → Option Thread → M (Unit {0})
  attach_with task none = do
    threads_set (queue_of task.id) (record {
      thread_id = task.thread_id;
      head_task_id = task.id;
      scheduled_at = task.scheduled_at;
      visible_at = 0;
    })
    queue_index_add (queue_of task.id) (item task.scheduled_at task.id.task_id)
  attach_with task (some thread) = reconcile_thread_head (queue_of task.id) thread

  unfoldable pub attach_task_to_thread : Task → M (Unit {0})
  attach_task_to_thread task = do
    thread_index_add (queue_of task.id) task.thread_id (item task.scheduled_at task.id.task_id)
    thread ← threads_find (queue_of task.id) task.thread_id
    attach_with task thread

  unfoldable pub detach_task_from_thread : Task → M (Unit {0})
  detach_task_from_thread task = do
    thread_index_remove (queue_of task.id) task.thread_id (item task.scheduled_at task.id.task_id)
    thread ← threads_get (queue_of task.id) task.thread_id
    if thread.head_task_id.task_id == task.id.task_id
        then promote_next_thread_head (queue_of task.id) thread
        else pure tt

  unfoldable pub reschedule_task_in_thread : Task → ℕ → M (Unit {0})
  reschedule_task_in_thread task old = do
    thread_index_remove (queue_of task.id) task.thread_id (item old task.id.task_id)
    thread_index_add (queue_of task.id) task.thread_id (item task.scheduled_at task.id.task_id)
    thread ← threads_get (queue_of task.id) task.thread_id
    reconcile_thread_head (queue_of task.id) thread
