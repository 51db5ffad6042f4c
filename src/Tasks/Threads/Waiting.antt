-- ===== src/Tasks/Threads/Waiting.antt =====
-- The members of a thread wait while its head is out (pkg/tasks/core.go).
use moab.Base.{
  ℕ, ◌≡◌, inl, inr, refl, sym, subst, Option, none, some, ok, arith, false, Bool-cases, ◌==◌,
}
use moab.Tasks.Types.{QueueId, Task, Thread, is_enqueued}
use moab.Tasks.Monad.{Stores, Db, >>=-eq-ok, queue_of, thread_key, item}
use moab.Tasks.Access.{
  tasks_get, threads_get, threads_find, threads_set, thread_index_add, thread_index_remove,
  thread_index_items,
}
use moab.Tasks.Threads.{
  read_earliest, reposition_head, replace_head, reconcile_with, reconcile_thread_head, attach_with,
  attach_task_to_thread, reschedule_task_in_thread,
}
use moab.Tasks.Threads.Framing.{read_earliest_same}

module _ ⦃S : Stores⦄ where
  -- From `before` to `after`, the thread keeps its head, and nothing enters or leaves the queue.
  pub record IsBlocked (q : QueueId) (thread : Thread) (before after : Db) : Type 0 where
    pub queue_kept : after.queue_index ≡ before.queue_index
    pub row : Thread
    pub stored : S.threads.get after.threads (thread_key q thread.thread_id) ≡ some row
    pub head_kept : row.head_task_id ≡ thread.head_task_id

  reconcile_with-IsBlocked :
      (q : QueueId) (thread : Thread) (earliest : Option Task) (head : Task) (db after : Db)
      → S.threads.get db.threads (thread_key q thread.thread_id) ≡ some thread
      → is_enqueued head.state ≡ false
      → reconcile_with q thread earliest head db ≡ ok (tt, after)
      → IsBlocked q thread db after
  unfolding reconcile_with reposition_head replace_head threads_set
  reconcile_with-IsBlocked q thread none head db after row out e = absurd (ground (arith, e))
  reconcile_with-IsBlocked q thread (some earliest) head db after row out e =
      elim (Bool-cases (earliest.id.task_id == head.id.task_id)) [
        | inr other ↦
            let same : db ≡ after = ground (arith, other, out, e) in
            subst (IsBlocked q thread db) same
              (record { queue_kept = refl; row = thread; stored = row; head_kept = refl })
        | inl first ↦ elim (Bool-cases (thread.scheduled_at == earliest.scheduled_at)) [
          | inl settled ↦
              let same : db ≡ after = ground (arith, first, settled, e) in
              subst (IsBlocked q thread db) same
                (record { queue_kept = refl; row = thread; stored = row; head_kept = refl })
          | inr moved ↦
              let row' : Thread = record thread { scheduled_at = earliest.scheduled_at } in
              let last : Db = record db {
                threads = S.threads.set db.threads (thread_key q thread.thread_id) row';
              } in
              let same : last ≡ after = ground (arith, first, moved, out, e) in
              subst (IsBlocked q thread db) same (record {
                queue_kept = refl;
                row = row';
                stored = S.threads.get-set_self db.threads (thread_key q thread.thread_id) row';
                head_kept = refl;
              })
        ]
      ]

  reconcile_thread_head-IsBlocked :
      (q : QueueId) (thread : Thread) (head : Task) (db after : Db)
      → S.threads.get db.threads (thread_key q thread.thread_id) ≡ some thread
      → S.tasks.get db.tasks thread.head_task_id ≡ some head
      → is_enqueued head.state ≡ false
      → reconcile_thread_head q thread db ≡ ok (tt, after)
      → IsBlocked q thread db after
  unfolding reconcile_thread_head thread_index_items tasks_get
  reconcile_thread_head-IsBlocked q thread head db after row found out e =
      let (earliest, mid, one, rest) = >>=-eq-ok (read_earliest q _) _ db e in
      let same : mid ≡ db = read_earliest_same q _ db one in
      let rest' : reconcile_with q thread earliest head db ≡ ok (tt, after) =
        ground (arith, same, found, rest) in
      reconcile_with-IsBlocked q thread earliest head db after row out rest'

  -- The thread's index is written first, which nothing here reads but the listing.
  abbrev indexed : Db → S.threaded_tasks_index.Entries → Db
  indexed db is = record db { threaded_tasks_index = is }

  indexed-IsBlocked :
      (q : QueueId) (thread : Thread) (head : Task) (db after : Db)
      (is : S.threaded_tasks_index.Entries)
      → S.threads.get db.threads (thread_key q thread.thread_id) ≡ some thread
      → S.tasks.get db.tasks thread.head_task_id ≡ some head
      → is_enqueued head.state ≡ false
      → reconcile_thread_head q thread (indexed db is) ≡ ok (tt, after)
      → IsBlocked q thread db after
  indexed-IsBlocked q thread head db after is row found out e =
      let blocked =
        reconcile_thread_head-IsBlocked q thread head (indexed db is) after row found out e in
      record {
        queue_kept = blocked.queue_kept;
        row = blocked.row;
        stored = blocked.stored;
        head_kept = blocked.head_kept;
      }

  -- If the row of the thread of a task names a head that is stored and not enqueued, then
  -- attaching the task, where it succeeds, leaves the queue index as it is, and leaves the
  -- thread a row that names the same head.
  pub attach_task_to_thread-IsBlocked :
      (task : Task) (thread : Thread) (head : Task) (db after : Db)
      → thread.thread_id ≡ task.thread_id
      → S.threads.get db.threads (thread_key (queue_of task.id) task.thread_id) ≡ some thread
      → S.tasks.get db.tasks thread.head_task_id ≡ some head
      → is_enqueued head.state ≡ false
      → attach_task_to_thread task db ≡ ok (tt, after)
      → IsBlocked (queue_of task.id) thread db after
  unfolding attach_task_to_thread thread_index_add threads_find attach_with
  attach_task_to_thread-IsBlocked task thread head db after name row found out e =
      indexed-IsBlocked (queue_of task.id) thread head db after
        (S.threaded_tasks_index.add db.threaded_tasks_index
          (thread_key (queue_of task.id) task.thread_id) (item task.scheduled_at task.id.task_id))
        (subst (λ t. S.threads.get db.threads (thread_key (queue_of task.id) t) ≡ some thread)
          (sym name) row)
        found out (ground (arith, row, e))

  -- If the row of the thread of a task names a head that is stored and not enqueued, then
  -- rescheduling the task, where it succeeds, leaves the queue index as it is, and leaves the
  -- thread a row that names the same head.
  pub reschedule_task_in_thread-IsBlocked :
      (task : Task) (old : ℕ) (thread : Thread) (head : Task) (db after : Db)
      → thread.thread_id ≡ task.thread_id
      → S.threads.get db.threads (thread_key (queue_of task.id) task.thread_id) ≡ some thread
      → S.tasks.get db.tasks thread.head_task_id ≡ some head
      → is_enqueued head.state ≡ false
      → reschedule_task_in_thread task old db ≡ ok (tt, after)
      → IsBlocked (queue_of task.id) thread db after
  unfolding reschedule_task_in_thread thread_index_add thread_index_remove threads_get
  reschedule_task_in_thread-IsBlocked task old thread head db after name row found out e =
      indexed-IsBlocked (queue_of task.id) thread head db after
        (S.threaded_tasks_index.add
          (S.threaded_tasks_index.remove db.threaded_tasks_index
            (thread_key (queue_of task.id) task.thread_id) (item old task.id.task_id))
          (thread_key (queue_of task.id) task.thread_id) (item task.scheduled_at task.id.task_id))
        (subst (λ t. S.threads.get db.threads (thread_key (queue_of task.id) t) ≡ some thread)
          (sym name) row)
        found out (ground (arith, row, e))
