-- ===== src/Tasks/Threads/Framing.antt =====
-- What the thread coordination of pkg/tasks/core.go leaves alone: it writes the thread rows, the
-- thread index and the queue index, and nothing else.
use moab.Base.{
  String, ◌≡◌, subst, ◌∙◌, List, [], ◌∷◌, Option, none, some, ok, arith, Bool-cases, inl, inr, ℕ,
  ◌==◌,
}
use moab.Honey.{Item}
use moab.Tasks.Types.{QueueId, Task, Thread}
use moab.Tasks.Monad.{Stores, Db, pure, >>=-eq-ok, queue_of}
use moab.Tasks.Access.{
  tasks_get, queue_index_add, queue_index_delete, threads_get, threads_find, threads_set,
  threads_delete, thread_index_add, thread_index_remove, thread_index_items,
}
use moab.Tasks.Threads.{
  read_earliest, reposition_head, replace_head, reconcile_with, reconcile_thread_head, promote_with,
  promote_next_thread_head, attach_with, attach_task_to_thread, detach_task_from_thread,
  reschedule_task_in_thread,
}

module _ ⦃S : Stores⦄ where
  pub record OnlyThreads (before after : Db) : Type 0 where
    pub tasks : after.tasks ≡ before.tasks
    pub dedupe_keys_index : after.dedupe_keys_index ≡ before.dedupe_keys_index
    pub in_progress_index : after.in_progress_index ≡ before.in_progress_index
    pub dead_tasks_index : after.dead_tasks_index ≡ before.dead_tasks_index
    pub expiration : after.expiration ≡ before.expiration
    pub counters : after.counters ≡ before.counters
    pub queue_state : after.queue_state ≡ before.queue_state
    pub rate_limiters : after.rate_limiters ≡ before.rate_limiters
    pub purge_gc_records : after.purge_gc_records ≡ before.purge_gc_records

  pub OnlyThreads-refl : (db : Db) → OnlyThreads db db
  OnlyThreads-refl db = ground arith

  pub OnlyThreads-trans : (a b c : Db) → OnlyThreads a b → OnlyThreads b c → OnlyThreads a c
  OnlyThreads-trans a b c h k = ground arith

  -- Reading writes nothing.
  pub read_earliest_same :
      (q : QueueId) (is : List (Item ℕ)) (db : Db) {t : Option Task} {after : Db}
      → read_earliest q is db ≡ ok (t, after)
      → after ≡ db
  unfolding read_earliest tasks_get
  read_earliest_same q [] db e = ground arith
  read_earliest_same q (i ∷ is) db e = ground arith

  threads_get_same :
      (q : QueueId) (t : String) (db : Db) {thread : Thread} {after : Db}
      → threads_get q t db ≡ ok (thread, after)
      → after ≡ db
  unfolding threads_get
  threads_get_same q t db e = ground arith

  pure_same : (db : Db) {after : Db} → pure tt db ≡ ok (tt, after) → OnlyThreads db after
  pure_same db e = ground arith

  reconcile_with-OnlyThreads :
      (q : QueueId) (thread : Thread) (earliest : Option Task) (head : Task) (db : Db) {after : Db}
      → reconcile_with q thread earliest head db ≡ ok (tt, after)
      → OnlyThreads db after
  unfolding reconcile_with reposition_head replace_head queue_index_add queue_index_delete
      threads_set
  reconcile_with-OnlyThreads q thread none head db e = ground arith
  reconcile_with-OnlyThreads q thread (some earliest) head db e = ground arith

  reconcile_thread_head-OnlyThreads :
      (q : QueueId) (thread : Thread) (db : Db) {after : Db}
      → reconcile_thread_head q thread db ≡ ok (tt, after)
      → OnlyThreads db after
  unfolding reconcile_thread_head thread_index_items tasks_get
  reconcile_thread_head-OnlyThreads q thread db {after} e =
      let (earliest, mid, one, rest) = >>=-eq-ok (read_earliest q _) _ db e in
      let (head, last, two, end) =
        >>=-eq-ok (tasks_get thread.head_task_id) (reconcile_with q thread earliest) mid rest in
      let read : mid ≡ db = read_earliest_same q _ db one in
      let found : last ≡ mid = ground (arith, two) in
      subst (λ x. OnlyThreads x after) (found ∙ read)
        (reconcile_with-OnlyThreads q thread earliest head last end)

  promote_with-OnlyThreads :
      (q : QueueId) (thread : Thread) (next : Option Task) (db : Db) {after : Db}
      → promote_with q thread next db ≡ ok (tt, after)
      → OnlyThreads db after
  unfolding promote_with threads_delete threads_set queue_index_add
  promote_with-OnlyThreads q thread none db e = ground arith
  promote_with-OnlyThreads q thread (some next) db e = ground arith

  promote_next_thread_head-OnlyThreads :
      (q : QueueId) (thread : Thread) (db : Db) {after : Db}
      → promote_next_thread_head q thread db ≡ ok (tt, after)
      → OnlyThreads db after
  unfolding promote_next_thread_head thread_index_items
  promote_next_thread_head-OnlyThreads q thread db {after} e =
      let (next, mid, one, rest) = >>=-eq-ok (read_earliest q _) (promote_with q thread) db e in
      subst (λ x. OnlyThreads x after) (read_earliest_same q _ db one)
        (promote_with-OnlyThreads q thread next mid rest)

  attach_with-OnlyThreads :
      (task : Task) (thread : Option Thread) (db : Db) {after : Db}
      → attach_with task thread db ≡ ok (tt, after)
      → OnlyThreads db after
  unfolding attach_with threads_set queue_index_add
  attach_with-OnlyThreads task none db e = ground arith
  attach_with-OnlyThreads task (some thread) db e =
      reconcile_thread_head-OnlyThreads (queue_of task.id) thread db e

  pub attach_task_to_thread-OnlyThreads :
      (task : Task) (db : Db) {after : Db}
      → attach_task_to_thread task db ≡ ok (tt, after)
      → OnlyThreads db after
  unfolding attach_task_to_thread thread_index_add threads_find
  attach_task_to_thread-OnlyThreads task db {after} e =
      OnlyThreads-trans db _ after (ground arith) (attach_with-OnlyThreads task _ _ e)

  pub detach_task_from_thread-OnlyThreads :
      (task : Task) (db : Db) {after : Db}
      → detach_task_from_thread task db ≡ ok (tt, after)
      → OnlyThreads db after
  unfolding detach_task_from_thread thread_index_remove
  detach_task_from_thread-OnlyThreads task db {after} e =
      let (thread, mid, one, rest) =
        >>=-eq-ok (threads_get (queue_of task.id) task.thread_id) _ _ e in
      let read : mid ≡ _ = threads_get_same (queue_of task.id) task.thread_id _ one in
      let kept : OnlyThreads mid after =
        elim (Bool-cases (thread.head_task_id.task_id == task.id.task_id)) [
          | inl head ↦
              promote_next_thread_head-OnlyThreads (queue_of task.id) thread mid (rw head at rest)
          | inr other ↦ pure_same mid (rw other at rest)
        ] in
      OnlyThreads-trans db mid after (ground (arith, read)) kept

  pub reschedule_task_in_thread-OnlyThreads :
      (task : Task) (old : ℕ) (db : Db) {after : Db}
      → reschedule_task_in_thread task old db ≡ ok (tt, after)
      → OnlyThreads db after
  unfolding reschedule_task_in_thread thread_index_remove thread_index_add
  reschedule_task_in_thread-OnlyThreads task old db {after} e =
      let (thread, mid, one, rest) =
        >>=-eq-ok (threads_get (queue_of task.id) task.thread_id)
          (reconcile_thread_head (queue_of task.id)) _ e in
      OnlyThreads-trans db mid after
        (ground (arith, threads_get_same (queue_of task.id) task.thread_id _ one))
        (reconcile_thread_head-OnlyThreads (queue_of task.id) thread mid rest)
