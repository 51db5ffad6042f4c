-- ===== src/Tasks/Dequeue/Dangling.antt =====
-- A thread whose head the second pass of `Dequeue` has dropped as expired (pkg/tasks/core.go): its
-- row and its index still name the task that is gone.
use moab.Base.{
  ℕ, ◌≡◌, ◌≢◌, refl, ◌∙◌, ◌⊎◌, List, [], ◌∷◌, Option, none, some, ok, fail, not_found, arith, true,
  is_set, Bool-cases, Option-cases, inl, inr,
}
use moab.Honey.{Item}
use moab.Tasks.Types.{QueueId, Task, Thread}
use moab.Tasks.Monad.{Stores, Db, task_in, queue_of, thread_key, item}
use moab.Tasks.Access.{
  tasks_set, tasks_get, tasks_delete, dedupe_set, dedupe_delete, queue_index_delete,
  expiration_remove, threads_find, thread_index_add, thread_index_items,
}
use moab.Tasks.Threads.{read_earliest, reconcile_thread_head, attach_with, attach_task_to_thread}
use moab.Tasks.Lifecycle.{create_task}
use moab.Tasks.Dequeue.{drop_expired}

module _ ⦃S : Stores⦄ where
  drop_expired_gone :
      (q : QueueId) (task : Task) (db : Db) {after : Db}
      → drop_expired q task db ≡ ok (tt, after)
      → (S.tasks.get after.tasks task.id ≡ none) × (after.threads ≡ db.threads)
  unfolding drop_expired queue_index_delete expiration_remove tasks_delete dedupe_delete
  drop_expired_gone q task db e = ground (arith, S.tasks.get-erase_self db.tasks task.id)

  read_earliest_lem :
      (q : QueueId) (is : List (Item ℕ)) (db : Db)
      → (read_earliest q is db ≡ fail not_found)
        ⊎ ((t : Option Task) × (read_earliest q is db ≡ ok (t, db)))
  unfolding read_earliest tasks_get
  read_earliest_lem q [] db = inr (none, refl)
  read_earliest_lem q (i ∷ is) db = elim (Option-cases (S.tasks.get db.tasks (task_in q i.ref))) [
    | inl gone ↦ inl (rw gone)
    | inr (t, found) ↦ inr (some t, rw found)
  ]

  -- A thread whose head has no row cannot be reconciled.
  reconcile_fails :
      (q : QueueId) (thread : Thread) (db : Db)
      → S.tasks.get db.tasks thread.head_task_id ≡ none
      → reconcile_thread_head q thread db ≡ fail not_found
  unfolding reconcile_thread_head thread_index_items tasks_get
  reconcile_fails q thread db gone =
      elim (read_earliest_lem q
        (S.threaded_tasks_index.items db.threaded_tasks_index (thread_key q thread.thread_id)) db) [
          | inl e ↦ rw e
          | inr (t, e) ↦ rw (e, gone)
        ]

  attach_fails :
      (task : Task) (thread : Thread) (db : Db)
      → S.threads.get db.threads (thread_key (queue_of task.id) task.thread_id) ≡ some thread
      → S.tasks.get db.tasks thread.head_task_id ≡ none
      → attach_task_to_thread task db ≡ fail not_found
  unfolding attach_task_to_thread thread_index_add threads_find attach_with
  attach_fails task thread db row gone =
      rw (row, attach_with)
        (reconcile_fails (queue_of task.id) thread
          (record db {
            threaded_tasks_index =
                S.threaded_tasks_index.add db.threaded_tasks_index
                  (thread_key (queue_of task.id) task.thread_id)
                  (item task.scheduled_at task.id.task_id);
          })
          gone)

  -- If the row of a thread names a head, and that head has been dropped as expired, then
  -- creating another task in the thread fails because a row is missing.
  pub expired_head_blocks_thread :
      (head task : Task) (thread : Thread) (db after : Db)
      → S.threads.get db.threads (thread_key (queue_of task.id) task.thread_id) ≡ some thread
      → thread.head_task_id ≡ head.id
      → drop_expired (queue_of task.id) head db ≡ ok (tt, after)
      → is_set task.thread_id ≡ true
      → task.id ≢ head.id
      → create_task task after ≡ fail not_found
  unfolding create_task tasks_set dedupe_set
  expired_head_blocks_thread head task thread db after row points dropped threaded fresh =
      let (gone, kept) = drop_expired_gone (queue_of task.id) head db dropped in
      let tasks = S.tasks.set after.tasks task.id task in
      let row' : S.threads.get after.threads (thread_key (queue_of task.id) task.thread_id)
          ≡ some thread =
        rw kept row in
      let gone' : S.tasks.get tasks thread.head_task_id ≡ none =
        rw points (S.tasks.get-set_ne after.tasks task.id head.id task fresh ∙ gone) in
      let keys =
        S.dedupe_keys_index.set after.dedupe_keys_index
          (record { queue = queue_of task.id; text = task.dedupe_key }) task.id.task_id in
      elim (Bool-cases (is_set task.dedupe_key)) [
        | inl k ↦ rw (
          k,
          threaded,
          attach_fails task thread (record after { tasks = tasks; dedupe_keys_index = keys }) row'
              gone',
        )
        | inr k ↦
            rw (k, threaded, attach_fails task thread (record after { tasks = tasks }) row' gone')
      ]
