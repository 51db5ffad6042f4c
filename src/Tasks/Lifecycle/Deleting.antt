-- ===== src/Tasks/Lifecycle/Deleting.antt =====
-- What `deleteTask` of pkg/tasks/core.go takes away, in each state of the task.
use moab.Base.{
  ◌≡◌, ◌≢◌, ◌⊎◌, subst, Bool, none, ok, arith, Bool-cases, inl, inr, true, false, is_set,
  if◌then◌else◌,
}
use moab.Base.Word.{add64, sub64}
use moab.Tasks.Types.{TaskId, TaskState, Task, TasksCounter, is_enqueued, is_in_progress, is_dead}
use moab.Tasks.Monad.{Stores, Db, when, >>=-eq-ok, queue_of, item}
use moab.Tasks.Access.{
  tasks_delete, dedupe_delete, queue_index_delete, in_progress_index_delete,
  dead_tasks_index_delete, expiration_remove, counters_get, counters_set, counters_of,
}
use moab.Tasks.Threads.{detach_task_from_thread}
use moab.Tasks.Threads.Framing.{OnlyThreads, OnlyThreads-refl, detach_task_from_thread-OnlyThreads}
use moab.Tasks.Lifecycle.{DeletionReason, count_reason, release_task, unindex_task, delete_task}

abbrev pub is_succeeded : DeletionReason → Bool
is_succeeded DeletionReason.succeeded = true
is_succeeded _ = false

abbrev pub is_expired : DeletionReason → Bool
is_expired DeletionReason.expired = true
is_expired _ = false

-- How the counts of a queue move when a task in `state` is deleted for `reason`.
pub record Leaves (state : TaskState) (reason : DeletionReason) (c c' : TasksCounter) : Type 0 where
  pub enqueued :
      c'.enqueued_tasks_count
      ≡ (if is_enqueued state then sub64 c.enqueued_tasks_count 1 else c.enqueued_tasks_count)
  pub in_progress : c'.in_progress_tasks_count ≡ (
      if is_in_progress state then sub64 c.in_progress_tasks_count 1 else c.in_progress_tasks_count)
  pub dead :
      c'.dead_tasks_count
      ≡ (if is_dead state then sub64 c.dead_tasks_count 1 else c.dead_tasks_count)
  pub processed :
      c'.processed_tasks_count
      ≡ (if is_succeeded reason then add64 c.processed_tasks_count 1 else c.processed_tasks_count)
  pub expired :
      c'.expired_tasks_count
      ≡ (if is_expired reason then add64 c.expired_tasks_count 1 else c.expired_tasks_count)

module _ ⦃S : Stores⦄ where
  -- What the switch of `deleteTask` does, before the row goes.
  pub record IsUnindexed (state : TaskState) (task : Task) (before after : Db) : Type 0 where
    pub tasks : after.tasks ≡ before.tasks
    pub expiration : after.expiration ≡ before.expiration
    pub counters : after.counters ≡ before.counters
    pub queue_state : after.queue_state ≡ before.queue_state
    pub unkeyed :
        (is_enqueued state ≡ true) ⊎ (is_in_progress state ≡ true)
        → is_set task.dedupe_key ≡ true
        → S.dedupe_keys_index.get after.dedupe_keys_index
            (record { queue = queue_of task.id; text = task.dedupe_key })
          ≡ none
    pub idle :
        is_in_progress state ≡ true
        → S.in_progress_index.has after.in_progress_index
            (queue_of task.id)
            (item task.visible_at task.id.task_id)
          ≡ false
    pub undead :
        is_dead state ≡ true
        → S.dead_tasks_index.has after.dead_tasks_index
            (queue_of task.id)
            (item task.last_failed_at task.id.task_id)
          ≡ false

  record IsReleased (task : Task) (before after : Db) : Type 0 where
    pub tasks : after.tasks ≡ before.tasks
    pub expiration : after.expiration ≡ before.expiration
    pub counters : after.counters ≡ before.counters
    pub queue_state : after.queue_state ≡ before.queue_state
    pub in_progress_index : after.in_progress_index ≡ before.in_progress_index
    pub dead_tasks_index : after.dead_tasks_index ≡ before.dead_tasks_index
    pub unkeyed :
        is_set task.dedupe_key ≡ true
        → S.dedupe_keys_index.get after.dedupe_keys_index
            (record { queue = queue_of task.id; text = task.dedupe_key })
          ≡ none

  detach_lem :
      (task : Task) (db : Db) {after : Db}
      → when (is_set task.thread_id) (detach_task_from_thread task) db ≡ ok (tt, after)
      → OnlyThreads db after
  detach_lem task db {after} e = elim (Bool-cases (is_set task.thread_id)) [
    | inl threaded ↦ detach_task_from_thread-OnlyThreads task db (rw threaded at e)
    | inr free ↦
        let same = rw free at e in
        subst (OnlyThreads db) (ground (arith, same)) (OnlyThreads-refl db)
  ]

  release_task-IsReleased :
      (task : Task) (db : Db) {after : Db}
      → release_task task db ≡ ok (tt, after)
      → IsReleased task db after
  unfolding release_task dedupe_delete
  release_task-IsReleased task db {after} e =
      let (_, mid, one, rest) =
        >>=-eq-ok (when (is_set task.dedupe_key) (dedupe_delete (queue_of task.id) task.dedupe_key))
          _ db e in
      let frame = detach_lem task mid rest in
      elim (Bool-cases (is_set task.dedupe_key)) [
        | inl k ↦
            let one' = rw k at one in
            let gone =
              S.dedupe_keys_index.get-erase_self db.dedupe_keys_index
                (record { queue = queue_of task.id; text = task.dedupe_key }) in
            ground (arith, frame, one', gone)
        | inr k ↦ let one' = rw k at one in ground (arith, frame, one')
      ]

  unindex_task-IsUnindexed :
      (state : TaskState) (task : Task) (c : TasksCounter) (db : Db) {c' : TasksCounter}
      {after : Db}
      → unindex_task state task c db ≡ ok (c', after)
      → IsUnindexed state task db after
  unfolding unindex_task queue_index_delete in_progress_index_delete dead_tasks_index_delete
  unindex_task-IsUnindexed TaskState.enqueued task c db {c'} {after} e =
      let (_, mid, one, rest) = >>=-eq-ok (release_task task) _ _ e in
      let released = release_task-IsReleased task _ one in ground (arith, released, rest)
  unindex_task-IsUnindexed TaskState.in_progress task c db {c'} {after} e =
      let (_, mid, one, rest) = >>=-eq-ok (release_task task) _ _ e in
      let released = release_task-IsReleased task _ one in
      ground (
        arith,
        released,
        rest,
        S.in_progress_index.has-remove_self db.in_progress_index (queue_of task.id)
            (item task.visible_at task.id.task_id),
      )
  unindex_task-IsUnindexed TaskState.dead task c db e = ground (
    arith,
    e,
    S.dead_tasks_index.has-remove_self db.dead_tasks_index (queue_of task.id)
        (item task.last_failed_at task.id.task_id),
  )
  unindex_task-IsUnindexed TaskState.invalid task c db e = ground (arith, e)

  unindex_task-Leaves :
      (state : TaskState) (cause : DeletionReason) (task : Task) (c : TasksCounter) (db : Db)
      {c' : TasksCounter} {after : Db}
      → unindex_task state task (count_reason cause c) db ≡ ok (c', after)
      → Leaves state cause c c'
  unfolding unindex_task queue_index_delete in_progress_index_delete dead_tasks_index_delete
  unindex_task-Leaves TaskState.enqueued cause task c db e =
      let (_, _, _, rest) = >>=-eq-ok (release_task task) _ _ e in ground (arith, rest)
  unindex_task-Leaves TaskState.in_progress cause task c db e =
      let (_, _, _, rest) = >>=-eq-ok (release_task task) _ _ e in ground (arith, rest)
  unindex_task-Leaves TaskState.dead cause task c db e = ground (arith, e)
  unindex_task-Leaves TaskState.invalid cause task c db e = ground (arith, e)

  pub record IsDeleted (task : Task) (reason : DeletionReason) (before after : Db) : Type 0 where
    pub gone : S.tasks.get after.tasks task.id ≡ none
    pub others :
        (id : TaskId) → task.id ≢ id → S.tasks.get after.tasks id ≡ S.tasks.get before.tasks id
    pub unexpiring : S.expiration.has after.expiration tt (item task.expires_at task.id) ≡ false
    pub unkeyed :
        (is_enqueued task.state ≡ true) ⊎ (is_in_progress task.state ≡ true)
        → is_set task.dedupe_key ≡ true
        → S.dedupe_keys_index.get after.dedupe_keys_index
            (record { queue = queue_of task.id; text = task.dedupe_key })
          ≡ none
    pub idle :
        is_in_progress task.state ≡ true
        → S.in_progress_index.has after.in_progress_index
            (queue_of task.id)
            (item task.visible_at task.id.task_id)
          ≡ false
    pub undead :
        is_dead task.state ≡ true
        → S.dead_tasks_index.has after.dead_tasks_index
            (queue_of task.id)
            (item task.last_failed_at task.id.task_id)
          ≡ false
    pub counted :
        Leaves task.state reason
          (counters_of before (queue_of task.id))
          (counters_of after (queue_of task.id))

  delete_row :
      (id : TaskId) (db : Db) {after : Db}
      → tasks_delete id db ≡ ok (tt, after)
      → after ≡ record db { tasks = S.tasks.erase db.tasks id }
  unfolding tasks_delete
  delete_row id db e = ground arith

  pub delete_task-IsDeleted :
      (task : Task) (cause : DeletionReason) (db : Db) {after : Db}
      → delete_task task cause db ≡ ok (tt, after)
      → IsDeleted task cause db after
  unfolding delete_task counters_get expiration_remove counters_set
  delete_task-IsDeleted task cause db {after} e =
      let before = counters_of db (queue_of task.id) in
      let (c, mid, one, e1) =
        >>=-eq-ok (unindex_task task.state task (count_reason cause before)) _ db e in
      let (_, row, two, e2) = >>=-eq-ok (tasks_delete task.id) _ _ e1 in
      let frame = unindex_task-IsUnindexed task.state task (count_reason cause before) db one in
      let last : Db = record mid {
        expiration = S.expiration.remove mid.expiration tt (item task.expires_at task.id);
        tasks = S.tasks.erase mid.tasks task.id;
        counters = S.counters.set mid.counters (queue_of task.id) c;
      } in
      let done : last ≡ after = ground (arith, delete_row task.id _ two, e2) in
      subst (IsDeleted task cause db) done (record {
        gone = S.tasks.get-erase_self mid.tasks task.id;
        others = λ id ne. rw frame.tasks (S.tasks.get-erase_ne db.tasks task.id id ne);
        unexpiring = S.expiration.has-remove_self mid.expiration tt (item task.expires_at task.id);
        unkeyed = frame.unkeyed;
        idle = frame.idle;
        undead = frame.undead;
        counted =
            rw S.counters.get-set_self (unindex_task-Leaves task.state cause task before db one);
      })
