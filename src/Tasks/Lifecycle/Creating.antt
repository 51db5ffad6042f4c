-- ===== src/Tasks/Lifecycle/Creating.antt =====
-- What `createTask` of pkg/tasks/core.go leaves behind.
use moab.Base.{
  ◌≡◌, ◌≢◌, ap, subst, ◌∙◌, some, ok, arith, Bool-cases, inl, inr, true, false, is_set,
  if◌then◌else◌,
}
use moab.Base.Word.{add64}
use moab.Tasks.Types.{TaskId, Task}
use moab.Tasks.Monad.{Stores, Db, M, when, >>=-eq-ok, queue_of, item}
use moab.Tasks.Access.{
  tasks_set, dedupe_set, queue_index_add, expiration_add, counters_get, counters_set, counters_of,
}
use moab.Tasks.Threads.{attach_task_to_thread}
use moab.Tasks.Threads.Framing.{OnlyThreads, attach_task_to_thread-OnlyThreads}
use moab.Tasks.Lifecycle.{create_task}

module _ ⦃S : Stores⦄ where
  pub record IsCreated (task : Task) (before after : Db) : Type 0 where
    pub stored : S.tasks.get after.tasks task.id ≡ some task
    pub others :
        (id : TaskId) → task.id ≢ id → S.tasks.get after.tasks id ≡ S.tasks.get before.tasks id
    pub deduped :
        is_set task.dedupe_key ≡ true
        → S.dedupe_keys_index.get after.dedupe_keys_index
            (record { queue = queue_of task.id; text = task.dedupe_key })
          ≡ some task.id.task_id
    pub queued :
        is_set task.thread_id ≡ false
        → S.queue_index.has after.queue_index
            (queue_of task.id)
            (item task.scheduled_at task.id.task_id)
          ≡ true
    pub expires : S.expiration.has after.expiration tt (item task.expires_at task.id) ≡ true
    pub counted :
        counters_of after (queue_of task.id) ≡ record (counters_of before (queue_of task.id)) {
          enqueued_tasks_count =
              add64 (counters_of before (queue_of task.id)).enqueued_tasks_count 1;
        }
    pub sequence_kept : after.queue_state ≡ before.queue_state
    pub purges_kept : after.purge_gc_records ≡ before.purge_gc_records

  -- The place of the new task: in its thread, or in the queue.
  place : Task → M (Unit {0})
  place task =
      if is_set task.thread_id
      then attach_task_to_thread task
      else queue_index_add (queue_of task.id) (item task.scheduled_at task.id.task_id)

  place_lem :
      (task : Task) (db : Db) {after : Db}
      → place task db ≡ ok (tt, after)
      → OnlyThreads db after
        × (is_set task.thread_id ≡ false
            → S.queue_index.has after.queue_index
                (queue_of task.id)
                (item task.scheduled_at task.id.task_id)
              ≡ true)
  unfolding place queue_index_add
  place_lem task db {after} e = elim (Bool-cases (is_set task.thread_id)) [
    | inl threaded ↦ (
      attach_task_to_thread-OnlyThreads task db (rw threaded at e),
      λ free. absurd (ground (arith, threaded, free)),
    )
    | inr free ↦
        let added = rw free at e in
        (
          ground (arith, added),
          λ _. ground (
            arith,
            added,
            S.queue_index.has-add_self db.queue_index (queue_of task.id)
                (item task.scheduled_at task.id.task_id),
          ),
        )
  ]

  dedupe_lem :
      (task : Task) (db : Db) {after : Db}
      → when
          (is_set task.dedupe_key)
          (dedupe_set (queue_of task.id) task.dedupe_key task.id.task_id)
          db
        ≡ ok (tt, after)
      → (is_set task.dedupe_key ≡ true
          → S.dedupe_keys_index.get after.dedupe_keys_index
              (record { queue = queue_of task.id; text = task.dedupe_key })
            ≡ some task.id.task_id)
        × (after ≡ record db { dedupe_keys_index = after.dedupe_keys_index })
  unfolding dedupe_set
  dedupe_lem task db {after} e = elim (Bool-cases (is_set task.dedupe_key)) [
    | inl k ↦
        let e' = rw k at e in
        (
          λ _. ground (
            arith,
            e',
            S.dedupe_keys_index.get-set_self db.dedupe_keys_index
                (record { queue = queue_of task.id; text = task.dedupe_key }) task.id.task_id,
          ),
          ground (arith, e'),
        )
    | inr k ↦ let e' = rw k at e in (λ yes. absurd (ground (arith, k, yes)), ground (arith, e'))
  ]

  pub create_task-IsCreated :
      (task : Task) (db : Db) {after : Db}
      → create_task task db ≡ ok (tt, after)
      → IsCreated task db after
  unfolding create_task place tasks_set expiration_add counters_get counters_set
  create_task-IsCreated task db {after} e =
      let (_, named, one, e1) =
        >>=-eq-ok
          (when (is_set task.dedupe_key)
            (dedupe_set (queue_of task.id) task.dedupe_key task.id.task_id))
          _ _ e in
      let (_, placed, two, e2) = >>=-eq-ok (place task) _ named e1 in
      let (keyed, same) = dedupe_lem task _ one in
      let (frame, queued) = place_lem task named two in
      let tasks : placed.tasks ≡ S.tasks.set db.tasks task.id task =
        frame.tasks ∙ ap (λ (d : Db). d.tasks) same in
      let counters : placed.counters ≡ db.counters =
        frame.counters ∙ ap (λ (d : Db). d.counters) same in
      let last : Db = record placed {
        expiration = S.expiration.add placed.expiration tt (item task.expires_at task.id);
        counters =
            S.counters.set placed.counters (queue_of task.id)
              (record (counters_of placed (queue_of task.id)) {
                enqueued_tasks_count =
                    add64 (counters_of placed (queue_of task.id)).enqueued_tasks_count 1;
              });
      } in
      let done : last ≡ after = ground (arith, e2) in
      subst (IsCreated task db) done (record {
        stored = rw tasks (S.tasks.get-set_self db.tasks task.id task);
        others = λ id fresh. rw tasks (S.tasks.get-set_ne db.tasks task.id id task fresh);
        deduped = λ k. rw frame.dedupe_keys_index (keyed k);
        queued = queued;
        expires = S.expiration.has-add_self placed.expiration tt (item task.expires_at task.id);
        counted = rw (S.counters.get-set_self, counters);
        sequence_kept = frame.queue_state ∙ ap (λ (d : Db). d.queue_state) same;
        purges_kept = frame.purge_gc_records ∙ ap (λ (d : Db). d.purge_gc_records) same;
      })
