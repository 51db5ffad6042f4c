-- ===== src/Tasks/Restore/Divergence.antt =====
-- Where a replica that is restored from a snapshot (`taskRestorer`, `restoreIndexes`) differs from
-- the one that the snapshot was taken of.
use moab.Base.{
  ℕ, ◌≡◌, sym, ◌∙◌, Bool-cases, inl, inr, Bool, true, false, [], none, some, ok, fail, not_found,
  arith, is_set,
}
use moab.Base.Word.{sle}
use moab.Tasks.Types.{QueueId, Task, TaskState, Thread, DeadLetterQueueConfig}
use moab.Tasks.Monad.{thread_key, Stores, Db, queue_of, item, pure, ◌>>=◌, ◌>>◌, >>=-eq-ok}
use moab.Tasks.Access.{
  tasks_set, dedupe_set, dedupe_delete, queue_index_add, queue_index_delete, in_progress_index_add,
  in_progress_index_delete, dead_tasks_index_add, expiration_add, expiration_remove, threads_get,
  threads_delete, thread_index_add, thread_index_remove, thread_index_items, counters_get,
  counters_set,
}
use moab.Tasks.Threads.{
  read_earliest, detach_task_from_thread, promote_next_thread_head, promote_with,
}
use moab.Tasks.Lifecycle.{after_seconds, bury_task, release_task, evict_excess_dead_tasks}
use moab.Tasks.Dequeue.{lease_task}
use moab.Tasks.Restore.{restore_task, restore_thread_place, restore_indexes, restore_state_index}

module _ ⦃S : Stores⦄ where
  restore_indexes-has :
      (owns : QueueId → Bool) (task : Task) (is_head : Bool) (db after : Db)
      → restore_indexes owns task is_head db ≡ ok (tt, after)
      → S.expiration.has after.expiration tt (item task.expires_at task.id) ≡ true
  unfolding restore_indexes restore_state_index tasks_set dedupe_set queue_index_add
      in_progress_index_add dead_tasks_index_add expiration_add
  restore_indexes-has owns task is_head db after e =
      ground (arith, S.expiration.has-add_self db.expiration tt (item task.expires_at task.id))

  -- A restore that takes the task writes its indexes last.
  restored-has :
      (owns : QueueId → Bool) (task : Task) (db after : Db)
      → (restore_thread_place owns task >>= λ is_head.
            restore_indexes owns task is_head >> pure true)
          db
        ≡ ok (true, after)
      → S.expiration.has after.expiration tt (item task.expires_at task.id) ≡ true
  restored-has owns task db after e =
      let (is_head, mid, _, rest) =
        >>=-eq-ok (restore_thread_place owns task)
          (λ is_head. restore_indexes owns task is_head >> pure true) db e in
      let (_, last, done, same) =
        >>=-eq-ok (restore_indexes owns task is_head) (λ _. pure true) mid rest in
      restore_indexes-has owns task is_head mid after (ground (arith, done, same))

  restore_task-has :
      (owns : QueueId → Bool) (task : Task) (db after : Db)
      → restore_task owns task db ≡ ok (true, after)
      → S.expiration.has after.expiration tt (item task.expires_at task.id) ≡ true
  unfolding restore_task
  restore_task-has owns task db after e = elim (Bool-cases (owns (queue_of task.id))) [
    | inl own ↦ restored-has owns task db after (rw own at e)
    | inr foreign ↦ ground (arith, foreign, e)
  ]

  lease_task-has :
      (q : QueueId) (now keepalive : ℕ) (task : Task) (db after : Db) (t : Task)
      → lease_task q now keepalive task db ≡ ok (t, after)
      → S.expiration.has after.expiration tt (item t.expires_at t.id) ≡ false
  unfolding lease_task queue_index_delete expiration_remove tasks_set in_progress_index_add
  lease_task-has q now keepalive task db after t e =
      ground (arith, S.expiration.has-remove_self db.expiration tt (item task.expires_at task.id))

  -- A task that has been handed out is not in the expiration index under its deadline; after the
  -- same task has been restored into other contents, it is.
  pub restored_lease_is_tracked :
      (owns : QueueId → Bool) (q : QueueId) (now keepalive : ℕ) (task : Task)
      (db after other restored : Db) (t : Task)
      → lease_task q now keepalive task db ≡ ok (t, after)
      → restore_task owns t other ≡ ok (true, restored)
      → (S.expiration.has after.expiration tt (item t.expires_at t.id) ≡ false)
        × (S.expiration.has restored.expiration tt (item t.expires_at t.id) ≡ true)
  restored_lease_is_tracked owns q now keepalive task db after other restored t one two = (
    lease_task-has q now keepalive task db after t one,
    restore_task-has owns t other restored two,
  )

  -- Restoring a threaded task whose thread has no row fails.
  restore_without_thread :
      (owns : QueueId → Bool) (task : Task) (db : Db)
      → owns (queue_of task.id) ≡ true
      → is_set task.thread_id ≡ true
      → S.threads.get db.threads (thread_key (queue_of task.id) task.thread_id) ≡ none
      → restore_task owns task db ≡ fail not_found
  unfolding restore_task restore_thread_place thread_index_add threads_get
  restore_without_thread owns task db own threaded gone = rw (own, threaded, gone)

  -- The dead task that `bury_task` stores.
  abbrev pub corpse_of : Task → ℕ → DeadLetterQueueConfig → Task
  corpse_of task now config = record task {
    state = TaskState.dead;
    last_failed_at = now;
    expires_at = after_seconds now config.retention_period_in_seconds;
  }

  -- Detaching the only member of a thread removes the thread's row.
  detach_last :
      (task : Task) (thread : Thread) (db : Db)
      → S.threads.get db.threads (thread_key (queue_of task.id) task.thread_id) ≡ some thread
      → thread.head_task_id ≡ task.id
      → thread.thread_id ≡ task.thread_id
      → S.threaded_tasks_index.items
          (S.threaded_tasks_index.remove db.threaded_tasks_index
            (thread_key (queue_of task.id) task.thread_id)
            (item task.scheduled_at task.id.task_id))
          (thread_key (queue_of task.id) task.thread_id)
        ≡ []
      → detach_task_from_thread task db
        ≡ ok (
          tt,
          record db {
            threads = S.threads.erase db.threads (thread_key (queue_of task.id) task.thread_id);
            threaded_tasks_index =
                S.threaded_tasks_index.remove db.threaded_tasks_index
                  (thread_key (queue_of task.id) task.thread_id)
                  (item task.scheduled_at task.id.task_id);
          },
        )
  unfolding detach_task_from_thread thread_index_remove threads_get promote_next_thread_head
      thread_index_items read_earliest promote_with threads_delete
  detach_last task thread db row head name alone = ground (
    arith,
    S.threads.missing_present db.threads (thread_key (queue_of task.id) task.thread_id) thread row,
  )

  -- The hypotheses of `detach_last`, for a task and the contents that it is read from.
  pub record IsLastMember (task : Task) (thread : Thread) (db : Db) : Type 0 where
    pub row : S.threads.get db.threads (thread_key (queue_of task.id) task.thread_id) ≡ some thread
    pub head : thread.head_task_id ≡ task.id
    pub name : thread.thread_id ≡ task.thread_id
    pub alone :
        S.threaded_tasks_index.items
          (S.threaded_tasks_index.remove db.threaded_tasks_index
            (thread_key (queue_of task.id) task.thread_id)
            (item task.scheduled_at task.id.task_id))
          (thread_key (queue_of task.id) task.thread_id)
        ≡ []

  release_last :
      (task : Task) (thread : Thread) (db after : Db)
      → is_set task.thread_id ≡ true
      → IsLastMember task thread db
      → release_task task db ≡ ok (tt, after)
      → (after.threads ≡ S.threads.erase db.threads (thread_key (queue_of task.id) task.thread_id))
        × (after.tasks ≡ db.tasks)
  unfolding release_task dedupe_delete
  release_last task thread db after threaded last e =
      let keys : S.dedupe_keys_index.Rows =
        S.dedupe_keys_index.erase db.dedupe_keys_index
          (thread_key (queue_of task.id) task.dedupe_key) in
      elim (Bool-cases (is_set task.dedupe_key)) [
        | inl k ↦ ground (
          arith,
          detach_last task thread (record db { dedupe_keys_index = keys }) last.row last.head
              last.name last.alone,
        )
        | inr k ↦ ground (arith, detach_last task thread db last.row last.head last.name last.alone)
      ]

  evict_off :
      (q : QueueId) (max_size n : ℕ) (db : Db)
      → max_size ≡ 0
      → evict_excess_dead_tasks q max_size n db ≡ ok (tt, db)
  unfolding evict_excess_dead_tasks sle
  evict_off q max_size n db off = rw off

  -- Burying the last member of a thread takes the thread's row away.
  bury_last :
      (task : Task) (thread : Thread) (now : ℕ) (config : DeadLetterQueueConfig) (db after : Db)
      → is_set task.thread_id ≡ true
      → IsLastMember task thread db
      → config.max_size ≡ 0
      → bury_task task now config db ≡ ok (tt, after)
      → (after.threads ≡ S.threads.erase db.threads (thread_key (queue_of task.id) task.thread_id))
        × (S.tasks.get after.tasks task.id ≡ some (corpse_of task now config))
  unfolding bury_task in_progress_index_delete tasks_set expiration_add dead_tasks_index_add
      counters_get counters_set
  bury_last task thread now config db after threaded last off e =
      let mid : Db = record db {
        in_progress_index =
            S.in_progress_index.remove db.in_progress_index (queue_of task.id)
              (item task.visible_at task.id.task_id);
        tasks = S.tasks.set db.tasks task.id (corpse_of task now config);
        expiration =
            S.expiration.add db.expiration tt (item (corpse_of task now config).expires_at task.id);
      } in
      let (_, mid', one, rest) = >>=-eq-ok (release_task (corpse_of task now config)) _ mid e in
      let (gone, kept) =
        release_last (corpse_of task now config) thread mid mid' threaded
          (record { row = last.row; head = last.head; name = last.name; alone = last.alone }) one in
      let done = sym (evict_off _ config.max_size _ _ off) ∙ rest in
      (
        ground (arith, gone),
        ground (arith, kept, S.tasks.get-set_self db.tasks task.id (corpse_of task now config)),
      )

  -- If a task is the head and the last member of its thread, and burying it succeeds under a
  -- dead letter queue without a maximum size, then the row of the task is the dead task, and
  -- restoring that dead task fails because a row is missing, in any contents with the row of
  -- that thread as it is after the burial, on a shard that owns the queue.
  pub buried_last_member_unrestorable :
      (owns : QueueId → Bool) (task : Task) (thread : Thread) (now : ℕ)
      (config : DeadLetterQueueConfig) (db after other : Db)
      → owns (queue_of task.id) ≡ true
      → is_set task.thread_id ≡ true
      → IsLastMember task thread db
      → config.max_size ≡ 0
      → bury_task task now config db ≡ ok (tt, after)
      → S.threads.get other.threads (thread_key (queue_of task.id) task.thread_id)
        ≡ S.threads.get after.threads (thread_key (queue_of task.id) task.thread_id)
      → (S.tasks.get after.tasks task.id ≡ some (corpse_of task now config))
        × (restore_task owns (corpse_of task now config) other ≡ fail not_found)
  buried_last_member_unrestorable owns task thread now config db after other own threaded last off e
        same =
      let (gone, stored) = bury_last task thread now config db after threaded last off e in
      (
        stored,
        restore_without_thread owns (corpse_of task now config) other own threaded (
            same
            ∙ rw gone (
                S.threads.get-erase_self db.threads
                  (thread_key (queue_of task.id) task.thread_id))),
      )
