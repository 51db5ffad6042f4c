-- ===== src/Tasks/Enqueue/Restarting.antt =====
-- What `RestartTasks` of pkg/tasks/core.go does with one entry.
use moab.Base.{
  ℕ, ◌≡◌, ◌≢◌, ◌⊎◌, inl, inr, subst, Option, some, ok, arith, true, false, Bool-cases, Option-cases,
}
use moab.Base.Word.{slt}
use moab.Tasks.Types.{
  QueueId, Task, TaskState, RestartTasksRequestEntry, RestartTasksResponseEntry, RestartResult,
  is_dead,
}
use moab.Tasks.Monad.{Stores, Db, >>=-eq-ok, task_in, item}
use moab.Tasks.Access.{
  tasks_find, dedupe_find, dead_tasks_index_delete, expiration_remove, counters_get, counters_set,
}
use moab.Tasks.Lifecycle.{create_task}
use moab.Tasks.Lifecycle.Creating.{IsCreated, create_task-IsCreated}
use moab.Tasks.Enqueue.{
  not_before, restart_task, is_conflict, restart_dead, restart_entry, find_duplicate,
}

module _ ⦃S : Stores⦄ where
  -- A dead task as it comes back.
  abbrev pub revived : Task → ℕ → RestartTasksRequestEntry → Task
  revived task now e = record task {
    state = TaskState.enqueued;
    attempts = 0;
    scheduled_at = not_before now e.scheduled_at;
    expires_at = e.expires_at;
    visible_at = 0;
    last_failed_at = 0;
  }

  -- The entry names a dead task that has not expired, and the task is stored again as new.
  pub record IsRestarted (q : QueueId) (now : ℕ) (e : RestartTasksRequestEntry) (task : Task)
      (before after : Db) : Type 0 where
    pub found : S.tasks.get before.tasks (task_in q e.task_id) ≡ some task
    pub dead : is_dead task.state ≡ true
    pub timely : slt task.expires_at now ≡ false
    pub stored : S.tasks.get after.tasks task.id ≡ some (revived task now e)
    pub expires : S.expiration.has after.expiration tt (item e.expires_at task.id) ≡ true

  restart_task_lem :
      (task : Task) (now : ℕ) (e : RestartTasksRequestEntry) (db after : Db) (fresh : Task)
      → restart_task task now e.scheduled_at e.expires_at db ≡ ok (fresh, after)
      → (S.tasks.get after.tasks task.id ≡ some (revived task now e))
        × (S.expiration.has after.expiration tt (item e.expires_at task.id) ≡ true)
  unfolding restart_task dead_tasks_index_delete expiration_remove counters_get counters_set
  restart_task_lem task now e db after fresh h =
      let (_, mid, created, rest) = >>=-eq-ok (create_task (revived task now e)) _ _ h in
      let same : mid ≡ after = ground (arith, rest) in
      let made =
        subst (IsCreated (revived task now e) _) same
          (create_task-IsCreated (revived task now e) _ created) in
      (made.stored, made.expires)

  find_duplicate_same :
      (q : QueueId) (task : Task) (db : Db) {d : Option ℕ} {after : Db}
      → find_duplicate q task.dedupe_key db ≡ ok (d, after)
      → after ≡ db
  unfolding find_duplicate dedupe_find
  find_duplicate_same q task db h = ground arith

  restart_dead_lem :
      (q : QueueId) (now : ℕ) (e : RestartTasksRequestEntry) (task : Task) (db after : Db)
      (r : RestartTasksResponseEntry)
      → restart_dead q now e task db ≡ ok (r, after)
      → ((r.result ≡ RestartResult.restarted)
          × (S.tasks.get after.tasks task.id ≡ some (revived task now e))
          × (S.expiration.has after.expiration tt (item e.expires_at task.id) ≡ true))
        ⊎ ((r.result ≢ RestartResult.restarted) × (after ≡ db))
  unfolding restart_dead
  restart_dead_lem q now e task db after r h =
      let (duplicate, mid, one, rest) = >>=-eq-ok (find_duplicate q task.dedupe_key) _ db h in
      let same : mid ≡ db = find_duplicate_same q task db one in
      elim (Bool-cases (is_conflict duplicate task.id.task_id)) [
        | inl clash ↦ inr (ground (arith, clash, rest), ground (arith, clash, rest, same))
        | inr free ↦
            let (fresh, last, done, end) =
              >>=-eq-ok (restart_task task now e.scheduled_at e.expires_at) _ mid
                (rw free at rest) in
            let (stored, expires) = restart_task_lem task now e mid last fresh done in
            let same_end : last ≡ after = ground (arith, end) in
            inl (
              ground (arith, end),
              subst (λ (d : Db). S.tasks.get d.tasks task.id ≡ some (revived task now e)) same_end
                  stored,
              subst
                  (λ (d : Db). S.expiration.has d.expiration tt (item e.expires_at task.id) ≡ true)
                  same_end expires,
            )
      ]

  -- When the entry of a RestartTasks request runs to the end: either the answer is "restarted",
  -- the named task was stored, dead and not expired (its deadline is not before now), and it is
  -- stored again as enqueued with no attempts, no failure time, no lease, the time of the entry
  -- but not before now, and the deadline of the entry, which the expiration index tracks; or the
  -- answer is another one and the store is as before.
  pub restart_entry_lem :
      (q : QueueId) (now : ℕ) (e : RestartTasksRequestEntry) (db : Db)
      (r : RestartTasksResponseEntry) (after : Db)
      → restart_entry q now e db ≡ ok (r, after)
      → ((r.result ≡ RestartResult.restarted) × (task : Task) × IsRestarted q now e task db after)
        ⊎ ((r.result ≢ RestartResult.restarted) × (after ≡ db))
  unfolding restart_entry tasks_find
  restart_entry_lem q now e db r after h =
      elim (Option-cases (S.tasks.get db.tasks (task_in q e.task_id))) [
        | inl gone ↦ inr (ground (arith, gone, h), ground (arith, gone, h))
        | inr (task, found) ↦ elim (Bool-cases (is_dead task.state)) [
          | inr alive ↦ inr (ground (arith, found, alive, h), ground (arith, found, alive, h))
          | inl dead ↦ elim (Bool-cases (slt task.expires_at now)) [
            | inl late ↦
                inr (ground (arith, found, dead, late, h), ground (arith, found, dead, late, h))
            | inr timely ↦
                elim (restart_dead_lem q now e task db after r
                  (ground (arith, found, dead, timely, h))) [
                    | inl (good, stored, expires) ↦ inl (
                      good,
                      task,
                      record {
                        found = found;
                        dead = dead;
                        timely = timely;
                        stored = stored;
                        expires = expires;
                      },
                    )
                    | inr unchanged ↦ inr unchanged
                  ]
          ]
        ]
      ]
