-- ===== src/Tasks/Dequeue/Pass.antt =====
-- The second pass of `Dequeue` taken apart: its scan, and what its two loops leave alone.
use moab.Base.{ℕ, ◌≡◌, refl, sym, subst, ◌∙◌, List, [], ◌∷◌, ok, arith, map, Result}
use moab.Base.Word.{add32}
use moab.Tasks.Types.{QueueId, Task, TaskState}
use moab.Tasks.Monad.{Stores, Db, for_each, map_m, >>=-eq-ok, ◌>>◌}
use moab.Tasks.Access.{
  tasks_set, tasks_delete, dedupe_delete, queue_index_delete, expiration_remove,
  in_progress_index_add,
}
use moab.Tasks.Lifecycle.{after_seconds}
use moab.Tasks.Dequeue.{drop_expired, lease_task}

-- A task as it is handed out.
abbrev pub leased : ℕ → ℕ → Task → Task
leased now keepalive task = record task {
  visible_at = after_seconds now keepalive;
  attempts = add32 task.attempts 1;
  state = TaskState.in_progress;
}

module _ ⦃S : Stores⦄ where
  -- What both loops leave alone.
  pub record KeepsRows (before after : Db) : Type 0 where
    pub counters_kept : after.counters ≡ before.counters
    pub queue_state_kept : after.queue_state ≡ before.queue_state
    pub threads_kept : after.threads ≡ before.threads
    pub thread_index_kept : after.threaded_tasks_index ≡ before.threaded_tasks_index
    pub rate_limiters_kept : after.rate_limiters ≡ before.rate_limiters

  pub drop_expired-KeepsRows :
      (q : QueueId) (task : Task) (db : Db) {db' : Db}
      → drop_expired q task db ≡ ok (tt, db')
      → KeepsRows db db'
  unfolding drop_expired queue_index_delete expiration_remove tasks_delete dedupe_delete
  drop_expired-KeepsRows q task db e = ground arith

  pub lease_task_lem :
      (q : QueueId) (now keepalive : ℕ) (task : Task) (db : Db)
      → (db' : Db) × (lease_task q now keepalive task db ≡ ok (leased now keepalive task, db'))
        × KeepsRows db db'
  unfolding lease_task queue_index_delete expiration_remove tasks_set in_progress_index_add
  lease_task_lem q now keepalive task db = (_, refl, ground arith)

  pub KeepsRows-trans : (a b c : Db) → KeepsRows a b → KeepsRows b c → KeepsRows a c
  KeepsRows-trans a b c h k = ground arith

  pub for_each_drop-KeepsRows :
      (q : QueueId) (ts : List Task) (db : Db) {db' : Db}
      → for_each ts (drop_expired q) db ≡ ok (tt, db')
      → KeepsRows db db'
  unfolding for_each
  for_each_drop-KeepsRows q [] db e = ground arith
  for_each_drop-KeepsRows q (t ∷ ts) db {db'} e =
      let (u, mid, one, rest) =
        >>=-eq-ok (drop_expired q t) (λ _. for_each ts (drop_expired q)) db e in
      KeepsRows-trans db mid db' (drop_expired-KeepsRows q t db one)
        (for_each_drop-KeepsRows q ts mid rest)

  pub map_m_lease_lem :
      (q : QueueId) (now keepalive : ℕ) (ts : List Task) (db : Db)
      → (db' : Db) × (map_m (lease_task q now keepalive) ts db
          ≡ ok (map (leased now keepalive) ts, db'))
        × KeepsRows db db'
  unfolding map_m
  map_m_lease_lem q now keepalive [] db = (db, refl, ground arith)
  map_m_lease_lem q now keepalive (t ∷ ts) db =
      let (mid, one, keep) = lease_task_lem q now keepalive t db in
      let (db', rest, keep') = map_m_lease_lem q now keepalive ts mid in
      (db', ground arith, KeepsRows-trans db mid db' keep keep')

  -- The two loops after the scan.
  pub loops_lem :
      (q : QueueId) (now keepalive : ℕ) (expired dequeued : List Task) (db : Db) {ts : List Task}
      {after : Db}
      → (for_each expired (drop_expired q) >> map_m (lease_task q now keepalive) dequeued) db
        ≡ ok (ts, after)
      → (ts ≡ map (leased now keepalive) dequeued) × KeepsRows db after
  loops_lem q now keepalive expired dequeued db {ts} {after} e =
      let (u, mid, one, rest) =
        >>=-eq-ok (for_each expired (drop_expired q))
          (λ _. map_m (lease_task q now keepalive) dequeued) db e in
      let (end, all, keep) = map_m_lease_lem q now keepalive dequeued mid in
      let same : ◌≡◌ {A = Result (List Task × Db)} (ok (map (leased now keepalive) dequeued, end))
          (ok (ts, after)) =
        sym all ∙ rest in
      let kept : KeepsRows db mid = for_each_drop-KeepsRows q expired db one in
      (cc, KeepsRows-trans db mid after kept (subst (KeepsRows mid) (cc) keep))
