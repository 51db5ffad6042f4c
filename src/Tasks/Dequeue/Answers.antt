-- ===== src/Tasks/Dequeue/Answers.antt =====
-- `checkQueueNotPurged` and the transaction around a handler of pkg/tasks/core.go: a purged queue is
-- refused, and what is answered is what the handler's body returns.
use moab.Base.{◌≡◌, sym, ap, ◌∙◌, none, some, Result, ok, arith, Option-cases, inl, inr}
use moab.Base.Transaction.{transact-ok, transact-eq-ok}
use moab.Tasks.Types.{QueueId, ApplicationError, Response, answer, refused}
use moab.Tasks.Monad.{Stores, Db, M, transact, ◌>>=◌, pure, >>=-eq-ok}
use moab.Tasks.Access.{purge_exists}
use moab.Tasks.Dequeue.{check_queue_not_purged, unless_purged}

module _ ⦃S : Stores⦄ where
  pub unless_purged-purged :
      {A : Type 0} (q r : QueueId) (m : M A) (db : Db)
      → S.purge_gc_records.get db.purge_gc_records q ≡ some r
      → unless_purged q m db ≡ ok (refused (ApplicationError.queue_not_found q), db)
  unfolding unless_purged check_queue_not_purged purge_exists
  unless_purged-purged q r m db purged = ground (arith, purged)

  pub unless_purged-live :
      {A : Type 0} (q : QueueId) (m : M A) (db : Db)
      → S.purge_gc_records.get db.purge_gc_records q ≡ none
      → unless_purged q m db ≡ (m >>= λ a. pure (answer a)) db
  unfolding unless_purged check_queue_not_purged purge_exists
  unless_purged-live q m db live = ground (arith, live)

  pub transact_purged :
      {A : Type 0} (q r : QueueId) (m : M A) (db : Db)
      → S.purge_gc_records.get db.purge_gc_records q ≡ some r
      → transact (unless_purged q m) db ≡ (ok (refused (ApplicationError.queue_not_found q)), db)
  transact_purged q r m db purged =
      transact-ok (unless_purged q m) db (unless_purged-purged q r m db purged)

  answer_inv :
      {A : Type 0} {x : A × Db} {a : A} {after : Db}
      → (◌≡◌ {A = Result (Response A × Db)} (ok (answer x.0, x.1)) (ok (answer a, after)))
      → x ≡ (a, after)
  answer_inv e = ground arith

  pub transact-eq-answer :
      {A : Type 0} (q : QueueId) (m : M A) (db : Db) (a : A) (after : Db)
      → transact (unless_purged q m) db ≡ (ok (answer a), after)
      → (S.purge_gc_records.get db.purge_gc_records q ≡ none) × (m db ≡ ok (a, after))
  transact-eq-answer q m db a after e =
      elim (Option-cases (S.purge_gc_records.get db.purge_gc_records q)) [
        | inl live ↦
            let done =
              sym (unless_purged-live q m db live) ∙ transact-eq-ok (unless_purged q m) db e in
            let (b, mid, one, rest) = >>=-eq-ok m (λ a. pure (answer a)) db done in
            (live, one ∙ ap ok (answer_inv rest))
        | inr (r, purged) ↦ absurd (ground (arith, transact_purged q r m db purged))
      ]
