-- ===== src/Queues/Registry/Versions.antt =====
-- The version check of `UpdateQueue` in pkg/queues/core.go.
use moab.Base.{ℕ, ◌≡◌, ◌≢◌, sym, ap, ◌∙◌, subst, Option, none, some, ok, arith}
use moab.Base.Word.{add64}
use moab.Base.Transaction.{transact-ok}
use moab.Queues.Types.{Queue, UpdateQueueRequest, ApplicationError, Response, answer, refused}
use moab.Queues.Access.{Stores, Db, queues_find_by_name}
use moab.Queues.Registry.{with_queue, update_found, update_queue}
use moab.Queues.Registry.Names.{registry, IsRegistered}
use moab.Queues.Registry.Contract.{update, subject, Effect, Obeys}
use moab.Queues.Registry.Refinement.{handle-Obeys}

add64-ne : (v : ℕ) → add64 v 1 ≢ v
unfolding add64
add64-ne v e = omega arith

-- The effect of an update, read off from its answer.
update-Effect :
    (req : UpdateQueueRequest) (now : ℕ) (before after : Option Queue) (q : Queue)
    → Effect (update req) now before q after
    → (after ≡ some q) × (q.version ≡ add64 req.expected_version 1)
update-Effect req now none after q e = absurd e
update-Effect req now (some old) after q e =
    (e.2, ap (λ (x : Queue). x.version) e.1 ∙ ap (λ (v : ℕ). add64 v 1) e.0)

module _ ⦃S : Stores⦄ where
  update_stale :
      (req : UpdateQueueRequest) (now : ℕ) (db : Db) (q : Queue)
      → registry db (subject (update req)) ≡ some q
      → q.version ≢ req.expected_version
      → update_queue req now db ≡ (
        ok (
            refused (
              ApplicationError.queue_version_mismatch req.queue_name q.version
                req.expected_version)),
        db,
      )
  unfolding update_queue update_found queues_find_by_name
  update_stale req now db q here stale =
      transact-ok (with_queue req.account_id req.queue_name (update_found req now)) db
        (ground (arith, here, stale))

  -- What an update that is answered found and left.
  update_answered :
      (req : UpdateQueueRequest) (now : ℕ) (db after : Db) (q : Queue)
      → IsRegistered db
      → update_queue req now db ≡ (ok (answer q), after)
      → (registry after (subject (update req)) ≡ some q)
        × (q.version ≡ add64 req.expected_version 1)
  update_answered req now db after q wf h =
      let (r, left, run, _, obeys) = handle-Obeys (update req) now db wf in
      let same_answer : r ≡ answer q = ground (arith, run, h) in
      let same_after : left ≡ after = ground (arith, run, h) in
      let (v, effect, puts) : Obeys (update req) now (registry db) (answer q) (registry after) =
        subst (λ (d : Db). Obeys (update req) now (registry db) (answer q) (registry d)) same_after
          (subst (λ (x : Response Queue). Obeys (update req) now (registry db) x (registry left))
            same_answer obeys) in
      let (is, version) = update-Effect req now (registry db (subject (update req))) v q effect in
      (puts.0 ∙ is, version)

  -- If `UpdateQueue` has answered on a queue, from contents in which the names index and the
  -- queues agree, then a second `UpdateQueue` of the same name with the same expected version is
  -- refused with the two versions, and changes nothing.
  pub update_queue_once :
      (first second : UpdateQueueRequest) (now later : ℕ) (db after : Db) (q : Queue)
      → IsRegistered db
      → update_queue first now db ≡ (ok (answer q), after)
      → subject (update second) ≡ subject (update first)
      → second.expected_version ≡ first.expected_version
      → update_queue second later after ≡ (
        ok (
            refused (
              ApplicationError.queue_version_mismatch second.queue_name
                (add64 first.expected_version 1)
                second.expected_version)),
        after,
      )
  update_queue_once first second now later db after q wf h same_name same_version =
      let (here, version) = update_answered first now db after q wf h in
      let stale : q.version ≢ second.expected_version =
        λ e. add64-ne first.expected_version (sym version ∙ e ∙ same_version) in
      rw (sym version)
        (update_stale second later after q (ap (registry after) same_name ∙ here) stale)
