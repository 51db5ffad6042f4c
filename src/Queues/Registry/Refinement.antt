-- ===== src/Queues/Registry/Refinement.antt =====
-- The handlers of pkg/queues/core.go on queues against the contract of their map.
use moab.Base.{
  ℕ, ◌≡◌, ◌≢◌, refl, sym, ap, ◌∙◌, subst, String, Option, none, some, Result, ok, arith, inl, inr,
  Option-cases, Bool-cases, ◌==◌,
}
use mathlib.Core.Option
use moab.Base.Word.{sle, add64, sub64}
use moab.Honey.{forget}
use moab.Base.Transaction.{transact, transact-ok}
use moab.Tasks.Types.{QueueId}
use moab.Queues.Types.{
  Queue, CreateQueueRequest, UpdateQueueRequest, SwapQueueIdRequest, ApplicationError, Response,
  answer, refused,
}
use moab.Queues.Access.{
  Stores, Db, M, QueueName, name_of, queues_find, queues_find_by_name, queue_names_set,
  queues_create, queues_update, queues_delete, queues_delete_row, queues_swap_id, counters_get,
  counters_set, gc_records_create,
}
use moab.Queues.Registry.{
  new_queue, updated_queue, swapped_queue, swap_target, with_queue, register, create_queue_checked,
  create_queue, update_found, update_queue, delete_queue_found, delete_queue, swap_found,
  swap_queue_id,
}
use moab.Queues.Registry.Names.{
  registry, IsRegistered, IsChange, registry-some, registry-none, IsChange-IsRegistered,
  IsChange-Puts,
}
use moab.Queues.Registry.Changes.{create-IsChange, update-IsChange, delete-IsChange, swap-IsChange}
use moab.Queues.Registry.Moving.{move_all_schedules_lem}
use moab.Queues.Registry.Contract.{
  Command, create, update, delete, swap, Answer, subject, Refusal, Effect, Obeys,
}

module _ ⦃S : Stores⦄ where
  -- The handler of each request.
  abbrev pub handle : (c : Command) → ℕ → Db → Result (Response (Answer c)) × Db
  handle (create req) now = create_queue req now
  handle (update req) now = update_queue req now
  handle (delete a n) now = delete_queue a n
  handle (swap req) now = swap_queue_id req now

  -- A body that ends, keeps the names and obeys the contract.
  abbrev Serves : (c : Command) → ℕ → Db → M (Response (Answer c)) → Type 0
  Serves c now db m =
      (r : Response (Answer c)) × (after : Db) × (m db ≡ ok (r, after))
      × IsRegistered after
      × Obeys c now (registry db) r (registry after)

  module _ (now : ℕ) (db : Db) (wf : IsRegistered db) where
    refuses :
        (c : Command) (m : M (Response (Answer c))) (e : ApplicationError)
        → m db ≡ ok (refused e, db)
        → Refusal c (registry db (subject c)) e
        → Serves c now db m
    refuses c m e run why = (refused e, db, run, wf, (why, λ k. refl))

    performs :
        (c : Command) (m : M (Response (Answer c))) (a : Answer c) (after : Db) (v : Option Queue)
        → m db ≡ ok (answer a, after)
        → IsChange db after (subject c) v
        → Effect c now (registry db (subject c)) a v
        → Serves c now db m
    performs c m a after v run change effect = (
      answer a,
      after,
      run,
      IsChange-IsRegistered wf change,
      (v, effect, IsChange-Puts wf change),
    )

    create-Serves :
        (req : CreateQueueRequest) → Serves (create req) now db (create_queue_checked req now)
    unfolding create_queue_checked counters_get queues_find queues_find_by_name register
        queues_create queue_names_set queues_update counters_set
    create-Serves req =
        let c = create req in
        let m = create_queue_checked req now in
        let q : Queue = new_queue req now in
        let count : ℕ =
          (Option.get_or (S.counters.get db.counters q.id.account_id)
            (record { number_of_queues = 0 })).number_of_queues in
        elim (Option-cases (registry db (subject c))) [
          | inr (p, taken) ↦
              refuses c m (ApplicationError.queue_name_exists req.name) (ground (arith, taken))
                (rw taken refl)
          | inl free ↦ elim (Bool-cases (sle req.max_number_of_queues count)) [
            | inl full ↦
                refuses c m (ApplicationError.max_queues_reached req.max_number_of_queues)
                  (ground (arith, free, full)) (rw free (inl refl))
            | inr room ↦ elim (Option-cases (S.queues.get db.queues req.queue_id)) [
              | inr (p, held) ↦
                  refuses c m (ApplicationError.queue_id_collision req.queue_id)
                    (ground (arith, free, room, held)) (rw free (inr refl))
              | inl unheld ↦
                  let after : Db = record db {
                    queue_names =
                        S.queue_names.set db.queue_names (subject c) req.queue_id.queue_id;
                    queues = S.queues.set db.queues q.id q;
                    counters =
                        S.counters.set db.counters req.queue_id.account_id
                          (record { number_of_queues = add64 count 1 });
                  } in
                  performs c m q after (some q) (ground (arith, free, room, unheld))
                    (create-IsChange db after wf q (registry-none wf (subject c) free) unheld refl
                      refl)
                    (rw free (refl, refl))
            ]
          ]
        ]

    update-Serves :
        (req : UpdateQueueRequest)
        → Serves
            (update req)
            now
            db
            (with_queue req.account_id req.queue_name (update_found req now))
    unfolding queues_find_by_name update_found queues_update
    update-Serves req =
        let c = update req in
        let m : M (Response Queue) =
          with_queue req.account_id req.queue_name (update_found req now) in
        elim (Option-cases (registry db (subject c))) [
          | inl gone ↦
              refuses c m (ApplicationError.queue_not_found req.queue_name) (ground (arith, gone))
                (rw gone refl)
          | inr (old, here) ↦
              let (name, row, _) = registry-some wf (subject c) old here in
              let q : Queue = updated_queue old req now in
              let after : Db = record db { queues = S.queues.set db.queues q.id q } in
              elim (Bool-cases (old.version == req.expected_version)) [
                | inl current ↦
                    performs c m q after (some q) (ground (arith, here, current))
                      (subst (λ (k : QueueName). IsChange db after k (some q)) name
                        (update-IsChange db after wf old q row refl refl refl refl))
                      (rw here (ground (arith, current), refl, refl))
                | inr stale ↦
                    refuses c m
                      (ApplicationError.queue_version_mismatch req.queue_name old.version
                        req.expected_version)
                      (ground (arith, here, stale)) (rw here (λ e. ground (arith, stale, e), refl))
              ]
        ]

    delete-Serves :
        (a : ℕ) (n : String) → Serves (delete a n) now db (with_queue a n delete_queue_found)
    unfolding queues_find_by_name delete_queue_found counters_get queues_delete counters_set
        gc_records_create
    delete-Serves a n =
        let c = delete a n in
        let m : M (Response QueueId) = with_queue a n delete_queue_found in
        elim (Option-cases (registry db (subject c))) [
          | inl gone ↦
              refuses c m (ApplicationError.queue_not_found n) (ground (arith, gone)) (rw gone refl)
          | inr (old, here) ↦
              let (name, row, _) = registry-some wf (subject c) old here in
              let count : ℕ =
                (Option.get_or (S.counters.get db.counters old.id.account_id)
                  (record { number_of_queues = 0 })).number_of_queues in
              let after : Db = record db {
                queues = forget S.queues db.queues old.id;
                queue_names = forget S.queue_names db.queue_names (name_of old);
                counters =
                    S.counters.set db.counters old.id.account_id
                      (record { number_of_queues = sub64 count 1 });
                gc_records = S.gc_records.set db.gc_records old.id old.id;
              } in
              performs c m old.id after none (ground (arith, here))
                (subst (λ (k : QueueName). IsChange db after k none) name
                  (delete-IsChange db after wf old row refl refl))
                (rw here (refl, refl))
        ]

    swap-Serves :
        (req : SwapQueueIdRequest)
        → Serves
            (swap req)
            now
            db
            (with_queue req.account_id req.queue_name (swap_found (swap_target req) now))
    unfolding queues_find_by_name queues_find swap_found queues_swap_id queue_names_set
        queues_update queues_delete_row
    swap-Serves req =
        let c = swap req in
        let m : M (Response (Queue × QueueId)) =
          with_queue req.account_id req.queue_name (swap_found (swap_target req) now) in
        elim (Option-cases (registry db (subject c))) [
          | inl gone ↦
              refuses c m (ApplicationError.queue_not_found req.queue_name) (ground (arith, gone))
                (rw gone refl)
          | inr (old, here) ↦
              let (name, row, _) = registry-some wf (subject c) old here in
              let q : Queue = swapped_queue old (swap_target req) now in
              elim (Option-cases (S.queues.get db.queues q.id)) [
                | inr (p, held) ↦
                    refuses c m (ApplicationError.queue_id_collision (swap_target req))
                      (ground (arith, here, held)) (rw here refl)
                | inl free ↦
                    let apart : swap_target req ≢ old.id = λ e. cc (e, row, free) in
                    let (mid, moved, same) =
                      move_all_schedules_lem old.id (swap_target req) apart db in
                    let rows : S.queues.Rows = S.queues.set mid.queues q.id q in
                    let after : Db = record mid {
                      queue_names = S.queue_names.set mid.queue_names (name_of q) q.id.queue_id;
                      queues = S.queues.erase rows old.id;
                    } in
                    let still : S.queues.get rows old.id ≡ some old =
                      S.queues.get-set_ne mid.queues q.id old.id q apart
                      ∙ ap (λ (r : S.queues.Rows). S.queues.get r old.id) same.queues
                      ∙ row in
                    let name_is : name_of q ≡ subject c =
                      ap (λ (k : QueueName). record k { account_id = req.account_id }) name in
                    performs c m (q, old.id) after (some q)
                      (ground
                        (arith, here, free, moved, S.queues.missing_present rows old.id old still))
                      (subst (λ (k : QueueName). IsChange db after k (some q)) name_is
                        (swap-IsChange db after wf old q row free (name_is ∙ sym name)
                          (ap
                            (λ (r : S.queue_names.Rows).
                              S.queue_names.set r (name_of q) q.id.queue_id)
                            same.queue_names)
                          (ap (λ (r : S.queues.Rows). S.queues.erase (S.queues.set r q.id q) old.id)
                            same.queues)))
                      (rw here (refl, refl))
              ]
        ]

  -- The transaction of a body commits what the body leaves.
  commits :
      (c : Command) (now : ℕ) (db : Db) (m : M (Response (Answer c)))
      → Serves c now db m
      → (r : Response (Answer c)) × (after : Db) × (transact m db ≡ (ok r, after))
        × IsRegistered after
        × Obeys c now (registry db) r (registry after)
  commits c now db m (r, after, run, wf, obeys) = (r, after, transact-ok m db run, wf, obeys)

  -- From contents in which the names index and the queues agree, each of `CreateQueue`,
  -- `UpdateQueue`, `DeleteQueue` and `SwapQueueId` answers without a fault, keeps the two in
  -- agreement, and obeys the map from an account and a name to a queue: a refusal has the reason
  -- in the map that its error names, and leaves the map as it is; an answer has put the queue
  -- that the request describes at its own name, or taken the queue of the name away, and changed
  -- no other name.
  pub handle-Obeys :
      (c : Command) (now : ℕ) (db : Db)
      → IsRegistered db
      → (r : Response (Answer c)) × (after : Db) × (handle c now db ≡ (ok r, after))
        × IsRegistered after
        × Obeys c now (registry db) r (registry after)
  unfolding create_queue update_queue delete_queue swap_queue_id
  handle-Obeys (create req) now db wf = commits (create req) now db _ (create-Serves now db wf req)
  handle-Obeys (update req) now db wf = commits (update req) now db _ (update-Serves now db wf req)
  handle-Obeys (delete a n) now db wf = commits (delete a n) now db _ (delete-Serves now db wf a n)
  handle-Obeys (swap req) now db wf = commits (swap req) now db _ (swap-Serves now db wf req)
