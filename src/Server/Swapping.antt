-- ===== src/Server/Swapping.antt =====
-- The loop of `PurgeQueue` in pkg/server/v0/handler.go over ids, as calls of `SwapQueueId`.
use moab.Base.{
  ℕ, ◌≡◌, ◌≢◌, refl, ap, ◌∙◌, subst, String, List, [], ◌∷◌, Option, some, ok, arith, ◌⊎◌, inl, inr,
}
use moab.Base.Transaction.{transact-ok}
use moab.Tasks.Types.{QueueId}
use moab.Tasks.Monad as tasks_monad
use moab.Queues.Types.{Queue, SwapQueueIdRequest, ApplicationError, Response, answer, refused}
use moab.Queues.Access.{QueueName, queues_find, queues_find_by_name}
use moab.Queues.Access as queues_access
use moab.Queues.Registry.{swapped_queue, swap_target, swap_found, swap_queue_id, with_queue}
use moab.Queues.Registry.Names.{registry, IsRegistered, registry-some}
use moab.Queues.Registry.Contract.{swap, Obeys, Effect, Refusal}
use moab.Queues.Registry.Refinement.{handle-Obeys}
use moab.Server.{done, is_id_collision, Cache, cache_key, Gateway}
use moab.Server.Handlers.{with_unique_id, call_swap_queue_id}

Response-cases :
    {A : Type 0} (r : Response A)
    → ((a : A) × (r ≡ answer a)) ⊎ ((e : ApplicationError) × (r ≡ refused e))
Response-cases (answer a) = inl (a, refl)
Response-cases (refused e) = inr (e, refl)

module _ ⦃Q : queues_access.Stores⦄ ⦃T : tasks_monad.Stores⦄ ⦃C : Cache⦄ where
  module _ (stamp account : ℕ) (name : String) where
    abbrev request : ℕ → SwapQueueIdRequest
    request id = record { account_id = account; queue_name = name; new_queue_id = id }

    -- A swap to an id that is taken is refused.
    swap_collides :
        (id : ℕ) (db : queues_access.Db) (old held : Queue)
        → registry db (cache_key account name) ≡ some old
        → Q.queues.get db.queues (swap_target (request id)) ≡ some held
        → swap_queue_id (request id) stamp db
          ≡ (ok (refused (ApplicationError.queue_id_collision (swap_target (request id)))), db)
    unfolding swap_queue_id swap_found queues_find queues_find_by_name
    swap_collides id db old held here taken =
        transact-ok (with_queue account name (swap_found (swap_target (request id)) stamp)) db
          (ground (arith, here, taken))

    -- A swap that is answered gave the queue another id.
    swap_moves :
        (id : ℕ) (db after : queues_access.Db) (old : Queue) (a : Queue × QueueId)
        → IsRegistered db
        → registry db (cache_key account name) ≡ some old
        → swap_queue_id (request id) stamp db ≡ (ok (answer a), after)
        → swap_target (request id) ≢ old.id
    swap_moves id db after old a wf here run e =
        let (_, row, _) = registry-some wf (cache_key account name) old here in
        let refusal = swap_collides id db old old here (ap (Q.queues.get db.queues) e ∙ row) in
        ground (arith, run, refusal)

    -- What the first swap with a free id leaves.
    pub record IsSwapped (g : Gateway) (old : Queue) (r : Queue × QueueId) (after : Gateway)
        : Type 0 where
      pub id : QueueId
      pub new_id : id ≢ old.id
      pub queue : r ≡ (swapped_queue old id stamp, old.id)
      pub registered : IsRegistered after.cores.queues
      pub under_name :
          registry after.cores.queues (cache_key account name) ≡ some (swapped_queue old id stamp)
      pub tasks_same : after.cores.tasks ≡ g.cores.tasks

    -- A swap is answered with the queue under its new id, or collides and changes no name.
    swap_lem :
        (id : ℕ) (db : queues_access.Db) (old : Queue)
        → IsRegistered db
        → registry db (cache_key account name) ≡ some old
        → ((left : queues_access.Db) × (swap_queue_id (request id) stamp db
              ≡ (ok (answer (swapped_queue old (swap_target (request id)) stamp, old.id)), left))
            × IsRegistered left
            × (registry left (cache_key account name)
                ≡ some (swapped_queue old (swap_target (request id)) stamp)))
          ⊎ ((left : queues_access.Db) × (swap_queue_id (request id) stamp db ≡ (
            ok (refused (ApplicationError.queue_id_collision (swap_target (request id)))),
            left,
          ))
              × IsRegistered left
              × (registry left (cache_key account name) ≡ some old))
    swap_lem id db old wf here =
        let k = cache_key account name in
        let c = swap (request id) in
        let (resp, left, run, kept, obeys) = handle-Obeys c stamp db wf in
        elim (Response-cases resp) [
          | inl (a, is) ↦
              let (v, effect, puts) : Obeys c stamp (registry db) (answer a) (registry left) =
                subst
                  (λ (x : Response (Queue × QueueId)).
                    Obeys c stamp (registry db) x (registry left))
                  is obeys in
              let known : Effect c stamp (some old) a v =
                subst (λ (o : Option Queue). Effect c stamp o a v) here effect in
              inl (
                left,
                run
                    ∙ ap (λ (x : Response (Queue × QueueId)). (ok x, left))
                        (is ∙ ap answer known.0),
                kept,
                puts.0 ∙ known.1 ∙ ap (λ (x : Queue × QueueId). some x.0) known.0,
              )
          | inr (x, is) ↦
              let (why, same) : Obeys c stamp (registry db) (refused x) (registry left) =
                subst
                  (λ (y : Response (Queue × QueueId)).
                    Obeys c stamp (registry db) y (registry left))
                  is obeys in
              let known : x ≡ ApplicationError.queue_id_collision (swap_target (request id)) =
                subst (λ (o : Option Queue). Refusal c o x) here why in
              inr (
                left,
                run ∙ ap (λ (y : Response (Queue × QueueId)). (ok y, left)) (is ∙ ap refused known),
                kept,
                same k ∙ here,
              )
        ]

    pub with_unique_id-IsSwapped :
        (ids : List ℕ) (g after : Gateway) (old : Queue) (r : Queue × QueueId)
        → IsRegistered g.cores.queues
        → registry g.cores.queues (cache_key account name) ≡ some old
        → with_unique_id ids (call_swap_queue_id stamp account name) g ≡ (done r, after)
        → IsSwapped g old r after
    unfolding with_unique_id call_swap_queue_id is_id_collision
    with_unique_id-IsSwapped [] g after old r wf here e = absurd (ground (arith, e))
    with_unique_id-IsSwapped (id ∷ ids) g after old r wf here e =
        elim (swap_lem id g.cores.queues old wf here) [
          | inl (left, run, kept, under) ↦ record {
            id = swap_target (request id);
            new_id = swap_moves id g.cores.queues left old _ wf here run;
            queue = ground (arith, run, e);
            registered =
                subst (λ (d : queues_access.Db). IsRegistered d) (ground (arith, run, e)) kept;
            under_name =
                subst
                  (λ (d : queues_access.Db).
                    registry d (cache_key account name)
                    ≡ some (swapped_queue old (swap_target (request id)) stamp))
                  (ground (arith, run, e)) under;
            tasks_same = ground (arith, run, e);
          }
          | inr (left, run, kept, same) ↦
              let again : Gateway = record g { cores = record (g.cores) { queues = left } } in
              let s =
                with_unique_id-IsSwapped ids again after old r kept same (ground (arith, run, e)) in
              record {
                id = s.id;
                new_id = s.new_id;
                queue = s.queue;
                registered = s.registered;
                under_name = s.under_name;
                tasks_same = s.tasks_same;
              }
        ]
