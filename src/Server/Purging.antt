-- ===== src/Server/Purging.antt =====
-- A purge through one process of the server, and what another process with a stale cache does.
use moab.Base.{
  ℕ, ◌≡◌, ◌≢◌, refl, sym, ap, ◌∙◌, false, String, List, none, some, ok, arith, ◌⊎◌, inl, inr, take,
  Option-cases, Result-cases,
}
use moab.Base.Transaction.{view}
use moab.Tasks.Types.{QueueId, Task, EnqueueRequestEntry, DequeueRequest}
use moab.Tasks.Types as tasks_types
use moab.Tasks.Monad as tasks_monad
use moab.Tasks.Requests as tasks_requests
use moab.Tasks.Requests.Purging.{purge_queue_refuses}
use moab.Queues.Types.{Queue}
use moab.Queues.Access.{QueueName, queues_find, queues_find_by_name, queue_named}
use moab.Queues.Access as queues_access
use moab.Queues.Registry.{swapped_queue, get_queue_by_name}
use moab.Queues.Registry.Names.{registry, IsRegistered}
use moab.Validation.{validate_queue_id, validate_enqueue_request}
use moab.Server.{
  Failure, Outcome, done, failed, is_not_found, Cache, ServiceLimits, max_id_generation_attempts,
  core_entries, exceeds, cache_key, Gateway, Handler, ◌>>=◌, forget_queue, load_queue, get_queue,
  retry_if_purged, call_enqueue, call_purge_queue,
}
use moab.Server.Handlers.{enqueue, purge_queue, with_unique_id, call_swap_queue_id}
use moab.Server.Swapping.{with_unique_id-IsSwapped}

Outcome-cases :
    {A : Type 0} (o : Outcome A) → ((a : A) × (o ≡ done a)) ⊎ ((e : Failure) × (o ≡ failed e))
Outcome-cases (done a) = inl (a, refl)
Outcome-cases (failed e) = inr (e, refl)

module _ ⦃Q : queues_access.Stores⦄ ⦃T : tasks_monad.Stores⦄ ⦃C : Cache⦄ where
  -- Inversion of a handler that is done.
  >>=-eq-done :
      {A B : Type 0} (m : Handler A) (f : A → Handler B) (g : Gateway) {b : B} {after : Gateway}
      → (m >>= f) g ≡ (done b, after)
      → (a : A) × (mid : Gateway) × (m g ≡ (done a, mid)) × (f a mid ≡ (done b, after))
  >>=-eq-done m f g e = elim (Outcome-cases (m g).0) [
    | inl (a, is) ↦ (a, (m g).1, ground (arith, is), ground (arith, is, e))
    | inr (x, is) ↦ absurd (ground (arith, is, e))
  ]

  module _ (stamp account : ℕ) (name : String) where
    -- A purge that is answered: the name stands for the queue under a new id, and the tasks core
    -- has purged the old id.
    pub record IsPurged (g : Gateway) (old : Queue) (after : Gateway) : Type 0 where
      pub id : QueueId
      pub new_id : id ≢ old.id
      pub under_name :
          registry after.cores.queues (cache_key account name) ≡ some (swapped_queue old id stamp)
      pub purged : tasks_requests.purge_queue old.id g.cores.tasks ≡ (ok tt, after.cores.tasks)

    call_purge_queue_lem :
        (q : QueueId) (g after : Gateway)
        → call_purge_queue q g ≡ (done tt, after)
        → (tasks_requests.purge_queue q g.cores.tasks ≡ (ok tt, after.cores.tasks))
          × (after.cores.queues ≡ g.cores.queues)
    unfolding call_purge_queue
    call_purge_queue_lem q g after e = elim (Option-cases (validate_queue_id (some q))) [
      | inr (v, bad) ↦ absurd (ground (arith, bad, e))
      | inl good ↦ elim (Result-cases (tasks_requests.purge_queue q g.cores.tasks).0) [
        | inr (x, is) ↦ absurd (ground (arith, good, is, e))
        | inl (u, is) ↦ (ground (arith, good, is, e), ground (arith, good, is, e))
      ]
    ]

    purge_queue-IsPurged :
        (ids : List ℕ) (g after : Gateway) (old : Queue)
        → IsRegistered g.cores.queues
        → registry g.cores.queues (cache_key account name) ≡ some old
        → purge_queue ids stamp account name g ≡ (done tt, after)
        → IsPurged g old after
    unfolding purge_queue
    purge_queue-IsPurged ids g after old wf here e =
        let (r, mid, swaps, purges) =
          >>=-eq-done
            (with_unique_id (take max_id_generation_attempts ids)
              (call_swap_queue_id stamp account name))
            (λ (r : Queue × QueueId).
              λ (x : Gateway). call_purge_queue r.1 (forget_queue (cache_key account name) x))
            g e in
        let s =
          with_unique_id-IsSwapped stamp account name (take max_id_generation_attempts ids) g mid
            old r wf here swaps in
        let (purged, queues_same) =
          call_purge_queue_lem r.1 (forget_queue (cache_key account name) mid) after purges in
        record {
          id = s.id;
          new_id = s.new_id;
          under_name =
              ap (λ (d : queues_access.Db). registry d (cache_key account name)) queues_same
              ∙ s.under_name;
          purged =
              sym (
                ap (λ (x : QueueId × tasks_monad.Db). tasks_requests.purge_queue x.0 x.1)
                  (ground (arith, s.queue, s.tasks_same)))
              ∙ purged;
        }

    -- What the first call of the other process answers.
    call_enqueue_purged :
        (q : QueueId) (first : ℕ) (es : List EnqueueRequestEntry) (before : tasks_monad.Db)
        (g : Gateway)
        → tasks_requests.purge_queue q before ≡ (ok tt, g.cores.tasks)
        → validate_enqueue_request (some q) es ≡ none
        → call_enqueue first q es g
          ≡ (failed (Failure.tasks_error (tasks_types.ApplicationError.queue_not_found q)), g)
    unfolding call_enqueue
    call_enqueue_purged q first es before g purged valid =
        let req : DequeueRequest = record {
          queue_id = q;
          dequeuing_settings = none;
          dequeue_limit = 0;
          dead_letter_queue_config = none;
          keepalive_timeout_in_seconds = 0;
        } in
        let (refusal, _, _) =
          purge_queue_refuses req first es tasks_types.TaskState.enqueued none 0 before
            g.cores.tasks purged in
        ground (arith, valid, refusal)

    -- The queue that the other process reads when it has dropped the stale one.
    load_queue_lem :
        (g : Gateway) (queue : Queue)
        → registry g.cores.queues (cache_key account name) ≡ some queue
        → load_queue (cache_key account name) g ≡ done queue
    unfolding get_queue_by_name queues_find_by_name view
    load_queue_lem g queue here = ground (arith, here)

    -- If `PurgeQueue` through one process of the server is answered, then an `Enqueue` through
    -- any other process, whose cache still has the queue with its old id, does exactly the call
    -- of the tasks core on the new id, in the contents that the purge left; the name stands for
    -- the queue with this id, which is not the old one. The entries are within the limits, and
    -- pass the validation under the old id.
    pub enqueue_after_purge :
        (ids : List ℕ) (g after : Gateway) (old : Queue)
        → IsRegistered g.cores.queues
        → registry g.cores.queues (cache_key account name) ≡ some old
        → purge_queue ids stamp account name g ≡ (done tt, after)
        → (stale : C.Entries) (limits : ServiceLimits) (t first second : ℕ)
          (es entries : List EnqueueRequestEntry)
        → C.find stale t (cache_key account name) ≡ some (done old)
        → exceeds limits.max_enqueue_batch_size es ≡ false
        → core_entries t old limits.max_scheduled_delay_in_seconds 0 es ≡ done entries
        → validate_enqueue_request (some old.id) entries ≡ none
        → (id : QueueId) × (fresh : C.Entries) × (registry after.cores.queues
              (cache_key account name)
            ≡ some (swapped_queue old id stamp))
          × (id ≢ old.id)
          × (enqueue limits t first second account name es
                (record { queues_cache = stale; cores = after.cores })
              ≡ call_enqueue second id entries
                  (record { queues_cache = fresh; cores = after.cores }))
    unfolding enqueue get_queue retry_if_purged is_not_found
    enqueue_after_purge ids g after old wf here run stale limits t first second es entries cached
          few resolved valid =
        let k = cache_key account name in
        let p = purge_queue-IsPurged ids g after old wf here run in
        let queue : Queue = swapped_queue old p.id stamp in
        let dropped : Gateway = record { queues_cache = C.delete stale k; cores = after.cores } in
        let first_call =
          call_enqueue_purged old.id first entries g.cores.tasks
            (record { queues_cache = stale; cores = after.cores }) p.purged valid in
        let loads = load_queue_lem dropped queue p.under_name in
        let misses = C.find-delete_self stale t k in
        (
          p.id,
          C.store (C.delete stale k) t k (done queue),
          p.under_name,
          p.new_id,
          ground (arith, cached, few, resolved, first_call, misses, loads),
        )
