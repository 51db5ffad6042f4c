-- ===== src/Server.antt =====
-- The API server of pkg/server/v0/handler.go: requests of a client, as calls of the two cores, with
-- the cache of queues. Its messages have the fields of the core's, which pbconv.go relabels.
pub mod Handlers
pub mod Swapping
pub mod Purging
pub mod Validators
mod Witnesses
use moab.Base.{
  ◌≡◌, ℕ, suc, ◌*◌, ◌^◌, ◌%◌, Bool, true, false, String, List, [], ◌∷◌, Option, none, some, Result,
  ok, fail, Fault, if◌then◌else◌, not, ◌==◌, ◌||◌, length, take,
}
use moab.Base.Word.{add64, mul64, slt, sign_extend, second}
use moab.Cluster.{Cluster}
use moab.Tasks.Types.{QueueId, Task, EnqueueRequestEntry, DequeueRequest}
use moab.Tasks.Types as tasks_types
use moab.Tasks.Monad as tasks_monad
use moab.Tasks.Enqueue.{enqueue}
use moab.Tasks.Dequeue.{dequeue}
use moab.Tasks.Requests as tasks_requests
use moab.Queues.Types.{Queue, CreateQueueRequest, SwapQueueIdRequest}
use moab.Queues.Types as queues_types
use moab.Queues.Access.{QueueName}
use moab.Queues.Access as queues_access
use moab.Queues.Registry.{create_queue, get_queue_by_name, swap_queue_id}
use moab.Queues.Registry as registry
use moab.Validation.{
  Violation, validate_queue_id, validate_enqueue_request, validate_dequeue_request,
}
use moab.Validation.Messages.{validate_create_queue_request}

-- Why a request of a client fails.
pub data Failure : Type 0 where
  too_many_entries : Failure
  scheduled_too_far : ℕ → Failure
  no_unique_id : Failure
  invalid : Violation → Failure
  queues_error : queues_types.ApplicationError → Failure
  tasks_error : tasks_types.ApplicationError → Failure
  internal : Fault → Failure

pub data Outcome (A : Type 0) : Type 0 where
  done : A → Outcome A
  failed : Failure → Outcome A

-- `isIDCollision` and `isNotFound`.
unfoldable pub is_id_collision : Failure → Bool
is_id_collision (queues_error (queues_types.ApplicationError.queue_id_collision _)) = true
is_id_collision (queues_error (queues_types.ApplicationError.schedule_id_collision _)) = true
is_id_collision _ = false

unfoldable pub is_not_found : Failure → Bool
is_not_found (queues_error (queues_types.ApplicationError.queue_id_not_found _)) = true
is_not_found (queues_error (queues_types.ApplicationError.queue_not_found _)) = true
is_not_found (queues_error (queues_types.ApplicationError.schedule_not_found _ _)) = true
is_not_found (queues_error (queues_types.ApplicationError.schedule_id_not_found _)) = true
is_not_found (tasks_error _) = true
is_not_found _ = false

-- github.com/evrblk/yellowstone-common/cache at a time: what it holds under a key, an entry for
-- what was loaded, and no entry under a key that was deleted.
pub record Cache : Type 1 where
  pub Entries : Type 0
  pub find : Entries → ℕ → QueueName → Option (Outcome Queue)
  pub store : Entries → ℕ → QueueName → Outcome Queue → Entries
  pub delete : Entries → QueueName → Entries
  pub find-delete_self : (c : Entries) (t : ℕ) (k : QueueName) → find (delete c k) t k ≡ none

pub record ServiceLimits : Type 0 where
  pub max_number_of_queues : ℕ
  pub max_enqueue_batch_size : ℕ
  pub max_dequeue_batch_size : ℕ
  pub max_scheduled_delay_in_seconds : ℕ

-- `maxIDGenerationAttempts`.
abbrev pub max_id_generation_attempts : ℕ
max_id_generation_attempts = 5

abbrev pub from_queues : {A : Type 0} → Result (queues_types.Response A) → Outcome A
from_queues (fail e) = failed (internal e)
from_queues (ok (queues_types.refused e)) = failed (queues_error e)
from_queues (ok (queues_types.answer a)) = done a

abbrev pub from_tasks : {A : Type 0} → Result (tasks_types.Response A) → Outcome A
from_tasks (fail e) = failed (internal e)
from_tasks (ok (tasks_types.refused e)) = failed (tasks_error e)
from_tasks (ok (tasks_types.answer a)) = done a

abbrev pub from_unit : Result (Unit {0}) → Outcome (Unit {0})
from_unit (fail e) = failed (internal e)
from_unit (ok u) = done u

-- `resolveScheduledAtAndExpiresAt`; none where the time is too far in the future.
unfoldable pub resolve_scheduled_at_and_expires_at : ℕ → ℕ → ℕ → ℕ → ℕ → Option (ℕ × ℕ)
resolve_scheduled_at_and_expires_at now requested_scheduled_at requested_expires_at
      queue_expires_in_seconds max_scheduled_delay_in_seconds =
    if slt (add64 now (mul64 second max_scheduled_delay_in_seconds)) requested_scheduled_at
    then none
    else (let scheduled_at : ℕ =
          if slt requested_scheduled_at now then now else requested_scheduled_at in
        let ceiling : ℕ = add64 scheduled_at (mul64 queue_expires_in_seconds second) in
        some (
          scheduled_at,
          if (requested_expires_at == 0) || slt ceiling requested_expires_at
              then ceiling
              else requested_expires_at,
        ))

-- An entry for the core: the retry strategy and the deadline come from the queue by default.
abbrev pub core_entry : Queue → EnqueueRequestEntry → ℕ → EnqueueRequestEntry
core_entry queue e expires_at = record e {
  retry_strategy = elim e.retry_strategy [ none ↦ queue.retry_strategy | some s ↦ some s ];
  expires_at = expires_at;
}

unfoldable pub core_entries :
    ℕ → Queue → ℕ → ℕ → List EnqueueRequestEntry → Outcome (List EnqueueRequestEntry)
unfolding resolve_scheduled_at_and_expires_at
core_entries now queue max_delay i [] = done []
core_entries now queue max_delay i (e ∷ es) =
    elim (resolve_scheduled_at_and_expires_at now e.scheduled_at e.expires_at
      queue.expires_in_seconds max_delay) [
        | none ↦ failed (scheduled_too_far i)
        | some times ↦ elim (core_entries now queue max_delay (suc i) es) [
          | failed x ↦ failed x
          | done rest ↦ done (core_entry queue e times.1 ∷ rest)
        ]
      ]

-- `int32(len(req.Entries)) > limits.MaxEnqueueBatchSize`.
abbrev pub exceeds : {A : Type 0} → ℕ → List A → Bool
exceeds limit xs = slt (sign_extend limit) (sign_extend (length xs % 2 ^ 32))

abbrev pub cache_key : ℕ → String → QueueName
cache_key account name = record { account_id = account; name = name }

module _ ⦃Q : queues_access.Stores⦄ ⦃T : tasks_monad.Stores⦄ ⦃C : Cache⦄ where
  -- One process of the server, with its cache, and the cores that it calls.
  pub record Gateway : Type 0 where
    pub queues_cache : C.Entries
    pub cores : Cluster

  abbrev pub Handler : Type 0 → Type 0
  Handler A = Gateway → Outcome A × Gateway

  infixl 5 ◌>>=◌
  abbrev pub ◌>>=◌ : {A B : Type 0} → Handler A → (A → Handler B) → Handler B
  ◌>>=◌ m f g = let r = m g in elim r.0 [ done a ↦ f a r.1 | failed e ↦ (failed e, r.1) ]

  abbrev pub return : {A : Type 0} → Outcome A → Handler A
  return o g = (o, g)

  abbrev pub forget_queue : QueueName → Gateway → Gateway
  forget_queue k g = record g { queues_cache = C.delete g.queues_cache k }

  -- `getQueue`: `GetOrLoad` of the cache, which keeps what is found and what is not found.
  abbrev pub load_queue : QueueName → Gateway → Outcome Queue
  load_queue k g = from_queues (get_queue_by_name k.account_id k.name g.cores.queues)

  abbrev pub is_cacheable : Outcome Queue → Bool
  is_cacheable (done _) = true
  is_cacheable (failed e) = is_not_found e

  unfoldable pub get_queue : ℕ → QueueName → Handler Queue
  get_queue t k g = elim (C.find g.queues_cache t k) [
    | some o ↦ (o, g)
    | none ↦ (
      load_queue k g,
      if is_cacheable (load_queue k g)
          then record g { queues_cache = C.store g.queues_cache t k (load_queue k g) }
          else g,
    )
  ]

  -- A call of a core with a queue of the cache, and the second call of the handlers: where the
  -- queue is not found, with the queue that `retryWithFreshQueueIfPurged` reads.
  unfoldable pub retry_if_purged :
      {A : Type 0} → ℕ → QueueName → Outcome A → (Queue → Handler A) → Handler A
  unfolding get_queue
  retry_if_purged t k (done a) again g = (done a, g)
  retry_if_purged t k (failed e) again g =
      if is_not_found e then (get_queue t k >>= again) (forget_queue k g) else (failed e, g)

  -- The calls of the tasks core, which validates its requests first.
  unfoldable pub call_enqueue : ℕ → QueueId → List EnqueueRequestEntry → Handler (List Task)
  call_enqueue stamp q es g = elim (validate_enqueue_request (some q) es) [
    | some v ↦ (failed (invalid v), g)
    | none ↦
        let r = enqueue q stamp es g.cores.tasks in
        (from_tasks r.0, record g { cores = record (g.cores) { tasks = r.1 } })
  ]

  unfoldable pub call_dequeue : ℕ → DequeueRequest → Handler (List Task)
  call_dequeue stamp req g = elim (validate_dequeue_request req) [
    | some v ↦ (failed (invalid v), g)
    | none ↦
        let r = dequeue req stamp g.cores.tasks in
        (from_tasks r.0, record g { cores = record (g.cores) { tasks = r.1 } })
  ]

  unfoldable pub call_purge_queue : QueueId → Handler (Unit {0})
  call_purge_queue q g = elim (validate_queue_id (some q)) [
    | some v ↦ (failed (invalid v), g)
    | none ↦
        let r = tasks_requests.purge_queue q g.cores.tasks in
        (from_unit r.0, record g { cores = record (g.cores) { tasks = r.1 } })
  ]
