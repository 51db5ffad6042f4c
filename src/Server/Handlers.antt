-- ===== src/Server/Handlers.antt =====
-- The handlers of pkg/server/v0/handler.go for queues and for the tasks of a queue.
use moab.Base.{ℕ, Bool, false, String, List, [], ◌∷◌, Option, none, some, if◌then◌else◌, ◌==◌, take}
use moab.Base.Word.{slt, sign_extend}
use moab.Tasks.Types.{QueueId, Task, EnqueueRequestEntry, DequeueRequest, DequeuingSettings}
use moab.Tasks.Monad as tasks_monad
use moab.Queues.Types.{Queue, CreateQueueRequest}
use moab.Queues.Access.{QueueName}
use moab.Queues.Access as queues_access
use moab.Queues.Registry.{create_queue, delete_queue, swap_queue_id}
use moab.Validation.Messages.{validate_create_queue_request}
use moab.Server.{
  Failure, done, failed, is_id_collision, Cache, ServiceLimits, max_id_generation_attempts,
  from_queues, core_entries, exceeds, cache_key, Handler, ◌>>=◌, return, forget_queue, get_queue,
  retry_if_purged, call_enqueue, call_dequeue, call_purge_queue,
}

-- Whether the settings pause dequeuing.
unfoldable pub is_paused : Option DequeuingSettings → Bool
is_paused none = false
is_paused (some s) = s.dequeuing_paused

-- `DequeueRequest` of a queue: the keepalive timeout comes from the queue by default.
abbrev pub core_dequeue : Queue → ℕ → ℕ → DequeueRequest
core_dequeue queue limit keepalive = record {
  queue_id = queue.id;
  dequeuing_settings = queue.dequeuing_settings;
  dequeue_limit = if limit == 0 then 1 else limit;
  dead_letter_queue_config = queue.dead_letter_queue_config;
  keepalive_timeout_in_seconds =
      if keepalive == 0 then queue.keepalive_timeout_in_seconds else keepalive;
}

module _ ⦃Q : queues_access.Stores⦄ ⦃T : tasks_monad.Stores⦄ ⦃C : Cache⦄ where
  -- `t` is the clock of the process, and the two stamps are those of the calls in the core.
  unfoldable pub enqueue :
      ServiceLimits → ℕ → ℕ → ℕ → ℕ → String → List EnqueueRequestEntry → Handler (List Task)
  enqueue limits t first second account name es =
      if exceeds limits.max_enqueue_batch_size es
      then return (failed Failure.too_many_entries)
      else (get_queue t (cache_key account name) >>= λ queue.
          return (core_entries t queue limits.max_scheduled_delay_in_seconds 0 es) >>= λ entries.
          λ g.
            let r = call_enqueue first queue.id entries g in
            retry_if_purged t (cache_key account name) r.0
              (λ fresh. call_enqueue second fresh.id entries) r.1)

  unfoldable pub dequeue : ServiceLimits → ℕ → ℕ → ℕ → ℕ → String → ℕ → ℕ → Handler (List Task)
  unfolding is_paused
  dequeue limits t first second account name batch keepalive =
      if slt (sign_extend limits.max_dequeue_batch_size) (sign_extend batch)
      then return (failed Failure.too_many_entries)
      else (get_queue t (cache_key account name) >>= λ queue. λ g.
          if is_paused queue.dequeuing_settings
          then (done [], g)
          else (let r = call_dequeue first (core_dequeue queue batch keepalive) g in
              retry_if_purged t (cache_key account name) r.0
                (λ fresh. call_dequeue second (core_dequeue fresh batch keepalive)) r.1))

  -- `SwapQueueId` and `DeleteQueue`, with the changes of the queues core.
  unfoldable pub call_swap_queue_id : ℕ → ℕ → String → ℕ → Handler (Queue × QueueId)
  call_swap_queue_id stamp account name id g =
      let r =
        swap_queue_id (record { account_id = account; queue_name = name; new_queue_id = id }) stamp
          g.cores.queues in
      (from_queues r.0, record g { cores = record (g.cores) { queues = r.1 } })

  unfoldable pub call_delete_queue : ℕ → String → Handler QueueId
  call_delete_queue account name g =
      let r = delete_queue account name g.cores.queues in
      (from_queues r.0, record g { cores = record (g.cores) { queues = r.1 } })

  unfoldable pub call_create_queue : ℕ → CreateQueueRequest → Handler Queue
  call_create_queue stamp req g = elim (validate_create_queue_request req) [
    | some v ↦ (failed (Failure.invalid v), g)
    | none ↦
        let r = create_queue req stamp g.cores.queues in
        (from_queues r.0, record g { cores = record (g.cores) { queues = r.1 } })
  ]

  -- The loop over fresh ids: a collision draws the next one.
  unfoldable pub with_unique_id : {A : Type 0} → List ℕ → (ℕ → Handler A) → Handler A
  with_unique_id [] call g = (failed Failure.no_unique_id, g)
  with_unique_id (id ∷ ids) call g =
      let r = call id g in
      let rest = with_unique_id ids call r.1 in
      elim r.0 [ done a ↦ r | failed e ↦ if is_id_collision e then rest else r ]

  -- `PurgeQueue`, with the ids that `rand.Uint64` draws.
  unfoldable pub purge_queue : List ℕ → ℕ → ℕ → String → Handler (Unit {0})
  purge_queue ids stamp account name =
      with_unique_id (take max_id_generation_attempts ids) (call_swap_queue_id stamp account name)
      >>= λ r. λ g. call_purge_queue r.1 (forget_queue (cache_key account name) g)

  unfoldable pub delete_queue_request : ℕ → String → Handler (Unit {0})
  delete_queue_request account name = call_delete_queue account name >>= λ q.
      λ g. call_purge_queue q (forget_queue (cache_key account name) g)

  -- `CreateQueue`: `req` has everything but the id and the limit.
  unfoldable pub create_queue_request :
      ServiceLimits → List ℕ → ℕ → ℕ → CreateQueueRequest → Handler Queue
  create_queue_request limits ids stamp account req =
      with_unique_id (take max_id_generation_attempts ids) (λ id.
        call_create_queue stamp (record req {
          queue_id = record { account_id = account; queue_id = id };
          max_number_of_queues = limits.max_number_of_queues;
        }))
