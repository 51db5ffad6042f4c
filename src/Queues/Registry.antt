-- ===== src/Queues/Registry.antt =====
-- The handlers of pkg/queues/core.go on queues: `CreateQueue`, `ListQueues`, `GetQueue`,
-- `GetQueueByName`, `UpdateQueue`, `DeleteQueue` and `SwapQueueId`.
pub mod Moving
pub mod Names
pub mod Changes
pub mod Contract
pub mod Refinement
pub mod Versions
use moab.Base.{ℕ, zero, suc, String, Option, none, some, Result, Fault, if◌then◌else◌, not, ◌==◌}
use moab.Base.Word.{add64, sub64, sle, sign_extend}
use moab.Base.Transaction.{◌>>=◌, ◌>>◌, pure, raise, for_each, transact, view}
use moab.Honey.{Page, Token}
use moab.Pagination.{get_limit_with_defaults}
use moab.Tasks.Types.{QueueId}
use moab.Queues.Types.{
  Queue, Schedule, CreateQueueRequest, UpdateQueueRequest, SwapQueueIdRequest, ApplicationError,
  Response, answer, refused,
}
use moab.Queues.Access.{
  Stores, Db, M, schedule_in, queues_find, queues_find_by_name, queues_create, queues_update,
  queues_delete, queues_swap_id, queues_list, counters_get, counters_set, gc_records_create,
  schedules_page, schedules_delete, schedules_create,
}

-- `defaultGCRecordSchedulesPageSize`.
abbrev pub default_gc_record_schedules_page_size : ℕ
default_gc_record_schedules_page_size = 250

-- The queue that a `CreateQueue` request describes.
abbrev pub new_queue : CreateQueueRequest → ℕ → Queue
new_queue req now = record {
  id = req.queue_id;
  name = req.name;
  description = req.description;
  created_at = now;
  updated_at = now;
  version = 1;
  keepalive_timeout_in_seconds = req.keepalive_timeout_in_seconds;
  retry_strategy = req.retry_strategy;
  dequeuing_settings = req.dequeuing_settings;
  dead_letter_queue_config = req.dead_letter_queue_config;
  expires_in_seconds = req.expires_in_seconds;
  schedules_count = 0;
}

-- A queue with the settings of an `UpdateQueue` request.
abbrev pub updated_queue : Queue → UpdateQueueRequest → ℕ → Queue
updated_queue queue req now = record queue {
  description = req.description;
  updated_at = now;
  keepalive_timeout_in_seconds = req.keepalive_timeout_in_seconds;
  retry_strategy = req.retry_strategy;
  dequeuing_settings = req.dequeuing_settings;
  dead_letter_queue_config = req.dead_letter_queue_config;
  expires_in_seconds = req.expires_in_seconds;
  version = add64 queue.version 1;
}

-- A queue under another id.
abbrev pub swapped_queue : Queue → QueueId → ℕ → Queue
swapped_queue queue id now = record queue {
  id = id;
  updated_at = now;
  version = add64 queue.version 1;
}

abbrev pub swap_target : SwapQueueIdRequest → QueueId
swap_target req = record { account_id = req.account_id; queue_id = req.new_queue_id }

module _ ⦃S : Stores⦄ where
  -- `GetByName`, whose missing row is the error of `queueNotFoundError`.
  abbrev pub with_queue : {A : Type 0} → ℕ → String → (Queue → M (Response A)) → M (Response A)
  with_queue a n body = do
    found ← queues_find_by_name a n
    elim found [
      | none ↦ pure (refused (ApplicationError.queue_not_found n))
      | some queue ↦ body queue
    ]

  -- The last steps of `CreateQueue`, where no check has failed.
  unfoldable pub register : ℕ → Queue → ℕ → M (Response Queue)
  register account queue count = do
    queues_create queue
    counters_set account (record { number_of_queues = add64 count 1 })
    pure (answer queue)

  unfoldable pub create_queue_checked : CreateQueueRequest → ℕ → M (Response Queue)
  create_queue_checked req now = do
    counters ← counters_get req.queue_id.account_id
    namesake ← queues_find_by_name req.queue_id.account_id req.name
    holder ← queues_find req.queue_id
    elim namesake [
      | some _ ↦ pure (refused (ApplicationError.queue_name_exists req.name))
      | none ↦
          if sle req.max_number_of_queues counters.number_of_queues
          then pure (refused (ApplicationError.max_queues_reached req.max_number_of_queues))
          else elim holder [
            | some _ ↦ pure (refused (ApplicationError.queue_id_collision req.queue_id))
            | none ↦ register req.queue_id.account_id (new_queue req now) counters.number_of_queues
          ]
    ]

  unfoldable pub create_queue : CreateQueueRequest → ℕ → Db → Result (Response Queue) × Db
  create_queue req now = transact (create_queue_checked req now)

  unfoldable pub list_queues : ℕ → Option Token → ℕ → Db → Result (Page Queue)
  list_queues account token limit =
      view (queues_list account token (get_limit_with_defaults (sign_extend limit)))

  unfoldable pub get_queue : QueueId → Db → Result (Response Queue)
  get_queue id = view (do
    found ← queues_find id
    elim found [
      | none ↦ pure (refused (ApplicationError.queue_id_not_found id))
      | some queue ↦ pure (answer queue)
    ])

  unfoldable pub get_queue_by_name : ℕ → String → Db → Result (Response Queue)
  get_queue_by_name account name = view (with_queue account name (λ queue. pure (answer queue)))

  unfoldable pub update_found : UpdateQueueRequest → ℕ → Queue → M (Response Queue)
  update_found req now queue =
      if not (queue.version == req.expected_version)
      then pure (
          refused (
            ApplicationError.queue_version_mismatch req.queue_name queue.version
              req.expected_version))
      else (do
        queues_update (updated_queue queue req now)
        pure (answer (updated_queue queue req now)))

  unfoldable pub update_queue : UpdateQueueRequest → ℕ → Db → Result (Response Queue) × Db
  update_queue req now = transact (with_queue req.account_id req.queue_name (update_found req now))

  -- The schedules of the queue are left to the garbage collection, which the record asks for.
  unfoldable pub delete_queue_found : Queue → M (Response QueueId)
  delete_queue_found queue = do
    counters ← counters_get queue.id.account_id
    queues_delete queue
    counters_set queue.id.account_id
        (record { number_of_queues = sub64 counters.number_of_queues 1 })
    gc_records_create queue.id
    pure (answer queue.id)

  unfoldable pub delete_queue : ℕ → String → Db → Result (Response QueueId) × Db
  delete_queue account name = transact (with_queue account name delete_queue_found)

  unfoldable pub move_schedule : QueueId → Schedule → M (Unit {0})
  move_schedule id schedule = do
    schedules_delete schedule
    schedules_create (record schedule { id = schedule_in id schedule.id.schedule_id })

  -- The loop of `SwapQueueId` over the pages of the queue's schedules.
  unfoldable pub move_schedules : ℕ → QueueId → QueueId → Option Token → M (Unit {0})
  move_schedules zero old id token = raise Fault.out_of_fuel
  move_schedules (suc fuel) old id token = do
    page ← schedules_page old token default_gc_record_schedules_page_size
    for_each page.items (move_schedule id)
    elim page.next [ none ↦ pure tt | some next ↦ move_schedules fuel old id (some next) ]

  -- A fuel that is enough: each page but the last gets ahead by a schedule at least.
  unfoldable pub move_all_schedules : QueueId → QueueId → M (Unit {0})
  move_all_schedules old id db =
      move_schedules (suc (S.schedules.remaining db.schedules old none)) old id none db

  unfoldable pub swap_found : QueueId → ℕ → Queue → M (Response (Queue × QueueId))
  swap_found id now queue = do
    holder ← queues_find id
    elim holder [
      | some _ ↦ pure (refused (ApplicationError.queue_id_collision id))
      | none ↦ (do
        move_all_schedules queue.id id
        queues_swap_id queue.id (swapped_queue queue id now)
        pure (answer (swapped_queue queue id now, queue.id)))
    ]

  unfoldable pub swap_queue_id :
      SwapQueueIdRequest → ℕ → Db → Result (Response (Queue × QueueId)) × Db
  swap_queue_id req now =
      transact (with_queue req.account_id req.queue_name (swap_found (swap_target req) now))
