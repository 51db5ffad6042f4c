-- ===== src/Queues/Schedules.antt =====
-- The handlers of pkg/queues/core.go on schedules: `CreateSchedule`, `GetSchedule`,
-- `ListSchedules`, `UpdateSchedule`, `DeleteSchedule`, `DequeSchedules` and
-- `ReportSchedulesStatus`.
pub mod Ticks
pub mod Retiming
pub mod Timing
pub mod Due
pub mod Delivery
pub mod Orphans
use moab.Base.{ℕ, String, List, Option, none, some, Result, if◌then◌else◌, not, ◌==◌}
use moab.Base.Word.{add64, sub64, sle, sign_extend}
use moab.Base.Transaction.{◌>>=◌, ◌>>◌, pure, lift, map_m, transact, view}
use moab.Honey.{Page, Token}
use moab.Pagination.{get_limit_with_defaults}
use moab.Tasks.Types.{QueueId}
use moab.Queues.Types.{
  ScheduleId, Queue, Schedule, CreateScheduleRequest, UpdateScheduleRequest,
  ReportSchedulesStatusRequest, DequeSchedulesResponseEntry, ApplicationError, Response, answer,
  refused,
}
use moab.Queues.Access.{
  Stores, Db, M, queue_of, queues_get, queues_update, schedules_find, schedules_find_by_name,
  schedules_create, schedules_update, schedules_delete, schedules_page, list_due,
}
use moab.Queues.Registry.{with_queue}

-- `maxDequeueSchedules`.
abbrev pub max_dequeue_schedules : ℕ
max_dequeue_schedules = 250

-- The schedule that a `CreateSchedule` request describes.
abbrev pub new_schedule : CreateScheduleRequest → ScheduleId → ℕ → ℕ → Schedule
new_schedule req id now next = record {
  id = id;
  name = req.schedule_name;
  description = req.description;
  created_at = now;
  updated_at = now;
  version = 1;
  cron = req.cron;
  payload = req.payload;
  dedupe_key = req.dedupe_key;
  expires_in_seconds = req.expires_in_seconds;
  retry_strategy = req.retry_strategy;
  timezone = req.timezone;
  last_checked_at = 0;
  next_scheduled_at = next;
  last_enqueued_for = 0;
}

-- A schedule with the settings of an `UpdateSchedule` request.
abbrev pub updated_schedule : Schedule → UpdateScheduleRequest → ℕ → ℕ → Schedule
updated_schedule schedule req now next = record schedule {
  description = req.description;
  updated_at = now;
  version = add64 schedule.version 1;
  cron = req.cron;
  payload = req.payload;
  dedupe_key = req.dedupe_key;
  expires_in_seconds = req.expires_in_seconds;
  retry_strategy = req.retry_strategy;
  timezone = req.timezone;
  next_scheduled_at = next;
}

-- A schedule after a report.
abbrev pub reported_schedule : Schedule → ReportSchedulesStatusRequest → ℕ → Schedule
reported_schedule schedule req now = record schedule {
  next_scheduled_at = req.next_scheduled_at;
  last_checked_at = now;
  last_enqueued_for =
      if req.last_enqueued_for == 0 then schedule.last_enqueued_for else req.last_enqueued_for;
}

module _ ⦃S : Stores⦄ where
  -- `GetByName` of a schedule, whose missing row is the error of `scheduleNotFoundError`.
  abbrev pub with_schedule :
      {A : Type 0} → Queue → String → (Schedule → M (Response A)) → M (Response A)
  with_schedule queue n body = do
    found ← schedules_find_by_name queue.id n
    elim found [
      | none ↦ pure (refused (ApplicationError.schedule_not_found queue.name n))
      | some schedule ↦ body schedule
    ]

  unfoldable pub get_schedule : ℕ → String → String → Db → Result (Response Schedule)
  get_schedule account queue_name name = view (
      with_queue account queue_name
        (λ queue. with_schedule queue name (λ schedule. pure (answer schedule))))

  unfoldable pub list_schedules : QueueId → Option Token → ℕ → Db → Result (Page Schedule)
  list_schedules q token limit =
      view (schedules_page q token (get_limit_with_defaults (sign_extend limit)))

  unfoldable pub delete_schedule_found : Queue → Schedule → M (Response (Unit {0}))
  delete_schedule_found queue schedule = do
    schedules_delete schedule
    queues_update (record queue { schedules_count = sub64 queue.schedules_count 1 })
    pure (answer tt)

  unfoldable pub delete_schedule : ℕ → String → String → Db → Result (Response (Unit {0})) × Db
  delete_schedule account queue_name name = transact (
      with_queue account queue_name
        (λ queue. with_schedule queue name (delete_schedule_found queue)))

  -- Each due schedule with its queue; a queue that is missing fails the call.
  unfoldable pub pair_with_queue : Schedule → M DequeSchedulesResponseEntry
  pair_with_queue schedule = do
    queue ← queues_get (queue_of schedule.id)
    pure (record { schedule = schedule; queue = queue })

  unfoldable pub deque_schedules : ℕ → Db → Result (List DequeSchedulesResponseEntry)
  deque_schedules due_before =
      view
        (do schedules ← list_due due_before max_dequeue_schedules; map_m pair_with_queue schedules)

  unfoldable pub report_found : ReportSchedulesStatusRequest → ℕ → M (Response (Unit {0}))
  report_found req now = do
    found ← schedules_find req.schedule_id
    elim found [
      | none ↦ pure (refused (ApplicationError.schedule_id_not_found req.schedule_id))
      | some schedule ↦ (do schedules_update (reported_schedule schedule req now); pure (answer tt))
    ]

  unfoldable pub report_schedules_status :
      ReportSchedulesStatusRequest → ℕ → Db → Result (Response (Unit {0})) × Db
  report_schedules_status req now = transact (report_found req now)

-- `next_tick` stands for time.LoadLocation and gronx.NextTickAfter: from the cron expression, the
-- time zone and a time, the next tick after the time, or the error of one of the two.
module _ ⦃S : Stores⦄ (next_tick : String → String → ℕ → Result ℕ) where
  -- The last steps of `CreateSchedule`, where no check has failed.
  unfoldable pub attach_schedule :
      CreateScheduleRequest → Queue → ScheduleId → ℕ → M (Response Schedule)
  attach_schedule req queue id now = do
    next ← lift (next_tick req.cron req.timezone now)
    schedules_create (new_schedule req id now next)
    queues_update (record queue { schedules_count = add64 queue.schedules_count 1 })
    pure (answer (new_schedule req id now next))

  unfoldable pub create_schedule_in : CreateScheduleRequest → ℕ → Queue → M (Response Schedule)
  create_schedule_in req now queue = do
    let id : ScheduleId = record {
      account_id = req.account_id;
      queue_id = queue.id.queue_id;
      schedule_id = req.schedule_id;
    }
    holder ← schedules_find id
    namesake ← schedules_find_by_name queue.id req.schedule_name
    elim holder [
      | some _ ↦ pure (refused (ApplicationError.schedule_id_collision id))
      | none ↦
          if sle req.max_number_of_schedules_per_queue queue.schedules_count
          then pure (
              refused
                (ApplicationError.max_schedules_reached req.max_number_of_schedules_per_queue))
          else elim namesake [
            | some _ ↦
                pure (refused (ApplicationError.schedule_name_exists req.schedule_name queue.name))
            | none ↦ attach_schedule req queue id now
          ]
    ]

  unfoldable pub create_schedule : CreateScheduleRequest → ℕ → Db → Result (Response Schedule) × Db
  create_schedule req now =
      transact (with_queue req.account_id req.queue_name (create_schedule_in req now))

  unfoldable pub update_schedule_found :
      UpdateScheduleRequest → ℕ → Schedule → M (Response Schedule)
  update_schedule_found req now schedule =
      if not (schedule.version == req.expected_version)
      then pure (
          refused (
            ApplicationError.schedule_version_mismatch req.queue_name req.schedule_name
              schedule.version req.expected_version))
      else (do
        next ← lift (next_tick req.cron req.timezone now)
        schedules_update (updated_schedule schedule req now next)
        pure (answer (updated_schedule schedule req now next)))

  unfoldable pub update_schedule : UpdateScheduleRequest → ℕ → Db → Result (Response Schedule) × Db
  update_schedule req now = transact (
      with_queue req.account_id req.queue_name
        (λ queue. with_schedule queue req.schedule_name (update_schedule_found req now)))
