-- ===== src/Workers.antt =====
-- pkg/workers/queues.go: `fetch` of the cron worker, which enqueues a task for each tick of the due
-- schedules. It is a client of the two cores; each of its calls is one transaction of a core. A call
-- fails where its request does not validate or the core answers with an application error.
pub mod Ticking
pub mod Stalling
mod Witnesses
use moab.Base.{
  ℕ, zero, suc, ◌+◌, ◌-◌, ◌*◌, Bool, true, false, String, List, [], ◌∷◌, ◌++◌, Option, none, some,
  Result, ok, fail, Fault, if◌then◌else◌,
}
use moab.Base.Word.{add64, mul64, sle, slt, second}
use moab.Tasks.Types.{EnqueueRequestEntry, RetryStrategy, Task}
use moab.Tasks.Types as tasks_types
use moab.Tasks.Monad as tasks_monad
use moab.Tasks.Enqueue.{enqueue}
use moab.Cluster.{Cluster}
use moab.Queues.Types.{Queue, Schedule, ReportSchedulesStatusRequest, DequeSchedulesResponseEntry}
use moab.Queues.Types as queues_types
use moab.Queues.Access as queues_access
use moab.Queues.Schedules.{deque_schedules, report_schedules_status}
use moab.Validation.{Violation, validate_enqueue_request}
use moab.Validation.Messages.{validate_report_schedules_status_request}

-- What the loop over the ticks of a schedule has gathered.
pub record Ticks : Type 0 where
  pub entries : List EnqueueRequestEntry
  pub last_enqueued_for : ℕ
  pub scheduled_at : ℕ

-- `ExpiresInSeconds` of the schedule, if it overrides that of its queue.
abbrev pub expires_in : Queue → Schedule → ℕ
expires_in queue schedule =
    if slt 0 schedule.expires_in_seconds
    then schedule.expires_in_seconds
    else queue.expires_in_seconds

abbrev pub retry_strategy_of : Queue → Schedule → Option RetryStrategy
retry_strategy_of queue schedule = elim schedule.retry_strategy [
  | none ↦ queue.retry_strategy
  | some s ↦ some s
]

abbrev pub expires_at_of : Queue → Schedule → ℕ → ℕ
expires_at_of queue schedule t = add64 t (mul64 (expires_in queue schedule) second)

abbrev pub tick_entry : Queue → Schedule → ℕ → EnqueueRequestEntry
tick_entry queue schedule t = record {
  payload = schedule.payload;
  scheduled_at = t;
  expires_at = expires_at_of queue schedule t;
  dedupe_key = schedule.dedupe_key;
  retry_strategy = retry_strategy_of queue schedule;
  overwrite_on_duplicate = [];
  thread_id = "";
}

-- One turn of the loop, up to the next tick: a tick that is past or expired already is skipped.
unfoldable pub add_tick : ℕ → Queue → Schedule → Ticks → Ticks
add_tick now queue schedule s =
    if sle now s.scheduled_at
    then (if slt now (expires_at_of queue schedule s.scheduled_at)
        then record s {
          entries = s.entries ++ tick_entry queue schedule s.scheduled_at ∷ [];
          last_enqueued_for = s.scheduled_at;
        }
        else s)
    else s

-- `now.Add(time.Second * 60)`.
abbrev pub due_before_of : ℕ → ℕ
due_before_of now = add64 now (60 * second)

-- `next_tick` stands for time.LoadLocation and gronx.NextTickAfter, as in moab.Queues.Schedules.
module _ (next_tick : String → String → ℕ → Result ℕ) where
  -- The loop over the ticks up to `due_before`.
  unfoldable pub add_ticks : ℕ → ℕ → ℕ → Queue → Schedule → Ticks → Result Ticks
  add_ticks zero now due_before queue schedule s = fail Fault.out_of_fuel
  add_ticks (suc fuel) now due_before queue schedule s = elim (sle s.scheduled_at due_before) [
    | false ↦ ok s
    | true ↦ elim (next_tick schedule.cron schedule.timezone s.scheduled_at) [
      | fail e ↦ fail e
      | ok t ↦
          add_ticks fuel now due_before queue schedule
            (record (add_tick now queue schedule s) { scheduled_at = t })
    ]
  ]

  -- The fuel is enough where each tick is later than the one before.
  unfoldable pub ticks_of : ℕ → ℕ → Queue → Schedule → Result Ticks
  ticks_of now due_before queue schedule =
      add_ticks (suc (suc due_before - schedule.next_scheduled_at)) now due_before queue schedule
        (record { entries = []; last_enqueued_for = 0; scheduled_at = schedule.next_scheduled_at })

-- A call that failed ends the fetch.
abbrev pub and_then {ℓ} :
    {C : Type ℓ} → Result (Unit {0}) × C → (C → Result (Unit {0}) × C) → Result (Unit {0}) × C
and_then (ok _, c) next = next c
and_then (fail e, c) next = (fail e, c)

module _ ⦃Q : queues_access.Stores⦄ ⦃T : tasks_monad.Stores⦄ where
  -- `coreApiClient.Enqueue`; `stamp` is the time that the client puts on its requests.
  unfoldable pub call_enqueue :
      ℕ → Queue → List EnqueueRequestEntry → Cluster → Result (Unit {0}) × Cluster
  call_enqueue stamp queue es c = elim (validate_enqueue_request (some queue.id) es) [
    | some v ↦ (fail Fault.refused, c)
    | none ↦
        let r = enqueue queue.id stamp es c.tasks in
        (
          elim r.0 [
            | fail e ↦ fail e
            | ok response ↦ elim response [
              | tasks_types.answer ts ↦ ok tt
              | tasks_types.refused e ↦ fail Fault.refused
            ]
          ],
          record c { tasks = r.1 },
        )
  ]

  -- `coreApiClient.ReportSchedulesStatus`.
  unfoldable pub call_report :
      ℕ → ReportSchedulesStatusRequest → Cluster → Result (Unit {0}) × Cluster
  call_report stamp req c = elim (validate_report_schedules_status_request req) [
    | some v ↦ (fail Fault.refused, c)
    | none ↦
        let r = report_schedules_status req stamp c.queues in
        (
          elim r.0 [
            | fail e ↦ fail e
            | ok response ↦ elim response [
              | queues_types.answer _ ↦ ok tt
              | queues_types.refused e ↦ fail Fault.refused
            ]
          ],
          record c { queues = r.1 },
        )
  ]

module _ (next_tick : String → String → ℕ → Result ℕ) ⦃Q : queues_access.Stores⦄
    ⦃T : tasks_monad.Stores⦄ where
  -- The body of the loop over the due schedules.
  unfoldable pub serve : ℕ → ℕ → DequeSchedulesResponseEntry → Cluster → Result (Unit {0}) × Cluster
  serve now stamp entry c =
      elim (ticks_of next_tick now (due_before_of now) entry.queue entry.schedule) [
        | fail e ↦ (fail e, c)
        | ok s ↦ and_then (call_enqueue stamp entry.queue s.entries c) (
            call_report stamp (record {
              schedule_id = entry.schedule.id;
              next_scheduled_at = s.scheduled_at;
              last_enqueued_for = s.last_enqueued_for;
            }))
      ]

  unfoldable pub serve_all :
      ℕ → ℕ → List DequeSchedulesResponseEntry → Cluster → Result (Unit {0}) × Cluster
  serve_all now stamp [] c = (ok tt, c)
  serve_all now stamp (e ∷ es) c = and_then (serve now stamp e c) (serve_all now stamp es)

  -- `fetch`: rounds until no schedule is due. `rounds` bounds them.
  unfoldable pub fetch : ℕ → ℕ → ℕ → Cluster → Result (Unit {0}) × Cluster
  fetch zero now stamp c = (fail Fault.out_of_fuel, c)
  fetch (suc rounds) now stamp c = elim (deque_schedules (due_before_of now) c.queues) [
    | fail e ↦ (fail e, c)
    | ok es ↦ elim es [
      | [] ↦ (ok tt, c)
      | e ∷ rest ↦ and_then (serve_all now stamp (e ∷ rest) c) (fetch rounds now stamp)
    ]
  ]

  -- The worker's `handler`, run again and again: each pass has its own time and stamp, and what a
  -- pass returns is only logged.
  unfoldable pub passes : ℕ → List (ℕ × ℕ) → Cluster → Cluster
  passes rounds [] c = c
  passes rounds ((now, stamp) ∷ times) c = passes rounds times (fetch rounds now stamp c).1
