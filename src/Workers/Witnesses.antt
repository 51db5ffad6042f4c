-- ===== src/Workers/Witnesses.antt =====
-- The cron worker at a schedule that ticks each second.
use moab.Queues.Access as queues_access
use moab.Tasks.Samples as tasks_samples
use moab.Queues.Samples.{sample as queues_sample}
use moab.Tasks.Samples.{sample as tasks_sample}
use moab.Honey.ListTable.{find, drop_key, rows_under, first_page, put, list_table}
use moab.Honey.ListIndex.{holds, discard, insert_sorted, sorted_items, between, list_index}
use moab.Base.Word.{add64, mul64, bias64, slt, sle}
use moab.Base.Transaction.{map_m, transact, view}
use moab.Tasks.Types.{QueueId-discrete}
use moab.Queues.Types.{ScheduleId-discrete, Queue, Schedule, DequeSchedulesResponseEntry}
use moab.Queues.Access.{
  QueueName-discrete, ScheduleName-discrete, queue_named, queues_find, queues_find_by_name,
  queues_get, queue_names_set, queues_update, queues_create, counters_get, counters_set,
  schedule_named, schedules_find, schedules_find_by_name, schedules_get, schedules_set,
  scheduled_add, schedule_names_set, schedules_create, collect_due, scheduled_range, list_due, Db,
}
use moab.Queues.Registry.{register, create_queue_checked, create_queue, new_queue}
use moab.Queues.Schedules.{
  pair_with_queue, deque_schedules, attach_schedule, create_schedule_in, create_schedule,
  new_schedule,
}
use moab.Queues.Samples.{
  ScheduleItem-discrete, Unit-discrete, empty_db, queue_request, schedule_request, every_second,
}
use moab.Workers.{add_tick, add_ticks, ticks_of, Cluster, Ticks, due_before_of, passes, fetch}
use moab.Base.{
  ℕ_discrete, decide_text, String-discrete, ℕ, ◌≡◌, ◌⊎◌, refl, List, [], ◌∷◌, ok, fail, Fault,
  length, arith, All,
}
use moab.Workers.Ticking.{Advances, AreTicks, wanted, last_of, ticks_of_lem}
use moab.Workers.Stalling.{IsOverfull, passes_stall}

-- The schedule of the store, which ticks each second.
abbrev nightly : Schedule
nightly =
    new_schedule schedule_request (record { account_id = 0; queue_id = 7; schedule_id = 5 }) 5
      1_000_000_005

abbrev mail : Queue
mail = record (new_queue queue_request 5) { schedules_count = 1 }

second_later : Advances every_second nightly
second_later t u h = ground (arith, h)

ticks_of_lem_example :
    ((e : Fault) × (t : ℕ) × (every_second nightly.cron nightly.timezone t ≡ fail e)
      × (ticks_of every_second 5 60_000_000_005 mail nightly ≡ fail e))
    ⊎ ((ts : List ℕ) × (n : ℕ) × AreTicks every_second nightly 60_000_000_005
          nightly.next_scheduled_at ts n
        × (ticks_of every_second 5 60_000_000_005 mail nightly
            ≡ ok (record {
              entries = wanted 5 mail nightly ts;
              last_enqueued_for = last_of 0 (wanted 5 mail nightly ts);
              scheduled_at = n;
            })))
ticks_of_lem_example =
    ticks_of_lem every_second nightly 5 60_000_000_005 mail second_later (omega arith) (omega arith)

abbrev ticking : queues_access.Db
ticking =
    (create_schedule every_second schedule_request 5 (create_queue queue_request 5 empty_db).1).1

abbrev cluster : Cluster
cluster = record { queues = ticking; tasks = tasks_samples.empty_db }

abbrev entry : DequeSchedulesResponseEntry
entry = record { schedule = nightly; queue = mail }

abbrev no_ticks : Ticks
no_ticks = record { entries = []; last_enqueued_for = 0; scheduled_at = 0 }

-- What the worker gathers at a time, for a time at which it gathers it without a fault.
abbrev gathered : ℕ → Ticks
gathered now = elim (ticks_of every_second now (due_before_of now) mail nightly) [
  | ok s ↦ s
  | fail e ↦ no_ticks
]

nightly_due : deque_schedules (due_before_of 5) ticking ≡ ok (entry ∷ [])
unfolding find drop_key rows_under first_page put list_table holds discard insert_sorted
    sorted_items between list_index add64 bias64 sle map_m transact view QueueId-discrete
    ScheduleId-discrete QueueName-discrete ScheduleName-discrete queue_named queues_find
    queues_find_by_name queues_get queue_names_set queues_update queues_create counters_get
    counters_set schedule_named schedules_find schedules_find_by_name schedules_get schedules_set
    scheduled_add schedule_names_set schedules_create collect_due scheduled_range list_due register
    create_queue_checked create_queue pair_with_queue deque_schedules attach_schedule
    create_schedule_in create_schedule ScheduleItem-discrete Unit-discrete empty_db ℕ_discrete
    decide_text String-discrete
nightly_due = refl

gathers : ticks_of every_second 5 (due_before_of 5) mail nightly ≡ ok (gathered 5)
unfolding find drop_key rows_under first_page put list_table holds discard insert_sorted
    sorted_items between list_index add64 mul64 bias64 slt sle QueueId-discrete ScheduleId-discrete
    QueueName-discrete ScheduleName-discrete ScheduleItem-discrete Unit-discrete add_tick add_ticks
    ticks_of ℕ_discrete decide_text String-discrete
gathers = refl

gathers_many : length (gathered 5).entries ≡ 60
unfolding find drop_key rows_under first_page put list_table holds discard insert_sorted
    sorted_items between list_index add64 mul64 bias64 slt sle QueueId-discrete ScheduleId-discrete
    QueueName-discrete ScheduleName-discrete ScheduleItem-discrete Unit-discrete add_tick add_ticks
    ticks_of ℕ_discrete decide_text String-discrete
gathers_many = refl

cluster-IsOverfull : IsOverfull every_second 5 cluster
cluster-IsOverfull = record {
  first = entry;
  others = [];
  ticks = gathered 5;
  due = nightly_due;
  ticking = gathers;
  many = rw gathers_many (omega arith);
}

passes_stall_example :
    (passes every_second 9 ((5, 6) ∷ []) cluster ≡ cluster)
    × All
        (λ (t : ℕ × ℕ). fetch every_second 9 t.0 t.1 cluster ≡ (fail Fault.refused, cluster))
        ((5, 6) ∷ [])
passes_stall_example = passes_stall every_second 8 ((5, 6) ∷ []) cluster (cluster-IsOverfull, tt)
