-- ===== src/Queues/Witnesses/Scheduling.antt =====
-- Schedules on the sample store, and the theorems on them.
use mathlib.Core.Path.{◌∙◌}
use moab.Queues.Schedules.Timing as Timing
use moab.Honey.ListTable.{find, drop_key, rows_under, first_page, put, list_table}
use moab.Honey.ListIndex.{holds, discard, insert_sorted, sorted_items, between, list_index}
use moab.Base.Word.{add64, sub64, bias64, sle}
use moab.Base.Transaction.{transact}
use moab.Tasks.Types.{QueueId-discrete}
use moab.Queues.Types.{
  ScheduleId-discrete, ScheduleId, Queue, Schedule, answer, DequeSchedulesResponseEntry,
}
use moab.Queues.Access.{
  QueueName-discrete, ScheduleName-discrete, queue_named, queues_find, queues_find_by_name,
  queue_names_set, queues_update, queues_create, queues_delete, counters_get, counters_set,
  gc_records_create, schedule_named, schedules_find, schedules_find_by_name, schedules_set,
  scheduled_add, schedule_names_set, schedules_create, Db, queue_of,
}
use moab.Queues.Registry.{
  register, create_queue_checked, create_queue, delete_queue_found, delete_queue, new_queue,
}
use moab.Queues.Schedules.{
  attach_schedule, create_schedule_in, create_schedule, new_schedule, max_dequeue_schedules,
  deque_schedules,
}
use moab.Queues.Samples.{
  ScheduleItem-discrete, Unit-discrete, empty_db, sample, q7, queue_request, schedule_request,
  every_second,
}
use moab.Base.{
  ℕ_discrete, decide_text, String-discrete, ℕ, ◌≡◌, ◌≤◌, ◌⊎◌, refl, false, List, none, some, ok,
  fail, not_found, length, arith, All, In, map, sym, ap,
}
use moab.Queues.Schedules.Ticks.{IsTimed, is_due}
use moab.Queues.Schedules.Delivery.{AreOwned, IsDue, deque_schedules_lem}
use moab.Queues.Schedules.Due.{HasQueue, schedule_of}
use moab.Queues.Schedules.Orphans.{delete_queue_stops_schedules}

-- The one queue and the one schedule of the store.
abbrev mail : Queue
mail = record (new_queue queue_request 5) { schedules_count = 1 }

abbrev nightly : Schedule
nightly =
    new_schedule schedule_request (record { account_id = 0; queue_id = 7; schedule_id = 5 }) 5
      1_000_000_005

abbrev stored : Db
stored = (create_queue queue_request 5 empty_db).1

abbrev ticking : Db
ticking = (create_schedule every_second schedule_request 5 stored).1

nothing_scheduled : (id : ScheduleId) → sample.schedules.get stored.schedules id ≡ none
unfolding find drop_key rows_under first_page put list_table holds discard insert_sorted
    sorted_items between list_index add64 bias64 sle transact QueueId-discrete ScheduleId-discrete
    QueueName-discrete ScheduleName-discrete queue_named queues_find queues_find_by_name
    queue_names_set queues_update queues_create counters_get counters_set register
    create_queue_checked create_queue ScheduleItem-discrete Unit-discrete empty_db ℕ_discrete
    decide_text String-discrete
nothing_scheduled id = refl

nothing_due : (id : ScheduleId) (t : ℕ) → is_due stored id t ≡ false
unfolding find drop_key rows_under first_page put list_table holds discard insert_sorted
    sorted_items between list_index add64 bias64 sle transact QueueId-discrete ScheduleId-discrete
    QueueName-discrete ScheduleName-discrete queue_named queues_find queues_find_by_name
    queue_names_set queues_update queues_create counters_get counters_set register
    create_queue_checked create_queue ScheduleItem-discrete Unit-discrete empty_db ℕ_discrete
    decide_text String-discrete
nothing_due id t = refl

stored-IsTimed : IsTimed stored
stored-IsTimed = record {
  timed = λ id s h. absurd (cc (h, nothing_scheduled id));
  stored = λ id t h. absurd (cc (h, nothing_due id t));
}

leave-IsTimed_example :
    IsTimed (Timing.leave every_second (Timing.create schedule_request) 5 stored)
leave-IsTimed_example =
    Timing.leave-IsTimed every_second (Timing.create schedule_request) 5 stored stored-IsTimed

ticking-IsTimed : IsTimed ticking
ticking-IsTimed = leave-IsTimed_example

-- All schedules of the store belong to the queue.
only_nightly :
    (id : ScheduleId) (s : Schedule)
    → sample.schedules.get ticking.schedules id ≡ some s
    → nightly ≡ s
unfolding find drop_key rows_under first_page put list_table holds discard insert_sorted
    sorted_items between list_index add64 bias64 sle transact QueueId-discrete ScheduleId-discrete
    QueueName-discrete ScheduleName-discrete queue_named queues_find queues_find_by_name
    queue_names_set queues_update queues_create counters_get counters_set schedule_named
    schedules_find schedules_find_by_name schedules_set scheduled_add schedule_names_set
    schedules_create register create_queue_checked create_queue attach_schedule create_schedule_in
    create_schedule ScheduleItem-discrete Unit-discrete empty_db ℕ_discrete decide_text
    String-discrete
only_nightly id s h = ground (arith, h)

mail_stored : sample.queues.get ticking.queues q7 ≡ some mail
unfolding find drop_key rows_under first_page put list_table holds discard insert_sorted
    sorted_items between list_index add64 bias64 sle transact QueueId-discrete ScheduleId-discrete
    QueueName-discrete ScheduleName-discrete queue_named queues_find queues_find_by_name
    queue_names_set queues_update queues_create counters_get counters_set schedule_named
    schedules_find schedules_find_by_name schedules_set scheduled_add schedule_names_set
    schedules_create register create_queue_checked create_queue attach_schedule create_schedule_in
    create_schedule ScheduleItem-discrete Unit-discrete empty_db ℕ_discrete decide_text
    String-discrete
mail_stored = refl

ticking-AreOwned : AreOwned ticking
ticking-AreOwned s h =
    let same = only_nightly s.id s h in
    (
      mail,
      ap (λ (x : Schedule). sample.queues.get ticking.queues (queue_of x.id)) (sym same)
          ∙ mail_stored,
    )

deque_schedules_lem_example :
    (es : List DequeSchedulesResponseEntry) × (deque_schedules 2_000_000_000 ticking ≡ ok es)
    × (length es ≤ max_dequeue_schedules)
    × All (HasQueue ticking) es
    × All (IsDue ticking 2_000_000_000) (map schedule_of es)
    × ((s : Schedule)
        → IsDue ticking 2_000_000_000 s
        → In s (map schedule_of es)
          ⊎ ((length es ≡ max_dequeue_schedules)
              × All
                  (λ (x : Schedule). x.next_scheduled_at ≤ s.next_scheduled_at)
                  (map schedule_of es)))
deque_schedules_lem_example =
    deque_schedules_lem ticking 2_000_000_000 ticking-IsTimed ticking-AreOwned

abbrev deleted : Db
deleted = (delete_queue 0 "mail" ticking).1

delete_runs : delete_queue 0 "mail" ticking ≡ (ok (answer q7), deleted)
unfolding find drop_key rows_under first_page put list_table holds discard insert_sorted
    sorted_items between list_index add64 sub64 bias64 sle transact QueueId-discrete
    ScheduleId-discrete QueueName-discrete ScheduleName-discrete queue_named queues_find
    queues_find_by_name queue_names_set queues_update queues_create queues_delete counters_get
    counters_set gc_records_create schedule_named schedules_find schedules_find_by_name
    schedules_set scheduled_add schedule_names_set schedules_create register create_queue_checked
    create_queue delete_queue_found delete_queue attach_schedule create_schedule_in create_schedule
    ScheduleItem-discrete Unit-discrete empty_db ℕ_discrete decide_text String-discrete
delete_runs = refl

nightly_stored : sample.schedules.get ticking.schedules nightly.id ≡ some nightly
unfolding find drop_key rows_under first_page put list_table holds discard insert_sorted
    sorted_items between list_index add64 bias64 sle transact QueueId-discrete ScheduleId-discrete
    QueueName-discrete ScheduleName-discrete queue_named queues_find queues_find_by_name
    queue_names_set queues_update queues_create counters_get counters_set schedule_named
    schedules_find schedules_find_by_name schedules_set scheduled_add schedule_names_set
    schedules_create register create_queue_checked create_queue attach_schedule create_schedule_in
    create_schedule ScheduleItem-discrete Unit-discrete empty_db ℕ_discrete decide_text
    String-discrete
nightly_stored = refl

few_due :
    length (sample.scheduled.in_range ticking.scheduled tt 0 2_000_000_000) ≤ max_dequeue_schedules
unfolding find drop_key rows_under first_page put list_table holds discard insert_sorted
    sorted_items between list_index add64 bias64 sle transact QueueId-discrete ScheduleId-discrete
    QueueName-discrete ScheduleName-discrete queue_named queues_find queues_find_by_name
    queue_names_set queues_update queues_create counters_get counters_set schedule_named
    schedules_find schedules_find_by_name schedules_set scheduled_add schedule_names_set
    schedules_create register create_queue_checked create_queue attach_schedule create_schedule_in
    create_schedule ScheduleItem-discrete Unit-discrete empty_db ℕ_discrete decide_text
    String-discrete
few_due = omega arith

delete_queue_stops_schedules_example : deque_schedules 2_000_000_000 deleted ≡ fail not_found
delete_queue_stops_schedules_example =
    delete_queue_stops_schedules 0 "mail" ticking deleted q7 nightly 2_000_000_000 ticking-IsTimed
      delete_runs refl (nightly_stored, omega arith) few_due
