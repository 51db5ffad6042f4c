-- ===== src/Queues/Witnesses/Naming.antt =====
-- Queues on the sample store, and the theorems on them.
use mathlib.Core.Path.{subst}
use moab.Queues.Registry.Contract as Contract
use moab.Queues.Registry.Refinement as Registry
use moab.Honey.ListTable.{find, drop_key, rows_under, first_page, put, list_table}
use moab.Honey.ListIndex.{holds, discard, insert_sorted, sorted_items, between, list_index}
use moab.Base.Word.{add64, bias64, sle}
use moab.Base.Transaction.{transact}
use moab.Tasks.Types.{QueueId-discrete, QueueId}
use moab.Queues.Types.{
  ScheduleId-discrete, ScheduleId, Queue, Response, answer, refused, ApplicationError,
  UpdateQueueRequest,
}
use moab.Queues.Access.{
  QueueName-discrete, ScheduleName-discrete, queue_named, queues_find, queues_find_by_name,
  queue_names_set, queues_update, queues_create, counters_get, counters_set, Db, QueueName,
}
use moab.Queues.Registry.{
  register, create_queue_checked, create_queue, update_found, update_queue, new_queue,
  updated_queue,
}
use moab.Queues.Samples.{
  ScheduleItem-discrete, Unit-discrete, empty_db, sample, queue_request, schedule_request,
  every_second,
}
use moab.Base.{
  ℕ_discrete, decide_text, String-discrete, ℕ, ◌≡◌, refl, false, none, Result, ok, sym, ap,
}
use moab.Queues.Registry.Names.{IsRegistered, registry}
use moab.Queues.Schedules.Ticks.{IsTimed, is_due}
use moab.Queues.Registry.Versions.{update_queue_once}
use moab.Queues.Schedules.{create_schedule}

abbrev stored : Db
stored = (create_queue queue_request 5 empty_db).1

-- The queue as it is first stored.
abbrev mail : Queue
mail = new_queue queue_request 5

abbrev ticking : Db
ticking = (create_schedule every_second schedule_request 5 stored).1

nothing_named : (k : QueueName) → sample.queue_names.get empty_db.queue_names k ≡ none
unfolding find drop_key rows_under first_page put list_table holds discard insert_sorted
    sorted_items between list_index QueueId-discrete ScheduleId-discrete QueueName-discrete
    ScheduleName-discrete ScheduleItem-discrete Unit-discrete empty_db ℕ_discrete decide_text
    String-discrete
nothing_named k = refl

nothing_stored : (id : QueueId) → sample.queues.get empty_db.queues id ≡ none
unfolding find drop_key rows_under first_page put list_table holds discard insert_sorted
    sorted_items between list_index QueueId-discrete ScheduleId-discrete QueueName-discrete
    ScheduleName-discrete ScheduleItem-discrete Unit-discrete empty_db ℕ_discrete decide_text
    String-discrete
nothing_stored id = refl

nothing_scheduled : (id : ScheduleId) → sample.schedules.get empty_db.schedules id ≡ none
unfolding find drop_key rows_under first_page put list_table holds discard insert_sorted
    sorted_items between list_index QueueId-discrete ScheduleId-discrete QueueName-discrete
    ScheduleName-discrete ScheduleItem-discrete Unit-discrete empty_db ℕ_discrete decide_text
    String-discrete
nothing_scheduled id = refl

nothing_due : (id : ScheduleId) (t : ℕ) → is_due empty_db id t ≡ false
unfolding find drop_key rows_under first_page put list_table holds discard insert_sorted
    sorted_items between list_index QueueId-discrete ScheduleId-discrete QueueName-discrete
    ScheduleName-discrete ScheduleItem-discrete Unit-discrete empty_db ℕ_discrete decide_text
    String-discrete
nothing_due id t = refl

empty_db-IsRegistered : IsRegistered empty_db
empty_db-IsRegistered = record {
  named = λ k i h. absurd (cc (h, nothing_named k));
  listed = λ id q h. absurd (cc (h, nothing_stored id));
}

empty_db-IsTimed : IsTimed empty_db
empty_db-IsTimed = record {
  timed = λ id s h. absurd (cc (h, nothing_scheduled id));
  stored = λ id t h. absurd (cc (h, nothing_due id t));
}

handle-Obeys_example :
    (r : Response Queue) × (after : Db) × (Registry.handle
        (Contract.create queue_request)
        5
        empty_db
      ≡ (ok r, after))
    × IsRegistered after
    × Contract.Obeys (Contract.create queue_request) 5 (registry empty_db) r (registry after)
handle-Obeys_example =
    Registry.handle-Obeys (Contract.create queue_request) 5 empty_db empty_db-IsRegistered

create_runs : create_queue queue_request 5 empty_db ≡ (ok (answer mail), stored)
unfolding find drop_key rows_under first_page put list_table holds discard insert_sorted
    sorted_items between list_index add64 bias64 sle transact QueueId-discrete ScheduleId-discrete
    QueueName-discrete ScheduleName-discrete queue_named queues_find queues_find_by_name
    queue_names_set queues_update queues_create counters_get counters_set register
    create_queue_checked create_queue ScheduleItem-discrete Unit-discrete empty_db ℕ_discrete
    decide_text String-discrete
create_runs = refl

stored-IsRegistered : IsRegistered stored
stored-IsRegistered =
    let (r, after, run, wf, _) = handle-Obeys_example in
    let same : after ≡ stored = ap (λ (x : Result (Response Queue) × Db). x.1) (sym run) in
    subst IsRegistered same wf

abbrev change : UpdateQueueRequest
change = record {
  account_id = 0;
  queue_name = "mail";
  description = "letters";
  keepalive_timeout_in_seconds = 30;
  retry_strategy = none;
  dequeuing_settings = none;
  dead_letter_queue_config = none;
  expires_in_seconds = 900;
  expected_version = 1;
}

-- The queue with the new settings.
abbrev renewed : Queue
renewed = record (updated_queue mail change 6) { version = 2 }

abbrev changed : Db
changed = (update_queue change 6 stored).1

change_runs : update_queue change 6 stored ≡ (ok (answer renewed), changed)
unfolding find drop_key rows_under first_page put list_table holds discard insert_sorted
    sorted_items between list_index add64 bias64 sle transact QueueId-discrete ScheduleId-discrete
    QueueName-discrete ScheduleName-discrete queue_named queues_find queues_find_by_name
    queue_names_set queues_update queues_create counters_get counters_set register
    create_queue_checked create_queue update_found update_queue ScheduleItem-discrete Unit-discrete
    empty_db ℕ_discrete decide_text String-discrete
change_runs = refl

update_queue_once_example :
    update_queue change 7 changed
    ≡ (ok (refused (ApplicationError.queue_version_mismatch "mail" (add64 1 1) 1)), changed)
update_queue_once_example =
    update_queue_once change change 6 7 stored changed renewed stored-IsRegistered change_runs refl
      refl
