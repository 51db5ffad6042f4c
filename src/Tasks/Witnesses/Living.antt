-- ===== src/Tasks/Witnesses/Living.antt =====
-- The transitions of single tasks on the sample store, and the theorems on them.
use moab.Honey.ListTable.{list_table, find, drop_key, put, rows_under, first_page}
use moab.Honey.ListIndex.{list_index, holds, discard, insert_sorted, sorted_items, between}
use moab.Base.{
  ℕ_discrete, String-discrete, decide_text, is_set, ℕ, ◌≡◌, ◌≤◌, ◌<◌, ◌⊎◌, refl, true, false, [],
  ◌∷◌, none, some, ok, arith, In,
}
use moab.Tasks.Types.{
  QueueId-discrete, Task, TaskState, RetryStrategy, ReportStatusRequestEntry, ReportResult, Status,
}
use moab.Tasks.Samples.{
  TaskId-discrete, TextKey-discrete, Item-discrete, TaskItem-discrete, Unit-discrete, empty_db,
  sample, q1, task_of, contents, value, storing, queueing, working, counting,
}
use moab.Base.Word.{add64, sub64, mul64, bias64, slt, sle, add32, sub32, bias32, slt32}
use moab.Tasks.Monad.{for_each, Db, task_in}
use moab.Tasks.Access.{
  tasks_get, tasks_find, tasks_set, tasks_delete, dedupe_delete, queue_index_add,
  queue_index_delete, in_progress_index_add, in_progress_index_delete, dead_tasks_index_add,
  dead_tasks_index_delete, dead_tasks_items, expiration_add, expiration_remove, threads_get,
  threads_set, threads_delete, thread_index_add, thread_index_remove, thread_index_items,
  counters_get, counters_set, no_counters,
}
use moab.Tasks.Threads.{
  read_earliest, reposition_head, replace_head, reconcile_with, reconcile_thread_head, promote_with,
  promote_next_thread_head, detach_task_from_thread, reschedule_task_in_thread,
}
use moab.Tasks.Lifecycle.{
  create_task, release_task, unindex_task, delete_task, heartbeat_task, read_oldest,
  evict_excess_dead_tasks, bury_task, fail_task_to_dead, backoff, fail_task_to_retry, is_exhausted,
  handle_task_failure, DeletionReason,
}
use moab.Tasks.Dequeue.{lease_task}
use moab.Tasks.Requests.{apply_status, report_found, report_entry}
use moab.Tasks.Lifecycle.Retrying.{retry_schedule}
use moab.Tasks.Requests.Reporting.{report_entry_stale, report_entry_once}

-- A new task with a dedupe key.
abbrev created : Task
created = record (task_of 3 TaskState.enqueued "" 30) { dedupe_key = "k" }

abbrev before_create : Db
before_create = counting no_counters empty_db

abbrev after_create : Db
after_create = contents (create_task created before_create)

after_delete : Db
after_delete = contents (delete_task created DeletionReason.succeeded after_create)

-- A task on its first attempt, with two intervals.
abbrev two_retries : RetryStrategy
two_retries = record { retry_intervals_in_seconds = 5 ∷ 60 ∷ [] }

abbrev attempted : Task
attempted = record (task_of 1 TaskState.in_progress "" 11) {
  attempts = 1;
  visible_at = 50;
  retry_strategy = some two_retries;
}

abbrev in_hand : Db
in_hand = working attempted (storing attempted empty_db)

outside : is_set "" ≡ false
unfolding is_set
outside = refl

retry_schedule_example :
    ((2 < 1) × (is_exhausted attempted ≡ true))
    ⊎ ((1 ≤ 2)
        × (is_exhausted attempted ≡ false)
        × (interval : ℕ) × (backoff attempted in_hand ≡ ok (interval, in_hand))
        × In interval (5 ∷ 60 ∷ []))
retry_schedule_example =
    retry_schedule attempted two_retries in_hand refl (omega arith) (omega arith) (omega arith)

-- Reports on that attempt.
abbrev report : Status → ReportStatusRequestEntry
report status = record {
  task_id = task_in q1 1;
  attempt = 1;
  status = status;
  keepalive_timeout_in_seconds = 30;
}

abbrev reported : Db
reported = contents (report_entry 40 none (report Status.succeeded) in_hand)

report_runs :
    report_entry 40 none (report Status.succeeded) in_hand ≡ ok (ReportResult.ok, reported)
unfolding list_table find drop_key put rows_under first_page list_index holds discard insert_sorted
    sorted_items between ℕ_discrete String-discrete decide_text QueueId-discrete TaskId-discrete
    TextKey-discrete Item-discrete TaskItem-discrete Unit-discrete empty_db is_set add64 sub64 mul64
    bias64 slt sle sub32 bias32 slt32 for_each tasks_get tasks_find tasks_set tasks_delete
    dedupe_delete queue_index_add queue_index_delete in_progress_index_add in_progress_index_delete
    dead_tasks_index_add dead_tasks_index_delete dead_tasks_items expiration_add expiration_remove
    threads_get threads_set threads_delete thread_index_add thread_index_remove thread_index_items
    counters_get counters_set read_earliest reposition_head replace_head reconcile_with
    reconcile_thread_head promote_with promote_next_thread_head detach_task_from_thread
    reschedule_task_in_thread release_task unindex_task delete_task heartbeat_task read_oldest
    evict_excess_dead_tasks bury_task fail_task_to_dead backoff fail_task_to_retry is_exhausted
    handle_task_failure apply_status report_found report_entry
report_runs = refl

attempted_found : sample.tasks.get in_hand.tasks (task_in q1 1) ≡ some attempted
unfolding list_table find drop_key put rows_under first_page list_index holds discard insert_sorted
    sorted_items between ℕ_discrete String-discrete decide_text QueueId-discrete TaskId-discrete
    TextKey-discrete Item-discrete TaskItem-discrete Unit-discrete empty_db
attempted_found = refl

report_entry_once_example :
    report_entry 41 none (report Status.failed) reported ≡ ok (ReportResult.not_found, reported)
report_entry_once_example =
    report_entry_once 40 41 none none (report Status.succeeded) (report Status.failed) attempted
      in_hand reported attempted_found refl refl refl report_runs

-- The same task, enqueued again after its first attempt and handed out a second time.
abbrev again : Task
again = record attempted { state = TaskState.enqueued }

abbrev queued_again : Db
queued_again = queueing again (storing again empty_db)

abbrev second_lease : Task
second_lease = value again (lease_task q1 60 30 again queued_again)

abbrev leased_again : Db
leased_again = contents (lease_task q1 60 30 again queued_again)

second_lease_runs : lease_task q1 60 30 again queued_again ≡ ok (second_lease, leased_again)
unfolding list_table find drop_key put rows_under first_page list_index holds discard insert_sorted
    sorted_items between ℕ_discrete String-discrete decide_text QueueId-discrete TaskId-discrete
    TextKey-discrete Item-discrete TaskItem-discrete Unit-discrete empty_db add64 sub64 mul64 add32
    tasks_set queue_index_delete in_progress_index_add expiration_remove lease_task
second_lease_runs = refl

report_entry_stale_example :
    report_entry 61 none (report Status.succeeded) leased_again
    ≡ ok (ReportResult.stale_attempt, leased_again)
report_entry_stale_example =
    report_entry_stale q1 60 30 61 none (report Status.succeeded) again second_lease queued_again
      leased_again second_lease_runs refl refl (omega arith)
