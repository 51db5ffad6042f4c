-- ===== src/Tasks/Witnesses/Requesting.antt =====
-- Requests to the queue and its garbage collections on the sample store, and the theorems on them.
use moab.Honey.ListTable.{list_table, find, drop_key, put, rows_under, first_page}
use moab.Honey.ListIndex.{list_index, holds, discard, insert_sorted, sorted_items, between}
use moab.Base.{
  ℕ_discrete, String-discrete, decide_text, is_set, ◌≡◌, ◌≢◌, ◌⊎◌, refl, true, false, List, [], ◌∷◌,
  Option, none, some, ok, fail, not_found, arith, inl, map, All, ◌+◌,
}
use moab.Tasks.Types.{
  QueueId-discrete, Task, TaskState, EnqueueRequestEntry, answer, RestartTasksRequestEntry,
  RestartTasksResponseEntry, RestartResult,
}
use moab.Tasks.Samples.{
  TaskId-discrete, TextKey-discrete, Item-discrete, TaskItem-discrete, Unit-discrete, empty_db,
  sample, q1, task_of, contents, entry, storing, expiring, at_state,
}
use moab.Base.Word.{add64, sub64, mul64, bias64, slt, sle, sign_extend}
use moab.Tasks.Monad.{for_each, transact, view, Db, task_in}
use moab.Tasks.Access.{
  tasks_get, tasks_find, tasks_set, tasks_delete, dedupe_find, dedupe_set, dedupe_delete,
  queue_index_add, queue_index_delete, in_progress_index_delete, dead_tasks_index_delete,
  tasks_page, expiration_add, expiration_remove, expiration_range, threads_get, threads_find,
  threads_set, threads_delete, thread_index_add, thread_index_remove, thread_index_items,
  counters_get, counters_set, queue_state_get, queue_state_set, counters_delete, queue_state_delete,
  rate_limiters_delete, purge_create, purge_exists, purge_delete, purge_list, queue_state_of,
}
use moab.Tasks.Threads.{
  read_earliest, reposition_head, replace_head, reconcile_with, reconcile_thread_head, promote_with,
  promote_next_thread_head, attach_with, attach_task_to_thread, detach_task_from_thread,
  reschedule_task_in_thread,
}
use moab.Tasks.Lifecycle.{create_task, release_task, unindex_task, delete_task}
use moab.Tasks.Dequeue.{check_queue_not_purged, unless_purged}
use moab.Tasks.Requests.{purge_queue}
use moab.Tasks.Enqueue.{
  overwrite_field, overwrite_fields, overwrite_enqueued, overwrite_duplicate, enqueue_new,
  find_duplicate, enqueue_entry, enqueue_entries, enqueue_unpurged, enqueue, restart_task,
  restart_dead, restart_entry, not_before, new_task,
}
use moab.Tasks.Gc.{
  or_default, collect_due, list_due, sweep_found, sweep_item, sweep, run_tasks_garbage_collection,
  purge_tasks, drop_record, purge_record, purge_records, run_purge_queue_garbage_collection,
}
use moab.Tasks.Enqueue.Restarting.{IsRestarted, restart_entry_lem}
use moab.Tasks.Lifecycle.Creating.{IsCreated}
use moab.Tasks.Enqueue.Numbering.{next_ids, task_id_of, enqueue_numbers}
use moab.Tasks.Enqueue.Deduping.{dedupe_key_of, enqueue_entry_dedupes, enqueue_entry_duplicate}
use moab.Tasks.Gc.Sweeping.{run_tasks_garbage_collection_ends}
use moab.Tasks.Gc.Draining.{run_purge_queue_garbage_collection_ends}

abbrev purged : Db
purged = (purge_queue q1 empty_db).1

-- Two entries, one of them in the past.
abbrev two_entries : List EnqueueRequestEntry
two_entries = entry "" 5 ∷ entry "t" 30 ∷ []

abbrev used : Db
used =
    at_state
      (record { task_id_sequence = 7; last_visited_enqueued = 4; last_visited_in_progress = 4 })
      empty_db

abbrev enqueued : Db
enqueued = (enqueue q1 20 two_entries used).1

abbrev new_tasks : List Task
new_tasks = new_task q1 20 (entry "" 5) 20 8 ∷ new_task q1 20 (entry "t" 30) 30 9 ∷ []

enqueue_runs : enqueue q1 20 two_entries used ≡ (ok (answer new_tasks), enqueued)
unfolding list_table find drop_key put rows_under first_page list_index holds discard insert_sorted
    sorted_items between ℕ_discrete String-discrete decide_text QueueId-discrete TaskId-discrete
    TextKey-discrete Item-discrete TaskItem-discrete Unit-discrete empty_db is_set add64 mul64
    bias64 slt sign_extend for_each transact view tasks_get tasks_set dedupe_find dedupe_set
    queue_index_add queue_index_delete expiration_add expiration_remove threads_get threads_find
    threads_set thread_index_add thread_index_remove thread_index_items counters_get counters_set
    queue_state_get queue_state_set purge_create purge_exists read_earliest reposition_head
    replace_head reconcile_with reconcile_thread_head attach_with attach_task_to_thread
    reschedule_task_in_thread create_task check_queue_not_purged unless_purged purge_queue
    overwrite_field overwrite_fields overwrite_enqueued overwrite_duplicate enqueue_new
    find_duplicate enqueue_entry enqueue_entries enqueue_unpurged enqueue
enqueue_runs = refl

used_sequence : (queue_state_of used q1).task_id_sequence ≡ 7
unfolding list_table find drop_key put rows_under first_page list_index holds discard insert_sorted
    sorted_items between ℕ_discrete String-discrete decide_text QueueId-discrete TaskId-discrete
    TextKey-discrete Item-discrete TaskItem-discrete Unit-discrete empty_db
used_sequence = refl

unkeyed : All (λ (e : EnqueueRequestEntry). is_set e.dedupe_key ≡ false) two_entries
unfolding is_set
unkeyed = (refl, (refl, tt))

enqueue_numbers_example :
    (map task_id_of new_tasks ≡ next_ids q1 (queue_state_of used q1).task_id_sequence 2)
    × (queue_state_of enqueued q1 ≡ record (queue_state_of used q1) {
      task_id_sequence = (queue_state_of used q1).task_id_sequence + 2;
    })
enqueue_numbers_example =
    enqueue_numbers q1 20 two_entries used new_tasks enqueued unkeyed
      (rw used_sequence (omega arith)) enqueue_runs

-- An entry with the key "k", twice.
abbrev keyed : EnqueueRequestEntry
keyed = record (entry "" 11) { dedupe_key = "k" }

abbrev first : Db
first = contents (enqueue_entry q1 20 keyed 7 used)

keyed_runs : enqueue_entry q1 20 keyed 7 used ≡ ok ((some (new_task q1 20 keyed 20 8), 8), first)
unfolding list_table find drop_key put rows_under first_page list_index holds discard insert_sorted
    sorted_items between ℕ_discrete String-discrete decide_text QueueId-discrete TaskId-discrete
    TextKey-discrete Item-discrete TaskItem-discrete Unit-discrete empty_db is_set add64 mul64
    bias64 slt sign_extend for_each transact view tasks_get tasks_set dedupe_find dedupe_set
    queue_index_add queue_index_delete expiration_add expiration_remove threads_get threads_find
    threads_set thread_index_add thread_index_remove thread_index_items counters_get counters_set
    queue_state_get queue_state_set purge_create purge_exists read_earliest reposition_head
    replace_head reconcile_with reconcile_thread_head attach_with attach_task_to_thread
    reschedule_task_in_thread create_task check_queue_not_purged unless_purged purge_queue
    overwrite_field overwrite_fields overwrite_enqueued overwrite_duplicate enqueue_new
    find_duplicate enqueue_entry enqueue_entries enqueue_unpurged enqueue
keyed_runs = refl

has_key : is_set "k" ≡ true
unfolding is_set
has_key = refl

key_free : sample.dedupe_keys_index.get used.dedupe_keys_index (dedupe_key_of q1 "k") ≡ none
unfolding list_table find drop_key put rows_under first_page list_index holds discard insert_sorted
    sorted_items between ℕ_discrete String-discrete decide_text QueueId-discrete TaskId-discrete
    TextKey-discrete Item-discrete TaskItem-discrete Unit-discrete empty_db
key_free = refl

key_taken : sample.dedupe_keys_index.get first.dedupe_keys_index (dedupe_key_of q1 "k") ≡ some 8
unfolding list_table find drop_key put rows_under first_page list_index holds discard insert_sorted
    sorted_items between ℕ_discrete String-discrete decide_text QueueId-discrete TaskId-discrete
    TextKey-discrete Item-discrete TaskItem-discrete Unit-discrete empty_db is_set add64 mul64
    bias64 slt sign_extend for_each transact view tasks_get tasks_set dedupe_find dedupe_set
    queue_index_add queue_index_delete expiration_add expiration_remove threads_get threads_find
    threads_set thread_index_add thread_index_remove thread_index_items counters_get counters_set
    queue_state_get queue_state_set purge_create purge_exists read_earliest reposition_head
    replace_head reconcile_with reconcile_thread_head attach_with attach_task_to_thread
    reschedule_task_in_thread create_task check_queue_not_purged unless_purged purge_queue
    overwrite_field overwrite_fields overwrite_enqueued overwrite_duplicate enqueue_new
    find_duplicate enqueue_entry enqueue_entries enqueue_unpurged enqueue
key_taken = refl

first_stored : sample.tasks.get first.tasks (task_in q1 8) ≡ some (new_task q1 20 keyed 20 8)
unfolding list_table find drop_key put rows_under first_page list_index holds discard insert_sorted
    sorted_items between ℕ_discrete String-discrete decide_text QueueId-discrete TaskId-discrete
    TextKey-discrete Item-discrete TaskItem-discrete Unit-discrete empty_db is_set add64 mul64
    bias64 slt sign_extend for_each transact view tasks_get tasks_set dedupe_find dedupe_set
    queue_index_add queue_index_delete expiration_add expiration_remove threads_get threads_find
    threads_set thread_index_add thread_index_remove thread_index_items counters_get counters_set
    queue_state_get queue_state_set purge_create purge_exists read_earliest reposition_head
    replace_head reconcile_with reconcile_thread_head attach_with attach_task_to_thread
    reschedule_task_in_thread create_task check_queue_not_purged unless_purged purge_queue
    overwrite_field overwrite_fields overwrite_enqueued overwrite_duplicate enqueue_new
    find_duplicate enqueue_entry enqueue_entries enqueue_unpurged enqueue
first_stored = refl

enqueue_entry_dedupes_example :
    IsCreated (new_task q1 20 keyed (not_before 20 11) (add64 7 1)) used first
    × (enqueue_entry q1 25 keyed 8 first ≡ ok ((none, 8), first))
enqueue_entry_dedupes_example =
    enqueue_entry_dedupes q1 20 25 keyed keyed 7 8 used (some (new_task q1 20 keyed 20 8), 8) first
      has_key refl refl key_free keyed_runs

enqueue_entry_duplicate_example :
    (r : Option Task) × (enqueue_entry q1 25 keyed 8 first ≡ ok ((r, 8), first))
enqueue_entry_duplicate_example =
    enqueue_entry_duplicate q1 25 8 keyed 8 (new_task q1 20 keyed 20 8) first has_key key_taken
      first_stored (inl refl)

-- A task in a thread that has no row: its deletion fails.
abbrev orphan : Task
orphan = record (task_of 1 TaskState.enqueued "t" 11) { expires_at = 15 }

abbrev broken : Db
broken = expiring orphan (storing orphan purged)

sweep_runs : run_tasks_garbage_collection 20 0 0 broken ≡ (fail not_found, broken)
unfolding list_table find drop_key put rows_under first_page list_index holds discard insert_sorted
    sorted_items between ℕ_discrete String-discrete decide_text QueueId-discrete TaskId-discrete
    TextKey-discrete Item-discrete TaskItem-discrete Unit-discrete empty_db is_set add64 sub64 mul64
    bias64 slt sle sign_extend for_each transact view tasks_get tasks_find tasks_set tasks_delete
    dedupe_find dedupe_set dedupe_delete queue_index_add queue_index_delete in_progress_index_delete
    dead_tasks_index_delete expiration_add expiration_remove expiration_range threads_get
    threads_find threads_set threads_delete thread_index_add thread_index_remove thread_index_items
    counters_get counters_set queue_state_get queue_state_set purge_create purge_exists
    read_earliest reposition_head replace_head reconcile_with reconcile_thread_head promote_with
    promote_next_thread_head attach_with attach_task_to_thread detach_task_from_thread
    reschedule_task_in_thread create_task release_task unindex_task delete_task
    check_queue_not_purged unless_purged purge_queue overwrite_field overwrite_fields
    overwrite_enqueued overwrite_duplicate enqueue_new find_duplicate enqueue_entry enqueue_entries
    enqueue_unpurged enqueue or_default collect_due list_due sweep_found sweep_item sweep
    run_tasks_garbage_collection
sweep_runs = refl

run_tasks_garbage_collection_ends_example : (not_found ≡ not_found) × (broken ≡ broken)
run_tasks_garbage_collection_ends_example =
    run_tasks_garbage_collection_ends 20 0 0 broken broken not_found sweep_runs

drain_runs : run_purge_queue_garbage_collection 0 0 0 broken ≡ (fail not_found, broken)
unfolding list_table find drop_key put rows_under first_page list_index holds discard insert_sorted
    sorted_items between ℕ_discrete String-discrete decide_text QueueId-discrete TaskId-discrete
    TextKey-discrete Item-discrete TaskItem-discrete Unit-discrete empty_db is_set add64 sub64 mul64
    bias64 slt sle sign_extend for_each transact view tasks_get tasks_set tasks_delete dedupe_find
    dedupe_set dedupe_delete queue_index_add queue_index_delete in_progress_index_delete
    dead_tasks_index_delete tasks_page expiration_add expiration_remove threads_get threads_find
    threads_set threads_delete thread_index_add thread_index_remove thread_index_items counters_get
    counters_set queue_state_get queue_state_set counters_delete queue_state_delete
    rate_limiters_delete purge_create purge_exists purge_delete purge_list read_earliest
    reposition_head replace_head reconcile_with reconcile_thread_head promote_with
    promote_next_thread_head attach_with attach_task_to_thread detach_task_from_thread
    reschedule_task_in_thread create_task release_task unindex_task delete_task
    check_queue_not_purged unless_purged purge_queue overwrite_field overwrite_fields
    overwrite_enqueued overwrite_duplicate enqueue_new find_duplicate enqueue_entry enqueue_entries
    enqueue_unpurged enqueue or_default purge_tasks drop_record purge_record purge_records
    run_purge_queue_garbage_collection
drain_runs = refl

run_purge_queue_garbage_collection_ends_example : (not_found ≡ not_found) × (broken ≡ broken)
run_purge_queue_garbage_collection_ends_example =
    run_purge_queue_garbage_collection_ends 0 0 0 broken broken not_found drain_runs

-- A dead task, which a request restarts.
abbrev corpse : Task
corpse = task_of 1 TaskState.dead "" 11

abbrev restarting : RestartTasksRequestEntry
restarting = record { task_id = 1; scheduled_at = 0; expires_at = 500 }

abbrev restarted : Db
restarted = contents (restart_entry q1 20 restarting (storing corpse empty_db))

abbrev restart_answer : RestartTasksResponseEntry
restart_answer = record {
  task_id = 1;
  result = RestartResult.restarted;
  task = some (record corpse {
    state = TaskState.enqueued;
    attempts = 0;
    scheduled_at = 20;
    expires_at = 500;
  });
}

restart_runs :
    restart_entry q1 20 restarting (storing corpse empty_db) ≡ ok (restart_answer, restarted)
unfolding list_table find drop_key put rows_under first_page list_index holds discard insert_sorted
    sorted_items between ℕ_discrete String-discrete decide_text QueueId-discrete TaskId-discrete
    TextKey-discrete Item-discrete TaskItem-discrete Unit-discrete empty_db is_set add64 sub64 mul64
    bias64 slt sign_extend for_each transact view tasks_get tasks_find tasks_set dedupe_find
    dedupe_set queue_index_add queue_index_delete dead_tasks_index_delete expiration_add
    expiration_remove threads_get threads_find threads_set thread_index_add thread_index_remove
    thread_index_items counters_get counters_set queue_state_get queue_state_set purge_create
    purge_exists read_earliest reposition_head replace_head reconcile_with reconcile_thread_head
    attach_with attach_task_to_thread reschedule_task_in_thread create_task check_queue_not_purged
    unless_purged purge_queue overwrite_field overwrite_fields overwrite_enqueued
    overwrite_duplicate enqueue_new find_duplicate enqueue_entry enqueue_entries enqueue_unpurged
    enqueue restart_task restart_dead restart_entry
restart_runs = refl

restart_entry_lem_example :
    ((RestartResult.restarted ≡ RestartResult.restarted)
      × (task : Task) × IsRestarted q1 20 restarting task (storing corpse empty_db) restarted)
    ⊎ ((RestartResult.restarted ≢ RestartResult.restarted) × (restarted ≡ storing corpse empty_db))
restart_entry_lem_example =
    restart_entry_lem q1 20 restarting (storing corpse empty_db) restart_answer restarted
      restart_runs
