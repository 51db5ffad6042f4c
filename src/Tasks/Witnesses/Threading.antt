-- ===== src/Tasks/Witnesses/Threading.antt =====
-- Threads and restored replicas on the sample store, and the theorems on them.
use moab.Honey.ListTable.{list_table, find, drop_key, put, rows_under, first_page}
use moab.Honey.ListIndex.{list_index, holds, discard, insert_sorted, sorted_items, between}
use moab.Base.{
  ℕ_discrete, String-discrete, decide_text, is_set, ◌≡◌, ◌≢◌, ◌⊎◌, refl, true, false, Bool, [],
  none, some, ok, fail, not_found, arith,
}
use moab.Tasks.Types.{QueueId-discrete, Task, TaskState, QueueId, Thread, DeadLetterQueueConfig}
use moab.Tasks.Samples.{
  TaskId-discrete, TextKey-discrete, Item-discrete, TaskItem-discrete, Unit-discrete, empty_db,
  sample, q1, task_of, contents, value, storing, queueing, working, expiring, threading,
}
use moab.Base.Word.{add64, sub64, mul64, bias64, slt, sle, add32}
use moab.Tasks.Monad.{for_each, Db, item, queue_of, thread_key}
use moab.Tasks.Access.{
  tasks_get, tasks_set, tasks_delete, dedupe_set, dedupe_delete, queue_index_add,
  queue_index_delete, in_progress_index_add, in_progress_index_delete, dead_tasks_index_add,
  dead_tasks_index_delete, dead_tasks_items, expiration_add, expiration_remove, threads_get,
  threads_find, threads_set, threads_delete, thread_index_add, thread_index_remove,
  thread_index_items, counters_get, counters_set,
}
use moab.Tasks.Threads.{
  read_earliest, reposition_head, replace_head, reconcile_with, reconcile_thread_head, promote_with,
  promote_next_thread_head, attach_with, attach_task_to_thread, detach_task_from_thread,
  reschedule_task_in_thread,
}
use moab.Tasks.Lifecycle.{
  release_task, unindex_task, delete_task, read_oldest, evict_excess_dead_tasks, bury_task,
  create_task,
}
use moab.Tasks.Dequeue.{drop_expired, lease_task}
use moab.Tasks.Restore.{restore_state_index, restore_indexes, restore_thread_place, restore_task}
use moab.Tasks.Threads.Waiting.{
  IsBlocked, attach_task_to_thread-IsBlocked, reschedule_task_in_thread-IsBlocked,
}
use moab.Tasks.Threads.HandingOn.{IsHandedOn, others_of, detach_task_from_thread-IsHandedOn}
use moab.Tasks.Dequeue.Dangling.{expired_head_blocks_thread}
use moab.Tasks.Restore.Divergence.{
  restored_lease_is_tracked, IsLastMember, corpse_of, buried_last_member_unrestorable,
}

-- A thread "t" whose head is due to expire.
abbrev head : Task
head = record (task_of 1 TaskState.enqueued "t" 11) { expires_at = 15 }

abbrev next : Task
next = task_of 2 TaskState.enqueued "t" 12

abbrev thread : Thread
thread = record { thread_id = "t"; head_task_id = head.id; scheduled_at = 11; visible_at = 0 }

abbrev threaded : Db
threaded = expiring head (threading head (queueing head (storing head empty_db)))

abbrev dropped : Db
dropped = contents (drop_expired q1 head threaded)

thread_row : sample.threads.get threaded.threads (thread_key (queue_of next.id) "t") ≡ some thread
unfolding list_table find drop_key put rows_under first_page list_index holds discard insert_sorted
    sorted_items between ℕ_discrete String-discrete decide_text QueueId-discrete TaskId-discrete
    TextKey-discrete Item-discrete TaskItem-discrete Unit-discrete empty_db add64 sub64
thread_row = refl

head_drops : drop_expired (queue_of next.id) head threaded ≡ ok (tt, dropped)
unfolding list_table find drop_key put rows_under first_page list_index holds discard insert_sorted
    sorted_items between ℕ_discrete String-discrete decide_text QueueId-discrete TaskId-discrete
    TextKey-discrete Item-discrete TaskItem-discrete Unit-discrete empty_db is_set add64 sub64
    tasks_delete dedupe_delete queue_index_delete expiration_remove drop_expired
head_drops = refl

in_thread : is_set "t" ≡ true
unfolding is_set
in_thread = refl

second_is_new : next.id ≢ head.id
second_is_new e = ground (arith, e)

expired_head_blocks_thread_example : create_task next dropped ≡ fail not_found
expired_head_blocks_thread_example =
    expired_head_blocks_thread head next thread threaded dropped thread_row refl head_drops
      in_thread second_is_new

-- A task that is handed out on one replica, and restored on another from the same row.
abbrev plain : Task
plain = task_of 1 TaskState.enqueued "" 11

abbrev waiting : Db
waiting = expiring plain (queueing plain (storing plain empty_db))

abbrev lease : Task
lease = value plain (lease_task q1 20 30 plain waiting)

abbrev owns_all : QueueId → Bool
owns_all _ = true

abbrev handed : Db
handed = contents (lease_task q1 20 30 plain waiting)

abbrev copied : Db
copied = contents (restore_task owns_all lease empty_db)

lease_runs : lease_task q1 20 30 plain waiting ≡ ok (lease, handed)
unfolding list_table find drop_key put rows_under first_page list_index holds discard insert_sorted
    sorted_items between ℕ_discrete String-discrete decide_text QueueId-discrete TaskId-discrete
    TextKey-discrete Item-discrete TaskItem-discrete Unit-discrete empty_db add64 sub64 mul64 add32
    tasks_set queue_index_delete in_progress_index_add expiration_remove lease_task
lease_runs = refl

restore_runs : restore_task owns_all lease empty_db ≡ ok (true, copied)
unfolding list_table find drop_key put rows_under first_page list_index holds discard insert_sorted
    sorted_items between ℕ_discrete String-discrete decide_text QueueId-discrete TaskId-discrete
    TextKey-discrete Item-discrete TaskItem-discrete Unit-discrete empty_db is_set add64 sub64 mul64
    add32 tasks_set dedupe_set queue_index_add queue_index_delete in_progress_index_add
    dead_tasks_index_add expiration_add expiration_remove threads_get thread_index_add lease_task
    restore_state_index restore_indexes restore_thread_place restore_task
restore_runs = refl

restored_lease_is_tracked_example :
    (sample.expiration.has handed.expiration tt (item lease.expires_at lease.id) ≡ false)
    × (sample.expiration.has copied.expiration tt (item lease.expires_at lease.id) ≡ true)
restored_lease_is_tracked_example =
    restored_lease_is_tracked owns_all q1 20 30 plain waiting handed empty_db copied lease
      lease_runs restore_runs

-- A thread of one task, which fails for good.
abbrev failing : Task
failing = task_of 1 TaskState.in_progress "t" 11

abbrev own_thread : Thread
own_thread = record {
  thread_id = "t";
  head_task_id = failing.id;
  scheduled_at = 11;
  visible_at = 0;
}

abbrev alone : Db
alone = threading failing (working failing (storing failing empty_db))

abbrev keep_dead : DeadLetterQueueConfig
keep_dead = record { enable = true; max_size = 0; retention_period_in_seconds = 60 }

abbrev buried : Db
buried = contents (bury_task failing 20 keep_dead alone)

failing_is_last : IsLastMember failing own_thread alone
unfolding list_table find drop_key put rows_under first_page list_index holds discard insert_sorted
    sorted_items between ℕ_discrete String-discrete decide_text QueueId-discrete TaskId-discrete
    TextKey-discrete Item-discrete TaskItem-discrete Unit-discrete empty_db add64 sub64
failing_is_last = record { row = refl; head = refl; name = refl; alone = refl }

bury_runs : bury_task failing 20 keep_dead alone ≡ ok (tt, buried)
unfolding list_table find drop_key put rows_under first_page list_index holds discard insert_sorted
    sorted_items between ℕ_discrete String-discrete decide_text QueueId-discrete TaskId-discrete
    TextKey-discrete Item-discrete TaskItem-discrete Unit-discrete empty_db is_set add64 sub64 mul64
    bias64 slt sle for_each tasks_get tasks_set tasks_delete dedupe_delete queue_index_add
    queue_index_delete in_progress_index_delete dead_tasks_index_add dead_tasks_index_delete
    dead_tasks_items expiration_add expiration_remove threads_get threads_set threads_delete
    thread_index_remove thread_index_items counters_get counters_set read_earliest promote_with
    promote_next_thread_head detach_task_from_thread release_task unindex_task delete_task
    read_oldest evict_excess_dead_tasks bury_task
bury_runs = refl

no_thread :
    sample.threads.get empty_db.threads (thread_key (queue_of failing.id) "t")
    ≡ sample.threads.get buried.threads (thread_key (queue_of failing.id) "t")
unfolding list_table find drop_key put rows_under first_page list_index holds discard insert_sorted
    sorted_items between ℕ_discrete String-discrete decide_text QueueId-discrete TaskId-discrete
    TextKey-discrete Item-discrete TaskItem-discrete Unit-discrete empty_db is_set add64 sub64 mul64
    bias64 slt sle for_each tasks_get tasks_set tasks_delete dedupe_delete queue_index_add
    queue_index_delete in_progress_index_delete dead_tasks_index_add dead_tasks_index_delete
    dead_tasks_items expiration_add expiration_remove threads_get threads_set threads_delete
    thread_index_remove thread_index_items counters_get counters_set read_earliest promote_with
    promote_next_thread_head detach_task_from_thread release_task unindex_task delete_task
    read_oldest evict_excess_dead_tasks bury_task
no_thread = refl

buried_last_member_unrestorable_example :
    (sample.tasks.get buried.tasks failing.id ≡ some (corpse_of failing 20 keep_dead))
    × (restore_task owns_all (corpse_of failing 20 keep_dead) empty_db ≡ fail not_found)
buried_last_member_unrestorable_example =
    buried_last_member_unrestorable owns_all failing own_thread 20 keep_dead alone buried empty_db
      refl in_thread failing_is_last refl bury_runs no_thread

-- A thread whose head is out, and a second member.
abbrev out : Task
out = task_of 1 TaskState.in_progress "t" 11

abbrev late : Task
late = task_of 2 TaskState.enqueued "t" 12

abbrev out_thread : Thread
out_thread = record { thread_id = "t"; head_task_id = out.id; scheduled_at = 11; visible_at = 0 }

abbrev held : Db
held = threading out (storing out (storing late empty_db))

abbrev joined : Db
joined = contents (attach_task_to_thread late held)

held_row : sample.threads.get held.threads (thread_key (queue_of late.id) "t") ≡ some out_thread
unfolding list_table find drop_key put rows_under first_page list_index holds discard insert_sorted
    sorted_items between ℕ_discrete String-discrete decide_text QueueId-discrete TaskId-discrete
    TextKey-discrete Item-discrete TaskItem-discrete Unit-discrete empty_db add64 sub64
held_row = refl

out_found : sample.tasks.get held.tasks out.id ≡ some out
unfolding list_table find drop_key put rows_under first_page list_index holds discard insert_sorted
    sorted_items between ℕ_discrete String-discrete decide_text QueueId-discrete TaskId-discrete
    TextKey-discrete Item-discrete TaskItem-discrete Unit-discrete empty_db add64 sub64
out_found = refl

join_runs : attach_task_to_thread late held ≡ ok (tt, joined)
unfolding list_table find drop_key put rows_under first_page list_index holds discard insert_sorted
    sorted_items between ℕ_discrete String-discrete decide_text QueueId-discrete TaskId-discrete
    TextKey-discrete Item-discrete TaskItem-discrete Unit-discrete empty_db add64 sub64 tasks_get
    queue_index_add queue_index_delete threads_find threads_set thread_index_add thread_index_items
    read_earliest reposition_head replace_head reconcile_with reconcile_thread_head attach_with
    attach_task_to_thread
join_runs = refl

attach_task_to_thread-IsBlocked_example : IsBlocked (queue_of late.id) out_thread held joined
attach_task_to_thread-IsBlocked_example =
    attach_task_to_thread-IsBlocked late out_thread out held joined refl held_row out_found refl
      join_runs

abbrev put_off : Task
put_off = record late { scheduled_at = 40 }

abbrev moved : Db
moved = contents (reschedule_task_in_thread put_off 12 joined)

joined_row : sample.threads.get joined.threads (thread_key (queue_of late.id) "t") ≡ some out_thread
unfolding list_table find drop_key put rows_under first_page list_index holds discard insert_sorted
    sorted_items between ℕ_discrete String-discrete decide_text QueueId-discrete TaskId-discrete
    TextKey-discrete Item-discrete TaskItem-discrete Unit-discrete empty_db add64 sub64 tasks_get
    queue_index_add queue_index_delete threads_find threads_set thread_index_add thread_index_items
    read_earliest reposition_head replace_head reconcile_with reconcile_thread_head attach_with
    attach_task_to_thread
joined_row = refl

out_still_found : sample.tasks.get joined.tasks out.id ≡ some out
unfolding list_table find drop_key put rows_under first_page list_index holds discard insert_sorted
    sorted_items between ℕ_discrete String-discrete decide_text QueueId-discrete TaskId-discrete
    TextKey-discrete Item-discrete TaskItem-discrete Unit-discrete empty_db add64 sub64 tasks_get
    queue_index_add queue_index_delete threads_find threads_set thread_index_add thread_index_items
    read_earliest reposition_head replace_head reconcile_with reconcile_thread_head attach_with
    attach_task_to_thread
out_still_found = refl

move_runs : reschedule_task_in_thread put_off 12 joined ≡ ok (tt, moved)
unfolding list_table find drop_key put rows_under first_page list_index holds discard insert_sorted
    sorted_items between ℕ_discrete String-discrete decide_text QueueId-discrete TaskId-discrete
    TextKey-discrete Item-discrete TaskItem-discrete Unit-discrete empty_db add64 sub64 tasks_get
    queue_index_add queue_index_delete threads_get threads_find threads_set thread_index_add
    thread_index_remove thread_index_items read_earliest reposition_head replace_head reconcile_with
    reconcile_thread_head attach_with attach_task_to_thread reschedule_task_in_thread
move_runs = refl

reschedule_task_in_thread-IsBlocked_example :
    IsBlocked (queue_of put_off.id) out_thread joined moved
reschedule_task_in_thread-IsBlocked_example =
    reschedule_task_in_thread-IsBlocked put_off 12 out_thread out joined moved refl joined_row
      out_still_found refl move_runs

abbrev passed_on : Db
passed_on = contents (detach_task_from_thread out joined)

detach_runs : detach_task_from_thread out joined ≡ ok (tt, passed_on)
unfolding list_table find drop_key put rows_under first_page list_index holds discard insert_sorted
    sorted_items between ℕ_discrete String-discrete decide_text QueueId-discrete TaskId-discrete
    TextKey-discrete Item-discrete TaskItem-discrete Unit-discrete empty_db add64 sub64 tasks_get
    queue_index_add queue_index_delete threads_get threads_find threads_set threads_delete
    thread_index_add thread_index_remove thread_index_items read_earliest reposition_head
    replace_head reconcile_with reconcile_thread_head promote_with promote_next_thread_head
    attach_with attach_task_to_thread detach_task_from_thread
detach_runs = refl

detach_task_from_thread-IsHandedOn_example :
    ((others_of out joined ≡ [])
      × (sample.threads.get passed_on.threads (thread_key (queue_of out.id) "t") ≡ none))
    ⊎ IsHandedOn out out_thread joined passed_on
detach_task_from_thread-IsHandedOn_example =
    detach_task_from_thread-IsHandedOn out out_thread joined passed_on refl joined_row refl
      detach_runs
