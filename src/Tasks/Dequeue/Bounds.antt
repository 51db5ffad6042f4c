-- ===== src/Tasks/Dequeue/Bounds.antt =====
-- What `dequeueTasksBeforeTime` and `Dequeue` of pkg/tasks/core.go promise about the tasks that they
-- hand out and the gauges that they move.

use moab.Base.{ℕ, ◌-◌, ◌≡◌, ◌≤◌, ap, ◌∙◌, List, Option, ok, map, false, length, if◌then◌else◌}
use moab.Base.Word.{add64, sub64, slt}
use moab.Tasks.Types.{QueueId, Task, TaskState, TasksCounter, DequeuingSettings}
use moab.Tasks.Monad.{Stores, Db, >>=-eq-ok}
use moab.Tasks.Access.{
  queue_index_range, queue_state_get, queue_state_set, counters_get, counters_set, counters_of,
  queue_state_of,
}
use moab.Tasks.Lifecycle.{after_seconds}
use moab.Tasks.Dequeue.{Scan, scan_queue, dequeue_tasks_before_time}
use moab.Tasks.Dequeue.Scanning.{start, scan_queue_inv}
use moab.Tasks.Dequeue.Pass.{leased, loops_lem}

module _ ⦃S : Stores⦄ where
  -- The pass from `db` to `after`, seen through its scan `s`.
  pub record Passes (q : QueueId) (now limit : ℕ) (settings : Option DequeuingSettings)
      (keepalive : ℕ) (db : Db) (ts : List Task) (after : Db) (s : Scan) : Type 0 where
    pub scanned :
        scan_queue q now limit settings
          (S.queue_index.in_range db.queue_index q (queue_state_of db q).last_visited_enqueued now)
          (start (counters_of db q) (queue_state_of db q).last_visited_enqueued)
          db
        ≡ ok (s, db)
    pub handed_out : ts ≡ map (leased now keepalive) s.dequeued
    pub counted : counters_of after q ≡ record (s.counters) {
      expired_tasks_count = add64 s.counters.expired_tasks_count (length s.expired);
    }
    pub cursor : queue_state_of after q ≡ record (queue_state_of db q) {
      last_visited_enqueued = if s.saw_any_candidate then s.cursor else now;
    }
    pub threads_kept : after.threads ≡ db.threads
    pub thread_index_kept : after.threaded_tasks_index ≡ db.threaded_tasks_index

  pub dequeue-Passes :
      (q : QueueId) (now limit : ℕ) (settings : Option DequeuingSettings) (keepalive : ℕ) (db : Db)
      (ts : List Task) (after : Db)
      → dequeue_tasks_before_time q now limit settings keepalive db ≡ ok (ts, after)
      → (s : Scan) × Passes q now limit settings keepalive db ts after s
  unfolding dequeue_tasks_before_time queue_state_get counters_get queue_index_range queue_state_set
      counters_set
  dequeue-Passes q now limit settings keepalive db ts after e =
      let (s, mid, scanned, rest) =
        >>=-eq-ok
          (scan_queue q now limit settings
            (S.queue_index.in_range db.queue_index q (queue_state_of db q).last_visited_enqueued
              now)
            (start (counters_of db q) (queue_state_of db q).last_visited_enqueued))
          _ db e in
      let (_, same) =
        scan_queue_inv (λ _. Unit {0}) q now limit settings (λ _ _. tt) (λ _ _ _ _ _. tt) _ _ db tt
          scanned in
      let (handed, kept) = loops_lem q now keepalive s.expired s.dequeued _ rest in
      (
        s,
        record {
          scanned = rw same at scanned;
          handed_out = handed;
          counted = rw (kept.counters_kept, S.counters.get-set_self);
          cursor = rw (kept.queue_state_kept, S.queue_state.get-set_self);
          threads_kept = kept.threads_kept ∙ ap (λ (d : Db). d.threads) same;
          thread_index_kept = kept.thread_index_kept ∙ ap (λ (d : Db). d.threaded_tasks_index) same;
        },
      )

  -- Every gauge moves by what the pass does: `n` tasks leave the queue, of which those handed out
  -- are now in progress and the others have expired; the other counts stay.
  pub record Moves (before after : TasksCounter) (handed n : ℕ) : Type 0 where
    pub enough : handed ≤ n
    pub few : n ≤ 100
    pub leased : after.in_progress_tasks_count ≡ add64 before.in_progress_tasks_count handed
    pub left : after.enqueued_tasks_count ≡ sub64 before.enqueued_tasks_count n
    pub lost : after.expired_tasks_count ≡ add64 before.expired_tasks_count (n - handed)
    pub dead_kept : after.dead_tasks_count ≡ before.dead_tasks_count
    pub processed_kept : after.processed_tasks_count ≡ before.processed_tasks_count

  -- What a worker is promised of a task that it is handed.
  pub record IsLeased (now keepalive : ℕ) (t : Task) : Type 0 where
    pub working : t.state ≡ TaskState.in_progress
    pub lease : t.visible_at ≡ after_seconds now keepalive
    pub timely : slt t.expires_at now ≡ false
