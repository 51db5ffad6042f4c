-- ===== src/Tasks/Dequeue/Cursor.antt =====
-- The cursor `LastVisitedEnqueued` of pkg/tasks/core.go: an entry that lies before it is not seen
-- again.
use moab.Base.{ℕ, ◌≡◌, ◌≤◌, ◌<◌, refl, List, [], ◌∷◌, Option, ok, arith, true, All}
use moab.Base.Word.{add64}
use moab.Honey.{Item}
use moab.Tasks.Types.{QueueId, Task, DequeuingSettings}
use moab.Tasks.Monad.{Stores, Db, M, for_each, map_m}
use moab.Tasks.Access.{
  queue_index_range, queue_state_get, queue_state_set, counters_get, counters_set, queue_state_of,
  counters_of,
}
use moab.Tasks.Dequeue.{scan_queue, dequeue_tasks_before_time}

module _ ⦃S : Stores⦄ where
  -- Every entry of the queue lies before `t`.
  abbrev pub AllBefore : ℕ → QueueId → Db → Type 0
  AllBefore t q db = (i : Item ℕ) → S.queue_index.has db.queue_index q i ≡ true → i.time < t

  empty_range :
      (q : QueueId) (db : Db) (lo hi : ℕ) (is : List (Item ℕ))
      → AllBefore lo q db
      → All
          (λ (i : Item ℕ).
            (S.queue_index.has db.queue_index q i ≡ true) × (lo ≤ i.time) × (i.time ≤ hi))
          is
      → is ≡ []
  empty_range q db lo hi [] before h = refl
  empty_range q db lo hi (i ∷ is) before h = let late = before i h.0.0 in absurd (omega arith)

  -- What a pass leaves of the queue: the same entries, and a cursor at `now`.
  pub record IsSkipped (q : QueueId) (now : ℕ) (before after : Db) : Type 0 where
    pub same_queue : after.queue_index ≡ before.queue_index
    pub same_tasks : after.tasks ≡ before.tasks
    pub cursor : (queue_state_of after q).last_visited_enqueued ≡ now

  abbrev skipped : QueueId → ℕ → Db → Db
  skipped q now db = record db {
    queue_state =
        S.queue_state.set db.queue_state q
          (record (queue_state_of db q) { last_visited_enqueued = now });
    counters = S.counters.set db.counters q (record (counters_of db q) {
      expired_tasks_count = add64 (counters_of db q).expired_tasks_count 0;
    });
  }

  -- A pass that finds every entry before the cursor hands out nothing, and leaves the queue so.
  pub dequeue_skips :
      (q : QueueId) (now limit : ℕ) (settings : Option DequeuingSettings) (keepalive : ℕ) (db : Db)
      → AllBefore (queue_state_of db q).last_visited_enqueued q db
      → (after : Db) × (dequeue_tasks_before_time q now limit settings keepalive db
          ≡ ok ([], after))
        × IsSkipped q now db after
  unfolding dequeue_tasks_before_time queue_state_get counters_get queue_index_range queue_state_set
      counters_set scan_queue for_each map_m
  dequeue_skips q now limit settings keepalive db before =
      let cursor : ℕ = (queue_state_of db q).last_visited_enqueued in
      let none_left =
        empty_range q db cursor now (S.queue_index.in_range db.queue_index q cursor now) before
          (S.queue_index.range_sound db.queue_index q cursor now) in
      (
        skipped q now db,
        rw none_left,
        record { same_queue = refl; same_tasks = refl; cursor = rw S.queue_state.get-set_self },
      )

  -- Passes one after the other, at the times that are given, with what each hands out.
  unfoldable pub passes : QueueId → ℕ → Option DequeuingSettings → ℕ → List ℕ → M (List (List Task))
  passes q limit settings keepalive nows =
      map_m (λ now. dequeue_tasks_before_time q now limit settings keepalive) nows

  -- Each of the times is at or after the one before it.
  abbrev pub IsAscending : ℕ → List ℕ → Type 0
  IsAscending t [] = Unit
  IsAscending t (now ∷ nows) = (t ≤ now) × IsAscending now nows
