-- ===== src/Workers/Stalling.antt =====
-- The cron worker of pkg/workers/queues.go at a schedule with more ticks in a minute than a request
-- to enqueue may have entries.
use moab.Base.{
  ℕ, suc, ◌<◌, ◌≡◌, refl, ap, ◌∙◌, String, List, [], ◌∷◌, some, Result, ok, fail, Fault, arith,
  length, All, inl, inr, Option-cases,
}
use moab.Tasks.Types.{EnqueueRequestEntry, QueueId}
use moab.Tasks.Monad as tasks_monad
use moab.Queues.Types.{DequeSchedulesResponseEntry}
use moab.Queues.Access as queues_access
use moab.Queues.Schedules.{deque_schedules}
use moab.Validation.{Violation, validate_queue_id, validate_enqueue_request}
use moab.Cluster.{Cluster}
use moab.Workers.{Ticks, due_before_of, ticks_of, call_enqueue, serve, serve_all, fetch, passes}

-- More than 50 entries are refused.
too_many :
    (q : QueueId) (es : List EnqueueRequestEntry)
    → 50 < length es
    → (v : Violation) × (validate_enqueue_request (some q) es ≡ some v)
unfolding validate_enqueue_request
too_many q es many = elim (Option-cases (validate_queue_id (some q))) [
  | inr (v, bad) ↦ (v, ground (arith, bad))
  | inl good ↦ (Violation.too_many_entries, ground (arith, good, many))
]

module _ (next_tick : String → String → ℕ → Result ℕ) ⦃Q : queues_access.Stores⦄
    ⦃T : tasks_monad.Stores⦄ where
  -- The schedule that is due first has more than 50 ticks to enqueue.
  pub record IsOverfull (now : ℕ) (c : Cluster) : Type 0 where
    pub first : DequeSchedulesResponseEntry
    pub others : List DequeSchedulesResponseEntry
    pub ticks : Ticks
    pub due : deque_schedules (due_before_of now) c.queues ≡ ok (first ∷ others)
    pub ticking : ticks_of next_tick now (due_before_of now) first.queue first.schedule ≡ ok ticks
    pub many : 50 < length ticks.entries

  fetch_stalls :
      (rounds now stamp : ℕ) (c : Cluster)
      → IsOverfull now c
      → fetch next_tick (suc rounds) now stamp c ≡ (fail Fault.refused, c)
  unfolding fetch serve_all serve call_enqueue
  fetch_stalls rounds now stamp c o =
      let (v, bad) = too_many o.first.queue.id o.ticks.entries o.many in
      ground (arith, o.due, o.ticking, bad)

  -- If, at each pass of the schedules worker over a shard, the first schedule that it fetches
  -- has more than 50 ticks to enqueue, then after any number of passes nothing has changed in
  -- the queues core or in the tasks core, and every pass fails as refused.
  pub passes_stall :
      (rounds : ℕ) (times : List (ℕ × ℕ)) (c : Cluster)
      → All (λ t. IsOverfull t.0 c) times
      → (passes next_tick (suc rounds) times c ≡ c)
        × All (λ t. fetch next_tick (suc rounds) t.0 t.1 c ≡ (fail Fault.refused, c)) times
  unfolding passes
  passes_stall rounds [] c all = (refl, tt)
  passes_stall rounds ((now, stamp) ∷ times) c all =
      let stalled = fetch_stalls rounds now stamp c all.0 in
      let (rest, each) = passes_stall rounds times c all.1 in
      (
        ap (λ (r : Result (Unit {0}) × Cluster). passes next_tick (suc rounds) times r.1) stalled
            ∙ rest,
        (stalled, each),
      )
