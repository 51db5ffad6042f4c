-- ===== src/Queues/Gc.antt =====
-- `RunQueuesGarbageCollection` of pkg/queues/core.go: it drains the schedules of deleted queues.
use moab.Base.{ℕ, suc, Bool, true, false, List, [], ◌∷◌, none, some, Result, leb}
use moab.Base.Transaction.{◌>>=◌, ◌>>◌, pure, transact}
use moab.Tasks.Types.{QueueId}
use moab.Tasks.Gc.{or_default}
use moab.Queues.Types.{Schedule}
use moab.Queues.Access.{
  Stores, Db, M, schedules_page, schedules_delete, gc_records_list, gc_records_delete,
}

module _ ⦃S : Stores⦄ where
  -- The schedules of one page; true where the budget has run out.
  unfoldable pub drain_schedules : List Schedule → ℕ → ℕ → M (ℕ × Bool)
  drain_schedules [] budget visited = pure (visited, false)
  drain_schedules (s ∷ ss) budget visited = do
    schedules_delete s
    elim (leb budget (suc visited)) [
      | true ↦ pure (suc visited, true)
      | false ↦ drain_schedules ss budget (suc visited)
    ]

  unfoldable pub drain_records : List QueueId → ℕ → ℕ → ℕ → M (Unit {0})
  drain_records [] page_size budget visited = pure tt
  drain_records (q ∷ qs) page_size budget visited = do
    page ← schedules_page q none page_size
    r ← drain_schedules page.items budget visited
    elim r.1 [
      | true ↦ pure tt
      | false ↦ (do
        elim page.next [ some _ ↦ pure tt | none ↦ gc_records_delete q ]
        drain_records qs page_size budget r.0)
    ]

  unfoldable pub run_queues_garbage_collection : ℕ → ℕ → ℕ → Db → Result (Unit {0}) × Db
  run_queues_garbage_collection records_page_size schedules_page_size max_visited_schedules =
      transact (do
        records ← gc_records_list (or_default records_page_size 100)
        drain_records records (or_default schedules_page_size 250)
            (or_default max_visited_schedules 1000) 0)
