-- ===== src/Tasks/Gc.antt =====
-- The two garbage collections of pkg/tasks/core.go: `RunTasksGarbageCollection`, which sweeps the
-- expiration index, and `RunPurgeQueueGarbageCollection`, which drains purged queue ids. Their loops
-- take fuel.
pub mod Faults
pub mod Sweeping
pub mod Draining
use moab.Base.{
  ℕ, zero, suc, ◌-◌, Bool, true, false, List, [], ◌∷◌, ◌++◌, Option, none, some, Result, Fault,
  if◌then◌else◌, length, ltb, leb,
}
use moab.Base.Word.{sle, sign_extend}
use moab.Honey.{Item}
use moab.Tasks.Types.{QueueId, TaskId, Task}
use moab.Tasks.Monad.{Stores, M, Db, ◌>>=◌, ◌>>◌, pure, raise, for_each, transact}
use moab.Tasks.Access.{
  tasks_find, tasks_page, expiration_remove, expiration_range, purge_list, purge_delete,
  counters_delete, queue_state_delete, rate_limiters_delete,
}
use moab.Tasks.Lifecycle.{delete_task, DeletionReason}

-- An int32 field of a request, or its default where it is not positive.
unfoldable pub or_default : ℕ → ℕ → ℕ
or_default requested d = if sle (sign_extend requested) 0 then d else sign_extend requested

-- The callback of `ListDue`: it stops once it has `limit` references.
unfoldable pub collect_due : ℕ → List (Item TaskId) → List (Item TaskId) → List (Item TaskId)
collect_due limit [] refs = refs
collect_due limit (i ∷ is) refs =
    let more = refs ++ i ∷ [] in
    elim (ltb (length more) limit) [ true ↦ collect_due limit is more | false ↦ more ]

module _ ⦃S : Stores⦄ where
  -- `expirationIndex.ListDue`.
  unfoldable pub list_due : ℕ → ℕ → M (List (Item TaskId))
  list_due before limit = do items ← expiration_range 0 before; pure (collect_due limit items [])

  unfoldable pub sweep_found : Item TaskId → Option Task → M (Unit {0})
  sweep_found i none = expiration_remove i.ref i.time
  sweep_found i (some task) = delete_task task DeletionReason.expired

  unfoldable pub sweep_item : Item TaskId → M (Unit {0})
  sweep_item i = do found ← tasks_find i.ref; sweep_found i found

  -- `remaining` is `maxVisitedTasks - visited`.
  unfoldable pub sweep : ℕ → ℕ → ℕ → ℕ → M (Unit {0})
  sweep zero now page_size remaining = raise Fault.out_of_fuel
  sweep (suc fuel) now page_size remaining = elim (leb remaining 0) [
    | true ↦ pure tt
    | false ↦ (do
      let limit = if ltb remaining page_size then remaining else page_size
      expired ← list_due now limit
      for_each expired sweep_item
      elim (ltb (length expired) limit) [
        | true ↦ pure tt
        | false ↦ sweep fuel now page_size (remaining - length expired)
      ])
  ]

  unfoldable pub run_tasks_garbage_collection : ℕ → ℕ → ℕ → Db → Result (Unit {0}) × Db
  run_tasks_garbage_collection now max_visited_tasks page_size =
      let budget = or_default max_visited_tasks 1000 in
      let page = or_default page_size 250 in
      transact (sweep (suc budget) now (if ltb budget page then budget else page) budget)

  -- The tasks of one page; true where the budget has run out.
  unfoldable pub purge_tasks : List Task → ℕ → ℕ → M (ℕ × Bool)
  purge_tasks [] budget visited = pure (visited, false)
  purge_tasks (t ∷ ts) budget visited = do
    delete_task t DeletionReason.no_reason
    elim (leb budget (suc visited)) [
      | true ↦ pure (suc visited, true)
      | false ↦ purge_tasks ts budget (suc visited)
    ]

  unfoldable pub drop_record : QueueId → M (Unit {0})
  drop_record q = do purge_delete q; counters_delete q; queue_state_delete q; rate_limiters_delete q

  unfoldable pub purge_record : ℕ → QueueId → ℕ → ℕ → ℕ → M (ℕ × Bool)
  purge_record zero q page_size budget visited = raise Fault.out_of_fuel
  purge_record (suc fuel) q page_size budget visited = do
    page ← tasks_page q none page_size
    r ← purge_tasks page.items budget visited
    elim r.1 [
      | true ↦ pure r
      | false ↦ elim page.next [
        | some _ ↦ purge_record fuel q page_size budget r.0
        | none ↦ (do drop_record q; pure r)
      ]
    ]

  unfoldable pub purge_records : List QueueId → ℕ → ℕ → ℕ → M (Unit {0})
  purge_records [] page_size budget visited = pure tt
  purge_records (q ∷ qs) page_size budget visited = do
    r ← purge_record (suc budget) q page_size budget visited
    elim r.1 [ true ↦ pure tt | false ↦ purge_records qs page_size budget r.0 ]

  unfoldable pub run_purge_queue_garbage_collection : ℕ → ℕ → ℕ → Db → Result (Unit {0}) × Db
  run_purge_queue_garbage_collection records_page_size tasks_page_size max_visited_tasks =
      transact (do
        records ← purge_list (or_default records_page_size 100)
        purge_records records (or_default tasks_page_size 250) (or_default max_visited_tasks 1000)
            0)
