-- ===== src/Tasks/Gc/Sweeping.antt =====
-- The two garbage collections of pkg/tasks/core.go come to an end within the fuel that they are given:
-- the only fault that they can end in is a missing row.
use moab.Base.{
  ℕ, zero, suc, ◌-◌, ◌≡◌, ◌<◌, inl, inr, refl, Bool, fail, Fault, not_found, arith, true, false,
  if◌then◌else◌, length, ltb, leb, Option-cases,
}
use moab.Base.Word.{sle}
use moab.Honey.{Item}
use moab.Tasks.Types.{TaskId}
use moab.Tasks.Monad.{Stores, Db, M, pure, for_each, transact}
use moab.Tasks.Access.{tasks_find, expiration_range, expiration_remove}
use moab.Tasks.Lifecycle.{DeletionReason}
use moab.Tasks.Gc.{
  or_default, list_due, sweep_found, sweep_item, sweep, run_tasks_garbage_collection,
}
use moab.Tasks.Gc.Faults.{IsSafe, IsSafe->>=, IsSafe-pure, IsSafe-for_each, IsSafe-delete_task}

module _ ⦃S : Stores⦄ where
  IsSafe-sweep_item : (i : Item TaskId) → IsSafe (sweep_item i)
  unfolding sweep_item tasks_find sweep_found expiration_remove
  IsSafe-sweep_item i = record {
    only = λ db x e. elim (Option-cases (S.tasks.get db.tasks i.ref)) [
      | inl gone ↦ absurd (ground (arith, gone, e))
      | inr (task, found) ↦
          (IsSafe-delete_task task DeletionReason.expired).only db x (ground (arith, found, e))
    ];
  }

  IsSafe-list_due : (before limit : ℕ) → IsSafe (list_due before limit)
  unfolding list_due expiration_range
  IsSafe-list_due before limit = record { only = λ db x e. absurd (ground arith) }

  -- A branch of a loop, under `elim`.
  pub IsSafe-branch :
      {A : Type 0} (b : Bool) (m k : M A)
      → (b ≡ true → IsSafe m)
      → (b ≡ false → IsSafe k)
      → IsSafe (elim b [ true ↦ m | false ↦ k ])
  IsSafe-branch true m k h h' = h refl
  IsSafe-branch false m k h h' = h' refl

  IsSafe-sweep :
      (fuel now page_size remaining : ℕ)
      → 0 < page_size
      → remaining < fuel
      → IsSafe (sweep fuel now page_size remaining)
  unfolding sweep
  IsSafe-sweep zero now page_size remaining pos enough = absurd (omega arith)
  IsSafe-sweep (suc fuel) now page_size remaining pos enough =
      let limit : ℕ = if ltb remaining page_size then remaining else page_size in
      IsSafe-branch (leb remaining 0) (pure tt) _ (λ _. IsSafe-pure tt)
        (λ more. IsSafe->>= (list_due now limit) _ (IsSafe-list_due now limit) (λ expired.
          IsSafe->>= (for_each expired sweep_item) _
            (IsSafe-for_each expired sweep_item IsSafe-sweep_item)
            (λ _.
              IsSafe-branch (ltb (length expired) limit) (pure tt) _ (λ _. IsSafe-pure tt)
                (λ full.
                  IsSafe-sweep fuel now page_size (remaining - length expired) pos
                    (ground (arith, more, full))))))

  -- A batch of the sweep has room for a task.
  pub or_default_pos : (requested d : ℕ) → 0 < d → 0 < or_default requested d
  unfolding or_default sle
  or_default_pos requested d pos = ground arith

  pub transact_safe :
      {A : Type 0} (m : M A) (db after : Db) (x : Fault)
      → IsSafe m
      → transact m db ≡ (fail x, after)
      → (x ≡ not_found) × (after ≡ db)
  unfolding transact
  transact_safe m db after x safe e =
      let failed : m db ≡ fail x = ground arith in (safe.only db x failed, ground (arith, failed))

  -- If the garbage collection of tasks fails, it fails because a row is missing, and never
  -- because its loop has run out of fuel; and then the contents are unchanged.
  pub run_tasks_garbage_collection_ends :
      (now max_visited_tasks page_size : ℕ) (db after : Db) (x : Fault)
      → run_tasks_garbage_collection now max_visited_tasks page_size db ≡ (fail x, after)
      → (x ≡ not_found) × (after ≡ db)
  unfolding run_tasks_garbage_collection
  run_tasks_garbage_collection_ends now max_visited_tasks page_size db after x e =
      let budget : ℕ = or_default max_visited_tasks 1000 in
      let page : ℕ = or_default page_size 250 in
      let some_budget : 0 < budget = or_default_pos max_visited_tasks 1000 (omega arith) in
      let some_page : 0 < page = or_default_pos page_size 250 (omega arith) in
      transact_safe (sweep (suc budget) now (if ltb budget page then budget else page) budget) db
        after x
        (IsSafe-sweep (suc budget) now (if ltb budget page then budget else page) budget
          (ground arith) (omega arith))
        e
