-- ===== src/Queues/Schedules/Delivery.antt =====
-- `DequeSchedules` of pkg/queues/core.go: what the cron worker is given.
use moab.Base.{
  ℕ, zero, suc, ◌≤◌, ◌≡◌, refl, sym, ap, ◌∙◌, subst, List, [], ◌∷◌, some, ok, arith, ◌⊎◌, inl, inr,
  length, take, All, In, map, true,
}
use moab.Base.Transaction.{view}
use moab.Honey.{Item}
use moab.Queues.Types.{ScheduleId, Queue, Schedule, DequeSchedulesResponseEntry}
use moab.Queues.Access.{Stores, Db, queue_of, due_item, list_due, scheduled_range}
use moab.Queues.Schedules.{deque_schedules, max_dequeue_schedules}
use moab.Queues.Schedules.Ticks.{IsTimed}
use moab.Queues.Schedules.Due.{
  earlier_than, Reads, collect_due_lem, length-AllRead, In-AllRead, All-AllRead,
  pair_with_queue-All, schedule_of, HasQueue,
}

length-map : {A B : Type 0} (f : A → B) (xs : List A) → length (map f xs) ≡ length xs
length-map f [] = refl
length-map f (x ∷ xs) = ap suc (length-map f xs)

length-take-le : {A : Type 0} (n : ℕ) (xs : List A) → length (take n xs) ≤ n
length-take-le zero xs = omega arith
length-take-le (suc n) [] = omega arith
length-take-le (suc n) (x ∷ xs) = omega (arith, length-take-le n xs)

module _ {A : Type 0} where
  All-take : (P : A → Type 0) (n : ℕ) (xs : List A) → All P xs → All P (take n xs)
  All-take P zero xs h = tt
  All-take P (suc n) [] h = tt
  All-take P (suc n) (x ∷ xs) h = (h.0, All-take P n xs h.1)

  All-map : (P Q : A → Type 0) → ((a : A) → P a → Q a) → (xs : List A) → All P xs → All Q xs
  All-map P Q f [] h = tt
  All-map P Q f (x ∷ xs) h = (f x h.0, All-map P Q f xs h.1)

module _ ⦃S : Stores⦄ where
  -- Every stored schedule has its queue.
  abbrev pub AreOwned : Db → Type 0
  AreOwned db =
      (s : Schedule)
      → S.schedules.get db.schedules s.id ≡ some s
      → (q : Queue) × (S.queues.get db.queues (queue_of s.id) ≡ some q)

  -- A stored schedule whose next tick is at or before a time.
  abbrev pub IsDue : Db → ℕ → Schedule → Type 0
  IsDue db before s = (S.schedules.get db.schedules s.id ≡ some s) × (s.next_scheduled_at ≤ before)

  module _ (db : Db) (before : ℕ) where
    abbrev pub entries : List (Item ScheduleId)
    entries = S.scheduled.in_range db.scheduled tt 0 before

    pub readable : (wf : IsTimed db) → All (λ i. (s : Schedule) × Reads db i s) entries
    readable wf =
        All-map (λ i. (S.scheduled.has db.scheduled tt i ≡ true) × (0 ≤ i.time) × (i.time ≤ before))
          _
          (λ i h.
            let (s, row, at) = wf.stored i.ref i.time h.0 in
            (s, (row, (wf.timed i.ref s row).0, at)))
          entries (S.scheduled.range_sound db.scheduled tt 0 before)

    in_time : All (λ i. i.time ≤ before) (take max_dequeue_schedules entries)
    in_time =
        All-take _ max_dequeue_schedules entries
          (All-map _ _ (λ i h. h.2) entries (S.scheduled.range_sound db.scheduled tt 0 before))

    pub among :
        IsTimed db
        → (s : Schedule) → IsDue db before s
        → In (due_item s.id s.next_scheduled_at) entries
    among wf s due =
        S.scheduled.range_complete db.scheduled tt 0 before (due_item s.id s.next_scheduled_at)
          (wf.timed s.id s due.0).1 (omega arith) due.1

  -- If the due index is in step with the schedules, and every stored schedule has its queue,
  -- then `DequeSchedules` succeeds with at most 250 entries; each is a stored schedule that is
  -- due, with its queue; and each due schedule is among them, unless there are 250 of them and
  -- none is due later than it.
  pub deque_schedules_lem :
      (db : Db) (before : ℕ)
      → IsTimed db
      → AreOwned db
      → (es : List DequeSchedulesResponseEntry) × (deque_schedules before db ≡ ok es)
        × (length es ≤ max_dequeue_schedules)
        × All (HasQueue db) es
        × All (IsDue db before) (map schedule_of es)
        × ((s : Schedule)
            → IsDue db before s
            → In s (map schedule_of es)
              ⊎ ((length es ≡ max_dequeue_schedules)
                  × All
                      (λ (x : Schedule). x.next_scheduled_at ≤ s.next_scheduled_at)
                      (map schedule_of es)))
  unfolding deque_schedules list_due scheduled_range view
  deque_schedules_lem db before wf owned =
      let (ss, run, reads) =
        collect_due_lem db 249 250 (entries db before) [] (omega arith) (readable db before wf) in
      let stored = All-AllRead db (λ t. t ≤ before) _ ss reads (in_time db before) in
      let (es, paired, same, queues) =
        pair_with_queue-All db ss (All-map _ _ (λ s h. owned s h.0) ss stored) in
      let count : length es ≡ length ss = sym (length-map schedule_of es) ∙ ap length same in
      let taken : length ss ≡ length (take 250 (entries db before)) =
        length-AllRead db _ ss reads in
      (
        es,
        ground (arith, run, paired),
        omega (arith, count, taken, length-take-le 250 (entries db before)),
        queues,
        subst (All (IsDue db before)) (sym same) stored,
        λ s due.
            subst
              (λ (xs : List Schedule).
                In s xs
                ⊎ ((length es ≡ max_dequeue_schedules)
                    × All (λ (x : Schedule). x.next_scheduled_at ≤ s.next_scheduled_at) xs))
              (sym same)
              (elim (earlier_than 250 (due_item s.id s.next_scheduled_at) (entries db before)
                (S.scheduled.range-IsSorted db.scheduled tt 0 before) (among db before wf s due)) [
                  | inl near ↦
                      inl
                        (In-AllRead db (due_item s.id s.next_scheduled_at) s _ ss reads due.0 near)
                  | inr (full, earlier) ↦ inr (
                    omega (arith, count, taken, full),
                    All-map _ _ (λ x h. h.1) ss
                        (All-AllRead db (λ t. t ≤ s.next_scheduled_at) _ ss reads earlier),
                  )
                ]),
      )
