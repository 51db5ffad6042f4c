-- ===== src/Queues/Schedules/Due.antt =====
-- The scan of `ListDue` in pkg/queues/schedules.go and the pairing of `DequeSchedules` with queues.
use moab.Base.{
  ℕ, zero, suc, ◌+◌, ◌≤◌, ◌≡◌, refl, sym, ap, ◌∙◌, subst, List, [], ◌∷◌, ◌++◌, some, ok, arith, ◌⊎◌,
  inl, inr, length, take, All, In, map, ltb, true, false, length-append,
}
use mathlib.Core.List.{append-nil, append_assoc}
use moab.Base.Transaction.{map_m}
use moab.Honey.{Item, IsSorted}
use moab.Queues.Types.{ScheduleId, Queue, Schedule, DequeSchedulesResponseEntry}
use moab.Queues.Access.{Stores, Db, queue_of, schedules_get, queues_get, collect_due}
use moab.Queues.Schedules.{pair_with_queue}

-- An element is among the first `n`, or there are `n` before it.
In-take :
    {A : Type 0} (n : ℕ) (a : A) (xs : List A)
    → In a xs
    → In a (take n xs) ⊎ (length (take n xs) ≡ n)
In-take zero a xs h = inr refl
In-take (suc n) a [] h = absurd h
In-take (suc n) a (x ∷ xs) (inl e) = inl (inl e)
In-take (suc n) a (x ∷ xs) (inr h) = elim (In-take n a xs h) [
  | inl among ↦ inl (inr among)
  | inr full ↦ inr (ap suc full)
]

module _ {R : Type 0} where
  -- Where `i` is not among the first `n` of a sorted list, they are no later than it.
  pub earlier_than :
      (n : ℕ) (i : Item R) (xs : List (Item R))
      → IsSorted xs
      → In i xs
      → In i (take n xs) ⊎ ((length (take n xs) ≡ n) × All (λ j. j.time ≤ i.time) (take n xs))
  earlier_than zero i xs sorted h = inr (refl, tt)
  earlier_than (suc n) i [] sorted h = absurd h
  earlier_than (suc n) i (x ∷ xs) sorted (inl e) = inl (inl e)
  earlier_than (suc n) i (x ∷ xs) sorted (inr h) = elim (earlier_than n i xs sorted.1 h) [
    | inl among ↦ inl (inr among)
    | inr (full, earlier) ↦ inr (ap suc full, (All-In xs sorted.0 h, earlier))
  ]
    where
      All-In : (ys : List (Item R)) → All (λ y. x.time ≤ y.time) ys → In i ys → x.time ≤ i.time
      All-In [] all h = absurd h
      All-In (y ∷ ys) all (inl e) = subst (λ (z : Item R). x.time ≤ z.time) e all.0
      All-In (y ∷ ys) all (inr h) = All-In ys all.1 h

abbrev pub schedule_of : DequeSchedulesResponseEntry → Schedule
schedule_of e = e.schedule

module _ ⦃S : Stores⦄ (db : Db) where
  -- An entry of the index, and the row that it leads to.
  abbrev pub Reads : Item ScheduleId → Schedule → Type 0
  Reads i s =
      (S.schedules.get db.schedules i.ref ≡ some s)
      × (s.id ≡ i.ref)
      × (s.next_scheduled_at ≡ i.time)

  abbrev pub AllRead : List (Item ScheduleId) → List Schedule → Type 0
  AllRead [] [] = Unit
  AllRead [] (s ∷ ss) = ⊥
  AllRead (i ∷ is) [] = ⊥
  AllRead (i ∷ is) (s ∷ ss) = Reads i s × AllRead is ss

  length-snoc : (found : List Schedule) (s : Schedule) → length (found ++ s ∷ []) ≡ length found + 1
  length-snoc found s = omega (arith, length-append found (s ∷ []))

  pub collect_due_lem :
      (room limit : ℕ) (items : List (Item ScheduleId)) (found : List Schedule)
      → limit ≡ length found + suc room
      → All (λ i. (s : Schedule) × Reads i s) items
      → (ss : List Schedule) × (collect_due limit items found db ≡ ok (found ++ ss, db))
        × AllRead (take (suc room) items) ss
  unfolding collect_due schedules_get
  collect_due_lem room limit [] found e all = ([], rw append-nil refl, tt)
  collect_due_lem zero limit (i ∷ is) found e all =
      let (s, reads) = all.0 in
      let full : ltb (length (found ++ s ∷ [])) limit ≡ false =
        ground (arith, length-snoc found s, e) in
      (s ∷ [], ground (arith, reads.0, full), (reads, tt))
  collect_due_lem (suc room) limit (i ∷ is) found e all =
      let (s, reads) = all.0 in
      let more : ltb (length (found ++ s ∷ [])) limit ≡ true =
        ground (arith, length-snoc found s, e) in
      let (ss, run, rest) =
        collect_due_lem room limit is (found ++ s ∷ []) (omega (arith, length-snoc found s))
          all.1 in
      (s ∷ ss, ground (arith, reads.0, more, run, append_assoc found (s ∷ []) ss), (reads, rest))

  pub length-AllRead :
      (items : List (Item ScheduleId)) (ss : List Schedule)
      → AllRead items ss
      → length ss ≡ length items
  length-AllRead [] [] r = refl
  length-AllRead [] (s ∷ ss) r = absurd r
  length-AllRead (i ∷ is) [] r = absurd r
  length-AllRead (i ∷ is) (s ∷ ss) r = ap suc (length-AllRead is ss r.1)

  pub In-AllRead :
      (i : Item ScheduleId) (s : Schedule) (items : List (Item ScheduleId)) (ss : List Schedule)
      → AllRead items ss
      → S.schedules.get db.schedules i.ref ≡ some s
      → In i items
      → In s ss
  In-AllRead i s [] ss r row h = absurd h
  In-AllRead i s (j ∷ is) [] r row h = absurd r
  In-AllRead i s (j ∷ is) (x ∷ ss) r row (inl e) = inl (cc (e, row, r.0.0))
  In-AllRead i s (j ∷ is) (x ∷ ss) r row (inr h) = inr (In-AllRead i s is ss r.1 row h)

  -- What holds of the times of the entries holds of the ticks of the schedules.
  pub All-AllRead :
      (P : ℕ → Type 0) (items : List (Item ScheduleId)) (ss : List Schedule)
      → AllRead items ss
      → All (λ i. P i.time) items
      → All (λ s. (S.schedules.get db.schedules s.id ≡ some s) × P s.next_scheduled_at) ss
  All-AllRead P [] [] r h = tt
  All-AllRead P [] (s ∷ ss) r h = absurd r
  All-AllRead P (i ∷ is) [] r h = absurd r
  All-AllRead P (i ∷ is) (s ∷ ss) r h = (
    (ap (S.schedules.get db.schedules) r.0.1 ∙ r.0.0, subst P (sym r.0.2) h.0),
    All-AllRead P is ss r.1 h.1,
  )

  abbrev pub HasQueue : DequeSchedulesResponseEntry → Type 0
  HasQueue e = S.queues.get db.queues (queue_of e.schedule.id) ≡ some e.queue

  pub pair_with_queue-All :
      (ss : List Schedule)
      → All (λ s. (q : Queue) × (S.queues.get db.queues (queue_of s.id) ≡ some q)) ss
      → (es : List DequeSchedulesResponseEntry) × (map_m pair_with_queue ss db ≡ ok (es, db))
        × (map schedule_of es ≡ ss)
        × All HasQueue es
  unfolding map_m pair_with_queue queues_get
  pair_with_queue-All [] all = ([], refl, refl, tt)
  pair_with_queue-All (s ∷ ss) all =
      let (q, row) = all.0 in
      let (es, run, same, rest) = pair_with_queue-All ss all.1 in
      (
        record { schedule = s; queue = q } ∷ es,
        ground (arith, row, run),
        ap (λ (xs : List Schedule). s ∷ xs) same,
        (row, rest),
      )
