-- ===== src/Queues/Schedules/Ticks.antt =====
-- The index of due times in pkg/queues/schedules.go, in step with the rows of the schedules.
use moab.Base.{ℕ, ◌≡◌, ◌≢◌, sym, ap, ◌∙◌, subst, Bool, true, Option, some}
use moab.Queues.Types.{ScheduleId, ScheduleId-discrete, Schedule}
use moab.Queues.Access.{Stores, Db, due_item}

module _ ⦃S : Stores⦄ where
  abbrev pub is_due : Db → ScheduleId → ℕ → Bool
  is_due db id t = S.scheduled.has db.scheduled tt (due_item id t)

  -- The index holds the next tick of each stored schedule, and nothing else.
  pub record IsTimed (db : Db) : Type 0 where
    pub timed :
        (id : ScheduleId) (s : Schedule)
        → S.schedules.get db.schedules id ≡ some s
        → (s.id ≡ id) × (is_due db id s.next_scheduled_at ≡ true)
    pub stored :
        (id : ScheduleId) (t : ℕ)
        → is_due db id t ≡ true
        → (s : Schedule) × (S.schedules.get db.schedules id ≡ some s) × (s.next_scheduled_at ≡ t)

  -- One schedule id gets the row `v` and its tick, or loses both.
  pub record IsRetimed (db after : Db) (id : ScheduleId) (v : Option Schedule) : Type 0 where
    pub row_at : S.schedules.get after.schedules id ≡ v
    pub row_else :
        (j : ScheduleId)
        → id ≢ j
        → S.schedules.get after.schedules j ≡ S.schedules.get db.schedules j
    pub own_id :
        (s : Schedule) → v ≡ some s → (s.id ≡ id) × (is_due after id s.next_scheduled_at ≡ true)
    pub due_at :
        (t : ℕ)
        → is_due after id t ≡ true
        → (s : Schedule) × (v ≡ some s) × (s.next_scheduled_at ≡ t)
    pub due_else : (j : ScheduleId) (t : ℕ) → id ≢ j → is_due after j t ≡ is_due db j t

  pub IsRetimed-IsTimed :
      {db after : Db} {id : ScheduleId} {v : Option Schedule}
      → IsTimed db
      → IsRetimed db after id v
      → IsTimed after
  IsRetimed-IsTimed {db} {after} {id} {v} wf c = record {
    timed = λ j s row. elim (ScheduleId-discrete id j) [
      | yes e ↦
          subst (λ (x : ScheduleId). (s.id ≡ x) × (is_due after x s.next_scheduled_at ≡ true)) e
            (c.own_id s (sym c.row_at ∙ ap (S.schedules.get after.schedules) e ∙ row))
      | no ne ↦
          let (ids, due) = wf.timed j s (sym (c.row_else j ne) ∙ row) in
          (ids, c.due_else j s.next_scheduled_at ne ∙ due)
    ];
    stored = λ j t due. elim (ScheduleId-discrete id j) [
      | yes e ↦
          let (s, is, at) = c.due_at t (ap (λ (x : ScheduleId). is_due after x t) e ∙ due) in
          (s, ap (S.schedules.get after.schedules) (sym e) ∙ c.row_at ∙ is, at)
      | no ne ↦
          let (s, row, at) = wf.stored j t (sym (c.due_else j t ne) ∙ due) in
          (s, c.row_else j ne ∙ row, at)
    ];
  }
