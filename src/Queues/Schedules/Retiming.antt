-- ===== src/Queues/Schedules/Retiming.antt =====
-- The index of due times in pkg/queues/schedules.go: what `Create`, `Update` and `Delete` of a
-- schedule do to it.
use moab.Base.{
  ℕ, ◌≡◌, ◌≢◌, refl, sym, ap, ◌∙◌, subst, true, none, some, ok, arith, ℕ_discrete, Option-cases,
  Bool-cases, inl, inr, ◌==◌, String,
}
use moab.Honey.{Item, forget, get-forget_self, get-forget_ne}
use moab.Tasks.Types.{QueueId}
use moab.Queues.Types.{ScheduleId, Schedule}
use moab.Queues.Access.{
  Stores, Db, due_item, schedule_in, schedule_named, schedule_name_of, schedules_create,
  schedules_update, schedules_delete, schedules_get, schedules_set, scheduled_add, scheduled_delete,
  schedule_names_set,
}
use moab.Queues.Schedules.Ticks.{is_due, IsTimed, IsRetimed, IsRetimed-IsTimed}

module _ ⦃S : Stores⦄ where
  -- The entries of another schedule, or of another time, are other entries.
  other_ref : {i j : ScheduleId} (t u : ℕ) → i ≢ j → due_item i t ≢ due_item j u
  other_ref t u ne e = ne (ap (λ (x : Item ScheduleId). x.ref) e)

  other_time : {t u : ℕ} (i : ScheduleId) → t ≢ u → due_item i t ≢ due_item i u
  other_time i ne e = ne (ap (λ (x : Item ScheduleId). x.time) e)

  module _ (db : Db) (wf : IsTimed db) where
    pub named_stored :
        (q : QueueId) (n : String) (s : Schedule)
        → schedule_named db q n ≡ some s
        → S.schedules.get db.schedules s.id ≡ some s
    unfolding schedule_named
    named_stored q n s h =
        elim (Option-cases
          (S.schedule_names.get db.schedule_names (record { queue = q; name = n }))) [
            | inl gone ↦ absurd (ground (arith, gone, h))
            | inr (i, here) ↦
                let row : S.schedules.get db.schedules (schedule_in q i) ≡ some s =
                  ground (arith, here, h) in
                ap (S.schedules.get db.schedules) (wf.timed (schedule_in q i) s row).0 ∙ row
          ]

    -- The only entry of a schedule is its next tick.
    due_stored :
        (id : ScheduleId) (t : ℕ) (p : Schedule)
        → S.schedules.get db.schedules id ≡ some p
        → is_due db id t ≡ true
        → p.next_scheduled_at ≡ t
    due_stored id t p row due =
        let (q, own, at) = wf.stored id t due in
        let same : q ≡ p = cc (own, row) in
        ap (λ (x : Schedule). x.next_scheduled_at) (sym same) ∙ at

    -- A row is set, and the index has the tick of the row as the one entry of the schedule.
    set-IsRetimed :
        (s : Schedule) (after : Db)
        → after.schedules ≡ S.schedules.set db.schedules s.id s
        → is_due after s.id s.next_scheduled_at ≡ true
        → ((t : ℕ) → t ≢ s.next_scheduled_at → is_due after s.id t ≢ true)
        → ((j : ScheduleId) (t : ℕ) → s.id ≢ j → is_due after j t ≡ is_due db j t)
        → IsRetimed db after s.id (some s)
    set-IsRetimed s after rows own only kept = record {
      row_at = rw rows (S.schedules.get-set_self db.schedules s.id s);
      row_else = λ j ne. rw rows (S.schedules.get-set_ne db.schedules s.id j s ne);
      own_id = λ p e.
          let same : s ≡ p = cc e in
          subst (λ (x : Schedule). (x.id ≡ s.id) × (is_due after s.id x.next_scheduled_at ≡ true))
            same (refl, own);
      due_at = λ t due. elim (ℕ_discrete t s.next_scheduled_at) [
        | yes e ↦ (s, refl, sym e)
        | no ne ↦ absurd (only t ne due)
      ];
      due_else = kept;
    }

    create-IsRetimed :
        (s : Schedule) (after : Db)
        → S.schedules.get db.schedules s.id ≡ none
        → after.schedules ≡ S.schedules.set db.schedules s.id s
        → after.scheduled ≡ S.scheduled.add db.scheduled tt (due_item s.id s.next_scheduled_at)
        → IsRetimed db after s.id (some s)
    create-IsRetimed s after free rows entries =
        let added : Item ScheduleId = due_item s.id s.next_scheduled_at in
        set-IsRetimed s after rows (rw entries (S.scheduled.has-add_self db.scheduled tt added))
          (λ t ne due.
            let before : is_due db s.id t ≡ true =
              sym (
                S.scheduled.has-add_ne db.scheduled tt added (due_item s.id t)
                  (other_time s.id (λ e. ne (sym e))))
              ∙ ap (λ (x : S.scheduled.Entries). S.scheduled.has x tt (due_item s.id t))
                  (sym entries)
              ∙ due in
            let (_, row, _) = wf.stored s.id t before in cc (row, free))
          λ j t ne. rw entries (
            S.scheduled.has-add_ne db.scheduled tt added (due_item j t)
              (other_ref s.next_scheduled_at t ne))

    -- The entry of the old tick is replaced.
    move-IsRetimed :
        (old s : Schedule) (after : Db)
        → S.schedules.get db.schedules s.id ≡ some old
        → after.schedules ≡ S.schedules.set db.schedules s.id s
        → after.scheduled
          ≡ S.scheduled.add
              (S.scheduled.remove db.scheduled tt (due_item s.id old.next_scheduled_at))
              tt
              (due_item s.id s.next_scheduled_at)
        → IsRetimed db after s.id (some s)
    move-IsRetimed old s after row rows entries =
        let dropped : Item ScheduleId = due_item s.id old.next_scheduled_at in
        let added : Item ScheduleId = due_item s.id s.next_scheduled_at in
        let mid : S.scheduled.Entries = S.scheduled.remove db.scheduled tt dropped in
        set-IsRetimed s after rows (rw entries (S.scheduled.has-add_self mid tt added))
          (λ t ne due.
            let left : S.scheduled.has mid tt (due_item s.id t) ≡ true =
              sym (
                S.scheduled.has-add_ne mid tt added (due_item s.id t)
                  (other_time s.id (λ e. ne (sym e))))
              ∙ ap (λ (x : S.scheduled.Entries). S.scheduled.has x tt (due_item s.id t))
                  (sym entries)
              ∙ due in
            elim (ℕ_discrete old.next_scheduled_at t) [
              | yes e ↦ cc (S.scheduled.has-remove_self db.scheduled tt dropped, left, e)
              | no other ↦ other (
                  due_stored s.id t old row (
                    sym (
                      S.scheduled.has-remove_ne db.scheduled tt dropped (due_item s.id t)
                        (other_time s.id other))
                    ∙ left))
            ])
          λ j t ne. rw entries (
            S.scheduled.has-add_ne mid tt added (due_item j t) (other_ref s.next_scheduled_at t ne)
            ∙ S.scheduled.has-remove_ne db.scheduled tt dropped (due_item j t)
                (other_ref old.next_scheduled_at t ne))

    -- The tick is unchanged.
    keep-IsRetimed :
        (old s : Schedule) (after : Db)
        → S.schedules.get db.schedules s.id ≡ some old
        → s.next_scheduled_at ≡ old.next_scheduled_at
        → after.schedules ≡ S.schedules.set db.schedules s.id s
        → after.scheduled ≡ db.scheduled
        → IsRetimed db after s.id (some s)
    keep-IsRetimed old s after row same rows entries =
        set-IsRetimed s after rows (rw (entries, same) (wf.timed s.id old row).1)
          (λ t ne due. ne (
            sym (
              due_stored s.id t old row (
                ap (λ (x : S.scheduled.Entries). S.scheduled.has x tt (due_item s.id t))
                  (sym entries)
                ∙ due))
            ∙ sym same))
          λ j t ne. ap (λ (x : S.scheduled.Entries). S.scheduled.has x tt (due_item j t)) entries

    drop-IsRetimed :
        (s : Schedule) (after : Db)
        → S.schedules.get db.schedules s.id ≡ some s
        → after.schedules ≡ forget S.schedules db.schedules s.id
        → after.scheduled ≡ S.scheduled.remove db.scheduled tt (due_item s.id s.next_scheduled_at)
        → IsRetimed db after s.id none
    drop-IsRetimed s after row rows entries =
        let dropped : Item ScheduleId = due_item s.id s.next_scheduled_at in
        record {
          row_at = rw rows (get-forget_self S.schedules db.schedules s.id);
          row_else = λ j ne. rw rows (get-forget_ne S.schedules db.schedules s.id j ne);
          own_id = λ p e. absurd (cc e);
          due_at = λ t due.
              let left =
                ap (λ (x : S.scheduled.Entries). S.scheduled.has x tt (due_item s.id t))
                  (sym entries)
                ∙ due in
              elim (ℕ_discrete s.next_scheduled_at t) [
                | yes e ↦ absurd (cc (S.scheduled.has-remove_self db.scheduled tt dropped, left, e))
                | no other ↦ absurd (
                    other (
                      due_stored s.id t s row (
                        sym (
                          S.scheduled.has-remove_ne db.scheduled tt dropped (due_item s.id t)
                            (other_time s.id other))
                        ∙ left)))
              ];
          due_else = λ j t ne. rw entries (
              S.scheduled.has-remove_ne db.scheduled tt dropped (due_item j t)
                (other_ref s.next_scheduled_at t ne));
        }

    pub create-IsTimed :
        (s : Schedule)
        → S.schedules.get db.schedules s.id ≡ none
        → (after : Db) × (schedules_create s db ≡ ok (tt, after)) × IsTimed after
    unfolding schedules_create schedules_set scheduled_add schedule_names_set
    create-IsTimed s free = (
      record db {
        scheduled = S.scheduled.add db.scheduled tt (due_item s.id s.next_scheduled_at);
        schedule_names =
            S.schedule_names.set db.schedule_names (schedule_name_of s) s.id.schedule_id;
        schedules = S.schedules.set db.schedules s.id s;
      },
      refl,
      IsRetimed-IsTimed wf (create-IsRetimed s _ free refl refl),
    )

    pub update-IsTimed :
        (old s : Schedule)
        → S.schedules.get db.schedules s.id ≡ some old
        → (after : Db) × (schedules_update s db ≡ ok (tt, after)) × IsTimed after
    unfolding schedules_update schedules_get schedules_set scheduled_add scheduled_delete
    update-IsTimed old s row = elim (Bool-cases (s.next_scheduled_at == old.next_scheduled_at)) [
      | inl same ↦
          let after : Db = record db { schedules = S.schedules.set db.schedules s.id s } in
          (
            after,
            ground (arith, row, same),
            IsRetimed-IsTimed wf (keep-IsRetimed old s after row (ground (arith, same)) refl refl),
          )
      | inr moved ↦
          let after : Db = record db {
            schedules = S.schedules.set db.schedules s.id s;
            scheduled =
                S.scheduled.add
                  (S.scheduled.remove db.scheduled tt (due_item s.id old.next_scheduled_at)) tt
                  (due_item s.id s.next_scheduled_at);
          } in
          (
            after,
            ground (arith, row, moved),
            IsRetimed-IsTimed wf (move-IsRetimed old s after row refl refl),
          )
    ]

    pub delete-IsTimed :
        (s : Schedule)
        → S.schedules.get db.schedules s.id ≡ some s
        → (after : Db) × (schedules_delete s db ≡ ok (tt, after)) × IsTimed after
    unfolding schedules_delete
    delete-IsTimed s row = (
      record db {
        scheduled = S.scheduled.remove db.scheduled tt (due_item s.id s.next_scheduled_at);
        schedule_names = forget S.schedule_names db.schedule_names (schedule_name_of s);
        schedules = forget S.schedules db.schedules s.id;
      },
      refl,
      IsRetimed-IsTimed wf (drop-IsRetimed s _ row refl refl),
    )
