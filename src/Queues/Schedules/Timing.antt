-- ===== src/Queues/Schedules/Timing.antt =====
-- The handlers of pkg/queues/core.go that write schedules keep the index of due times in step with
-- the schedules.
use moab.Base.{
  ℕ, ◌≡◌, sym, ap, ◌∙◌, subst, String, none, some, Result, Result-cases, ok, fail, Fault, arith,
  inl, inr, Option-cases, Bool-cases, ◌==◌,
}
use moab.Base.Word.{add64, sub64, sle}
use moab.Base.Transaction.{transact}
use moab.Queues.Types.{
  ScheduleId, Queue, Schedule, CreateScheduleRequest, UpdateScheduleRequest,
  ReportSchedulesStatusRequest, Response, answer, refused, ApplicationError,
}
use moab.Queues.Access.{
  Stores, Db, M, queue_named, schedule_named, queues_find_by_name, queues_update, schedules_find,
  schedules_find_by_name,
}
use moab.Queues.Registry.{with_queue}
use moab.Queues.Schedules.{
  new_schedule, updated_schedule, reported_schedule, with_schedule, attach_schedule,
  create_schedule_in, create_schedule, update_schedule_found, update_schedule,
  delete_schedule_found, delete_schedule, report_found, report_schedules_status,
}
use moab.Queues.Schedules.Ticks.{IsTimed}
use moab.Queues.Schedules.Retiming.{named_stored, create-IsTimed, update-IsTimed, delete-IsTimed}

-- The requests that write schedules.
pub data Command : Type 0 where
  create : CreateScheduleRequest → Command
  update : UpdateScheduleRequest → Command
  delete : ℕ → String → String → Command
  report : ReportSchedulesStatusRequest → Command

module _ ⦃S : Stores⦄ where
  -- Whatever a body leaves has its index in step.
  abbrev Leaves : {A : Type 0} → Result (A × Db) → Type 0
  Leaves (ok p) = IsTimed p.1
  Leaves (fail e) = Unit {0}

  leaves :
      {A : Type 0} (m : M A) (db : Db) (a : A) (after : Db)
      → m db ≡ ok (a, after)
      → IsTimed after
      → Leaves (m db)
  leaves m db a after e wf = subst Leaves (sym e) wf

  Leaves-fault : {A : Type 0} (m : M A) (db : Db) (e : Fault) → m db ≡ fail e → Leaves (m db)
  Leaves-fault m db e h = subst Leaves (sym h) tt

  transact-IsTimed :
      {A : Type 0} (m : M A) (db : Db) → IsTimed db → Leaves (m db) → IsTimed (transact m db).1
  unfolding transact
  transact-IsTimed m db wf left = elim (Result-cases (m db)) [
    | inl (p, done) ↦ rw (done, transact) (subst Leaves done left)
    | inr (e, failed) ↦ rw (failed, transact) wf
  ]

  IsTimed-queues : (db : Db) (r : S.queues.Rows) → IsTimed db → IsTimed (record db { queues = r })
  IsTimed-queues db r wf = record { timed = wf.timed; stored = wf.stored }

  module _ (db : Db) (wf : IsTimed db) where
    with_queue-Leaves :
        {A : Type 0} (a : ℕ) (n : String) (body : Queue → M (Response A))
        → ((queue : Queue) → Leaves (body queue db))
        → Leaves (with_queue a n body db)
    unfolding queues_find_by_name
    with_queue-Leaves a n body each = elim (Option-cases (queue_named db a n)) [
      | inl gone ↦ rw gone wf
      | inr (queue, here) ↦ rw here (each queue)
    ]

    with_schedule-Leaves :
        {A : Type 0} (queue : Queue) (n : String) (body : Schedule → M (Response A))
        → ((s : Schedule) → S.schedules.get db.schedules s.id ≡ some s → Leaves (body s db))
        → Leaves (with_schedule queue n body db)
    unfolding schedules_find_by_name
    with_schedule-Leaves queue n body each = elim (Option-cases (schedule_named db queue.id n)) [
      | inl gone ↦ rw gone wf
      | inr (s, here) ↦ rw here (each s (named_stored db wf queue.id n s here))
    ]

    delete_schedule_found-Leaves :
        (queue : Queue) (s : Schedule)
        → S.schedules.get db.schedules s.id ≡ some s
        → Leaves (delete_schedule_found queue s db)
    unfolding delete_schedule_found queues_update
    delete_schedule_found-Leaves queue s row =
        let (after, done, timed) = delete-IsTimed db wf s row in
        let counted : Queue = record queue { schedules_count = sub64 queue.schedules_count 1 } in
        leaves (delete_schedule_found queue s) db (answer tt)
          (record after { queues = S.queues.set after.queues counted.id counted })
          (ground (arith, done)) (IsTimed-queues after _ timed)

    report_found-Leaves :
        (req : ReportSchedulesStatusRequest) (now : ℕ) → Leaves (report_found req now db)
    unfolding report_found schedules_find
    report_found-Leaves req now =
        elim (Option-cases (S.schedules.get db.schedules req.schedule_id)) [
          | inl gone ↦
              leaves (report_found req now) db
                (refused (ApplicationError.schedule_id_not_found req.schedule_id)) db
                (ground (arith, gone)) wf
          | inr (s, here) ↦
              let row : S.schedules.get db.schedules s.id ≡ some s =
                ap (S.schedules.get db.schedules) (wf.timed req.schedule_id s here).0 ∙ here in
              let (after, done, timed) = update-IsTimed db wf s (reported_schedule s req now) row in
              leaves (report_found req now) db (answer tt) after (ground (arith, here, done)) timed
        ]

  module _ (next_tick : String → String → ℕ → Result ℕ) (db : Db) (wf : IsTimed db) where
    attach_schedule-Leaves :
        (req : CreateScheduleRequest) (queue : Queue) (id : ScheduleId) (now : ℕ)
        → S.schedules.get db.schedules id ≡ none
        → Leaves (attach_schedule next_tick req queue id now db)
    unfolding attach_schedule queues_update
    attach_schedule-Leaves req queue id now free =
        let m : M (Response Schedule) = attach_schedule next_tick req queue id now in
        elim (Result-cases (next_tick req.cron req.timezone now)) [
          | inr (e, failed) ↦ Leaves-fault m db e (ground (arith, failed))
          | inl (next, ticks) ↦
              let s : Schedule = new_schedule req id now next in
              let (after, done, timed) = create-IsTimed db wf s free in
              let counted : Queue = record queue {
                schedules_count = add64 queue.schedules_count 1;
              } in
              leaves m db (answer s)
                (record after { queues = S.queues.set after.queues counted.id counted })
                (ground (arith, ticks, done)) (IsTimed-queues after _ timed)
        ]

    create_schedule_in-Leaves :
        (req : CreateScheduleRequest) (now : ℕ) (queue : Queue)
        → Leaves (create_schedule_in next_tick req now queue db)
    unfolding create_schedule_in schedules_find schedules_find_by_name
    create_schedule_in-Leaves req now queue =
        let m : M (Response Schedule) = create_schedule_in next_tick req now queue in
        let id : ScheduleId = record {
          account_id = req.account_id;
          queue_id = queue.id.queue_id;
          schedule_id = req.schedule_id;
        } in
        elim (Option-cases (S.schedules.get db.schedules id)) [
          | inr (s, held) ↦
              leaves m db (refused (ApplicationError.schedule_id_collision id)) db
                (ground (arith, held)) wf
          | inl free ↦
              elim (Bool-cases (sle req.max_number_of_schedules_per_queue queue.schedules_count)) [
                | inl full ↦
                    leaves m db
                      (refused (
                        ApplicationError.max_schedules_reached
                          req.max_number_of_schedules_per_queue))
                      db (ground (arith, free, full)) wf
                | inr room ↦ elim (Option-cases (schedule_named db queue.id req.schedule_name)) [
                  | inr (s, taken) ↦
                      leaves m db
                        (refused
                          (ApplicationError.schedule_name_exists req.schedule_name queue.name))
                        db (ground (arith, free, room, taken)) wf
                  | inl unnamed ↦
                      let same : m db ≡ attach_schedule next_tick req queue id now db =
                        ground (arith, free, room, unnamed) in
                      subst Leaves (sym same) (attach_schedule-Leaves req queue id now free)
                ]
              ]
        ]

    update_schedule_found-Leaves :
        (req : UpdateScheduleRequest) (now : ℕ) (s : Schedule)
        → S.schedules.get db.schedules s.id ≡ some s
        → Leaves (update_schedule_found next_tick req now s db)
    unfolding update_schedule_found
    update_schedule_found-Leaves req now s row =
        let m : M (Response Schedule) = update_schedule_found next_tick req now s in
        elim (Bool-cases (s.version == req.expected_version)) [
          | inr stale ↦
              leaves m db
                (refused (
                  ApplicationError.schedule_version_mismatch req.queue_name req.schedule_name
                    s.version req.expected_version))
                db (ground (arith, stale)) wf
          | inl current ↦ elim (Result-cases (next_tick req.cron req.timezone now)) [
            | inr (e, failed) ↦ Leaves-fault m db e (ground (arith, current, failed))
            | inl (next, ticks) ↦
                let fresh : Schedule = updated_schedule s req now next in
                let (after, done, timed) = update-IsTimed db wf s fresh row in
                leaves m db (answer fresh) after (ground (arith, current, ticks, done)) timed
          ]
        ]

  module _ (next_tick : String → String → ℕ → Result ℕ) where
    -- The contents that the handler of each request leaves.
    abbrev pub leave : Command → ℕ → Db → Db
    leave (create req) now db = (create_schedule next_tick req now db).1
    leave (update req) now db = (update_schedule next_tick req now db).1
    leave (delete a q n) now db = (delete_schedule a q n db).1
    leave (report req) now db = (report_schedules_status req now db).1

    -- If the due index holds exactly the entries of the stored schedules, each at its next time,
    -- then it does so after `CreateSchedule`, `UpdateSchedule`, `DeleteSchedule` or
    -- `ReportSchedulesStatus`, whether the operation answers, refuses or fails.
    pub leave-IsTimed : (c : Command) (now : ℕ) (db : Db) → IsTimed db → IsTimed (leave c now db)
    unfolding create_schedule update_schedule delete_schedule report_schedules_status
    leave-IsTimed (create req) now db wf = transact-IsTimed _ db wf (
        with_queue-Leaves db wf req.account_id req.queue_name _
          (create_schedule_in-Leaves next_tick db wf req now))
    leave-IsTimed (update req) now db wf = transact-IsTimed _ db wf (
        with_queue-Leaves db wf req.account_id req.queue_name _ λ queue.
          with_schedule-Leaves db wf queue req.schedule_name _
            (update_schedule_found-Leaves next_tick db wf req now))
    leave-IsTimed (delete a q n) now db wf = transact-IsTimed _ db wf (
        with_queue-Leaves db wf a q _
          λ queue. with_schedule-Leaves db wf queue n _ (delete_schedule_found-Leaves db wf queue))
    leave-IsTimed (report req) now db wf =
        transact-IsTimed _ db wf (report_found-Leaves db wf req now)
