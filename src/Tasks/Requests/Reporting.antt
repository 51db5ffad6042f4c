-- ===== src/Tasks/Requests/Reporting.antt =====
-- `ReportStatus` of pkg/tasks/core.go: only the worker that holds the lease of a task moves it.
use moab.Base.{ℕ, ◌≡◌, ◌≢◌, ◌<◌, sym, ap, subst, ◌∙◌, Option, none, some, ok, arith, true}
use moab.Base.Word.{mod32, add32}
use moab.Tasks.Types.{
  QueueId, Task, DeadLetterQueueConfig, Status, ReportStatusRequestEntry, ReportResult,
  is_in_progress,
}
use moab.Tasks.Monad.{Stores, Db, >>=-eq-ok}
use moab.Tasks.Access.{
  tasks_find, queue_index_delete, expiration_remove, tasks_set, in_progress_index_add,
}
use moab.Tasks.Lifecycle.{delete_task, DeletionReason}
use moab.Tasks.Lifecycle.Deleting.{delete_task-IsDeleted}
use moab.Tasks.Dequeue.{lease_task}
use moab.Tasks.Dequeue.Pass.{leased}
use moab.Tasks.Requests.{apply_status, report_found, report_entry}

module _ ⦃S : Stores⦄ where
  -- The report is from the holder of the lease.
  pub record IsHeld (e : ReportStatusRequestEntry) (task : Task) (db : Db) : Type 0 where
    pub found : S.tasks.get db.tasks e.task_id ≡ some task
    pub working : is_in_progress task.state ≡ true
    pub current : task.attempts ≡ e.attempt
    pub meant : e.status ≢ Status.invalid

  report_gone :
      (now : ℕ) (config : Option DeadLetterQueueConfig) (e : ReportStatusRequestEntry) (db : Db)
      → S.tasks.get db.tasks e.task_id ≡ none
      → report_entry now config e db ≡ ok (ReportResult.not_found, db)
  unfolding report_entry tasks_find report_found
  report_gone now config e db gone = ground (arith, gone)

  report_stale :
      (now : ℕ) (config : Option DeadLetterQueueConfig) (e : ReportStatusRequestEntry) (task : Task)
      (db : Db)
      → S.tasks.get db.tasks e.task_id ≡ some task
      → is_in_progress task.state ≡ true
      → task.attempts ≢ e.attempt
      → report_entry now config e db ≡ ok (ReportResult.stale_attempt, db)
  unfolding report_entry tasks_find report_found
  report_stale now config e task db found working stale = ground (arith, found, working)

  report_applied :
      (now : ℕ) (config : Option DeadLetterQueueConfig) (e : ReportStatusRequestEntry) (task : Task)
      (db after : Db)
      → S.tasks.get db.tasks e.task_id ≡ some task
      → report_entry now config e db ≡ ok (ReportResult.ok, after)
      → apply_status e.status task now e.keepalive_timeout_in_seconds config db
        ≡ ok (ReportResult.ok, after)
  unfolding report_entry tasks_find report_found
  report_applied now config e task db after found h = ground (arith, found, h)

  leased_lem :
      (q : QueueId) (now keepalive : ℕ) (task : Task) (db : Db) {t : Task} {after : Db}
      → lease_task q now keepalive task db ≡ ok (t, after)
      → (S.tasks.get after.tasks task.id ≡ some t)
        × (is_in_progress t.state ≡ true)
        × (t.attempts ≡ add32 task.attempts 1)
  unfolding lease_task queue_index_delete expiration_remove tasks_set in_progress_index_add
  leased_lem q now keepalive task db e =
      ground (arith, S.tasks.get-set_self db.tasks task.id (leased now keepalive task))

  -- If a task has been handed out from `db`, leaving `after`, then a report on that task that
  -- names the attempt count it had before is answered with `stale_attempt` in `after` and writes
  -- nothing. The attempt count before is below 2 ^ 32.
  pub report_entry_stale :
      (q : QueueId) (now keepalive later : ℕ) (config : Option DeadLetterQueueConfig)
      (e : ReportStatusRequestEntry) (task t : Task) (db after : Db)
      → lease_task q now keepalive task db ≡ ok (t, after)
      → e.task_id ≡ task.id
      → e.attempt ≡ task.attempts
      → task.attempts < mod32
      → report_entry later config e after ≡ ok (ReportResult.stale_attempt, after)
  unfolding add32
  report_entry_stale q now keepalive later config e task t db after given same before small =
      let (found, working, next) = leased_lem q now keepalive task db given in
      report_stale later config e t after (ap (S.tasks.get after.tasks) same ∙ found) working
        (λ eq. absurd (ground (arith, next, eq, before)))

  succeeded_lem :
      (status : Status) (task : Task) (now keepalive : ℕ) (config : Option DeadLetterQueueConfig)
      (db : Db) {after : Db}
      → status ≡ Status.succeeded
      → apply_status status task now keepalive config db ≡ ok (ReportResult.ok, after)
      → delete_task task DeletionReason.succeeded db ≡ ok (tt, after)
  unfolding apply_status
  succeeded_lem Status.succeeded task now keepalive config db {after} same e =
      let (_, mid, deleted, rest) = >>=-eq-ok (delete_task task DeletionReason.succeeded) _ db e in
      subst (λ d. delete_task task DeletionReason.succeeded db ≡ ok (tt, d)) (ground (arith, rest))
        deleted
  succeeded_lem Status.invalid task now keepalive config db same e = absurd (ground arith)
  succeeded_lem Status.in_progress task now keepalive config db same e = absurd (ground arith)
  succeeded_lem Status.failed task now keepalive config db same e = absurd (ground arith)

  -- Where the row that a report finds has the id that it is stored under, and the report says
  -- that the task has succeeded and is applied, any later report on that id is answered with
  -- `not_found` and writes nothing.
  pub report_entry_once :
      (now later : ℕ) (config config' : Option DeadLetterQueueConfig)
      (e e' : ReportStatusRequestEntry) (task : Task) (db after : Db)
      → S.tasks.get db.tasks e.task_id ≡ some task
      → task.id ≡ e.task_id
      → e.status ≡ Status.succeeded
      → e'.task_id ≡ e.task_id
      → report_entry now config e db ≡ ok (ReportResult.ok, after)
      → report_entry later config' e' after ≡ ok (ReportResult.not_found, after)
  report_entry_once now later config config' e e' task db after found key succeeded same h =
      let applied = report_applied now config e task db after found h in
      let deleted =
        succeeded_lem e.status task now e.keepalive_timeout_in_seconds config db succeeded
          applied in
      let gone = (delete_task-IsDeleted task DeletionReason.succeeded db deleted).gone in
      report_gone later config' e' after (ap (S.tasks.get after.tasks) (same ∙ sym key) ∙ gone)
