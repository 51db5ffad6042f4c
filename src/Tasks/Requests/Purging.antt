-- ===== src/Tasks/Requests/Purging.antt =====
-- `PurgeQueue` of pkg/tasks/core.go: from its commit on, the queue id is refused.
use moab.Base.{ℕ, ◌≡◌, List, Option, some, ok, arith}
use moab.Honey.{Token}
use moab.Tasks.Types.{
  QueueId, TaskState, EnqueueRequestEntry, DequeueRequest, ApplicationError, refused,
}
use moab.Tasks.Monad.{Stores, Db, M, view}
use moab.Tasks.Access.{purge_create}
use moab.Tasks.Dequeue.{dequeue, dequeue_unpurged, unless_purged}
use moab.Tasks.Dequeue.Answers.{transact_purged, unless_purged-purged}
use moab.Base.Transaction.{transact-eq-ok}
use moab.Tasks.Enqueue.{enqueue, enqueue_unpurged}
use moab.Tasks.Requests.{list_tasks, purge_queue}

module _ ⦃S : Stores⦄ where
  purge_queue_lem :
      (q : QueueId) (db after : Db)
      → purge_queue q db ≡ (ok tt, after)
      → S.purge_gc_records.get after.purge_gc_records q ≡ some q
  unfolding purge_queue purge_create
  purge_queue_lem q db after e =
      let done = transact-eq-ok (purge_create q) db e in
      ground (arith, done, S.purge_gc_records.get-set_self db.purge_gc_records q q)

  view_purged :
      {A : Type 0} (q : QueueId) (m : M A) (db : Db)
      → S.purge_gc_records.get db.purge_gc_records q ≡ some q
      → view (unless_purged q m) db ≡ ok (refused (ApplicationError.queue_not_found q))
  unfolding view
  view_purged q m db purged = ground (arith, unless_purged-purged q q m db purged)

  pub purge_queue_refuses :
      (req : DequeueRequest) (now : ℕ) (entries : List EnqueueRequestEntry) (state : TaskState)
      (token : Option Token) (limit : ℕ) (db after : Db)
      → purge_queue req.queue_id db ≡ (ok tt, after)
      → (enqueue req.queue_id now entries after
          ≡ (ok (refused (ApplicationError.queue_not_found req.queue_id)), after))
        × (dequeue req now after
            ≡ (ok (refused (ApplicationError.queue_not_found req.queue_id)), after))
        × (list_tasks req.queue_id state token limit after
            ≡ ok (refused (ApplicationError.queue_not_found req.queue_id)))
  unfolding enqueue dequeue list_tasks
  purge_queue_refuses req now entries state token limit db after e =
      let q : QueueId = req.queue_id in
      let purged = purge_queue_lem q db after e in
      (
        transact_purged q q (enqueue_unpurged q now entries) after purged,
        transact_purged q q (dequeue_unpurged req now) after purged,
        view_purged q _ after purged,
      )
