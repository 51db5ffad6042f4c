-- ===== src/Tasks/Enqueue.antt =====
-- `Enqueue` of pkg/tasks/core.go, with `overwriteDuplicate`, and `RestartTasks`, which enqueues a
-- dead task again.
pub mod Numbering
pub mod Deduping
pub mod Restarting
use moab.Base.{
  ℕ, Bool, false, String, List, [], ◌∷◌, ◌++◌, Option, none, some, Result, not, ◌==◌, if◌then◌else◌,
  is_set,
}
use moab.Base.Word.{add64, sub64, slt}
use moab.Tasks.Types.{
  QueueId, TaskId, TaskState, Task, OverwriteOnDuplicate, EnqueueRequestEntry,
  RestartTasksRequestEntry, RestartTasksResponseEntry, RestartResult, Response, is_enqueued,
  is_dead,
}
use moab.Tasks.Monad.{Stores, M, Db, ◌>>=◌, ◌>>◌, pure, item, task_in, queue_of, map_m, transact}
use moab.Tasks.Access.{
  tasks_get, tasks_find, tasks_set, dedupe_find, queue_index_add, queue_index_delete,
  dead_tasks_index_delete, expiration_add, expiration_remove, counters_get, counters_set,
  queue_state_get, queue_state_set,
}
use moab.Tasks.Threads.{reschedule_task_in_thread}
use moab.Tasks.Lifecycle.{create_task}
use moab.Tasks.Dequeue.{unless_purged}

-- `max(requested, now)`, on int64.
abbrev pub not_before : ℕ → ℕ → ℕ
not_before now requested = if slt requested now then now else requested

module _ ⦃S : Stores⦄ where
  -- One option of `OverwriteOnDuplicate`; the duplicate that the next one sees.
  unfoldable pub overwrite_field : EnqueueRequestEntry → ℕ → OverwriteOnDuplicate → Task → M Task
  overwrite_field e at OverwriteOnDuplicate.invalid d = pure d
  overwrite_field e at OverwriteOnDuplicate.payload d = pure (record d { payload = e.payload })
  overwrite_field e at OverwriteOnDuplicate.expires_at d = do
    expiration_remove d.id d.expires_at
    expiration_add d.id e.expires_at
    pure (record d { expires_at = e.expires_at })
  overwrite_field e at OverwriteOnDuplicate.scheduled_at d = do
    let moved = record d { scheduled_at = at }
    if is_set d.thread_id
        then (do tasks_set moved; reschedule_task_in_thread moved d.scheduled_at)
        else (do
          queue_index_delete (queue_of d.id) (item d.scheduled_at d.id.task_id)
          queue_index_add (queue_of d.id) (item at d.id.task_id))
    pure moved

  unfoldable pub overwrite_fields :
      EnqueueRequestEntry → ℕ → List OverwriteOnDuplicate → Task → M Task
  overwrite_fields e at [] d = pure d
  overwrite_fields e at (o ∷ os) d = do d' ← overwrite_field e at o d; overwrite_fields e at os d'

  -- Only a task that has not started is overwritten.
  unfoldable pub overwrite_enqueued :
      EnqueueRequestEntry → ℕ → List OverwriteOnDuplicate → Task → M Task
  overwrite_enqueued e at os d =
      if is_enqueued d.state
      then (do d' ← overwrite_fields e at os d; tasks_set d'; pure d')
      else pure d

  unfoldable pub overwrite_duplicate :
      EnqueueRequestEntry → ℕ → TaskId → List OverwriteOnDuplicate → M (Option Task)
  overwrite_duplicate e at id [] = pure none
  overwrite_duplicate e at id (o ∷ os) = do
    d ← tasks_get id
    d' ← overwrite_enqueued e at (o ∷ os) d
    pure (some d')

  -- The task of a new entry.
  abbrev pub new_task : QueueId → ℕ → EnqueueRequestEntry → ℕ → ℕ → Task
  new_task q now e at n = record {
    id = task_in q n;
    payload = e.payload;
    created_at = now;
    scheduled_at = at;
    expires_at = e.expires_at;
    dedupe_key = e.dedupe_key;
    state = TaskState.enqueued;
    attempts = 0;
    visible_at = 0;
    last_failed_at = 0;
    debug_info = [];
    retry_strategy = e.retry_strategy;
    thread_id = e.thread_id;
  }

  -- A new entry takes the next number of the sequence.
  unfoldable pub enqueue_new : QueueId → ℕ → EnqueueRequestEntry → ℕ → M (Option Task × ℕ)
  enqueue_new q now e sequence = do
    let n = add64 sequence 1
    let task = new_task q now e (not_before now e.scheduled_at) n
    create_task task
    pure (some task, n)

  -- The id that the entry's dedupe key already points at, if it has a key.
  unfoldable pub find_duplicate : QueueId → String → M (Option ℕ)
  find_duplicate q key = if is_set key then dedupe_find q key else pure none

  -- One entry: the task to return, if any, and the sequence that the next entry sees.
  unfoldable pub enqueue_entry : QueueId → ℕ → EnqueueRequestEntry → ℕ → M (Option Task × ℕ)
  enqueue_entry q now e sequence = do
    duplicate ← find_duplicate q e.dedupe_key
    elim duplicate [
      | none ↦ enqueue_new q now e sequence
      | some n ↦ (do
        d ←
            overwrite_duplicate e (not_before now e.scheduled_at) (task_in q n)
              e.overwrite_on_duplicate
        pure (d, sequence))
    ]

  abbrev pub append_some : List Task → Option Task → List Task
  append_some ts none = ts
  append_some ts (some t) = ts ++ t ∷ []

  unfoldable pub enqueue_entries :
      QueueId → ℕ → List EnqueueRequestEntry → List Task → ℕ → M (List Task × ℕ)
  enqueue_entries q now [] tasks sequence = pure (tasks, sequence)
  enqueue_entries q now (e ∷ es) tasks sequence = do
    r ← enqueue_entry q now e sequence
    enqueue_entries q now es (append_some tasks r.0) r.1

  unfoldable pub enqueue_unpurged : QueueId → ℕ → List EnqueueRequestEntry → M (List Task)
  enqueue_unpurged q now entries = do
    state ← queue_state_get q
    r ← enqueue_entries q now entries [] state.task_id_sequence
    queue_state_set q (record state { task_id_sequence = r.1 })
    pure r.0

  unfoldable pub enqueue :
      QueueId → ℕ → List EnqueueRequestEntry → Db → Result (Response (List Task)) × Db
  enqueue q now entries = transact (unless_purged q (enqueue_unpurged q now entries))

  -- `restartTask`: the task as it is enqueued again.
  unfoldable pub restart_task : Task → ℕ → ℕ → ℕ → M Task
  restart_task task now scheduled_at expires_at = do
    dead_tasks_index_delete (queue_of task.id) (item task.last_failed_at task.id.task_id)
    expiration_remove task.id task.expires_at
    counters ← counters_get (queue_of task.id)
    counters_set (queue_of task.id)
        (record counters { dead_tasks_count = sub64 counters.dead_tasks_count 1 })
    let fresh = record task {
      state = TaskState.enqueued;
      attempts = 0;
      scheduled_at = not_before now scheduled_at;
      expires_at = expires_at;
      visible_at = 0;
      last_failed_at = 0;
    }
    create_task fresh
    pure fresh

  abbrev pub not_restarted : RestartTasksRequestEntry → RestartResult → RestartTasksResponseEntry
  not_restarted e r = record { task_id = e.task_id; result = r; task = none }

  -- Another live task has the dedupe key.
  abbrev pub is_conflict : Option ℕ → ℕ → Bool
  is_conflict none n = false
  is_conflict (some m) n = not (m == n)

  unfoldable pub restart_dead :
      QueueId → ℕ → RestartTasksRequestEntry → Task → M RestartTasksResponseEntry
  restart_dead q now e task = do
    duplicate ← find_duplicate q task.dedupe_key
    if is_conflict duplicate task.id.task_id
        then pure (not_restarted e RestartResult.dedupe_conflict)
        else (do
          fresh ← restart_task task now e.scheduled_at e.expires_at
          pure
              (record { task_id = e.task_id; result = RestartResult.restarted; task = some fresh }))

  unfoldable pub restart_entry :
      QueueId → ℕ → RestartTasksRequestEntry → M RestartTasksResponseEntry
  restart_entry q now e = do
    found ← tasks_find (task_in q e.task_id)
    elim found [
      | none ↦ pure (not_restarted e RestartResult.not_found)
      | some task ↦
          if not (is_dead task.state)
          then pure (not_restarted e RestartResult.not_dead)
          else if slt task.expires_at now
          then pure (not_restarted e RestartResult.not_found)
          else restart_dead q now e task
    ]

  unfoldable pub restart_tasks :
      QueueId
      → ℕ
      → List RestartTasksRequestEntry
      → Db
      → Result (List RestartTasksResponseEntry) × Db
  restart_tasks q now entries = transact (map_m (restart_entry q now) entries)
