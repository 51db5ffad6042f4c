-- ===== src/Tasks/Monad.antt =====
-- The tables and indexes that the core of pkg/tasks/core.go holds, and a transaction over them.
-- Keys are records; the source concatenates their fields as fixed-width bytes.
use moab.Base.{ℕ, String}
use moab.Base.Transaction.{Transaction}
pub use moab.Base.Transaction.{pure, raise, ◌>>=◌, ◌>>◌, lift, or_fail, when, >>=-eq-ok}
unfoldable pub use moab.Base.Transaction.{for_each, map_m, transact, view}
use moab.Honey.{Table, Index, Item}
use moab.Tasks.Types.{QueueId, TaskId, Task, Thread, TasksCounter, QueueState, RateLimiterState}

-- `dedupeKeysIndexPK` and `tablePK`/`threadIndexPK` of threads.go.
pub record TextKey : Type 0 where
  pub queue : QueueId
  pub text : String

-- The kinds of tables that the core is built on.
pub record Stores : Type 1 where
  pub tasks : Table TaskId QueueId Task
  pub dedupe_keys_index : Table TextKey (Unit {0}) ℕ
  pub queue_index : Index QueueId ℕ
  pub in_progress_index : Index QueueId ℕ
  pub dead_tasks_index : Index QueueId ℕ
  pub expiration : Index (Unit {0}) TaskId
  pub threads : Table TextKey (Unit {0}) Thread
  pub threaded_tasks_index : Index TextKey ℕ
  pub counters : Table QueueId (Unit {0}) TasksCounter
  pub queue_state : Table QueueId (Unit {0}) QueueState
  pub rate_limiters : Table QueueId (Unit {0}) RateLimiterState
  pub purge_gc_records : Table QueueId (Unit {0}) QueueId

abbrev pub queue_of : TaskId → QueueId
queue_of t = record { account_id = t.account_id; queue_id = t.queue_id }

abbrev pub task_in : QueueId → ℕ → TaskId
task_in q n = record { account_id = q.account_id; queue_id = q.queue_id; task_id = n }

-- `tablePK` and `threadIndexPK` of threads.go.
abbrev pub thread_key : QueueId → String → TextKey
thread_key q t = record { queue = q; text = t }

-- `queueIndexItem`, `inProgressIndexItem`, `deadTasksIndexItem`, `threadedTasksIndexItem`.
abbrev pub item : {R : Type 0} → ℕ → R → Item R
item t r = record { time = t; ref = r }

module _ ⦃S : Stores⦄ where
  -- The contents of the core's tables.
  pub record Db : Type 0 where
    pub tasks : S.tasks.Rows
    pub dedupe_keys_index : S.dedupe_keys_index.Rows
    pub queue_index : S.queue_index.Entries
    pub in_progress_index : S.in_progress_index.Entries
    pub dead_tasks_index : S.dead_tasks_index.Entries
    pub expiration : S.expiration.Entries
    pub threads : S.threads.Rows
    pub threaded_tasks_index : S.threaded_tasks_index.Entries
    pub counters : S.counters.Rows
    pub queue_state : S.queue_state.Rows
    pub rate_limiters : S.rate_limiters.Rows
    pub purge_gc_records : S.purge_gc_records.Rows

  -- What a method does inside its transaction.
  abbrev pub M : Type 0 → Type 0
  M A = Transaction Db A
