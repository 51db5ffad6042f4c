-- ===== src/Tasks/Samples.antt =====
-- A concrete store, on which the core runs, with a queue, a few requests and the states that they
-- lead to.
use moab.Base.{ℕ, refl, String, [], ◌∷◌, none, Result, ok, fail, ℕ_discrete, String-discrete}
use moab.Honey.{Item}
use moab.Honey.ListTable.{list_table}
use moab.Honey.ListIndex.{list_index}
use moab.Tasks.Types.{
  QueueId, QueueId-discrete, TaskId, Task, TaskState, TasksCounter, QueueState, EnqueueRequestEntry,
  DequeueRequest,
}
use moab.Tasks.Monad.{Stores, Db, TextKey, queue_of, task_in, item}

unfoldable pub TaskId-discrete : Discrete TaskId
unfolding ℕ_discrete
TaskId-discrete = hlevel ℕ_discrete

unfoldable pub TextKey-discrete : Discrete TextKey
unfolding QueueId-discrete String-discrete
TextKey-discrete = hlevel (ℕ_discrete, String-discrete)

unfoldable pub Item-discrete : Discrete (Item ℕ)
unfolding ℕ_discrete
Item-discrete = hlevel ℕ_discrete

unfoldable pub TaskItem-discrete : Discrete (Item TaskId)
unfolding ℕ_discrete
TaskItem-discrete = hlevel ℕ_discrete

unfoldable pub Unit-discrete : Discrete (Unit {0})
Unit-discrete = λ a b. yes refl

instance abbrev pub sample : Stores
sample = record {
  tasks = list_table TaskId-discrete QueueId-discrete queue_of;
  dedupe_keys_index = list_table TextKey-discrete Unit-discrete (λ _. tt);
  queue_index = list_index QueueId-discrete Item-discrete;
  in_progress_index = list_index QueueId-discrete Item-discrete;
  dead_tasks_index = list_index QueueId-discrete Item-discrete;
  expiration = list_index Unit-discrete TaskItem-discrete;
  threads = list_table TextKey-discrete Unit-discrete (λ _. tt);
  threaded_tasks_index = list_index TextKey-discrete Item-discrete;
  counters = list_table QueueId-discrete Unit-discrete (λ _. tt);
  queue_state = list_table QueueId-discrete Unit-discrete (λ _. tt);
  rate_limiters = list_table QueueId-discrete Unit-discrete (λ _. tt);
  purge_gc_records = list_table QueueId-discrete Unit-discrete (λ _. tt);
}

abbrev pub q1 : QueueId
q1 = record { account_id = 0; queue_id = 7 }

unfoldable pub empty_db : Db
unfolding list_table list_index
empty_db = record {
  tasks = [];
  dedupe_keys_index = [];
  queue_index = [];
  in_progress_index = [];
  dead_tasks_index = [];
  expiration = [];
  threads = [];
  threaded_tasks_index = [];
  counters = [];
  queue_state = [];
  rate_limiters = [];
  purge_gc_records = [];
}

abbrev pub entry : String → ℕ → EnqueueRequestEntry
entry thread at = record {
  payload = 1 ∷ [];
  scheduled_at = at;
  expires_at = 1_000_000;
  dedupe_key = "";
  retry_strategy = none;
  overwrite_on_duplicate = [];
  thread_id = thread;
}

abbrev pub request : ℕ → DequeueRequest
request limit = record {
  queue_id = q1;
  dequeuing_settings = none;
  dequeue_limit = limit;
  dead_letter_queue_config = none;
  keepalive_timeout_in_seconds = 30;
}

-- A task of the sample queue, in the thread that is named ("" for none).
abbrev pub task_of : ℕ → TaskState → String → ℕ → Task
task_of n state thread at = record {
  id = task_in q1 n;
  payload = 1 ∷ [];
  created_at = 10;
  scheduled_at = at;
  expires_at = 1_000_000;
  dedupe_key = "";
  state = state;
  attempts = 0;
  visible_at = 0;
  last_failed_at = 0;
  debug_info = [];
  retry_strategy = none;
  thread_id = thread;
}

-- Contents with one more row, or one more entry.
abbrev pub storing : Task → Db → Db
storing t db = record db { tasks = sample.tasks.set db.tasks t.id t }

abbrev pub queueing : Task → Db → Db
queueing t db = record db {
  queue_index = sample.queue_index.add db.queue_index q1 (item t.scheduled_at t.id.task_id);
}

abbrev pub working : Task → Db → Db
working t db = record db {
  in_progress_index =
      sample.in_progress_index.add db.in_progress_index q1 (item t.visible_at t.id.task_id);
}

abbrev pub expiring : Task → Db → Db
expiring t db = record db {
  expiration = sample.expiration.add db.expiration tt (item t.expires_at t.id);
}

abbrev pub counting : TasksCounter → Db → Db
counting c db = record db { counters = sample.counters.set db.counters q1 c }

abbrev pub at_state : QueueState → Db → Db
at_state s db = record db { queue_state = sample.queue_state.set db.queue_state q1 s }

-- A thread of one task, which is its head.
abbrev pub threading : Task → Db → Db
threading t db = record db {
  threads =
      sample.threads.set db.threads (record { queue = q1; text = t.thread_id })
        (record {
          thread_id = t.thread_id;
          head_task_id = t.id;
          scheduled_at = t.scheduled_at;
          visible_at = 0;
        });
  threaded_tasks_index =
      sample.threaded_tasks_index.add db.threaded_tasks_index
        (record { queue = q1; text = t.thread_id }) (item t.scheduled_at t.id.task_id);
}

-- The contents after an action, for a case in which it succeeds.
abbrev pub contents : {A : Type 0} → Result (A × Db) → Db
contents (ok (_, db)) = db
contents (fail _) = empty_db

-- What an action returns, for a case in which it succeeds.
abbrev pub value : {A : Type 0} → A → Result (A × Db) → A
value d (ok (a, _)) = a
value d (fail _) = d
