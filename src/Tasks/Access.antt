-- ===== src/Tasks/Access.antt =====
-- One action for each access to the tables of the core: pkg/tasks/tasks.go, threads.go,
-- expiration.go, counters.go, queue_state.go, rate_limiters.go and purge_gc_records.go.
use moab.Base.{ℕ, Bool, true, false, String, List, Option, none, some, ok, fail}
use mathlib.Core.Option
use moab.Honey.{Item, Page, Token, delete}
use moab.Tasks.Monad.{Stores, Db, M, or_fail, item}
use moab.Tasks.Types.{
  QueueId, TaskId, Task, Thread, TasksCounter, QueueState, RateLimiterState,
  TokenBucketRateLimiting,
}

module _ ⦃S : Stores⦄ where
  -- A row that must be there, and one that may be missing (`errors.Is(err, store.ErrNotFound)`).
  unfoldable pub tasks_get : TaskId → M Task
  tasks_get id db = or_fail (S.tasks.get db.tasks id) db

  unfoldable pub tasks_find : TaskId → M (Option Task)
  tasks_find id db = ok (S.tasks.get db.tasks id, db)

  unfoldable pub tasks_set : Task → M (Unit {0})
  tasks_set t db = ok (tt, record db { tasks = S.tasks.set db.tasks t.id t })

  unfoldable pub tasks_delete : TaskId → M (Unit {0})
  tasks_delete id db = elim (delete S.tasks db.tasks id) [
    | ok r ↦ ok (tt, record db { tasks = r })
    | fail e ↦ fail e
  ]

  unfoldable pub dedupe_find : QueueId → String → M (Option ℕ)
  dedupe_find q k db =
      ok (S.dedupe_keys_index.get db.dedupe_keys_index (record { queue = q; text = k }), db)

  unfoldable pub dedupe_set : QueueId → String → ℕ → M (Unit {0})
  dedupe_set q k n db = ok (
    tt,
    record db {
      dedupe_keys_index =
          S.dedupe_keys_index.set db.dedupe_keys_index (record { queue = q; text = k }) n;
    },
  )

  unfoldable pub dedupe_delete : QueueId → String → M (Unit {0})
  dedupe_delete q k db =
      elim (delete S.dedupe_keys_index db.dedupe_keys_index (record { queue = q; text = k })) [
        | ok r ↦ ok (tt, record db { dedupe_keys_index = r })
        | fail e ↦ fail e
      ]

  unfoldable pub queue_index_add : QueueId → Item ℕ → M (Unit {0})
  queue_index_add q i db = ok (tt, record db { queue_index = S.queue_index.add db.queue_index q i })

  unfoldable pub queue_index_delete : QueueId → Item ℕ → M (Unit {0})
  queue_index_delete q i db =
      ok (tt, record db { queue_index = S.queue_index.remove db.queue_index q i })

  unfoldable pub in_progress_index_add : QueueId → Item ℕ → M (Unit {0})
  in_progress_index_add q i db =
      ok (tt, record db { in_progress_index = S.in_progress_index.add db.in_progress_index q i })

  unfoldable pub in_progress_index_delete : QueueId → Item ℕ → M (Unit {0})
  in_progress_index_delete q i db =
      ok (tt, record db { in_progress_index = S.in_progress_index.remove db.in_progress_index q i })

  unfoldable pub dead_tasks_index_add : QueueId → Item ℕ → M (Unit {0})
  dead_tasks_index_add q i db =
      ok (tt, record db { dead_tasks_index = S.dead_tasks_index.add db.dead_tasks_index q i })

  unfoldable pub dead_tasks_index_delete : QueueId → Item ℕ → M (Unit {0})
  dead_tasks_index_delete q i db =
      ok (tt, record db { dead_tasks_index = S.dead_tasks_index.remove db.dead_tasks_index q i })

  -- `ListInRange` of the two indexes that `Dequeue` scans.
  unfoldable pub queue_index_range : QueueId → ℕ → ℕ → M (List (Item ℕ))
  queue_index_range q lo hi db = ok (S.queue_index.in_range db.queue_index q lo hi, db)

  unfoldable pub in_progress_index_range : QueueId → ℕ → ℕ → M (List (Item ℕ))
  in_progress_index_range q lo hi db =
      ok (S.in_progress_index.in_range db.in_progress_index q lo hi, db)

  -- `ListPaginated` of the primary table and of the three state indexes.
  unfoldable pub tasks_page : QueueId → Option Token → ℕ → M (Page Task)
  tasks_page q token limit db = ok (S.tasks.page db.tasks q token limit, db)

  unfoldable pub queue_index_page : QueueId → Option Token → ℕ → M (Page (Item ℕ))
  queue_index_page q token limit db = ok (S.queue_index.page db.queue_index q token limit, db)

  unfoldable pub in_progress_index_page : QueueId → Option Token → ℕ → M (Page (Item ℕ))
  in_progress_index_page q token limit db =
      ok (S.in_progress_index.page db.in_progress_index q token limit, db)

  unfoldable pub dead_tasks_index_page : QueueId → Option Token → ℕ → M (Page (Item ℕ))
  dead_tasks_index_page q token limit db =
      ok (S.dead_tasks_index.page db.dead_tasks_index q token limit, db)

  unfoldable pub dead_tasks_items : QueueId → M (List (Item ℕ))
  dead_tasks_items q db = ok (S.dead_tasks_index.items db.dead_tasks_index q, db)

  -- `expirationIndex.add` and `remove`.
  unfoldable pub expiration_add : TaskId → ℕ → M (Unit {0})
  expiration_add id t db =
      ok (tt, record db { expiration = S.expiration.add db.expiration tt (item t id) })

  unfoldable pub expiration_remove : TaskId → ℕ → M (Unit {0})
  expiration_remove id t db =
      ok (tt, record db { expiration = S.expiration.remove db.expiration tt (item t id) })

  unfoldable pub expiration_range : ℕ → ℕ → M (List (Item TaskId))
  expiration_range lo hi db = ok (S.expiration.in_range db.expiration tt lo hi, db)

  unfoldable pub threads_get : QueueId → String → M Thread
  threads_get q t db = or_fail (S.threads.get db.threads (record { queue = q; text = t })) db

  unfoldable pub threads_find : QueueId → String → M (Option Thread)
  threads_find q t db = ok (S.threads.get db.threads (record { queue = q; text = t }), db)

  unfoldable pub threads_set : QueueId → Thread → M (Unit {0})
  threads_set q t db = ok (
    tt,
    record db { threads = S.threads.set db.threads (record { queue = q; text = t.thread_id }) t },
  )

  unfoldable pub threads_delete : QueueId → String → M (Unit {0})
  threads_delete q t db = elim (delete S.threads db.threads (record { queue = q; text = t })) [
    | ok r ↦ ok (tt, record db { threads = r })
    | fail e ↦ fail e
  ]

  -- `AddToIndex`, `RemoveFromIndex` and, for the listing, the items of `ListIndex`.
  unfoldable pub thread_index_add : QueueId → String → Item ℕ → M (Unit {0})
  thread_index_add q t i db = ok (
    tt,
    record db {
      threaded_tasks_index =
          S.threaded_tasks_index.add db.threaded_tasks_index (record { queue = q; text = t }) i;
    },
  )

  unfoldable pub thread_index_remove : QueueId → String → Item ℕ → M (Unit {0})
  thread_index_remove q t i db = ok (
    tt,
    record db {
      threaded_tasks_index =
          S.threaded_tasks_index.remove db.threaded_tasks_index (record { queue = q; text = t }) i;
    },
  )

  unfoldable pub thread_index_items : QueueId → String → M (List (Item ℕ))
  thread_index_items q t db =
      ok (S.threaded_tasks_index.items db.threaded_tasks_index (record { queue = q; text = t }), db)

  -- `Get` of counters.go and queue_state.go: a missing row reads as the zero value.
  abbrev pub no_counters : TasksCounter
  no_counters = record {
    enqueued_tasks_count = 0;
    in_progress_tasks_count = 0;
    dead_tasks_count = 0;
    processed_tasks_count = 0;
    expired_tasks_count = 0;
  }

  unfoldable pub counters_get : QueueId → M TasksCounter
  counters_get q db = ok (Option.get_or (S.counters.get db.counters q) no_counters, db)

  unfoldable pub counters_set : QueueId → TasksCounter → M (Unit {0})
  counters_set q c db = ok (tt, record db { counters = S.counters.set db.counters q c })

  abbrev pub no_queue_state : QueueState
  no_queue_state = record {
    task_id_sequence = 0;
    last_visited_enqueued = 0;
    last_visited_in_progress = 0;
  }

  unfoldable pub queue_state_get : QueueId → M QueueState
  queue_state_get q db = ok (Option.get_or (S.queue_state.get db.queue_state q) no_queue_state, db)

  unfoldable pub queue_state_set : QueueId → QueueState → M (Unit {0})
  queue_state_set q s db = ok (tt, record db { queue_state = S.queue_state.set db.queue_state q s })

  -- The rows of a queue, as the core reads them.
  abbrev pub counters_of : Db → QueueId → TasksCounter
  counters_of db q = Option.get_or (S.counters.get db.counters q) no_counters

  abbrev pub queue_state_of : Db → QueueId → QueueState
  queue_state_of db q = Option.get_or (S.queue_state.get db.queue_state q) no_queue_state

  -- `GetOrDefault` of rate_limiters.go: a full bucket as of now where there is none yet.
  unfoldable pub rate_limiters_get : QueueId → TokenBucketRateLimiting → ℕ → M RateLimiterState
  rate_limiters_get q r now db = ok (
    Option.get_or (S.rate_limiters.get db.rate_limiters q)
        (record { tokens = r.max_tokens; last_refilled_at = now }),
    db,
  )

  unfoldable pub rate_limiters_set : QueueId → RateLimiterState → M (Unit {0})
  rate_limiters_set q s db =
      ok (tt, record db { rate_limiters = S.rate_limiters.set db.rate_limiters q s })

  -- `Delete` of the three per-queue tables: a missing row is no error.
  unfoldable pub counters_delete : QueueId → M (Unit {0})
  counters_delete q db = elim (delete S.counters db.counters q) [
    | ok r ↦ ok (tt, record db { counters = r })
    | fail e ↦ ok (tt, db)
  ]

  unfoldable pub queue_state_delete : QueueId → M (Unit {0})
  queue_state_delete q db = elim (delete S.queue_state db.queue_state q) [
    | ok r ↦ ok (tt, record db { queue_state = r })
    | fail e ↦ ok (tt, db)
  ]

  unfoldable pub rate_limiters_delete : QueueId → M (Unit {0})
  rate_limiters_delete q db = elim (delete S.rate_limiters db.rate_limiters q) [
    | ok r ↦ ok (tt, record db { rate_limiters = r })
    | fail e ↦ ok (tt, db)
  ]

  -- purge_gc_records.go.
  unfoldable pub purge_create : QueueId → M (Unit {0})
  purge_create q db =
      ok (tt, record db { purge_gc_records = S.purge_gc_records.set db.purge_gc_records q q })

  unfoldable pub purge_exists : QueueId → M Bool
  purge_exists q db = elim (S.purge_gc_records.get db.purge_gc_records q) [
    | none ↦ ok (false, db)
    | some _ ↦ ok (true, db)
  ]

  unfoldable pub purge_delete : QueueId → M (Unit {0})
  purge_delete q db = elim (delete S.purge_gc_records db.purge_gc_records q) [
    | ok r ↦ ok (tt, record db { purge_gc_records = r })
    | fail e ↦ fail e
  ]

  unfoldable pub purge_list : ℕ → M (List QueueId)
  purge_list limit db = ok ((S.purge_gc_records.page db.purge_gc_records tt none limit).items, db)
