-- ===== src/Queues/Access.antt =====
-- The tables that the core of pkg/queues/core.go holds, and one action for each access to them:
-- queues.go, schedules.go, counters.go and gc_records.go.
use moab.Base.{
  ℕ, String, List, [], ◌∷◌, ◌++◌, Option, none, some, ok, fail, true, false, ◌≡◌, not, ◌==◌, length,
  ltb, ℕ_discrete, String-discrete,
}
use moab.Base.Transaction.{Transaction, or_fail, ◌>>=◌, ◌>>◌, pure, when}
use mathlib.Core.Option
use moab.Honey.{Table, Index, Item, Page, Token, delete, forget}
use moab.Pagination.{in_order}
use moab.Tasks.Types.{QueueId, QueueId-discrete}
use moab.Queues.Types.{ScheduleId, Queue, Schedule, QueuesCounter}

-- The keys of the two names indexes.
pub record QueueName : Type 0 where
  pub account_id : ℕ
  pub name : String

pub record ScheduleName : Type 0 where
  pub queue : QueueId
  pub name : String

unfoldable pub QueueName-discrete : Discrete QueueName
unfolding ℕ_discrete String-discrete
QueueName-discrete = hlevel (ℕ_discrete, String-discrete)

unfoldable pub ScheduleName-discrete : Discrete ScheduleName
unfolding QueueId-discrete String-discrete
ScheduleName-discrete = hlevel (QueueId-discrete, String-discrete)

-- `QueueId` of a schedule id, and the id of a schedule in a queue.
abbrev pub queue_of : ScheduleId → QueueId
queue_of s = record { account_id = s.account_id; queue_id = s.queue_id }

abbrev pub schedule_in : QueueId → ℕ → ScheduleId
schedule_in q n = record { account_id = q.account_id; queue_id = q.queue_id; schedule_id = n }

abbrev pub name_of : Queue → QueueName
name_of q = record { account_id = q.id.account_id; name = q.name }

abbrev pub schedule_name_of : Schedule → ScheduleName
schedule_name_of s = record { queue = queue_of s.id; name = s.name }

-- `scheduledIndexPK`.
abbrev pub due_item : ScheduleId → ℕ → Item ScheduleId
due_item s t = record { time = t; ref = s }

pub record Stores : Type 1 where
  pub queues : Table QueueId ℕ Queue
  pub queue_names : Table QueueName (Unit {0}) ℕ
  pub schedules : Table ScheduleId QueueId Schedule
  pub schedule_names : Table ScheduleName (Unit {0}) ℕ
  pub scheduled : Index (Unit {0}) ScheduleId
  pub counters : Table ℕ (Unit {0}) QueuesCounter
  pub gc_records : Table QueueId (Unit {0}) QueueId
  pub schedules_prefix : (s : ScheduleId) → schedules.prefix s ≡ queue_of s

module _ ⦃S : Stores⦄ where
  -- The contents of the core's tables.
  pub record Db : Type 0 where
    pub queues : S.queues.Rows
    pub queue_names : S.queue_names.Rows
    pub schedules : S.schedules.Rows
    pub schedule_names : S.schedule_names.Rows
    pub scheduled : S.scheduled.Entries
    pub counters : S.counters.Rows
    pub gc_records : S.gc_records.Rows

  abbrev pub M : Type 0 → Type 0
  M A = Transaction Db A

  -- queues.go: `Get` and `GetByName`, where the row may be missing.
  abbrev pub queue_at : Db → QueueId → Option Queue
  queue_at db q = S.queues.get db.queues q

  unfoldable pub queue_named : Db → ℕ → String → Option Queue
  queue_named db a n =
      elim (S.queue_names.get db.queue_names (record { account_id = a; name = n })) [
        | none ↦ none
        | some i ↦ queue_at db (record { account_id = a; queue_id = i })
      ]

  unfoldable pub queues_find : QueueId → M (Option Queue)
  queues_find q db = ok (queue_at db q, db)

  unfoldable pub queues_find_by_name : ℕ → String → M (Option Queue)
  queues_find_by_name a n db = ok (queue_named db a n, db)

  unfoldable pub queues_get : QueueId → M Queue
  queues_get q db = or_fail (queue_at db q) db

  -- `Create`, `Update`, `Delete` and `SwapId`; only the last one minds a missing row.
  unfoldable pub queue_names_set : Queue → M (Unit {0})
  queue_names_set q db =
      ok
        (tt, record db { queue_names = S.queue_names.set db.queue_names (name_of q) q.id.queue_id })

  unfoldable pub queues_update : Queue → M (Unit {0})
  queues_update q db = ok (tt, record db { queues = S.queues.set db.queues q.id q })

  unfoldable pub queues_create : Queue → M (Unit {0})
  queues_create q = do queue_names_set q; queues_update q

  unfoldable pub queues_delete : Queue → M (Unit {0})
  queues_delete q db = ok (
    tt,
    record db {
      queues = forget S.queues db.queues q.id;
      queue_names = forget S.queue_names db.queue_names (name_of q);
    },
  )

  unfoldable pub queues_delete_row : QueueId → M (Unit {0})
  queues_delete_row q db = elim (delete S.queues db.queues q) [
    | ok r ↦ ok (tt, record db { queues = r })
    | fail e ↦ fail e
  ]

  unfoldable pub queues_swap_id : QueueId → Queue → M (Unit {0})
  queues_swap_id old q = do queue_names_set q; queues_update q; queues_delete_row old

  unfoldable pub queues_list : ℕ → Option Token → ℕ → M (Page Queue)
  queues_list a token limit db =
      let page = S.queues.page db.queues a token limit in
      ok (record page { items = in_order token page.items }, db)

  -- counters.go: a missing row reads as zero.
  unfoldable pub counters_get : ℕ → M QueuesCounter
  counters_get a db =
      ok (Option.get_or (S.counters.get db.counters a) (record { number_of_queues = 0 }), db)

  unfoldable pub counters_set : ℕ → QueuesCounter → M (Unit {0})
  counters_set a c db = ok (tt, record db { counters = S.counters.set db.counters a c })

  -- gc_records.go.
  unfoldable pub gc_records_create : QueueId → M (Unit {0})
  gc_records_create q db = ok (tt, record db { gc_records = S.gc_records.set db.gc_records q q })

  unfoldable pub gc_records_delete : QueueId → M (Unit {0})
  gc_records_delete q db = elim (delete S.gc_records db.gc_records q) [
    | ok r ↦ ok (tt, record db { gc_records = r })
    | fail e ↦ fail e
  ]

  unfoldable pub gc_records_list : ℕ → M (List QueueId)
  gc_records_list limit db = ok ((S.gc_records.page db.gc_records tt none limit).items, db)

  -- schedules.go.
  abbrev pub schedule_at : Db → ScheduleId → Option Schedule
  schedule_at db s = S.schedules.get db.schedules s

  unfoldable pub schedule_named : Db → QueueId → String → Option Schedule
  schedule_named db q n =
      elim (S.schedule_names.get db.schedule_names (record { queue = q; name = n })) [
        | none ↦ none
        | some i ↦ schedule_at db (schedule_in q i)
      ]

  unfoldable pub schedules_find : ScheduleId → M (Option Schedule)
  schedules_find s db = ok (schedule_at db s, db)

  unfoldable pub schedules_find_by_name : QueueId → String → M (Option Schedule)
  schedules_find_by_name q n db = ok (schedule_named db q n, db)

  unfoldable pub schedules_get : ScheduleId → M Schedule
  schedules_get s db = or_fail (schedule_at db s) db

  unfoldable pub schedules_set : Schedule → M (Unit {0})
  schedules_set s db = ok (tt, record db { schedules = S.schedules.set db.schedules s.id s })

  unfoldable pub scheduled_add : ScheduleId → ℕ → M (Unit {0})
  scheduled_add s t db =
      ok (tt, record db { scheduled = S.scheduled.add db.scheduled tt (due_item s t) })

  unfoldable pub scheduled_delete : ScheduleId → ℕ → M (Unit {0})
  scheduled_delete s t db =
      ok (tt, record db { scheduled = S.scheduled.remove db.scheduled tt (due_item s t) })

  unfoldable pub schedule_names_set : Schedule → M (Unit {0})
  schedule_names_set s db = ok (
    tt,
    record db {
      schedule_names = S.schedule_names.set db.schedule_names (schedule_name_of s) s.id.schedule_id;
    },
  )

  unfoldable pub schedules_create : Schedule → M (Unit {0})
  schedules_create s = do
    scheduled_add s.id s.next_scheduled_at
    schedule_names_set s
    schedules_set s

  -- `Update` reads the old time from the stored row.
  unfoldable pub schedules_update : Schedule → M (Unit {0})
  schedules_update s = do
    existing ← schedules_get s.id
    when (not (s.next_scheduled_at == existing.next_scheduled_at)) (do
      scheduled_delete s.id existing.next_scheduled_at
      scheduled_add s.id s.next_scheduled_at)
    schedules_set s

  unfoldable pub schedules_delete : Schedule → M (Unit {0})
  schedules_delete s db = ok (
    tt,
    record db {
      scheduled = S.scheduled.remove db.scheduled tt (due_item s.id s.next_scheduled_at);
      schedule_names = forget S.schedule_names db.schedule_names (schedule_name_of s);
      schedules = forget S.schedules db.schedules s.id;
    },
  )

  unfoldable pub schedules_page : QueueId → Option Token → ℕ → M (Page Schedule)
  schedules_page q token limit db =
      let page = S.schedules.page db.schedules q token limit in
      ok (record page { items = in_order token page.items }, db)

  -- The callback of `ListDue`: it reads each schedule back, and stops once it has `limit` of them.
  unfoldable pub collect_due : ℕ → List (Item ScheduleId) → List Schedule → M (List Schedule)
  collect_due limit [] found = pure found
  collect_due limit (i ∷ is) found = do
    schedule ← schedules_get i.ref
    let more = found ++ schedule ∷ []
    elim (ltb (length more) limit) [ true ↦ collect_due limit is more | false ↦ pure more ]

  unfoldable pub scheduled_range : ℕ → M (List (Item ScheduleId))
  scheduled_range before db = ok (S.scheduled.in_range db.scheduled tt 0 before, db)

  unfoldable pub list_due : ℕ → ℕ → M (List Schedule)
  list_due before limit = do items ← scheduled_range before; collect_due limit items []
