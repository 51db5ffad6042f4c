-- ===== src/Tasks/Dequeue/Scanning.antt =====
-- What the scan for fresh tasks keeps, whatever the entries: a rule for its loop, and the bounds
-- that follow from it.
use moab.Base.{
  ℕ, ◌+◌, ◌≤◌, ◌<◌, ◌≡◌, sym, ◌∙◌, true, false, List, [], ◌∷◌, Option, some, ok, arith, Bool-cases,
  Option-cases, inl, inr, length, length-append, All, All-append,
}
use moab.Base.Word.{add64, sub64, slt, sle-leb, slt-ltb, half64, mod64}
use moab.Honey.{Item}
use moab.Tasks.Types.{QueueId, Task, TasksCounter, DequeuingSettings}
use moab.Tasks.Monad.{Stores, Db, task_in}
use moab.Tasks.Access.{tasks_get}
use moab.Tasks.Dequeue.{Scan, scan_queue, take_task, is_full, is_saturated}

-- The scan before its first entry.
abbrev pub start : TasksCounter → ℕ → Scan
start counters cursor = record {
  dequeued = [];
  expired = [];
  counters = counters;
  visited = 0;
  cursor = cursor;
  saw_any_candidate = false;
}

-- One round of the scan.
scan_queue_step :
    ⦃S : Stores⦄ (q : QueueId) (now limit : ℕ) (settings : Option DequeuingSettings) (i : Item ℕ)
    (is : List (Item ℕ)) (s : Scan) (db : Db) (task : Task)
    → is_full limit settings s ≡ false
    → S.tasks.get db.tasks (task_in q i.ref) ≡ some task
    → scan_queue q now limit settings (i ∷ is) s db
      ≡ scan_queue q now limit settings is
          (take_task now i.time task (record s { saw_any_candidate = true }))
          db
unfolding scan_queue tasks_get
scan_queue_step q now limit settings i is s db task room found = ground arith

module _ ⦃S : Stores⦄ (P : Scan → Type 0) (q : QueueId) (now limit : ℕ)
    (settings : Option DequeuingSettings)
    (saw : (s : Scan) → P s → P (record s { saw_any_candidate = true }))
    (keep : (time : ℕ) (task : Task) (s : Scan)
      → is_full limit settings s ≡ false
      → P s
      → P (take_task now time task (record s { saw_any_candidate = true }))) where
  -- The scan writes nothing, and what each step keeps holds at the end.
  pub scan_queue_inv :
      (items : List (Item ℕ)) (s : Scan) (db : Db) {s' : Scan} {db' : Db}
      → P s
      → scan_queue q now limit settings items s db ≡ ok (s', db')
      → P s' × (db' ≡ db)
  unfolding scan_queue tasks_get
  scan_queue_inv [] s db h e = ground arith
  scan_queue_inv (i ∷ is) s db h e = elim (Bool-cases (is_full limit settings s)) [
    | inl full ↦ ground (arith, saw s h)
    | inr room ↦ elim (Option-cases (S.tasks.get db.tasks (task_in q i.ref))) [
      | inl gone ↦ ground arith
      | inr (task, found) ↦
          scan_queue_inv is (take_task now i.time task (record s { saw_any_candidate = true })) db
            (keep i.time task s room h)
            (sym (scan_queue_step q now limit settings i is s db task room found) ∙ e)
    ]
  ]

-- The list and the budget of a scan that began with nothing.
pub record IsBounded (limit : ℕ) (s : Scan) : Type 0 where
  pub few : length s.dequeued ≤ limit
  pub budget : s.visited ≤ 100
  pub total : length s.dequeued + length s.expired ≡ s.visited

pub take_task-IsBounded :
    (settings : Option DequeuingSettings) (now limit time : ℕ) (task : Task) (s : Scan)
    → limit < half64
    → is_full limit settings s ≡ false
    → IsBounded limit s
    → IsBounded limit (take_task now time task (record s { saw_any_candidate = true }))
unfolding take_task is_full
take_task-IsBounded settings now limit time task s small room b = ground (
  arith,
  sle-leb limit (length s.dequeued),
  length-append s.dequeued (task ∷ []),
  length-append s.expired (task ∷ []),
)

-- The gauges follow the lists: what is handed out, and what is taken out of the queue.
pub record IsCounted (before : TasksCounter) (s : Scan) : Type 0 where
  pub leased :
      s.counters.in_progress_tasks_count ≡ add64 before.in_progress_tasks_count (length s.dequeued)
  pub left : s.counters.enqueued_tasks_count ≡ sub64 before.enqueued_tasks_count s.visited
  pub dead_kept : s.counters.dead_tasks_count ≡ before.dead_tasks_count
  pub processed_kept : s.counters.processed_tasks_count ≡ before.processed_tasks_count
  pub expired_kept : s.counters.expired_tasks_count ≡ before.expired_tasks_count

pub take_task-IsCounted :
    (before : TasksCounter) (now limit time : ℕ) (task : Task) (s : Scan)
    → s.visited ≤ 100
    → before.enqueued_tasks_count < mod64
    → IsCounted before s
    → IsCounted before (take_task now time task (record s { saw_any_candidate = true }))
unfolding take_task add64 sub64
take_task-IsCounted before now limit time task s budget range c =
    ground (arith, length-append s.dequeued (task ∷ []))

-- `MaxInProgressTasks`, where it is set, is a ceiling.
abbrev pub IsCapped : ℕ → Scan → Type 0
IsCapped max s = s.counters.in_progress_tasks_count ≤ max

pub take_task-IsCapped :
    (settings : DequeuingSettings) (now limit time : ℕ) (task : Task) (s : Scan)
    → 0 < settings.max_in_progress_tasks
    → settings.max_in_progress_tasks < half64
    → is_full limit (some settings) s ≡ false
    → IsCapped settings.max_in_progress_tasks s
    → IsCapped settings.max_in_progress_tasks
        (take_task now time task (record s { saw_any_candidate = true }))
unfolding take_task is_full is_saturated add64
take_task-IsCapped settings now limit time task s pos small room c = ground (
  arith,
  sle-leb settings.max_in_progress_tasks s.counters.in_progress_tasks_count,
  slt-ltb 0 settings.max_in_progress_tasks,
)

-- Nothing that has expired is handed out, and nothing else is dropped.
pub record IsTimely (now : ℕ) (s : Scan) : Type 0 where
  pub live : All (λ (t : Task). slt t.expires_at now ≡ false) s.dequeued
  pub gone : All (λ (t : Task). slt t.expires_at now ≡ true) s.expired

pub take_task-IsTimely :
    (now time : ℕ) (task : Task) (s : Scan)
    → IsTimely now s
    → IsTimely now (take_task now time task (record s { saw_any_candidate = true }))
unfolding take_task
take_task-IsTimely now time task s t = elim (Bool-cases (slt task.expires_at now)) [
  | inl late ↦
      rw late
        (record { live = t.live; gone = All-append _ s.expired (task ∷ []) t.gone (late, tt) })
  | inr timely ↦
      rw timely
        (record { live = All-append _ s.dequeued (task ∷ []) t.live (timely, tt); gone = t.gone })
]

pub start-IsCounted :
    (c : TasksCounter) (cursor : ℕ)
    → c.enqueued_tasks_count < mod64
    → c.in_progress_tasks_count < mod64
    → IsCounted c (start c cursor)
unfolding add64 sub64
start-IsCounted c cursor h h' = omega arith
