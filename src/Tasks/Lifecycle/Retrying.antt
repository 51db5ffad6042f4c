-- ===== src/Tasks/Lifecycle/Retrying.antt =====
-- The retry schedule of pkg/tasks/core.go: `handleTaskFailure` and `failTaskToRetry`.
use moab.Base.{
  ℕ, zero, suc, ◌-◌, ◌^◌, ◌≡◌, ◌⊎◌, ◌≤◌, ◌<◌, refl, ◌∙◌, List, [], ◌∷◌, some, ok, arith, Bool-cases,
  inl, inr, true, false, length, get_elem?, ltb, In,
}
use moab.Base.Word.{add64, sub64, sub32, slt32, slt32-ltb}
use moab.Tasks.Types.{TaskState, Task, RetryStrategy}
use moab.Tasks.Monad.{Stores, Db, queue_of, item}
use moab.Tasks.Access.{counters_of}
use moab.Tasks.Lifecycle.{after_seconds, backoff, is_exhausted}

get_elem?-In :
    {A : Type 0} (xs : List A) (i : ℕ)
    → i < length xs
    → (a : A) × (get_elem? xs i ≡ some a) × In a xs
get_elem?-In [] i h = absurd (omega arith)
get_elem?-In (x ∷ xs) zero h = (x, refl, inl refl)
get_elem?-In (x ∷ xs) (suc i) h =
    let (a, e, member) = get_elem?-In xs i (omega arith) in (a, e, inr member)

sub32_lem : (n : ℕ) → 0 < n → n < 2 ^ 32 → sub32 n 1 ≡ n - 1
unfolding sub32
sub32_lem n pos small = omega arith

-- The element that `Attempts-1` selects.
select_lem :
    (xs : List ℕ) (attempts : ℕ)
    → 0 < attempts
    → attempts < 2 ^ 31
    → attempts ≤ length xs
    → (a : ℕ) × (get_elem? xs (sub32 attempts 1) ≡ some a) × In a xs
select_lem xs attempts pos small room =
    rw (sub32_lem attempts pos (omega arith)) (get_elem?-In xs (attempts - 1) (omega arith))

module _ ⦃S : Stores⦄ where
  backoff_lem :
      (task : Task) (s : RetryStrategy) (interval : ℕ) (db : Db)
      → task.retry_strategy ≡ some s
      → get_elem? s.retry_intervals_in_seconds (sub32 task.attempts 1) ≡ some interval
      → backoff task db ≡ ok (interval, db)
  unfolding backoff
  backoff_lem task s interval db has read = ground arith

  exhausted_lem :
      (task : Task) (s : RetryStrategy)
      → task.retry_strategy ≡ some s
      → is_exhausted task ≡ slt32 (length s.retry_intervals_in_seconds) task.attempts
  unfolding is_exhausted
  exhausted_lem task s has = ground arith

  -- For a task with a retry strategy of fewer than 2 ^ 31 intervals and an attempt count from 1
  -- to below 2 ^ 31: either the attempts are more than the intervals, and the task is exhausted;
  -- or they are not, the task is not exhausted, and reading the interval of the attempt
  -- succeeds, gives one of the intervals, and writes nothing.
  pub retry_schedule :
      (task : Task) (s : RetryStrategy) (db : Db)
      → task.retry_strategy ≡ some s
      → length s.retry_intervals_in_seconds < 2 ^ 31
      → 0 < task.attempts
      → task.attempts < 2 ^ 31
      → ((length s.retry_intervals_in_seconds < task.attempts) × (is_exhausted task ≡ true))
        ⊎ ((task.attempts ≤ length s.retry_intervals_in_seconds)
            × (is_exhausted task ≡ false)
            × (interval : ℕ) × (backoff task db ≡ ok (interval, db))
            × In interval s.retry_intervals_in_seconds)
  retry_schedule task s db has few started small =
      let n : ℕ = length s.retry_intervals_in_seconds in
      let order = slt32-ltb n task.attempts few small in
      elim (Bool-cases (ltb n task.attempts)) [
        | inl over ↦ inl (ground arith, exhausted_lem task s has ∙ order ∙ over)
        | inr room ↦
            let (interval, read, member) =
              select_lem s.retry_intervals_in_seconds task.attempts started small (ground arith) in
            inr (
              ground arith,
              exhausted_lem task s has ∙ order ∙ room,
              interval,
              backoff_lem task s interval db has read,
              member,
            )
      ]

  -- A task that waits for another attempt.
  pub record IsRetried (task : Task) (now interval : ℕ) (before after : Db) : Type 0 where
    pub stored :
        S.tasks.get after.tasks task.id
        ≡ some (record task {
          state = TaskState.enqueued;
          scheduled_at = after_seconds now interval;
          last_failed_at = now;
          visible_at = 0;
        })
    pub queued :
        S.queue_index.has after.queue_index
          (queue_of task.id)
          (item (after_seconds now interval) task.id.task_id)
        ≡ true
    pub idle :
        S.in_progress_index.has after.in_progress_index
          (queue_of task.id)
          (item task.visible_at task.id.task_id)
        ≡ false
    pub expires : S.expiration.has after.expiration tt (item task.expires_at task.id) ≡ true
    pub counted :
        counters_of after (queue_of task.id) ≡ record (counters_of before (queue_of task.id)) {
          enqueued_tasks_count =
              add64 (counters_of before (queue_of task.id)).enqueued_tasks_count 1;
          in_progress_tasks_count =
              sub64 (counters_of before (queue_of task.id)).in_progress_tasks_count 1;
        }

  -- The contents once the lease is off the in-progress index.
  abbrev off_lease : Task → Db → Db
  off_lease task db = record db {
    in_progress_index =
        S.in_progress_index.remove db.in_progress_index (queue_of task.id)
          (item task.visible_at task.id.task_id);
  }

  abbrev retried_db : Task → ℕ → ℕ → Db → Db
  retried_db task now interval db = record (off_lease task db) {
    tasks = S.tasks.set db.tasks task.id (record task {
      state = TaskState.enqueued;
      scheduled_at = after_seconds now interval;
      last_failed_at = now;
      visible_at = 0;
    });
    expiration = S.expiration.add db.expiration tt (item task.expires_at task.id);
    queue_index =
        S.queue_index.add db.queue_index (queue_of task.id)
          (item (after_seconds now interval) task.id.task_id);
    counters =
        S.counters.set db.counters (queue_of task.id) (record (counters_of db (queue_of task.id)) {
          in_progress_tasks_count =
              sub64 (counters_of db (queue_of task.id)).in_progress_tasks_count 1;
          enqueued_tasks_count = add64 (counters_of db (queue_of task.id)).enqueued_tasks_count 1;
        });
  }
