-- ===== src/Tasks/Gc/Faults.antt =====
-- How the deletions of pkg/tasks/core.go can fail: only for a row that is not there.
use moab.Base.{
  ℕ, ◌≡◌, ◌⊎◌, inl, inr, refl, List, [], ◌∷◌, Bool, Option, none, some, Result, ok, fail, Fault,
  not_found, arith, true, false, is_set, if◌then◌else◌, bind, String, ◌==◌,
}
use moab.Honey.{Item}
use moab.Tasks.Types.{QueueId, TaskId, TaskState, Task, Thread, TasksCounter}
use moab.Tasks.Monad.{Stores, Db, M, ◌>>=◌, ◌>>◌, pure, when, task_in, queue_of, for_each}
use moab.Tasks.Access.{
  tasks_get, tasks_delete, dedupe_delete, queue_index_add, queue_index_delete,
  in_progress_index_delete, dead_tasks_index_delete, expiration_remove, threads_get, threads_set,
  threads_delete, thread_index_remove, thread_index_items, counters_get, counters_set,
}
use moab.Tasks.Threads.{
  read_earliest, promote_with, promote_next_thread_head, detach_task_from_thread,
}
use moab.Tasks.Lifecycle.{DeletionReason, release_task, unindex_task, delete_task}

module _ ⦃S : Stores⦄ where
  -- The action ends in no fault but `not_found`.
  pub record IsSafe {A : Type 0} (m : M A) : Type 0 where
    pub only : (db : Db) (x : Fault) → m db ≡ fail x → x ≡ not_found

  pub bind-eq-fail :
      {A B : Type 0} (r : Result (A × Db)) (f : A → M B) (x : Fault)
      → bind r (λ p. f p.0 p.1) ≡ fail x
      → (r ≡ fail x) ⊎ ((a : A) × (mid : Db) × (r ≡ ok (a, mid)) × (f a mid ≡ fail x))
  bind-eq-fail (ok (a, mid)) f x e = inr (a, mid, refl, e)
  bind-eq-fail (fail y) f x e = inl (ground arith)

  pub IsSafe->>= :
      {A B : Type 0} (m : M A) (f : A → M B)
      → IsSafe m
      → ((a : A) → IsSafe (f a))
      → IsSafe (m >>= f)
  IsSafe->>= m f h k = record {
    only = λ db x e. elim (bind-eq-fail (m db) f x e) [
      | inl first ↦ h.only db x first
      | inr (a, mid, _, second) ↦ (k a).only mid x second
    ];
  }

  pub IsSafe-pure : {A : Type 0} (a : A) → IsSafe (pure a)
  IsSafe-pure a = record { only = λ db x e. absurd (ground arith) }

  pub IsSafe-when : (b : Bool) (m : M (Unit {0})) → IsSafe m → IsSafe (when b m)
  IsSafe-when true m h = h
  IsSafe-when false m h = IsSafe-pure tt

  -- An action that cannot fail.
  pub IsSafe-always :
      {A : Type 0} (m : M A) (value : Db → A) (next : Db → Db)
      → ((db : Db) → m db ≡ ok (value db, next db))
      → IsSafe m
  IsSafe-always m value next h = record { only = λ db x e. absurd (ground (arith, h db)) }

  pub IsSafe-for_each :
      {A : Type 0} (xs : List A) (body : A → M (Unit {0}))
      → ((a : A) → IsSafe (body a))
      → IsSafe (for_each xs body)
  unfolding for_each
  IsSafe-for_each [] body h = IsSafe-pure tt
  IsSafe-for_each (x ∷ xs) body h =
      IsSafe->>= (body x) (λ _. for_each xs body) (h x) (λ _. IsSafe-for_each xs body h)

  IsSafe-tasks_get : (id : TaskId) → IsSafe (tasks_get id)
  unfolding tasks_get
  IsSafe-tasks_get id = record { only = λ db x e. ground arith }

  pub IsSafe-tasks_delete : (id : TaskId) → IsSafe (tasks_delete id)
  unfolding tasks_delete
  IsSafe-tasks_delete id = record { only = λ db x e. ground arith }

  IsSafe-dedupe_delete : (q : QueueId) (key : String) → IsSafe (dedupe_delete q key)
  unfolding dedupe_delete
  IsSafe-dedupe_delete q key = record { only = λ db x e. ground arith }

  IsSafe-threads_get : (q : QueueId) (t : String) → IsSafe (threads_get q t)
  unfolding threads_get
  IsSafe-threads_get q t = record { only = λ db x e. ground arith }

  IsSafe-threads_delete : (q : QueueId) (t : String) → IsSafe (threads_delete q t)
  unfolding threads_delete
  IsSafe-threads_delete q t = record { only = λ db x e. ground arith }

  IsSafe-read_earliest : (q : QueueId) (is : List (Item ℕ)) → IsSafe (read_earliest q is)
  unfolding read_earliest
  IsSafe-read_earliest q [] = IsSafe-pure none
  IsSafe-read_earliest q (i ∷ is) =
      IsSafe->>= (tasks_get (task_in q i.ref)) (λ t. pure (some t))
        (IsSafe-tasks_get (task_in q i.ref)) (λ t. IsSafe-pure (some t))

  IsSafe-promote_with :
      (q : QueueId) (thread : Thread) (next : Option Task) → IsSafe (promote_with q thread next)
  unfolding promote_with threads_set queue_index_add
  IsSafe-promote_with q thread none = IsSafe-threads_delete q thread.thread_id
  IsSafe-promote_with q thread (some next) = record { only = λ db x e. ground arith }

  IsSafe-promote_next_thread_head :
      (q : QueueId) (thread : Thread) → IsSafe (promote_next_thread_head q thread)
  unfolding promote_next_thread_head thread_index_items
  IsSafe-promote_next_thread_head q thread = record {
    only = λ db x e.
        (IsSafe->>= (read_earliest q _) (promote_with q thread) (IsSafe-read_earliest q _)
            (IsSafe-promote_with q thread)).only
          db x e;
  }

  IsSafe-if :
      {A : Type 0} (b : Bool) (m k : M A) → IsSafe m → IsSafe k → IsSafe (if b then m else k)
  IsSafe-if true m k h h' = h
  IsSafe-if false m k h h' = h'

  IsSafe-detach_task_from_thread : (task : Task) → IsSafe (detach_task_from_thread task)
  unfolding detach_task_from_thread thread_index_remove
  IsSafe-detach_task_from_thread task = record {
    only = λ db x e.
        (IsSafe->>= (threads_get (queue_of task.id) task.thread_id) _
            (IsSafe-threads_get (queue_of task.id) task.thread_id)
            (λ (thread : Thread).
              IsSafe-if (thread.head_task_id.task_id == task.id.task_id)
                (promote_next_thread_head (queue_of task.id) thread) (pure tt)
                (IsSafe-promote_next_thread_head (queue_of task.id) thread) (IsSafe-pure tt))).only
          _ x e;
  }

  IsSafe-release_task : (task : Task) → IsSafe (release_task task)
  unfolding release_task
  IsSafe-release_task task =
      IsSafe->>= (when (is_set task.dedupe_key) (dedupe_delete (queue_of task.id) task.dedupe_key))
        _
        (IsSafe-when (is_set task.dedupe_key) (dedupe_delete (queue_of task.id) task.dedupe_key)
          (IsSafe-dedupe_delete (queue_of task.id) task.dedupe_key))
        (λ _.
          IsSafe-when (is_set task.thread_id) (detach_task_from_thread task)
            (IsSafe-detach_task_from_thread task))

  released_then : {A : Type 0} (task : Task) (a : A) → IsSafe (release_task task >> pure a)
  released_then task a =
      IsSafe->>= (release_task task) (λ _. pure a) (IsSafe-release_task task) (λ _. IsSafe-pure a)

  IsSafe-unindex_task :
      (state : TaskState) (task : Task) (c : TasksCounter) → IsSafe (unindex_task state task c)
  unfolding unindex_task queue_index_delete in_progress_index_delete dead_tasks_index_delete
  IsSafe-unindex_task TaskState.enqueued task c = record {
    only = λ db x e. (released_then task _).only _ x e;
  }
  IsSafe-unindex_task TaskState.in_progress task c = record {
    only = λ db x e. (released_then task _).only _ x e;
  }
  IsSafe-unindex_task TaskState.dead task c = record { only = λ db x e. absurd (ground arith) }
  IsSafe-unindex_task TaskState.invalid task c = IsSafe-pure c

  tail : Task → TasksCounter → M (Unit {0})
  tail task c = do
    expiration_remove task.id task.expires_at
    tasks_delete task.id
    counters_set (queue_of task.id) c

  IsSafe-tail : (task : Task) (c : TasksCounter) → IsSafe (tail task c)
  unfolding tail expiration_remove counters_set
  IsSafe-tail task c = record {
    only = λ db x e.
        (IsSafe->>= (tasks_delete task.id) _ (IsSafe-tasks_delete task.id)
            (λ _. record { only = λ db' y e'. absurd (ground arith) })).only
          _ x e;
  }

  pub IsSafe-delete_task : (task : Task) (cause : DeletionReason) → IsSafe (delete_task task cause)
  unfolding delete_task counters_get tail
  IsSafe-delete_task task cause = record {
    only = λ db x e.
        (IsSafe->>= (unindex_task task.state task _) (tail task)
            (IsSafe-unindex_task task.state task _) (IsSafe-tail task)).only
          db x e;
  }
