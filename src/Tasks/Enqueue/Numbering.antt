-- ===== src/Tasks/Enqueue/Numbering.antt =====
-- The task ids that `Enqueue` of pkg/tasks/core.go gives out: the queue's sequence, one by one.
use moab.Base.{
  ℕ, zero, suc, ◌+◌, ◌≡◌, ◌<◌, refl, sym, ap, subst, ◌∙◌, List, [], ◌∷◌, ◌++◌, Option, some, ok,
  arith, false, is_set, length, All, map,
}
use moab.Base.Word.{mod64, add64, add64-add}
use moab.Tasks.Types.{QueueId, TaskId, Task, EnqueueRequestEntry, answer}
use moab.Tasks.Monad.{Stores, Db, pure, >>=-eq-ok, task_in}
use moab.Tasks.Access.{queue_state_get, queue_state_set, queue_state_of}
use moab.Tasks.Lifecycle.{create_task}
use moab.Tasks.Lifecycle.Creating.{IsCreated, create_task-IsCreated}
use moab.Tasks.Dequeue.Answers.{transact-eq-answer}
use moab.Tasks.Enqueue.{
  not_before, new_task, enqueue_new, find_duplicate, enqueue_entry, append_some, enqueue_entries,
  enqueue_unpurged, enqueue,
}

-- The `n` ids of the queue that follow `sequence`.
abbrev pub next_ids : QueueId → ℕ → ℕ → List TaskId
next_ids q sequence zero = []
next_ids q sequence (suc n) = task_in q (suc sequence) ∷ next_ids q (suc sequence) n

abbrev pub task_id_of : Task → TaskId
task_id_of t = t.id

map-append : (f : Task → TaskId) (xs ys : List Task) → map f (xs ++ ys) ≡ map f xs ++ map f ys
map-append f [] ys = refl
map-append f (x ∷ xs) ys = ap (λ zs. f x ∷ zs) (map-append f xs ys)

append_assoc : {A : Type 0} (xs ys zs : List A) → (xs ++ ys) ++ zs ≡ xs ++ (ys ++ zs)
append_assoc [] ys zs = refl
append_assoc (x ∷ xs) ys zs = ap (λ ws. x ∷ ws) (append_assoc xs ys zs)

append_nil : {A : Type 0} (xs : List A) → xs ++ [] ≡ xs
append_nil [] = refl
append_nil (x ∷ xs) = ap (λ ws. x ∷ ws) (append_nil xs)

module _ ⦃S : Stores⦄ where
  -- An entry without a duplicate becomes a task with the next id.
  pub enqueue_new-eq-ok :
      (q : QueueId) (now : ℕ) (e : EnqueueRequestEntry) (sequence : ℕ) (db : Db)
      {r : Option Task × ℕ} {after : Db}
      → enqueue_new q now e sequence db ≡ ok (r, after)
      → (r ≡ (
        some (new_task q now e (not_before now e.scheduled_at) (add64 sequence 1)),
        add64 sequence 1,
      ))
        × IsCreated (new_task q now e (not_before now e.scheduled_at) (add64 sequence 1)) db after
  unfolding enqueue_new
  enqueue_new-eq-ok q now e sequence db {r} {after} h =
      let n : ℕ = add64 sequence 1 in
      let task = new_task q now e (not_before now e.scheduled_at) n in
      let (_, mid, created, rest) = >>=-eq-ok (create_task task) (λ _. pure (some task, n)) db h in
      let same : mid ≡ after = ground (arith, rest) in
      (ground (arith, rest), subst (IsCreated task db) same (create_task-IsCreated task db created))

  enqueue_unkeyed :
      (q : QueueId) (now : ℕ) (e : EnqueueRequestEntry) (sequence : ℕ) (db : Db)
      → is_set e.dedupe_key ≡ false
      → enqueue_entry q now e sequence db ≡ enqueue_new q now e sequence db
  unfolding enqueue_entry find_duplicate
  enqueue_unkeyed q now e sequence db free = rw free

  enqueue_unkeyed_lem :
      (q : QueueId) (now : ℕ) (e : EnqueueRequestEntry) (sequence : ℕ) (db : Db)
      {r : Option Task × ℕ} {after : Db}
      → is_set e.dedupe_key ≡ false
      → suc sequence < mod64
      → enqueue_entry q now e sequence db ≡ ok (r, after)
      → r ≡ (some (new_task q now e (not_before now e.scheduled_at) (suc sequence)), suc sequence)
  enqueue_unkeyed_lem q now e sequence db {r} free small h =
      let next : add64 sequence 1 ≡ suc sequence =
        add64-add sequence 1 (omega arith) ∙ omega arith in
      let (same, _) =
        enqueue_new-eq-ok q now e sequence db
          (sym (enqueue_unkeyed q now e sequence db free) ∙ h) in
      subst (λ n. r ≡ (some (new_task q now e (not_before now e.scheduled_at) n), n)) next same

  enqueue_entries_lem :
      (q : QueueId) (now : ℕ) (es : List EnqueueRequestEntry) (tasks : List Task) (sequence : ℕ)
      (db : Db) {r : List Task × ℕ} {after : Db}
      → All (λ (e : EnqueueRequestEntry). is_set e.dedupe_key ≡ false) es
      → sequence + length es < mod64
      → enqueue_entries q now es tasks sequence db ≡ ok (r, after)
      → (map task_id_of r.0 ≡ map task_id_of tasks ++ next_ids q sequence (length es))
        × (r.1 ≡ sequence + length es)
  unfolding enqueue_entries
  enqueue_entries_lem q now [] tasks sequence db {r} free small h =
      let same : (tasks, sequence) ≡ r = ground (arith, h) in
      subst
        (λ (x : List Task × ℕ).
          (map task_id_of x.0 ≡ map task_id_of tasks ++ []) × (x.1 ≡ sequence + 0))
        same (sym (append_nil (map task_id_of tasks)), omega arith)
  enqueue_entries_lem q now (e ∷ es) tasks sequence db {r} {after} free small h =
      let task = new_task q now e (not_before now e.scheduled_at) (suc sequence) in
      let (one, mid, first, rest) = >>=-eq-ok (enqueue_entry q now e sequence) _ db h in
      let same : one ≡ (some task, suc sequence) =
        enqueue_unkeyed_lem q now e sequence db free.0 (omega arith) first in
      let rest' : enqueue_entries q now es (tasks ++ task ∷ []) (suc sequence) mid ≡ ok (r, after) =
        subst
          (λ (x : Option Task × ℕ).
            enqueue_entries q now es (append_some tasks x.0) x.1 mid ≡ ok (r, after))
          same rest in
      let (ids, count) =
        enqueue_entries_lem q now es (tasks ++ task ∷ []) (suc sequence) mid free.1 (omega arith)
          rest' in
      (
        ids
            ∙ ap (λ xs. xs ++ next_ids q (suc sequence) (length es))
                (map-append task_id_of tasks (task ∷ []))
            ∙ append_assoc (map task_id_of tasks) (task.id ∷ [])
                (next_ids q (suc sequence) (length es)),
        count ∙ omega arith,
      )

  -- If no entry has a dedupe key, and the sequence of the queue plus the number of entries is
  -- below 2 ^ 64, an `Enqueue` that answers returns one task for each entry; their ids are the
  -- numbers that follow the sequence, in the order of the entries; and the state of the queue is
  -- as before but for the sequence, which is higher by the number of entries.
  pub enqueue_numbers :
      (q : QueueId) (now : ℕ) (es : List EnqueueRequestEntry) (db : Db) (ts : List Task)
      (after : Db)
      → All (λ (e : EnqueueRequestEntry). is_set e.dedupe_key ≡ false) es
      → (queue_state_of db q).task_id_sequence + length es < mod64
      → enqueue q now es db ≡ (ok (answer ts), after)
      → (map task_id_of ts ≡ next_ids q (queue_state_of db q).task_id_sequence (length es))
        × (queue_state_of after q ≡ record (queue_state_of db q) {
          task_id_sequence = (queue_state_of db q).task_id_sequence + length es;
        })
  unfolding enqueue enqueue_unpurged queue_state_get queue_state_set
  enqueue_numbers q now es db ts after free small h =
      let state = queue_state_of db q in
      let (_, body) = transact-eq-answer q (enqueue_unpurged q now es) db ts after h in
      let (r, mid, all, rest) =
        >>=-eq-ok (enqueue_entries q now es [] state.task_id_sequence) _ db body in
      let (ids, count) = enqueue_entries_lem q now es [] state.task_id_sequence db free small all in
      let last : Db = record mid {
        queue_state = S.queue_state.set mid.queue_state q (record state { task_id_sequence = r.1 });
      } in
      let done : ◌≡◌ {A = List Task × Db} (r.0, last) (ts, after) = ground (arith, rest) in
      subst
        (λ (x : List Task × Db).
          (map task_id_of x.0 ≡ next_ids q state.task_id_sequence (length es))
          × (queue_state_of x.1 q
              ≡ record state { task_id_sequence = state.task_id_sequence + length es }))
        done (ids, rw (S.queue_state.get-set_self, count))
