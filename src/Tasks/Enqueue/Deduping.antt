-- ===== src/Tasks/Enqueue/Deduping.antt =====
-- What `Enqueue` of pkg/tasks/core.go does with an entry whose dedupe key is taken.
use moab.Base.{
  ℕ, ◌≡◌, ◌⊎◌, refl, sym, ap, ◌∙◌, List, [], ◌∷◌, Option, none, some, ok, true, false, is_set,
  String, inl, inr,
}
use moab.Base.Word.{add64}
use moab.Tasks.Types.{QueueId, Task, EnqueueRequestEntry, OverwriteOnDuplicate, is_enqueued}
use moab.Tasks.Monad.{Stores, Db, TextKey, ◌>>=◌, pure, task_in}
use moab.Tasks.Access.{dedupe_find, tasks_get}
use moab.Tasks.Lifecycle.Creating.{IsCreated}
use moab.Tasks.Enqueue.{
  not_before, new_task, enqueue_new, find_duplicate, overwrite_enqueued, overwrite_duplicate,
  enqueue_entry,
}
use moab.Tasks.Enqueue.Numbering.{enqueue_new-eq-ok}

module _ ⦃S : Stores⦄ where
  abbrev pub dedupe_key_of : QueueId → String → TextKey
  dedupe_key_of q key = record { queue = q; text = key }

  find_duplicate_lem :
      (q : QueueId) (key : String) (db : Db)
      → is_set key ≡ true
      → find_duplicate q key db
        ≡ ok (S.dedupe_keys_index.get db.dedupe_keys_index (dedupe_key_of q key), db)
  unfolding find_duplicate dedupe_find
  find_duplicate_lem q key db k = rw k

  enqueue_entry_free :
      (q : QueueId) (now : ℕ) (e : EnqueueRequestEntry) (sequence : ℕ) (db : Db)
      → is_set e.dedupe_key ≡ true
      → S.dedupe_keys_index.get db.dedupe_keys_index (dedupe_key_of q e.dedupe_key) ≡ none
      → enqueue_entry q now e sequence db ≡ enqueue_new q now e sequence db
  unfolding enqueue_entry
  enqueue_entry_free q now e sequence db k free = rw (find_duplicate_lem q e.dedupe_key db k, free)

  enqueue_entry_taken :
      (q : QueueId) (now n : ℕ) (e : EnqueueRequestEntry) (sequence : ℕ) (db : Db)
      → is_set e.dedupe_key ≡ true
      → S.dedupe_keys_index.get db.dedupe_keys_index (dedupe_key_of q e.dedupe_key) ≡ some n
      → enqueue_entry q now e sequence db
        ≡ (overwrite_duplicate e
                (not_before now e.scheduled_at)
                (task_in q n)
                e.overwrite_on_duplicate
              >>= λ d. pure (d, sequence))
            db
  unfolding enqueue_entry
  enqueue_entry_taken q now n e sequence db k taken =
      rw (find_duplicate_lem q e.dedupe_key db k, taken)

  overwrite_nothing :
      (e : EnqueueRequestEntry) (at n : ℕ) (q : QueueId) (os : List OverwriteOnDuplicate) (db : Db)
      → os ≡ []
      → overwrite_duplicate e at (task_in q n) os db ≡ ok (none, db)
  unfolding overwrite_duplicate
  overwrite_nothing e at n q os db nothing = rw nothing

  overwrite_started :
      (e : EnqueueRequestEntry) (at n : ℕ) (q : QueueId) (os : List OverwriteOnDuplicate) (d : Task)
      (db : Db)
      → S.tasks.get db.tasks (task_in q n) ≡ some d
      → is_enqueued d.state ≡ false
      → (r : Option Task) × (overwrite_duplicate e at (task_in q n) os db ≡ ok (r, db))
  unfolding overwrite_duplicate overwrite_enqueued tasks_get
  overwrite_started e at n q [] d db found started = (none, refl)
  overwrite_started e at n q (o ∷ os) d db found started = (some d, rw (found, started))

  -- If the dedupe key of an entry is set and points at a task that is stored, and either the
  -- entry overwrites nothing or that task is not enqueued, then enqueueing the entry succeeds,
  -- takes no number and writes nothing.
  pub enqueue_entry_duplicate :
      (q : QueueId) (now n : ℕ) (e : EnqueueRequestEntry) (sequence : ℕ) (d : Task) (db : Db)
      → is_set e.dedupe_key ≡ true
      → S.dedupe_keys_index.get db.dedupe_keys_index (dedupe_key_of q e.dedupe_key) ≡ some n
      → S.tasks.get db.tasks (task_in q n) ≡ some d
      → (e.overwrite_on_duplicate ≡ []) ⊎ (is_enqueued d.state ≡ false)
      → (r : Option Task) × (enqueue_entry q now e sequence db ≡ ok ((r, sequence), db))
  enqueue_entry_duplicate q now n e sequence d db k taken found (inl nothing) = (
    none,
    enqueue_entry_taken q now n e sequence db k taken
        ∙ rw (
            overwrite_nothing e (not_before now e.scheduled_at) n q e.overwrite_on_duplicate db
              nothing),
  )
  enqueue_entry_duplicate q now n e sequence d db k taken found (inr started) =
      let (r, same) =
        overwrite_started e (not_before now e.scheduled_at) n q e.overwrite_on_duplicate d db found
          started in
      (r, enqueue_entry_taken q now n e sequence db k taken ∙ rw same)

  -- If the dedupe key of an entry is set and free, enqueueing the entry creates the task with
  -- the next number of the sequence; and an entry with the same key that overwrites nothing,
  -- enqueued next, creates nothing, returns nothing and leaves the sequence and the contents as
  -- they are.
  pub enqueue_entry_dedupes :
      (q : QueueId) (now later : ℕ) (e e' : EnqueueRequestEntry) (sequence sequence' : ℕ) (db : Db)
      (r : Option Task × ℕ) (after : Db)
      → is_set e.dedupe_key ≡ true
      → e'.dedupe_key ≡ e.dedupe_key
      → e'.overwrite_on_duplicate ≡ []
      → S.dedupe_keys_index.get db.dedupe_keys_index (dedupe_key_of q e.dedupe_key) ≡ none
      → enqueue_entry q now e sequence db ≡ ok (r, after)
      → IsCreated (new_task q now e (not_before now e.scheduled_at) (add64 sequence 1)) db after
        × (enqueue_entry q later e' sequence' after ≡ ok ((none, sequence'), after))
  enqueue_entry_dedupes q now later e e' sequence sequence' db r after k same nothing free h =
      let n : ℕ = add64 sequence 1 in
      let (_, created) =
        enqueue_new-eq-ok q now e sequence db
          (sym (enqueue_entry_free q now e sequence db k free) ∙ h) in
      let taken : S.dedupe_keys_index.get after.dedupe_keys_index (dedupe_key_of q e'.dedupe_key)
          ≡ some n =
        ap (λ key. S.dedupe_keys_index.get after.dedupe_keys_index (dedupe_key_of q key)) same
        ∙ created.deduped k in
      (
        created,
        enqueue_entry_taken q later n e' sequence' after (ap is_set same ∙ k) taken
            ∙ rw (
                overwrite_nothing e' (not_before later e'.scheduled_at) n q
                  e'.overwrite_on_duplicate after nothing),
      )
