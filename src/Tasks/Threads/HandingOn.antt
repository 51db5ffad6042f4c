-- ===== src/Tasks/Threads/HandingOn.antt =====
-- Who takes over when the head of a thread leaves it (pkg/tasks/core.go).
use moab.Base.{
  ℕ, ◌≡◌, ◌⊎◌, ◌≤◌, inl, inr, refl, subst, List, [], ◌∷◌, none, some, ok, arith, true, Option-cases,
  All,
}
use moab.Honey.{Item, IsSorted}
use moab.Tasks.Types.{QueueId, Task, Thread}
use moab.Tasks.Monad.{Stores, Db, ◌>>=◌, task_in, queue_of, thread_key, item}
use moab.Tasks.Access.{
  tasks_get, threads_get, threads_set, threads_delete, queue_index_add, thread_index_remove,
  thread_index_items,
}
use moab.Tasks.Threads.{
  read_earliest, promote_with, promote_next_thread_head, detach_task_from_thread,
}

module _ ⦃S : Stores⦄ where
  -- The members of a task's thread without the task, earliest first.
  abbrev pub others_of : Task → Db → List (Item ℕ)
  others_of task db =
      S.threaded_tasks_index.items
        (S.threaded_tasks_index.remove db.threaded_tasks_index
          (thread_key (queue_of task.id) task.thread_id) (item task.scheduled_at task.id.task_id))
        (thread_key (queue_of task.id) task.thread_id)

  -- The thread of `task` has been handed on to its earliest other member.
  pub record IsHandedOn (task : Task) (thread : Thread) (before after : Db) : Type 0 where
    pub first : Item ℕ
    pub rest : List (Item ℕ)
    pub members : others_of task before ≡ first ∷ rest
    pub earliest : All (λ (i : Item ℕ). first.time ≤ i.time) rest
    pub next : Task
    pub stored : S.tasks.get before.tasks (task_in (queue_of task.id) first.ref) ≡ some next
    pub row :
        S.threads.get after.threads (thread_key (queue_of task.id) task.thread_id)
        ≡ some (record thread {
          visible_at = 0;
          head_task_id = next.id;
          scheduled_at = next.scheduled_at;
        })
    pub queued :
        S.queue_index.has after.queue_index
          (queue_of task.id)
          (item next.scheduled_at next.id.task_id)
        ≡ true

  -- `promoteNextThreadHead` on the members `is`.
  hand_on :
      (task : Task) (thread : Thread) (before mid after : Db) (is : List (Item ℕ))
      → thread.thread_id ≡ task.thread_id
      → mid.tasks ≡ before.tasks
      → others_of task before ≡ is
      → IsSorted is
      → (read_earliest (queue_of task.id) is >>= promote_with (queue_of task.id) thread) mid
        ≡ ok (tt, after)
      → ((others_of task before ≡ [])
          × (S.threads.get after.threads (thread_key (queue_of task.id) task.thread_id) ≡ none))
        ⊎ IsHandedOn task thread before after
  unfolding read_earliest promote_with threads_delete tasks_get threads_set queue_index_add
  hand_on task thread before mid after [] name same members sorted e = inl (
    members,
    ground (
      arith,
      S.threads.get-erase_self mid.threads (thread_key (queue_of task.id) task.thread_id),
    ),
  )
  hand_on task thread before mid after (i ∷ is) name same members sorted e =
      elim (Option-cases (S.tasks.get mid.tasks (task_in (queue_of task.id) i.ref))) [
        | inl gone ↦ absurd (ground (arith, gone, e))
        | inr (next, found) ↦
            let q : QueueId = queue_of task.id in
            let row : Thread = record thread {
              visible_at = 0;
              head_task_id = next.id;
              scheduled_at = next.scheduled_at;
            } in
            let last : Db = record mid {
              threads = S.threads.set mid.threads (thread_key q thread.thread_id) row;
              queue_index =
                  S.queue_index.add mid.queue_index q (item next.scheduled_at next.id.task_id);
            } in
            let done : last ≡ after = ground (arith, found, e) in
            inr (
              subst (IsHandedOn task thread before) done (record {
                first = i;
                rest = is;
                members = members;
                earliest = sorted.0;
                next = next;
                stored = subst (λ ts. S.tasks.get ts (task_in q i.ref) ≡ some next) same found;
                row =
                    subst (λ t. S.threads.get last.threads (thread_key q t) ≡ some row) name
                      (S.threads.get-set_self mid.threads (thread_key q thread.thread_id) row);
                queued =
                    S.queue_index.has-add_self mid.queue_index q
                      (item next.scheduled_at next.id.task_id);
              }))
      ]

  -- If the row of the thread of a task names the task as its head, and detaching the task
  -- succeeds, then either the task was the only member and the thread has no row any more; or
  -- the member with the earliest time in the index of the thread is stored, the row names it and
  -- its scheduled time and is not leased, and it is in the queue at that time.
  pub detach_task_from_thread-IsHandedOn :
      (task : Task) (thread : Thread) (db after : Db)
      → thread.thread_id ≡ task.thread_id
      → S.threads.get db.threads (thread_key (queue_of task.id) task.thread_id) ≡ some thread
      → thread.head_task_id.task_id ≡ task.id.task_id
      → detach_task_from_thread task db ≡ ok (tt, after)
      → ((others_of task db ≡ [])
          × (S.threads.get after.threads (thread_key (queue_of task.id) task.thread_id) ≡ none))
        ⊎ IsHandedOn task thread db after
  unfolding detach_task_from_thread thread_index_remove threads_get promote_next_thread_head
      thread_index_items
  detach_task_from_thread-IsHandedOn task thread db after name row head e =
      let q : QueueId = queue_of task.id in
      let mid : Db = record db {
        threaded_tasks_index =
            S.threaded_tasks_index.remove db.threaded_tasks_index (thread_key q task.thread_id)
              (item task.scheduled_at task.id.task_id);
      } in
      let promoted : promote_next_thread_head q thread mid ≡ ok (tt, after) =
        ground (arith, row, head, e) in
      hand_on task thread db mid after (others_of task db) name refl refl
        (S.threaded_tasks_index.items-IsSorted mid.threaded_tasks_index
          (thread_key q task.thread_id))
        (subst
          (λ t.
            (read_earliest q
                  (S.threaded_tasks_index.items mid.threaded_tasks_index (thread_key q t))
                >>= promote_with q thread)
              mid
            ≡ ok (tt, after))
          name promoted)
