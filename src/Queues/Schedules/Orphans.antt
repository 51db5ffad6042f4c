-- ===== src/Queues/Schedules/Orphans.antt =====
-- `DequeSchedules` after `DeleteQueue` of pkg/queues/core.go: the schedules of the queue are still
-- there, until `RunQueuesGarbageCollection` drains them.
use moab.Base.{
  ℕ, zero, suc, ◌≤◌, ◌≡◌, ap, ◌∙◌, String, List, [], ◌∷◌, none, ok, fail, not_found, arith, inl,
  inr, length, take, In, Option-cases,
}
use moab.Base.Transaction.{view, map_m, transact-eq-ok}
use moab.Honey.{Item, get-forget_self}
use moab.Tasks.Types.{QueueId}
use moab.Queues.Types.{ScheduleId, Schedule, Response, answer}
use moab.Queues.Access.{
  Stores, Db, M, queue_of, due_item, queue_named, list_due, scheduled_range, queues_get,
  queues_find_by_name, queues_delete, counters_get, counters_set, gc_records_create,
}
use moab.Queues.Registry.{with_queue, delete_queue, delete_queue_found}
use moab.Queues.Schedules.{deque_schedules, pair_with_queue, max_dequeue_schedules}
use moab.Queues.Schedules.Ticks.{IsTimed}
use moab.Queues.Schedules.Due.{collect_due_lem, In-AllRead}
use moab.Queues.Schedules.Delivery.{IsDue, among, readable}

In-take_all :
    {A : Type 0} (n : ℕ) (a : A) (xs : List A) → length xs ≤ n → In a xs → In a (take n xs)
In-take_all n a [] le h = absurd h
In-take_all zero a (x ∷ xs) le h = absurd (omega arith)
In-take_all (suc n) a (x ∷ xs) le (inl e) = inl e
In-take_all (suc n) a (x ∷ xs) le (inr h) = inr (In-take_all n a xs (omega arith) h)

module _ ⦃S : Stores⦄ where
  -- One queue that is missing fails the pairing.
  pair_missing :
      (db : Db) (s : Schedule) (ss : List Schedule)
      → S.queues.get db.queues (queue_of s.id) ≡ none
      → In s ss
      → map_m pair_with_queue ss db ≡ fail not_found
  unfolding map_m pair_with_queue queues_get
  pair_missing db s [] gone h = absurd h
  pair_missing db s (x ∷ ss) gone (inl e) =
      let lost : S.queues.get db.queues (queue_of x.id) ≡ none =
        ap (λ (y : Schedule). S.queues.get db.queues (queue_of y.id)) e ∙ gone in
      ground (arith, lost)
  pair_missing db s (x ∷ ss) gone (inr h) =
      elim (Option-cases (S.queues.get db.queues (queue_of x.id))) [
        | inl lost ↦ ground (arith, lost)
        | inr (q, row) ↦ ground (arith, row, pair_missing db s ss gone h)
      ]

  orphan_fails :
      (db : Db) (before : ℕ) (s : Schedule)
      → IsTimed db
      → IsDue db before s
      → S.queues.get db.queues (queue_of s.id) ≡ none
      → length (S.scheduled.in_range db.scheduled tt 0 before) ≤ max_dequeue_schedules
      → deque_schedules before db ≡ fail not_found
  unfolding deque_schedules list_due scheduled_range view
  orphan_fails db before s wf due gone few =
      let items : List (Item ScheduleId) = S.scheduled.in_range db.scheduled tt 0 before in
      let (ss, run, reads) =
        collect_due_lem db 249 250 items [] (omega arith) (readable db before wf) in
      let here = In-take_all 250 _ items few (among db before wf s due) in
      let found = In-AllRead db (due_item s.id s.next_scheduled_at) s _ ss reads due.0 here in
      ground (arith, run, pair_missing db s ss gone found)

  delete_queue_leaves :
      (a : ℕ) (n : String) (db after : Db) (id : QueueId)
      → delete_queue a n db ≡ (ok (answer id), after)
      → (after.schedules ≡ db.schedules)
        × (after.scheduled ≡ db.scheduled)
        × (S.queues.get after.queues id ≡ none)
  unfolding delete_queue queues_find_by_name delete_queue_found counters_get queues_delete
      counters_set gc_records_create
  delete_queue_leaves a n db after id h =
      let m : M (Response QueueId) = with_queue a n delete_queue_found in
      let run = transact-eq-ok m db h in
      elim (Option-cases (queue_named db a n)) [
        | inl gone ↦ absurd (ground (arith, gone, run))
        | inr (q, here) ↦ (
          ground (arith, here, run),
          ground (arith, here, run),
          ground (arith, here, run, get-forget_self S.queues db.queues q.id),
        )
      ]

  -- If the due index is in step with the schedules, and at most 250 of its entries are due by a
  -- time, one of them that of a schedule of a queue, then after a `DeleteQueue` of this queue
  -- has answered, `DequeSchedules` up to that time fails because a row is missing.
  pub delete_queue_stops_schedules :
      (a : ℕ) (n : String) (db after : Db) (id : QueueId) (s : Schedule) (before : ℕ)
      → IsTimed db
      → delete_queue a n db ≡ (ok (answer id), after)
      → queue_of s.id ≡ id
      → IsDue db before s
      → length (S.scheduled.in_range db.scheduled tt 0 before) ≤ max_dequeue_schedules
      → deque_schedules before after ≡ fail not_found
  delete_queue_stops_schedules a n db after id s before wf h owner due few =
      let (rows, entries, gone) = delete_queue_leaves a n db after id h in
      orphan_fails after before s
        (record { timed = rw (rows, entries) wf.timed; stored = rw (rows, entries) wf.stored })
        (rw rows due.0, due.1) (ap (S.queues.get after.queues) owner ∙ gone) (rw entries few)
