-- ===== src/Queues/Registry/Moving.antt =====
-- The loop of `SwapQueueId` in pkg/queues/core.go that moves the schedules: it ends, without a
-- fault, and leaves the queues alone.
use moab.Base.{
  ℕ, zero, suc, ◌≤◌, ◌<◌, ◌≡◌, ◌≢◌, refl, sym, ◌∙◌, List, [], ◌∷◌, Option, none, some, ok, arith,
  Option-cases, inl, inr,
}
use moab.Base.Transaction.{for_each}
use moab.Honey.{Token, forget}
use moab.Pagination.{in_order}
use moab.Tasks.Types.{QueueId}
use moab.Queues.Types.{Schedule}
use moab.Queues.Access.{
  Stores, Db, schedule_in, schedule_name_of, due_item, schedules_page, schedules_delete,
  schedules_create, scheduled_add, schedule_names_set, schedules_set,
}
use moab.Queues.Registry.{move_schedule, move_schedules, move_all_schedules}

module _ ⦃S : Stores⦄ where
  -- Only the tables of schedules differ.
  pub record SameQueues (before after : Db) : Type 0 where
    pub queues : after.queues ≡ before.queues
    pub queue_names : after.queue_names ≡ before.queue_names
    pub counters : after.counters ≡ before.counters
    pub gc_records : after.gc_records ≡ before.gc_records

  SameQueues-refl : (db : Db) → SameQueues db db
  SameQueues-refl db = record {
    queues = refl;
    queue_names = refl;
    counters = refl;
    gc_records = refl;
  }

  SameQueues-trans : {a b c : Db} → SameQueues a b → SameQueues b c → SameQueues a c
  SameQueues-trans h k = record {
    queues = k.queues ∙ h.queues;
    queue_names = k.queue_names ∙ h.queue_names;
    counters = k.counters ∙ h.counters;
    gc_records = k.gc_records ∙ h.gc_records;
  }

  abbrev left : Db → QueueId → Option Token → ℕ
  left db q token = S.schedules.remaining db.schedules q token

  remaining-forget :
      (r : S.schedules.Rows) (s : Schedule) (q : QueueId) (token : Option Token)
      → S.schedules.remaining (forget S.schedules r s.id) q token ≤ S.schedules.remaining r q token
  remaining-forget r s q token = ground (arith, S.schedules.remaining-erase r s.id q token)

  abbrev at_new_id : QueueId → Schedule → Schedule
  at_new_id id s = record s { id = schedule_in id s.id.schedule_id }

  -- The contents after one schedule has moved.
  abbrev moved_to : QueueId → Schedule → Db → Db
  moved_to id s db = record db {
    schedules =
        S.schedules.set (forget S.schedules db.schedules s.id) (at_new_id id s).id (at_new_id id s);
    schedule_names =
        S.schedule_names.set (forget S.schedule_names db.schedule_names (schedule_name_of s))
          (schedule_name_of (at_new_id id s)) s.id.schedule_id;
    scheduled =
        S.scheduled.add (S.scheduled.remove db.scheduled tt (due_item s.id s.next_scheduled_at)) tt
          (due_item (at_new_id id s).id s.next_scheduled_at);
  }

  module _ (old id : QueueId) (other : id ≢ old) where
    moved_elsewhere : (n : ℕ) → S.schedules.prefix (schedule_in id n) ≢ old
    moved_elsewhere n e = other (sym (S.schedules_prefix (schedule_in id n)) ∙ e)

    move_schedule_lem :
        (s : Schedule) (db : Db)
        → (after : Db) × (move_schedule id s db ≡ ok (tt, after))
          × SameQueues db after
          × ((token : Option Token) → left after old token ≤ left db old token)
    unfolding move_schedule schedules_delete schedules_create scheduled_add schedule_names_set
        schedules_set
    move_schedule_lem s db =
        let gone : S.schedules.Rows = forget S.schedules db.schedules s.id in
        (
          moved_to id s db,
          refl,
          record { queues = refl; queue_names = refl; counters = refl; gc_records = refl },
          λ token. omega (
            arith,
            remaining-forget db.schedules s old token,
            S.schedules.remaining-set_other gone (at_new_id id s).id (at_new_id id s) old token
                (moved_elsewhere s.id.schedule_id),
          ),
        )

    move_page :
        (ss : List Schedule) (db : Db)
        → (after : Db) × (for_each ss (move_schedule id) db ≡ ok (tt, after))
          × SameQueues db after
          × ((token : Option Token) → left after old token ≤ left db old token)
    unfolding for_each
    move_page [] db = (db, refl, SameQueues-refl db, λ token. omega arith)
    move_page (s ∷ ss) db =
        let (mid, one, same, fewer) = move_schedule_lem s db in
        let (after, rest, same_rest, fewer_rest) = move_page ss mid in
        (
          after,
          ground (arith, one, rest),
          SameQueues-trans same same_rest,
          λ token. omega (arith, fewer token, fewer_rest token),
        )

    move_schedules_lem :
        (fuel : ℕ) (token : Option Token) (db : Db)
        → left db old token < fuel
        → (after : Db) × (move_schedules fuel old id token db ≡ ok (tt, after))
          × SameQueues db after
    unfolding move_schedules schedules_page
    move_schedules_lem zero token db enough = absurd (omega arith)
    move_schedules_lem (suc fuel) token db enough =
        let page = S.schedules.page db.schedules old token 250 in
        let (mid, moved, same, fewer) = move_page (in_order token page.items) db in
        elim (Option-cases page.next) [
          | inl last ↦ (mid, ground (arith, moved, last), same)
          | inr (t, more) ↦
              let (after, rest, same_rest) = move_schedules_lem fuel (some t) mid (
                omega (
                  arith,
                  fewer (some t),
                  S.schedules.page_advances db.schedules old token 250 t (omega arith) more,
                )) in
              (after, ground (arith, moved, more, rest), SameQueues-trans same same_rest)
        ]

    pub move_all_schedules_lem :
        (db : Db)
        → (after : Db) × (move_all_schedules old id db ≡ ok (tt, after)) × SameQueues db after
    unfolding move_all_schedules
    move_all_schedules_lem db = move_schedules_lem (suc (left db old none)) none db (omega arith)
