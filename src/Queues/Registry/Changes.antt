-- ===== src/Queues/Registry/Changes.antt =====
-- `Create`, `Update`, `Delete` and `SwapId` of pkg/queues/queues.go as changes of one name.
use moab.Base.{◌≡◌, ◌≢◌, refl, sym, ap, ◌∙◌, subst, none, some, inl, inr}
use moab.Honey.{forget, get-forget_self, get-forget_ne}
use moab.Tasks.Types.{QueueId, QueueId-discrete}
use moab.Queues.Types.{Queue}
use moab.Queues.Access.{Stores, Db, QueueName, name_of}
use moab.Queues.Registry.Names.{IsRegistered, IsChange, name_unique}

module _ ⦃S : Stores⦄ (db after : Db) where
  -- The changes that leave a queue `q` under its name: it has its row, the rows of other names are
  -- kept, and no other row has its name.
  put-IsChange :
      (q : Queue)
      → S.queue_names.get after.queue_names (name_of q) ≡ some q.id.queue_id
      → ((j : QueueName)
          → name_of q ≢ j
          → S.queue_names.get after.queue_names j ≡ S.queue_names.get db.queue_names j)
      → S.queues.get after.queues q.id ≡ some q
      → ((id : QueueId) (p : Queue)
          → S.queues.get db.queues id ≡ some p
          → name_of p ≢ name_of q
          → S.queues.get after.queues id ≡ some p)
      → ((id : QueueId) (p : Queue)
          → q.id ≢ id
          → S.queues.get after.queues id ≡ some p
          → (S.queues.get db.queues id ≡ some p) × (name_of p ≢ name_of q))
      → IsChange db after (name_of q) (some q)
  put-IsChange q name_at name_else own kept only = record {
    name_at = name_at;
    name_else = name_else;
    row_at = λ p e.
        subst (λ (x : Queue). (name_of x ≡ name_of q) × (S.queues.get after.queues x.id ≡ some x))
          (cc e) (refl, own);
    row_else = kept;
    row_only = λ id p row. elim (QueueId-discrete q.id id) [
      | yes e ↦ let same : q ≡ p = cc (own, e, row) in inl (ap some same, cc (same, e))
      | no ne ↦ inr (only id p ne row)
    ];
  }

  module _ (q : Queue) (rows : after.queues ≡ S.queues.set db.queues q.id q) where
    set_own : S.queues.get after.queues q.id ≡ some q
    set_own = rw rows (S.queues.get-set_self db.queues q.id q)

    set_kept : (id : QueueId) → q.id ≢ id → S.queues.get after.queues id ≡ S.queues.get db.queues id
    set_kept id ne = rw rows (S.queues.get-set_ne db.queues q.id id q ne)

  module _ (q : Queue)
      (names : after.queue_names ≡ S.queue_names.set db.queue_names (name_of q) q.id.queue_id) where
    name_own : S.queue_names.get after.queue_names (name_of q) ≡ some q.id.queue_id
    name_own = rw names (S.queue_names.get-set_self db.queue_names (name_of q) q.id.queue_id)

    name_kept :
        (j : QueueName)
        → name_of q ≢ j
        → S.queue_names.get after.queue_names j ≡ S.queue_names.get db.queue_names j
    name_kept j ne =
        rw names (S.queue_names.get-set_ne db.queue_names (name_of q) j q.id.queue_id ne)

  module _ (wf : IsRegistered db) where
    -- A new queue under a free name and a free id.
    pub create-IsChange :
        (q : Queue)
        → S.queue_names.get db.queue_names (name_of q) ≡ none
        → S.queues.get db.queues q.id ≡ none
        → after.queue_names ≡ S.queue_names.set db.queue_names (name_of q) q.id.queue_id
        → after.queues ≡ S.queues.set db.queues q.id q
        → IsChange db after (name_of q) (some q)
    create-IsChange q free_name free_id names rows =
        put-IsChange q (name_own q names) (name_kept q names) (set_own q rows)
          (λ id p row _. set_kept q rows id (λ e. cc (e, row, free_id)) ∙ row)
          λ id p ne row.
            let old = sym (set_kept q rows id ne) ∙ row in
            (old, λ e. cc ((wf.listed id p old).1, e, free_name))

    -- A queue that is stored gets other settings, under its id and name.
    pub update-IsChange :
        (old q : Queue)
        → S.queues.get db.queues old.id ≡ some old
        → q.id ≡ old.id
        → name_of q ≡ name_of old
        → after.queue_names ≡ db.queue_names
        → after.queues ≡ S.queues.set db.queues q.id q
        → IsChange db after (name_of q) (some q)
    update-IsChange old q stored ids name names rows =
        let (_, under) = wf.listed old.id old stored in
        put-IsChange q (rw (names, name, ids) under)
          (λ j _. ap (λ (r : S.queue_names.Rows). S.queue_names.get r j) names) (set_own q rows)
          (λ id p row other. set_kept q rows id (λ e. other (cc (e, row, stored, ids, name))) ∙ row)
          λ id p ne row.
            let before = sym (set_kept q rows id ne) ∙ row in
            (
              before,
              λ e. ne (ids ∙ name_unique wf old.id id old p stored before (sym name ∙ sym e)),
            )

    -- A queue that is stored is removed with its name.
    pub delete-IsChange :
        (old : Queue)
        → S.queues.get db.queues old.id ≡ some old
        → after.queue_names ≡ forget S.queue_names db.queue_names (name_of old)
        → after.queues ≡ forget S.queues db.queues old.id
        → IsChange db after (name_of old) none
    delete-IsChange old stored names rows =
        let gone : S.queues.get after.queues old.id ≡ none =
          rw rows (get-forget_self S.queues db.queues old.id) in
        let kept : (id : QueueId)
            → old.id ≢ id
            → S.queues.get after.queues id ≡ S.queues.get db.queues id =
          λ id ne. rw rows (get-forget_ne S.queues db.queues old.id id ne) in
        record {
          name_at = rw names (get-forget_self S.queue_names db.queue_names (name_of old));
          name_else =
              λ j ne. rw names (get-forget_ne S.queue_names db.queue_names (name_of old) j ne);
          row_at = λ p e. absurd (cc e);
          row_else = λ id p row other. kept id (λ e. other (cc (e, row, stored))) ∙ row;
          row_only = λ id p row. elim (QueueId-discrete old.id id) [
            | yes e ↦ absurd (cc (e, row, gone))
            | no ne ↦
                let before = sym (kept id ne) ∙ row in
                inr (before, λ e. ne (name_unique wf old.id id old p stored before (sym e)))
          ];
        }

    -- A queue that is stored moves to an id that is free.
    pub swap-IsChange :
        (old q : Queue)
        → S.queues.get db.queues old.id ≡ some old
        → S.queues.get db.queues q.id ≡ none
        → name_of q ≡ name_of old
        → after.queue_names ≡ S.queue_names.set db.queue_names (name_of q) q.id.queue_id
        → after.queues ≡ S.queues.erase (S.queues.set db.queues q.id q) old.id
        → IsChange db after (name_of q) (some q)
    swap-IsChange old q stored free name names rows =
        let apart : old.id ≢ q.id = λ e. cc (e, stored, free) in
        let mid : S.queues.Rows = S.queues.set db.queues q.id q in
        let own : S.queues.get after.queues q.id ≡ some q =
          rw rows (
            S.queues.get-erase_ne mid old.id q.id apart ∙ S.queues.get-set_self db.queues q.id q) in
        let gone : S.queues.get after.queues old.id ≡ none =
          rw rows (S.queues.get-erase_self mid old.id) in
        let kept : (id : QueueId)
            → old.id ≢ id
            → q.id ≢ id
            → S.queues.get after.queues id ≡ S.queues.get db.queues id =
          λ id ne new. rw rows (
            S.queues.get-erase_ne mid old.id id ne ∙ S.queues.get-set_ne db.queues q.id id q new) in
        put-IsChange q (name_own q names) (name_kept q names) own
          (λ id p row other.
            kept id (λ e. other (cc (e, row, stored, name))) (λ e. cc (e, row, free)) ∙ row)
          λ id p new row.
            let ne : old.id ≢ id = λ e. cc (e, row, gone) in
            let before = sym (kept id ne new) ∙ row in
            (before, λ e. ne (name_unique wf old.id id old p stored before (sym name ∙ sym e)))
