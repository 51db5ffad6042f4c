-- ===== src/Queues/Registry/Names.antt =====
-- The queues of pkg/queues/queues.go and their names index: what each change of the two does to
-- the map from names to queues.
use moab.Base.{
  ℕ, ◌≡◌, ◌≢◌, sym, ap, ◌∙◌, subst, Option, none, some, arith, Option-cases, inl, inr, ◌⊎◌,
}
use mathlib.Core.Option
use moab.Tasks.Types.{QueueId}
use moab.Queues.Types.{Queue}
use moab.Queues.Access.{Stores, Db, QueueName, QueueName-discrete, name_of, queue_named}

abbrev pub id_under : QueueName → ℕ → QueueId
id_under k i = record { account_id = k.account_id; queue_id = i }

-- What a client sees: the queue of each account under each name.
abbrev pub Registry : Type 0
Registry = QueueName → Option Queue

-- `after` has `v` under the name, and the rest of `before`.
abbrev pub Puts : Registry → Registry → QueueName → Option Queue → Type 0
Puts before after k v = (after k ≡ v) × ((j : QueueName) → k ≢ j → after j ≡ before j)

module _ ⦃S : Stores⦄ where
  abbrev pub registry : Db → Registry
  registry db k = queue_named db k.account_id k.name

  -- Each name stands for the queue that has it, and each queue is found under its name.
  pub record IsRegistered (db : Db) : Type 0 where
    pub named :
        (k : QueueName) (i : ℕ)
        → S.queue_names.get db.queue_names k ≡ some i
        → (q : Queue) × (S.queues.get db.queues (id_under k i) ≡ some q)
          × (q.id ≡ id_under k i)
          × (name_of q ≡ k)
    pub listed :
        (id : QueueId) (q : Queue)
        → S.queues.get db.queues id ≡ some q
        → (q.id ≡ id) × (S.queue_names.get db.queue_names (name_of q) ≡ some id.queue_id)

  module _ {db : Db} (wf : IsRegistered db) where
    -- A queue that is found under a name.
    pub registry-some :
        (k : QueueName) (q : Queue)
        → registry db k ≡ some q
        → (name_of q ≡ k)
          × (S.queues.get db.queues q.id ≡ some q)
          × (S.queue_names.get db.queue_names (name_of q) ≡ some q.id.queue_id)
    unfolding queue_named
    registry-some k q h = elim (Option-cases (S.queue_names.get db.queue_names k)) [
      | inl gone ↦ absurd (ground (arith, gone, h))
      | inr (i, here) ↦
          let (p, at, ids, name) = wf.named k i here in
          let same : p ≡ q = ground (arith, here, at, h) in
          let at_id : S.queues.get db.queues p.id ≡ some p = ap (S.queues.get db.queues) ids ∙ at in
          let under : S.queue_names.get db.queue_names (name_of p) ≡ some p.id.queue_id =
            ap (S.queue_names.get db.queue_names) name
            ∙ here
            ∙ ap (λ (x : QueueId). some x.queue_id) (sym ids) in
          subst
            (λ (x : Queue).
              (name_of x ≡ k)
              × (S.queues.get db.queues x.id ≡ some x)
              × (S.queue_names.get db.queue_names (name_of x) ≡ some x.id.queue_id))
            same (name, at_id, under)
    ]

    -- No two queues have one name.
    pub name_unique :
        (i j : QueueId) (p q : Queue)
        → S.queues.get db.queues i ≡ some p
        → S.queues.get db.queues j ≡ some q
        → name_of p ≡ name_of q
        → i ≡ j
    name_unique i j p q at_i at_j e =
        let (ip, np) = wf.listed i p at_i in
        let (jq, nq) = wf.listed j q at_j in
        let number : some i.queue_id ≡ some j.queue_id =
          sym np ∙ ap (S.queue_names.get db.queue_names) e ∙ nq in
        let account : p.id.account_id ≡ q.id.account_id = ap (λ (k : QueueName). k.account_id) e in
        ground (arith, ip, jq, number, account)

    pub registry-none :
        (k : QueueName) → registry db k ≡ none → S.queue_names.get db.queue_names k ≡ none
    unfolding queue_named
    registry-none k h = elim (Option-cases (S.queue_names.get db.queue_names k)) [
      | inl gone ↦ gone
      | inr (i, here) ↦
          let (p, at, _, _) = wf.named k i here in absurd (ground (arith, here, at, h))
    ]

  -- One name is given the queue `v`, or is taken away, with the row of its queue.
  pub record IsChange (db after : Db) (k : QueueName) (v : Option Queue) : Type 0 where
    pub name_at :
        S.queue_names.get after.queue_names k ≡ Option.map (λ (q : Queue). q.id.queue_id) v
    pub name_else :
        (j : QueueName)
        → k ≢ j
        → S.queue_names.get after.queue_names j ≡ S.queue_names.get db.queue_names j
    pub row_at :
        (q : Queue) → v ≡ some q → (name_of q ≡ k) × (S.queues.get after.queues q.id ≡ some q)
    pub row_else :
        (id : QueueId) (p : Queue)
        → S.queues.get db.queues id ≡ some p
        → name_of p ≢ k
        → S.queues.get after.queues id ≡ some p
    pub row_only :
        (id : QueueId) (p : Queue)
        → S.queues.get after.queues id ≡ some p
        → ((v ≡ some p) × (p.id ≡ id)) ⊎ ((S.queues.get db.queues id ≡ some p) × (name_of p ≢ k))

  module _ {db after : Db} {k : QueueName} {v : Option Queue} (wf : IsRegistered db)
      (c : IsChange db after k v) where
    named_at :
        (i : ℕ)
        → S.queue_names.get after.queue_names k ≡ some i
        → (q : Queue) × (S.queues.get after.queues (id_under k i) ≡ some q)
          × (q.id ≡ id_under k i)
          × (name_of q ≡ k)
    named_at i h = elim (Option-cases v) [
      | inl nothing ↦ absurd (ground (arith, nothing, h, c.name_at))
      | inr (q, is) ↦
          let (name, row) = c.row_at q is in
          let account : q.id.account_id ≡ k.account_id =
            ap (λ (x : QueueName). x.account_id) name in
          let number : q.id.queue_id ≡ i = ground (arith, is, h, c.name_at) in
          let ids : q.id ≡ id_under k i = ground (arith, account, number) in
          (q, ap (S.queues.get after.queues) (sym ids) ∙ row, ids, name)
    ]

    named_else :
        (j : QueueName) (i : ℕ)
        → k ≢ j
        → S.queue_names.get db.queue_names j ≡ some i
        → (q : Queue) × (S.queues.get db.queues (id_under j i) ≡ some q)
          × (S.queues.get after.queues (id_under j i) ≡ some q)
          × (q.id ≡ id_under j i)
          × (name_of q ≡ j)
    named_else j i ne h =
        let (q, row, ids, name) = wf.named j i h in
        (q, row, c.row_else (id_under j i) q row (λ e. ne (sym e ∙ name)), ids, name)

    pub IsChange-IsRegistered : IsRegistered after
    IsChange-IsRegistered = record {
      named = λ j i h. elim (QueueName-discrete k j) [
        | yes e ↦
            subst
              (λ (x : QueueName).
                S.queue_names.get after.queue_names x ≡ some i
                → (q : Queue) × (S.queues.get after.queues (id_under x i) ≡ some q)
                  × (q.id ≡ id_under x i)
                  × (name_of q ≡ x))
              e (named_at i) h
        | no ne ↦
            let (q, _, row, ids, name) = named_else j i ne (sym (c.name_else j ne) ∙ h) in
            (q, row, ids, name)
      ];
      listed = λ id p h. elim (c.row_only id p h) [
        | inl (is, ids) ↦ (
          ids,
          ap (S.queue_names.get after.queue_names) (c.row_at p is).0
              ∙ c.name_at
              ∙ ground (arith, is, ids),
        )
        | inr (row, ne) ↦
            let (ids, name) = wf.listed id p row in
            (ids, c.name_else (name_of p) (λ e. ne (sym e)) ∙ name)
      ];
    }

    registry_at : registry after k ≡ v
    unfolding queue_named
    registry_at = elim (Option-cases v) [
      | inl nothing ↦ ground (arith, nothing, c.name_at)
      | inr (q, is) ↦
          let here : S.queue_names.get after.queue_names k ≡ some q.id.queue_id =
            ground (arith, is, c.name_at) in
          let (p, row, ids, name) = named_at q.id.queue_id here in
          let (own_name, own) = c.row_at q is in
          let account : q.id.account_id ≡ k.account_id =
            ap (λ (x : QueueName). x.account_id) own_name in
          let own_id : q.id ≡ id_under k q.id.queue_id = ground (arith, account) in
          ground (arith, here, is, sym (ap (S.queues.get after.queues) own_id) ∙ own)
    ]

    registry_else : (j : QueueName) → k ≢ j → registry after j ≡ registry db j
    unfolding queue_named
    registry_else j ne = elim (Option-cases (S.queue_names.get db.queue_names j)) [
      | inl gone ↦ ground (arith, gone, c.name_else j ne)
      | inr (i, here) ↦
          let (q, before, row, _, _) = named_else j i ne here in
          ground (arith, here, c.name_else j ne, before, row)
    ]

    pub IsChange-Puts : Puts (registry db) (registry after) k v
    IsChange-Puts = (registry_at, registry_else)
