-- ===== src/Tasks/Gc/Draining.antt =====
-- `RunPurgeQueueGarbageCollection` of pkg/tasks/core.go comes to an end within its fuel.
use moab.Base.{
  ℕ, zero, suc, ◌+◌, ◌≡◌, ◌≤◌, ◌<◌, inl, inr, subst, ◌∙◌, List, [], ◌∷◌, Bool, none, some, ok, fail,
  Fault, not_found, arith, true, false, length, leb, Bool-cases, Option-cases,
}
use moab.Honey.{Page, Token}
use moab.Tasks.Types.{QueueId, Task}
use moab.Tasks.Monad.{Stores, Db, M, ◌>>=◌, ◌>>◌, pure, >>=-eq-ok}
use moab.Tasks.Access.{
  tasks_page, purge_list, purge_delete, counters_delete, queue_state_delete, rate_limiters_delete,
}
use moab.Tasks.Lifecycle.{delete_task, DeletionReason}
use moab.Tasks.Gc.{
  or_default, purge_tasks, drop_record, purge_record, purge_records,
  run_purge_queue_garbage_collection,
}
use moab.Tasks.Gc.Faults.{IsSafe, IsSafe->>=, IsSafe-pure, IsSafe-delete_task, bind-eq-fail}
use moab.Tasks.Gc.Sweeping.{IsSafe-branch, or_default_pos, transact_safe}

suc_add : (a b : ℕ) → suc a + b ≡ a + suc b
suc_add a b = omega arith

module _ ⦃S : Stores⦄ where
  IsSafe-purge_tasks :
      (ts : List Task) (budget visited : ℕ) → IsSafe (purge_tasks ts budget visited)
  unfolding purge_tasks
  IsSafe-purge_tasks [] budget visited = IsSafe-pure (visited, false)
  IsSafe-purge_tasks (t ∷ ts) budget visited =
      IsSafe->>= (delete_task t DeletionReason.no_reason) _
        (IsSafe-delete_task t DeletionReason.no_reason)
        (λ _.
          IsSafe-branch (leb budget (suc visited)) (pure (suc visited, true)) _
            (λ _. IsSafe-pure (suc visited, true))
            (λ _. IsSafe-purge_tasks ts budget (suc visited)))

  -- A page that leaves budget over has been deleted whole.
  purge_tasks_lem :
      (ts : List Task) (budget visited : ℕ) (db : Db) {r : ℕ × Bool} {after : Db}
      → purge_tasks ts budget visited db ≡ ok (r, after)
      → r.1 ≡ false
      → visited ≤ budget
      → (r.0 ≡ visited + length ts) × (r.0 ≤ budget)
  unfolding purge_tasks
  purge_tasks_lem [] budget visited db {r} e going room =
      let same : (visited, false) ≡ r = ground (arith, e) in
      subst (λ (x : ℕ × Bool). (x.0 ≡ visited + 0) × (x.0 ≤ budget)) same (omega arith, room)
  purge_tasks_lem (t ∷ ts) budget visited db {r} {after} e going room =
      let (_, mid, _, rest) = >>=-eq-ok (delete_task t DeletionReason.no_reason) _ db e in
      elim (Bool-cases (leb budget (suc visited))) [
        | inl out ↦ absurd (ground (arith, out, rest, going))
        | inr more ↦
            let (sum, bound) =
              purge_tasks_lem ts budget (suc visited) mid {after = after}
                (ground (arith, more, rest)) going (ground (arith, more)) in
            (sum ∙ suc_add visited (length ts), bound)
      ]

  -- The rest of the loop, after one page.
  after_page : ℕ → QueueId → ℕ → ℕ → Page Task → ℕ × Bool → M (ℕ × Bool)
  after_page fuel q page_size budget page r = elim r.1 [
    | true ↦ pure r
    | false ↦ elim page.next [
      | some _ ↦ purge_record fuel q page_size budget r.0
      | none ↦ (do drop_record q; pure r)
    ]
  ]

  IsSafe-drop_record : (q : QueueId) → IsSafe (drop_record q)
  unfolding drop_record purge_delete counters_delete queue_state_delete rate_limiters_delete
  IsSafe-drop_record q = record { only = λ db x e. ground arith }

  drop_record_then : (q : QueueId) (r : ℕ × Bool) → IsSafe (drop_record q >> pure r)
  drop_record_then q r =
      IsSafe->>= (drop_record q) (λ _. pure r) (IsSafe-drop_record q) (λ _. IsSafe-pure r)

  -- The page after this one is asked for only if this one was full.
  IsSafe-after_page :
      (fuel : ℕ) (q : QueueId) (page_size budget : ℕ) (page : Page Task) (r : ℕ × Bool)
      → ((t : Token)
          → page.next ≡ some t
          → r.1 ≡ false
          → IsSafe (purge_record fuel q page_size budget r.0))
      → IsSafe (after_page fuel q page_size budget page r)
  unfolding after_page
  IsSafe-after_page fuel q page_size budget page r next = record {
    only = λ db x e. elim (Bool-cases r.1) [
      | inl out ↦ absurd (ground (arith, out, e))
      | inr going ↦ elim (Option-cases page.next) [
        | inl last ↦ (drop_record_then q r).only db x (ground (arith, going, last, e))
        | inr (t, more) ↦ (next t more going).only db x (ground (arith, going, more, e))
      ]
    ];
  }

  IsSafe-purge_record :
      (fuel : ℕ) (q : QueueId) (page_size budget visited : ℕ)
      → 0 < page_size
      → visited ≤ budget
      → budget < visited + fuel
      → IsSafe (purge_record fuel q page_size budget visited)
  unfolding purge_record after_page tasks_page
  IsSafe-purge_record zero q page_size budget visited pos room enough = absurd (omega arith)
  IsSafe-purge_record (suc fuel) q page_size budget visited pos room enough = record {
    only = λ db x e.
        let page : Page Task = S.tasks.page db.tasks q none page_size in
        elim (bind-eq-fail (purge_tasks page.items budget visited db)
          (after_page fuel q page_size budget page) x e) [
            | inl first ↦ (IsSafe-purge_tasks page.items budget visited).only db x first
            | inr (r, mid, done, rest) ↦
                (IsSafe-after_page fuel q page_size budget page r (λ t more going.
                    let full : length page.items ≡ page_size =
                      S.tasks.page_full db.tasks q page_size t more in
                    let (sum, bound) =
                      purge_tasks_lem page.items budget visited db done going room in
                    IsSafe-purge_record fuel q page_size budget r.0 pos bound (omega arith))).only
                  mid x rest
          ];
  }

  after_page_lem :
      (fuel : ℕ) (q : QueueId) (page_size budget : ℕ) (page : Page Task) (r s : ℕ × Bool)
      (db after : Db)
      → r.0 ≤ budget
      → (purge_record fuel q page_size budget r.0 db ≡ ok (s, after) → s.0 ≤ budget)
      → after_page fuel q page_size budget page r db ≡ ok (s, after)
      → s.1 ≡ false
      → s.0 ≤ budget
  unfolding after_page
  after_page_lem fuel q page_size budget page r s db after bound next e going =
      elim (Bool-cases r.1) [
        | inl out ↦ absurd (ground (arith, out, e, going))
        | inr more ↦ elim (Option-cases page.next) [
          | inl last ↦
              let (_, mid, _, done) =
                >>=-eq-ok (drop_record q) (λ _. pure r) db {b = s} {db' = after}
                  (ground (arith, more, last, e)) in
              let same : r ≡ s = ground (arith, done) in
              subst (λ (p : ℕ × Bool). p.0 ≤ budget) same bound
          | inr (t, full) ↦ next (ground (arith, more, full, e))
        ]
      ]

  -- A record that is drained leaves a count within the budget.
  purge_record-le :
      (fuel : ℕ) (q : QueueId) (page_size budget visited : ℕ) (db after : Db) (s : ℕ × Bool)
      → visited ≤ budget
      → purge_record fuel q page_size budget visited db ≡ ok (s, after)
      → s.1 ≡ false
      → s.0 ≤ budget
  unfolding purge_record after_page tasks_page
  purge_record-le zero q page_size budget visited db after s room e going = absurd (ground arith)
  purge_record-le (suc fuel) q page_size budget visited db after s room e going =
      let page : Page Task = S.tasks.page db.tasks q none page_size in
      let (r, mid, done, rest) =
        >>=-eq-ok (purge_tasks page.items budget visited) (after_page fuel q page_size budget page)
          db e in
      elim (Bool-cases r.1) [
        | inl out ↦ absurd (ground (arith, out, rest, going))
        | inr more ↦
            let (_, bound) = purge_tasks_lem page.items budget visited db done more room in
            after_page_lem fuel q page_size budget page r s mid after bound
              (λ again. purge_record-le fuel q page_size budget r.0 mid after s bound again going)
              rest going
      ]

  IsSafe-purge_records :
      (qs : List QueueId) (page_size budget visited : ℕ)
      → 0 < page_size
      → visited ≤ budget
      → IsSafe (purge_records qs page_size budget visited)
  unfolding purge_records
  IsSafe-purge_records [] page_size budget visited pos room = IsSafe-pure tt
  IsSafe-purge_records (q ∷ qs) page_size budget visited pos room = record {
    only = λ db x e.
        elim (bind-eq-fail (purge_record (suc budget) q page_size budget visited db) _ x e) [
          | inl first ↦
              (IsSafe-purge_record (suc budget) q page_size budget visited pos room
                  (omega arith)).only
                db x first
          | inr (r, mid, done, rest) ↦ elim (Bool-cases r.1) [
            | inl out ↦ absurd (ground (arith, out, rest))
            | inr more ↦
                let bound =
                  purge_record-le (suc budget) q page_size budget visited db mid r room done more in
                (IsSafe-purge_records qs page_size budget r.0 pos bound).only mid x
                  (ground (arith, more, rest))
          ]
        ];
  }

  IsSafe-purge_list : (limit : ℕ) → IsSafe (purge_list limit)
  unfolding purge_list
  IsSafe-purge_list limit = record { only = λ db x e. absurd (ground arith) }

  -- If the garbage collection of purged queues fails, it fails because a row is missing, and
  -- never because the loop over the pages of a queue has run out of fuel; and then the contents
  -- are unchanged.
  pub run_purge_queue_garbage_collection_ends :
      (records_page_size tasks_page_size max_visited_tasks : ℕ) (db after : Db) (x : Fault)
      → run_purge_queue_garbage_collection records_page_size tasks_page_size max_visited_tasks db
        ≡ (fail x, after)
      → (x ≡ not_found) × (after ≡ db)
  unfolding run_purge_queue_garbage_collection
  run_purge_queue_garbage_collection_ends records_page_size tasks_page_size max_visited_tasks db
        after x e =
      let page : ℕ = or_default tasks_page_size 250 in
      let budget : ℕ = or_default max_visited_tasks 1000 in
      transact_safe
        (purge_list (or_default records_page_size 100) >>= λ records.
          purge_records records page budget 0)
        db after x
        (IsSafe->>= (purge_list (or_default records_page_size 100)) _
          (IsSafe-purge_list (or_default records_page_size 100))
          (λ records.
            IsSafe-purge_records records page budget 0
              (or_default_pos tasks_page_size 250 (omega arith)) (omega arith)))
        e
