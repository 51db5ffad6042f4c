-- ===== src/Base/Transaction.antt =====
-- What a method of a core does inside its transaction over contents `D`: it returns a value and the
-- new contents, or ends with a fault. `store.Txn` is in memory; it commits once, at the end.
use mathlib.Core.Path.{◌≡◌, refl}
use mathlib.Core.Bool.{Bool, true, false}
use mathlib.Core.Option.{Option, none, some}
use mathlib.Core.List.{List, [], ◌∷◌}
use native.Mathlib.Omega.{arith}
use moab.Base.Errors.{Fault, Result, ok, fail, bind, not_found}

abbrev pub Transaction : Type 0 → Type 0 → Type 0
Transaction D A = D → Result (A × D)

module _ {D : Type 0} where
  abbrev pub pure : {A : Type 0} → A → Transaction D A
  pure a db = ok (a, db)

  abbrev pub raise : {A : Type 0} → Fault → Transaction D A
  raise e db = fail e

  infixl 5 ◌>>=◌ ◌>>◌
  abbrev pub ◌>>=◌ : {A B : Type 0} → Transaction D A → (A → Transaction D B) → Transaction D B
  ◌>>=◌ m f db = bind (m db) (λ p. f p.0 p.1)

  abbrev pub ◌>>◌ : {B : Type 0} → Transaction D (Unit {0}) → Transaction D B → Transaction D B
  m >> k = m >>= λ _. k

  abbrev pub lift : {A : Type 0} → Result A → Transaction D A
  lift (ok a) = pure a
  lift (fail e) = raise e

  abbrev pub or_fail : {A : Type 0} → Option A → Transaction D A
  or_fail none = raise not_found
  or_fail (some a) = pure a

  abbrev pub when : Bool → Transaction D (Unit {0}) → Transaction D (Unit {0})
  when true m = m
  when false m = pure tt

  -- A loop over a list, ended by the first fault.
  unfoldable pub for_each :
      {A : Type 0} → List A → (A → Transaction D (Unit {0})) → Transaction D (Unit {0})
  for_each [] body = pure tt
  for_each (x ∷ xs) body = body x >> for_each xs body

  unfoldable pub map_m : {A B : Type 0} → (A → Transaction D B) → List A → Transaction D (List B)
  map_m body [] = pure []
  map_m body (x ∷ xs) = do y ← body x; ys ← map_m body xs; pure (y ∷ ys)

  -- The transaction of a method: `Commit` where it returns a value, `Discard` where it fails.
  unfoldable pub transact : {A : Type 0} → Transaction D A → D → Result A × D
  transact m db = elim (m db) [ ok (a, db') ↦ (ok a, db') | fail e ↦ (fail e, db) ]

  -- A view transaction: nothing is written.
  unfoldable pub view : {A : Type 0} → Transaction D A → D → Result A
  view m db = elim (m db) [ ok (a, _) ↦ ok a | fail e ↦ fail e ]

  pub transact-ok :
      {A : Type 0} (m : Transaction D A) (db : D) {a : A} {after : D}
      → m db ≡ ok (a, after)
      → transact m db ≡ (ok a, after)
  unfolding transact
  transact-ok m db e = ground arith

  pub transact-fail :
      {A : Type 0} (m : Transaction D A) (db : D) {x : Fault}
      → m db ≡ fail x
      → transact m db ≡ (fail x, db)
  unfolding transact
  transact-fail m db e = ground arith

  pub transact-eq-ok :
      {A : Type 0} (m : Transaction D A) (db : D) {a : A} {after : D}
      → transact m db ≡ (ok a, after)
      → m db ≡ ok (a, after)
  unfolding transact
  transact-eq-ok m db e = ground arith

  -- Inversion of a successful step.
  elim-eq-ok :
      {A B : Type 0} (r : Result (A × D)) (f : A → Transaction D B) {b : B} {db' : D}
      → bind r (λ p. f p.0 p.1) ≡ ok (b, db')
      → (a : A) × (mid : D) × (r ≡ ok (a, mid)) × (f a mid ≡ ok (b, db'))
  elim-eq-ok (ok (a, mid)) f e = (a, mid, refl, e)
  elim-eq-ok (fail x) f e = cc

  pub >>=-eq-ok :
      {A B : Type 0} (m : Transaction D A) (f : A → Transaction D B) (db : D) {b : B} {db' : D}
      → (m >>= f) db ≡ ok (b, db')
      → (a : A) × (mid : D) × (m db ≡ ok (a, mid)) × (f a mid ≡ ok (b, db'))
  >>=-eq-ok m f db e = elim-eq-ok (m db) f e
