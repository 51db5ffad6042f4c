-- ===== src/Base/Errors.antt =====
-- Go's `(value, error)`: a value, or the fault that ended the call.
use mathlib.Core.Path.{◌≡◌, refl}
use mathlib.Core.Logic.{◌⊎◌, inl, inr}

-- `not_found` is `store.ErrNotFound` and `not_head` the error that the core makes itself; the next
-- four are run-time panics. `refused` is an application error that a client's stub returns as a Go
-- error, and `out_of_fuel` ends a loop of the model that no run ends.
pub data Fault : Type 0 where
  not_found not_head refused : Fault
  index_out_of_range divide_by_zero unknown_interval_unit nil_dereference : Fault
  out_of_fuel : Fault

pub data Result {ℓ} (A : Type ℓ) : Type ℓ where
  ok : A → Result A
  fail : Fault → Result A

abbrev pub bind {ℓ κ} : {A : Type ℓ} {B : Type κ} → Result A → (A → Result B) → Result B
bind (ok a) f = f a
bind (fail e) f = fail e

pub Result-cases {ℓ} :
    {A : Type ℓ} (r : Result A) → ((a : A) × (r ≡ ok a)) ⊎ ((e : Fault) × (r ≡ fail e))
Result-cases (ok a) = inl (a, refl)
Result-cases (fail e) = inr (e, refl)
