-- ===== src/Base/Word.antt =====
-- Machine integers as bit patterns: an `int64` or `uint64` is a number below 2 ^ 64, an `int32` one
-- below 2 ^ 32. Sums, differences and products wrap; comparisons are signed.
use Prim.Native.Nat.{ℕ, ◌+◌, ◌-◌, ◌*◌, ◌/◌, ◌%◌, ◌^◌, ◌≤◌, ◌<◌}
use mathlib.Core.Path.{◌≡◌}
use mathlib.Core.Bool.{Bool, false}
use native.Mathlib.Omega.{arith}
use moab.Base.Tests.{ltb, leb, if◌then◌else◌}

abbrev pub mod64 : ℕ
mod64 = 2 ^ 64

abbrev pub half64 : ℕ
half64 = 2 ^ 63

unfoldable pub add64 : ℕ → ℕ → ℕ
add64 a b = (a + b) % mod64

unfoldable pub sub64 : ℕ → ℕ → ℕ
sub64 a b = (a + mod64 - b) % mod64

unfoldable pub mul64 : ℕ → ℕ → ℕ
mul64 a b = (a * b) % mod64

-- Signed order: with the sign bit flipped it is the order of the patterns.
unfoldable pub bias64 : ℕ → ℕ
bias64 a = (a + half64) % mod64

unfoldable pub slt : ℕ → ℕ → Bool
unfolding bias64
slt a b = ltb (bias64 a) (bias64 b)

unfoldable pub sle : ℕ → ℕ → Bool
unfolding bias64
sle a b = leb (bias64 a) (bias64 b)

unfoldable pub is_negative : ℕ → Bool
is_negative a = leb half64 a

unfoldable pub negate : ℕ → ℕ
negate a = (mod64 - a) % mod64

unfoldable pub magnitude : ℕ → ℕ
unfolding is_negative negate
magnitude a = if is_negative a then negate a else a

-- Signed division, towards zero; the caller has tested that the divisor is not zero.
unfoldable pub sdiv : ℕ → ℕ → ℕ
unfolding is_negative negate magnitude
sdiv a b =
    let q = magnitude a / magnitude b in
    if is_negative a
    then (if is_negative b then q else negate q)
    else (if is_negative b then negate q else q)

abbrev pub mod32 : ℕ
mod32 = 2 ^ 32

unfoldable pub add32 : ℕ → ℕ → ℕ
add32 a b = (a + b) % mod32

unfoldable pub sub32 : ℕ → ℕ → ℕ
sub32 a b = (a + mod32 - b) % mod32

unfoldable pub bias32 : ℕ → ℕ
bias32 a = (a + 2 ^ 31) % mod32

unfoldable pub slt32 : ℕ → ℕ → Bool
unfolding bias32
slt32 a b = ltb (bias32 a) (bias32 b)

-- `int64(x)` of an `int32`.
unfoldable pub sign_extend : ℕ → ℕ
sign_extend x = if ltb x (2 ^ 31) then x else x + (mod64 - mod32)

-- `int64(time.Second)`.
abbrev pub second : ℕ
second = 1_000_000_000

-- Below 2 ^ 63 the signed order is that of the numbers.
pub slt-ltb : (a b : ℕ) → a < half64 → b < half64 → slt a b ≡ ltb a b
unfolding slt
slt-ltb a b ha hb = ground arith

pub sle-leb : (a b : ℕ) → a < half64 → b < half64 → sle a b ≡ leb a b
unfolding sle
sle-leb a b ha hb = ground arith

pub add64-add : (a b : ℕ) → a + b < mod64 → add64 a b ≡ a + b
unfolding add64
add64-add a b h = omega arith

pub sub64-sub : (a b : ℕ) → b ≤ a → a < mod64 → sub64 a b ≡ a - b
unfolding sub64
sub64-sub a b h ha = omega arith

is_negative-false : (a : ℕ) → a < half64 → is_negative a ≡ false
unfolding is_negative
is_negative-false a h = ground arith

pub sdiv-div : (a b : ℕ) → a < half64 → b < half64 → sdiv a b ≡ a / b
unfolding sdiv
sdiv-div a b ha hb = rw (is_negative-false a ha, is_negative-false b hb)

pub slt32-ltb : (a b : ℕ) → a < 2 ^ 31 → b < 2 ^ 31 → slt32 a b ≡ ltb a b
unfolding slt32
slt32-ltb a b ha hb = ground arith
