-- ===== src/Validation/Soundness.antt =====
-- What the validators of pkg/corepb/validators.go guarantee to the handlers of pkg/tasks/core.go.
use moab.Base.{
  ℕ, suc, ◌+◌, ◌*◌, ◌≡◌, ◌≤◌, ◌<◌, inl, inr, refl, ap, sym, subst, In, ◌∙◌, Bool, true, false, List,
  [], ◌∷◌, Option, none, some, ok, arith, length, All, ltb, if◌then◌else◌, ◌==◌,
}
use mathlib.Core.Logic.{◌↔◌}
use moab.Base.Word.{half64, mod64, slt, add64, mul64, sdiv, bias64, second}
use moab.Tasks.Types.{
  RetryStrategy, IntervalUnit, unrecognized, seconds, minutes, hours, TokenBucketRateLimiting,
  DequeuingSettings,
}
use moab.Tasks.Lifecycle.{after_seconds}
use moab.Tasks.RateLimiter.{
  unit_length, divide, get_refill_interval, is_enabled, rate_limiting_enabled,
}
use moab.Validation.{
  Violation, check, ◌then◌, outside, validate_intervals, validate_retry_strategy,
  validate_interval_unit, validate_rate_limiting, validate_dequeuing_settings, max_retry_intervals,
  max_retry_interval_in_seconds,
}

-- A check that is followed by others.
then-eq-none : (a b : Option Violation) → (a then b) ≡ none → (a ≡ none) × (b ≡ none)
then-eq-none none b e = (refl, e)
then-eq-none (some v) b e = absurd (ground arith)

outside_lem : (hi value : ℕ) → hi < half64 → value < mod64 → outside 0 hi value ≡ false → value ≤ hi
unfolding outside slt bias64
outside_lem hi value small word e = ground arith

inside_lem : (hi value : ℕ) → hi < half64 → value ≤ hi → outside 0 hi value ≡ false
unfolding outside slt bias64
inside_lem hi value small h = ground arith

check-eq-none : (b : Bool) (v : Violation) → check b v ≡ none → b ≡ false
check-eq-none true v e = absurd (ground arith)
check-eq-none false v e = refl

intervals_bounded :
    (i : ℕ) (xs : List ℕ)
    → All (λ x. x < mod64) xs
    → validate_intervals i xs ≡ none
    → All (λ x. x ≤ max_retry_interval_in_seconds) xs
unfolding validate_intervals
intervals_bounded i [] words e = tt
intervals_bounded i (x ∷ xs) words e =
    let (first, rest) =
      then-eq-none
        (check (outside 0 max_retry_interval_in_seconds x)
          (Violation.entry i Violation.retry_range))
        (validate_intervals (suc i) xs) e in
    (
      outside_lem max_retry_interval_in_seconds x (omega arith) words.0 (
          check-eq-none (outside 0 max_retry_interval_in_seconds x)
            (Violation.entry i Violation.retry_range) first),
      intervals_bounded (suc i) xs words.1 rest,
    )

intervals_accepted :
    (i : ℕ) (xs : List ℕ)
    → All (λ x. x ≤ max_retry_interval_in_seconds) xs
    → validate_intervals i xs ≡ none
unfolding validate_intervals
intervals_accepted i [] bounded = refl
intervals_accepted i (x ∷ xs) bounded =
    rw (inside_lem max_retry_interval_in_seconds x (omega arith) bounded.0)
      (intervals_accepted (suc i) xs bounded.1)

-- A retry strategy, its intervals given as int64 bit patterns, passes validation if and only if
-- it has at most 21 intervals and each is at most 900 seconds, as a number.
pub validate_retry_strategy_lem :
    (s : RetryStrategy)
    → All (λ x. x < mod64) s.retry_intervals_in_seconds
    → (validate_retry_strategy (some s) ≡ none) ↔ (
        (length s.retry_intervals_in_seconds ≤ 21)
        × All (λ x. x ≤ 900) s.retry_intervals_in_seconds)
unfolding validate_retry_strategy
validate_retry_strategy_lem s words =
    let over : Bool = ltb max_retry_intervals (length s.retry_intervals_in_seconds) in
    (
      λ e.
          let (few, rest) =
            then-eq-none (check over Violation.retries_length)
              (validate_intervals 0 s.retry_intervals_in_seconds) e in
          let short = check-eq-none over Violation.retries_length few in
          (ground (arith, short), intervals_bounded 0 s.retry_intervals_in_seconds words rest),
      λ h.
          let few : over ≡ false = ground (arith, h.0) in
          rw few (intervals_accepted 0 s.retry_intervals_in_seconds h.1),
    )

unit_known :
    (u : IntervalUnit) → validate_interval_unit u ≡ none → (unit : ℕ) × (unit_length u ≡ ok unit)
unfolding unit_length
unit_known unrecognized e = absurd (ground arith)
unit_known seconds e = (_, refl)
unit_known minutes e = (_, refl)
unit_known hours e = (_, refl)

enabled_lem : (r : TokenBucketRateLimiting) → is_enabled r ≡ true → (r.max_tokens == 0) ≡ false
unfolding is_enabled slt bias64
enabled_lem r e = ground arith

enabled_inv :
    (settings : DequeuingSettings) (r : TokenBucketRateLimiting)
    → rate_limiting_enabled (some settings) ≡ some r
    → (settings.rate_limiting ≡ some r) × (is_enabled r ≡ true)
unfolding rate_limiting_enabled
enabled_inv settings r e = ground arith

valid_unit :
    (settings : DequeuingSettings) (r : TokenBucketRateLimiting)
    → settings.rate_limiting ≡ some r
    → validate_dequeuing_settings (some settings) ≡ none
    → validate_interval_unit r.interval_unit ≡ none
unfolding validate_dequeuing_settings validate_rate_limiting
valid_unit settings r limited valid =
    let (_, limiting) =
      then-eq-none (check (slt settings.max_in_progress_tasks 0) Violation.max_in_progress_negative)
        (validate_rate_limiting settings.rate_limiting) valid in
    let limiting' : validate_rate_limiting (some r) ≡ none =
      ap validate_rate_limiting (sym limited) ∙ limiting in
    let (_, rest) =
      then-eq-none (check (slt r.interval 0) Violation.interval_negative)
        (check (slt r.max_tokens 0) Violation.max_tokens_negative
          then validate_interval_unit r.interval_unit)
        limiting' in
    (then-eq-none (check (slt r.max_tokens 0) Violation.max_tokens_negative)
      (validate_interval_unit r.interval_unit) rest).1

-- If dequeuing settings pass validation and enable rate limiting, the refill interval of the
-- bucket is computed: the unit is known, and the number of tokens that it divides by is not
-- zero.
pub valid_settings_refill :
    (settings : DequeuingSettings) (r : TokenBucketRateLimiting)
    → validate_dequeuing_settings (some settings) ≡ none
    → rate_limiting_enabled (some settings) ≡ some r
    → (interval : ℕ) × (get_refill_interval r ≡ ok interval)
unfolding get_refill_interval divide
valid_settings_refill settings r valid enabled =
    let (limited, on) = enabled_inv settings r enabled in
    let (unit, known) = unit_known r.interval_unit (valid_unit settings r limited valid) in
    (sdiv (mul64 r.interval unit) r.max_tokens, rw (known, enabled_lem r on))

In-All : (P : ℕ → Type 0) (xs : List ℕ) (x : ℕ) → All P xs → In x xs → P x
In-All P [] x all member = elim member [ ]
In-All P (y ∷ ys) x all (inl e) = subst P e all.0
In-All P (y ∷ ys) x all (inr member) = In-All P ys x all.1 member

-- For an interval of a retry strategy that passes validation, its intervals given as int64 bit
-- patterns, and a time that is at least 900 seconds below 2 ^ 63 nanoseconds, the time of the
-- retry is the sum without a wrap-around, and at most 900 seconds later.
valid_retry_is_later :
    (s : RetryStrategy) (now interval : ℕ)
    → All (λ x. x < mod64) s.retry_intervals_in_seconds
    → validate_retry_strategy (some s) ≡ none
    → In interval s.retry_intervals_in_seconds
    → now + 900 * second < half64
    → (after_seconds now interval ≡ now + interval * second)
      × (after_seconds now interval ≤ now + 900 * second)
unfolding add64 mul64
valid_retry_is_later s now interval words valid member small =
    let (_, bounded) = (validate_retry_strategy_lem s words).0 valid in
    let low : interval ≤ 900 =
      In-All (λ x. x ≤ 900) s.retry_intervals_in_seconds interval bounded member in
    (omega arith, omega arith)
