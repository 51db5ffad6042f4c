-- ===== src/Tasks/RateLimiter.antt =====
-- The token bucket of `Dequeue` in pkg/tasks/core.go.
pub mod Refilling
use moab.Base.{
  ℕ, ◌*◌, Bool, ◌&&◌, Option, none, some, Result, ok, fail, Fault, bind, ◌==◌, if◌then◌else◌,
}
use moab.Base.Word.{add64, sub64, mul64, sdiv, slt, second}
use moab.Tasks.Types.{
  IntervalUnit, TokenBucketRateLimiting, DequeuingSettings, RateLimiterState, unrecognized, seconds,
  minutes, hours,
}

-- The cases of `getRefillInterval`; a value with no name panics.
unfoldable pub unit_length : IntervalUnit → Result ℕ
unit_length seconds = ok second
unit_length minutes = ok (60 * second)
unit_length hours = ok (3600 * second)
unit_length unrecognized = fail Fault.unknown_interval_unit

-- Go's `/` on int64 panics where the divisor is 0.
unfoldable pub divide : ℕ → ℕ → Result ℕ
divide a b = if b == 0 then fail Fault.divide_by_zero else ok (sdiv a b)

unfoldable pub get_refill_interval : TokenBucketRateLimiting → Result ℕ
get_refill_interval r =
    bind (unit_length r.interval_unit) (λ unit. divide (mul64 r.interval unit) r.max_tokens)

-- The condition `rateLimitingEnabled`, and the settings that it is about.
unfoldable pub is_enabled : TokenBucketRateLimiting → Bool
is_enabled r = slt 0 r.interval && slt 0 r.max_tokens

unfoldable pub rate_limiting_enabled : Option DequeuingSettings → Option TokenBucketRateLimiting
rate_limiting_enabled none = none
rate_limiting_enabled (some settings) = elim settings.rate_limiting [
  | none ↦ none
  | some r ↦ if is_enabled r then some r else none
]

-- `newTokens` of them go into the bucket.
unfoldable pub add_tokens : ℕ → ℕ → ℕ → ℕ → RateLimiterState → RateLimiterState
add_tokens max interval now new s =
    if slt 0 new
    then (if slt max (add64 s.tokens new)
        then record s { tokens = max; last_refilled_at = now }
        else record s {
          tokens = add64 s.tokens new;
          last_refilled_at = add64 s.last_refilled_at (mul64 new interval);
        })
    else s

-- `refillInterval` is computed for a full bucket too; the division is reached below the maximum.
unfoldable pub refill : TokenBucketRateLimiting → ℕ → RateLimiterState → Result RateLimiterState
refill r now s = bind (get_refill_interval r) (λ interval.
    if slt s.tokens r.max_tokens
    then bind (divide (sub64 now s.last_refilled_at) interval)
        (λ new. ok (add_tokens r.max_tokens interval now new s))
    else ok (record s { last_refilled_at = now }))
