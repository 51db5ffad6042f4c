-- ===== src/Tasks/RateLimiter/Refilling.antt =====
-- What the token bucket of `Dequeue` (pkg/tasks/core.go) holds after a refill, and the settings that
-- `getRefillInterval` cannot divide by.
use moab.Base.{
  ℕ, ap, sym, subst, ◌∙◌, ◌⊎◌, ◌+◌, ◌-◌, ◌*◌, ◌/◌, ◌≡◌, ◌≤◌, ◌<◌, ok, fail, Fault, arith,
  Bool-cases, inl, inr, true, false, ltb,
}
use native.Mathlib.Nat.{
  div-mul-le_self, lt-div-mul-add, div-le_self, le-div_iff_mul-le, div-eq_of_lt, zero-mul,
}
use moab.Base.Word.{half64, mod64, add64, mul64, slt-ltb, add64-add, sub64-sub, sdiv-div}
use moab.Tasks.Types.{TokenBucketRateLimiting, RateLimiterState}
use moab.Tasks.RateLimiter.{unit_length, divide, get_refill_interval, add_tokens, refill}

-- From `s` to `s'` at `now`, with a token every `interval` and room for `max`: the bucket does not
-- lose tokens and does not overflow; the time it is refilled up to moves forward and not past `now`;
-- and while it is not full, each token has cost one interval, and less than one is outstanding.
pub record Refills (max interval now : ℕ) (s s' : RateLimiterState) : Type 0 where
  pub kept : s.tokens ≤ s'.tokens
  pub capped : s'.tokens ≤ max
  pub forward : s.last_refilled_at ≤ s'.last_refilled_at
  pub not_ahead : s'.last_refilled_at ≤ now
  pub paid :
      s'.tokens < max → (s'.tokens - s.tokens) * interval ≡ s'.last_refilled_at - s.last_refilled_at
  pub prompt : s'.tokens < max → now < s'.last_refilled_at + interval

add_sub : (a b : ℕ) → a + b - a ≡ b
add_sub a b = omega arith

sub_self : (a : ℕ) → a - a ≡ 0
sub_self a = omega arith

zero_of : (a : ℕ) → a ≤ 0 → a ≡ 0
zero_of a h = omega arith

mul64-mul : (a b : ℕ) → a * b < mod64 → mul64 a b ≡ a * b
unfolding mul64
mul64-mul a b h = omega arith

ltb-cases : (a b : ℕ) → ((a < b) × (ltb a b ≡ true)) ⊎ ((b ≤ a) × (ltb a b ≡ false))
ltb-cases a b = elim (Bool-cases (ltb a b)) [
  | inl e ↦ inl (ground arith, e)
  | inr e ↦ inr (ground arith, e)
]

-- The arithmetic, with the number of new tokens and what they cost as numbers.
add_tokens-Refills :
    (max interval now new : ℕ) (s : RateLimiterState)
    → 0 < interval
    → max + now < half64
    → s.tokens < max
    → s.last_refilled_at ≤ now
    → new ≤ now - s.last_refilled_at
    → new * interval ≤ now - s.last_refilled_at
    → now - s.last_refilled_at < new * interval + interval
    → Refills max interval now s (add_tokens max interval now new s)
unfolding add_tokens
add_tokens-Refills max interval now new s pos small below past few cost close =
    let sum : add64 s.tokens new ≡ s.tokens + new = add64-add s.tokens new (omega arith) in
    let time : add64 s.last_refilled_at (mul64 new interval) ≡ s.last_refilled_at + new * interval =
      ap (add64 s.last_refilled_at) (mul64-mul new interval (omega arith))
      ∙ add64-add s.last_refilled_at (new * interval) (omega arith) in
    let full : Refills max interval now s (record { tokens = max; last_refilled_at = now }) =
      record {
        kept = omega arith;
        capped = omega arith;
        forward = past;
        not_ahead = omega arith;
        paid = λ h. absurd (omega arith);
        prompt = λ h. omega arith;
      } in
    let untouched : now - s.last_refilled_at < 0 * interval + interval
        → Refills max interval now s s =
      λ h. record {
        kept = omega arith;
        capped = omega arith;
        forward = omega arith;
        not_ahead = past;
        paid = λ _.
            ap (λ x. x * interval) (sub_self s.tokens)
            ∙ zero-mul interval
            ∙ sym (sub_self s.last_refilled_at);
        prompt = λ _. omega arith;
      } in
    let more : s.tokens + new ≤ max
        → Refills max interval now s (record {
          tokens = s.tokens + new;
          last_refilled_at = s.last_refilled_at + new * interval;
        }) =
      λ room. record {
        kept = omega arith;
        capped = room;
        forward = omega arith;
        not_ahead = omega arith;
        paid = λ h. ap (λ x. x * interval) (add_sub s.tokens new) ∙ omega arith;
        prompt = λ h. omega arith;
      } in
    rw
      (
        sum,
        time,
        slt-ltb 0 new (omega arith) (omega arith),
        slt-ltb max (s.tokens + new) (omega arith) (omega arith),
      )
      (elim (ltb-cases 0 new) [
        | inl (some_new, e) ↦ elim (ltb-cases max (s.tokens + new)) [
          | inl (over, e') ↦ rw (e, e') full
          | inr (room, e') ↦ rw (e, e') (more room)
        ]
        | inr (no_new, e) ↦ rw e (
            untouched (
              subst (λ x. now - s.last_refilled_at < x * interval + interval) (zero_of new no_new)
                close))
      ])

add_tokens_refill :
    (max interval now : ℕ) (s : RateLimiterState)
    → 0 < interval
    → max + now < half64
    → s.tokens < max
    → s.last_refilled_at ≤ now
    → Refills max interval now s
        (add_tokens max interval now ((now - s.last_refilled_at) / interval) s)
add_tokens_refill max interval now s pos small below past =
    let elapsed : ℕ = now - s.last_refilled_at in
    add_tokens-Refills max interval now (elapsed / interval) s pos small below past
      (div-le_self elapsed interval) (div-mul-le_self elapsed interval) (lt-div-mul-add pos)

interval_lem :
    (r : TokenBucketRateLimiting) (unit : ℕ)
    → unit_length r.interval_unit ≡ ok unit
    → r.interval * unit < half64
    → 0 < r.max_tokens
    → r.max_tokens < half64
    → get_refill_interval r ≡ ok (r.interval * unit / r.max_tokens)
unfolding get_refill_interval divide
interval_lem r unit known range some_tokens small =
    let product = mul64-mul r.interval unit (omega arith) in
    let quotient = sdiv-div (r.interval * unit) r.max_tokens range small in
    rw (known, product, quotient) (ground arith)

-- For an interval whose length in nanoseconds is below 2 ^ 63 and at least the number of tokens,
-- which is positive, and a bucket that holds no more than the maximum and was refilled no later
-- than `now`, with the maximum plus `now` below 2 ^ 63: a refill succeeds; the tokens do not
-- fall and do not pass the maximum; the time that the bucket is refilled up to does not move
-- back nor past `now`; and if the bucket is not full after it, each token gained has cost one
-- refill interval, and less than one interval is outstanding.
pub refill-Refills :
    (r : TokenBucketRateLimiting) (unit now : ℕ) (s : RateLimiterState)
    → unit_length r.interval_unit ≡ ok unit
    → r.interval * unit < half64
    → 0 < r.max_tokens
    → r.max_tokens ≤ r.interval * unit
    → r.max_tokens + now < half64
    → s.tokens ≤ r.max_tokens
    → s.last_refilled_at ≤ now
    → (s' : RateLimiterState) × (refill r now s ≡ ok s')
      × Refills r.max_tokens (r.interval * unit / r.max_tokens) now s s'
unfolding refill divide
refill-Refills r unit now s known range some_tokens fine small within past =
    let interval : ℕ = r.interval * unit / r.max_tokens in
    let step = interval_lem r unit known range some_tokens (omega arith) in
    let low : interval < half64 =
      let bound : interval ≤ r.interval * unit = div-le_self (r.interval * unit) r.max_tokens in
      omega arith in
    let pos : 0 < interval = (le-div_iff_mul-le some_tokens).1 (omega arith) in
    let elapsed = sub64-sub now s.last_refilled_at past (omega arith) in
    let quotient = sdiv-div (now - s.last_refilled_at) interval (omega arith) low in
    let room = slt-ltb s.tokens r.max_tokens (omega arith) (omega arith) in
    elim (ltb-cases s.tokens r.max_tokens) [
      | inl (below, e) ↦ (
        add_tokens r.max_tokens interval now ((now - s.last_refilled_at) / interval) s,
        rw (step, room, e, elapsed, quotient) (ground arith),
        add_tokens_refill r.max_tokens interval now s pos small below past,
      )
      | inr (full, e) ↦ (
        record s { last_refilled_at = now },
        rw (step, room, e),
        record {
          kept = omega arith;
          capped = within;
          forward = past;
          not_ahead = omega arith;
          paid = λ h. absurd (omega arith);
          prompt = λ h. absurd (omega arith);
        },
      )
    ]

-- A setting with more tokens than nanoseconds makes the refill of a bucket that is not full panic.
pub refill_panics :
    (r : TokenBucketRateLimiting) (unit now : ℕ) (s : RateLimiterState)
    → unit_length r.interval_unit ≡ ok unit
    → r.interval * unit < r.max_tokens
    → r.max_tokens < half64
    → s.tokens < r.max_tokens
    → refill r now s ≡ fail Fault.divide_by_zero
unfolding refill divide
refill_panics r unit now s known coarse small below =
    let step = interval_lem r unit known (omega arith) (omega arith) small in
    let room = slt-ltb s.tokens r.max_tokens (omega arith) small in
    rw (step, div-eq_of_lt coarse, room) (ground arith)
