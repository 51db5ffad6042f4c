-- ===== src/Validation/Witnesses.antt =====
-- The validators on concrete messages, and the theorems on them.
use mathlib.Core.Logic.{◌↔◌}
use moab.Base.Word.{bias64, slt, mod64}
use moab.Tasks.RateLimiter.{is_enabled, rate_limiting_enabled, get_refill_interval}
use moab.Validation.{
  outside, validate_queue_id, validate_keepalive_timeout_in_seconds, unless_zero,
  validate_intervals, validate_retry_strategy, validate_rate_limiting, validate_dequeuing_settings,
  validate_dead_letter_queue_config, validate_dequeue_request,
}
use moab.Base.{ℕ, ◌≡◌, ◌≤◌, ◌<◌, refl, false, [], ◌∷◌, none, some, ok, arith, All}
use moab.Tasks.Types.{RetryStrategy, seconds, minutes, TokenBucketRateLimiting, DequeuingSettings}
use moab.Validation.Soundness.{validate_retry_strategy_lem, valid_settings_refill}

abbrev strategy : RetryStrategy
strategy = record { retry_intervals_in_seconds = 5 ∷ 900 ∷ [] }

strategy_words : All (λ x. x < mod64) strategy.retry_intervals_in_seconds
strategy_words = (omega arith, (omega arith, tt))

strategy_valid : validate_retry_strategy (some strategy) ≡ none
unfolding bias64 slt outside validate_intervals validate_retry_strategy
strategy_valid = refl

validate_retry_strategy_lem_example :
    (validate_retry_strategy (some strategy) ≡ none)
    ↔ ((2 ≤ 21) × All (λ x. x ≤ 900) (5 ∷ 900 ∷ []))
validate_retry_strategy_lem_example = validate_retry_strategy_lem strategy strategy_words

abbrev per_minute : TokenBucketRateLimiting
per_minute = record { max_tokens = 6; interval = 1; interval_unit = minutes }

abbrev limiting : DequeuingSettings
limiting = record {
  max_in_progress_tasks = 0;
  rate_limiting = some per_minute;
  dequeuing_paused = false;
}

limiting_valid : validate_dequeuing_settings (some limiting) ≡ none
unfolding bias64 slt validate_rate_limiting validate_dequeuing_settings
limiting_valid = refl

limiting_enabled : rate_limiting_enabled (some limiting) ≡ some per_minute
unfolding bias64 slt is_enabled rate_limiting_enabled
limiting_enabled = refl

valid_settings_refill_example : (interval : ℕ) × (get_refill_interval per_minute ≡ ok interval)
valid_settings_refill_example =
    valid_settings_refill limiting per_minute limiting_valid limiting_enabled

-- Settings that make the refill interval zero are valid, as is the request that carries them.
abbrev coarse : DequeuingSettings
coarse = record {
  max_in_progress_tasks = 0;
  rate_limiting =
      some (record { max_tokens = 2_000_000_000; interval = 1; interval_unit = seconds });
  dequeuing_paused = false;
}

coarse_valid :
    validate_dequeue_request (record {
      queue_id = record { account_id = 0; queue_id = 7 };
      dequeuing_settings = some coarse;
      dequeue_limit = 5;
      dead_letter_queue_config = none;
      keepalive_timeout_in_seconds = 30;
    })
    ≡ none
unfolding bias64 slt outside validate_queue_id validate_keepalive_timeout_in_seconds unless_zero
    validate_rate_limiting validate_dequeuing_settings validate_dead_letter_queue_config
    validate_dequeue_request
coarse_valid = refl
