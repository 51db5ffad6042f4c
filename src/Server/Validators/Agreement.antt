-- ===== src/Server/Validators/Agreement.antt =====
-- The validators of pkg/server/v0/validators.go against those of pkg/corepb/validators.go, to which
-- the handlers pass a request on.
use moab.Base.{
  ℕ, suc, ◌≡◌, ◌≢◌, refl, String, List, [], ◌∷◌, Option, none, some, Bool, arith, ◌==◌, Bool-cases,
  inl, inr,
}
use moab.Base.Word.{slt}
use moab.Tasks.Types.{
  RetryStrategy, DequeuingSettings, DeadLetterQueueConfig, TokenBucketRateLimiting, IntervalUnit,
}
use moab.Queues.Types.{
  CreateQueueRequest, UpdateQueueRequest, CreateScheduleRequest, UpdateScheduleRequest,
}
use moab.Validation.{
  Violation, ◌then◌, check, outside, unless_zero, validate_queue_id, validate_expires_in_seconds,
  validate_keepalive_timeout_in_seconds, validate_intervals, validate_retry_strategy,
  validate_rate_limiting, validate_dequeuing_settings, validate_dead_letter_queue_config,
  validate_interval_unit,
}
use moab.Validation.Messages.{
  validate_create_queue_request, validate_update_queue_request, validate_create_schedule_request,
  validate_update_schedule_request,
}
use moab.Server.Validators.{
  Invalid, validate_payload, is_outside, validate_keepalive_timeout, validate_expires_in, if_set,
  validate_retry_intervals, validate_retries, validate_unit, validate_bucket, validate_dequeuing,
  validate_dead_letters, validate_cron, validate_timezone,
}
use moab.Server.Validators.Requests.{
  validate_create_queue, validate_update_queue, validate_create_schedule, validate_update_schedule,
}

-- Two checks that both pass.
then-none : {E : Type 0} (a b : Option E) → (a then b) ≡ none → (a ≡ none) × (b ≡ none)
then-none none b e = (refl, e)
then-none (some v) b e = absurd (cc e)

intervals_agree :
    (i j : ℕ) (xs : List ℕ) → validate_retry_intervals i xs ≡ none → validate_intervals j xs ≡ none
unfolding validate_retry_intervals validate_intervals is_outside outside
intervals_agree i j [] e = refl
intervals_agree i j (x ∷ xs) e =
    let (first, rest) = then-none _ (validate_retry_intervals (suc i) xs) e in
    let others = intervals_agree (suc i) (suc j) xs rest in ground (arith, first, others)

retries_agree :
    (s : Option RetryStrategy) → validate_retries s ≡ none → validate_retry_strategy s ≡ none
unfolding validate_retries validate_retry_strategy
retries_agree none e = refl
retries_agree (some s) e =
    let (first, rest) = then-none _ (validate_retry_intervals 0 s.retry_intervals_in_seconds) e in
    let others = intervals_agree 0 0 s.retry_intervals_in_seconds rest in
    ground (arith, first, others)

unit_agrees : (u : IntervalUnit) → validate_unit u ≡ none → validate_interval_unit u ≡ none
unit_agrees IntervalUnit.seconds e = refl
unit_agrees IntervalUnit.minutes e = refl
unit_agrees IntervalUnit.hours e = refl
unit_agrees IntervalUnit.unrecognized e = absurd (cc e)

bucket_agrees :
    (b : Option TokenBucketRateLimiting)
    → validate_bucket b ≡ none
    → validate_rate_limiting b ≡ none
unfolding validate_bucket validate_rate_limiting
bucket_agrees none e = refl
bucket_agrees (some r) e =
    let (interval, rest) = then-none (check (slt r.interval 0) Invalid.interval_negative) _ e in
    let (tokens, unit) =
      then-none (check (slt r.max_tokens 0) Invalid.max_tokens_negative)
        (validate_unit r.interval_unit) rest in
    ground (arith, interval, tokens, unit_agrees r.interval_unit unit)

dequeuing_agrees :
    (s : Option DequeuingSettings)
    → validate_dequeuing s ≡ none
    → validate_dequeuing_settings s ≡ none
unfolding validate_dequeuing validate_dequeuing_settings
dequeuing_agrees none e = refl
dequeuing_agrees (some s) e =
    let (first, rest) = then-none _ (validate_bucket s.rate_limiting) e in
    ground (arith, first, bucket_agrees s.rate_limiting rest)

dead_letters_agree :
    (c : Option DeadLetterQueueConfig)
    → validate_dead_letters c ≡ none
    → validate_dead_letter_queue_config c ≡ none
unfolding validate_dead_letters validate_dead_letter_queue_config is_outside outside
dead_letters_agree none e = refl
dead_letters_agree (some c) e = ground (arith, e)

keepalive_agrees :
    (v : ℕ) → validate_keepalive_timeout v ≡ none → validate_keepalive_timeout_in_seconds v ≡ none
unfolding validate_keepalive_timeout validate_keepalive_timeout_in_seconds is_outside outside
keepalive_agrees v e = ground (arith, e)

expires_agrees : (v : ℕ) → validate_expires_in v ≡ none → validate_expires_in_seconds v ≡ none
unfolding validate_expires_in validate_expires_in_seconds is_outside outside
expires_agrees v e = ground (arith, e)

own_expires_agrees :
    (v : ℕ) → if_set validate_expires_in v ≡ none → unless_zero validate_expires_in_seconds v ≡ none
unfolding if_set unless_zero
own_expires_agrees v e = elim (Bool-cases (v == 0)) [
  | inl yes_zero ↦ ground (arith, yes_zero)
  | inr no_zero ↦ ground (arith, no_zero, expires_agrees v (ground (arith, no_zero, e)))
]

-- The requests that change queues and schedules.
pub data Request : Type 0 where
  queue_creation : CreateQueueRequest → Request
  queue_update : UpdateQueueRequest → Request
  schedule_creation : CreateScheduleRequest → Request
  schedule_update : UpdateScheduleRequest → Request

-- The id that is drawn for a new queue is not 0.
abbrev pub HasId : Request → Type 0
HasId (queue_creation r) = r.queue_id.queue_id ≢ 0
HasId _ = Unit

module _ (is_valid_cron is_valid_timezone : String → Bool) where
  abbrev pub validate_at_server : Request → Option Invalid
  validate_at_server (queue_creation r) = validate_create_queue r
  validate_at_server (queue_update r) = validate_update_queue r
  validate_at_server (schedule_creation r) =
      validate_create_schedule is_valid_cron is_valid_timezone r
  validate_at_server (schedule_update r) =
      validate_update_schedule is_valid_cron is_valid_timezone r

  abbrev pub validate_at_core : Request → Option Violation
  validate_at_core (queue_creation r) = validate_create_queue_request r
  validate_at_core (queue_update r) = validate_update_queue_request r
  validate_at_core (schedule_creation r) =
      validate_create_schedule_request is_valid_cron is_valid_timezone r
  validate_at_core (schedule_update r) =
      validate_update_schedule_request is_valid_cron is_valid_timezone r

  -- A request to create or update a queue or a schedule that passes the validators of the server
  -- passes those of the queues core, under any accepted cron expressions and time zones. The id
  -- that is drawn for a new queue is not 0.
  pub server_valid_is_core_valid :
      (r : Request) → HasId r → validate_at_server r ≡ none → validate_at_core r ≡ none
  unfolding validate_create_queue validate_create_queue_request validate_update_queue
      validate_update_queue_request validate_create_schedule validate_create_schedule_request
      validate_update_schedule validate_update_schedule_request validate_queue_id validate_cron
      validate_timezone validate_payload
  server_valid_is_core_valid (queue_creation r) id e = ground (
    arith,
    e,
    retries_agree r.retry_strategy,
    dequeuing_agrees r.dequeuing_settings,
    dead_letters_agree r.dead_letter_queue_config,
    keepalive_agrees r.keepalive_timeout_in_seconds,
    expires_agrees r.expires_in_seconds,
    id,
  )
  server_valid_is_core_valid (queue_update r) id e = ground (
    arith,
    e,
    retries_agree r.retry_strategy,
    dequeuing_agrees r.dequeuing_settings,
    dead_letters_agree r.dead_letter_queue_config,
    keepalive_agrees r.keepalive_timeout_in_seconds,
    expires_agrees r.expires_in_seconds,
  )
  server_valid_is_core_valid (schedule_creation r) id e =
      ground (arith, e, retries_agree r.retry_strategy, own_expires_agrees r.expires_in_seconds)
  server_valid_is_core_valid (schedule_update r) id e =
      ground (arith, e, retries_agree r.retry_strategy, own_expires_agrees r.expires_in_seconds)
