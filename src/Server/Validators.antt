-- ===== src/Server/Validators.antt =====
-- pkg/server/v0/validators.go: the checks of the fields of a request, before its handler runs.
-- `none` is Go's nil error. An error names the check; `at` is the number of the entry.
pub mod Requests
pub mod Agreement
mod Witnesses
use moab.Base.{
  ℕ, suc, ◌*◌, Bool, true, false, String, List, [], ◌∷◌, Option, none, some, ◌||◌, ◌&&◌, not, ◌==◌,
  length, ltb, leb, is_set,
}
use Prim.Native.Char.{Char, code}
use Prim.Native.String.{len}
use moab.Base.Word.{slt, sign_extend}
use moab.Tasks.Types.{
  RetryStrategy, IntervalUnit, unrecognized, seconds, minutes, hours, TokenBucketRateLimiting,
  DequeuingSettings, DeadLetterQueueConfig,
}
use moab.Validation.{◌then◌, check}
use moab.Ids.{Base62, decode_task_id}

pub data Invalid : Type 0 where
  name_length name_pattern description_length dedupe_key_length token_length : Invalid
  token_encoding limit_range entries_empty too_many_entries retries_length : Invalid
  retry_range expires_at_negative scheduled_at_negative payload_size : Invalid
  overwrite_without_key overwrite_unrecognized batch_size keepalive_range : Invalid
  expires_range task_id task_ids_count task_id_duplicated attempt status : Invalid
  max_in_progress_negative interval_negative max_tokens_negative : Invalid
  interval_unit_unrecognized max_size_negative retention_range : Invalid
  expected_version cron timezone : Invalid
  at : ℕ → Invalid → Invalid

-- An error of an entry, under its number.
abbrev pub at_entry : ℕ → Option Invalid → Option Invalid
at_entry i none = none
at_entry i (some v) = some (Invalid.at i v)

-- `nameRegex`.
unfoldable pub is_name_char : ℕ → Bool
is_name_char c =
    (c == b'-')
    || (c == b'_')
    || (leb b'0' c && leb c b'9')
    || (leb b'a' c && leb c b'z')
    || (leb b'A' c && leb c b'Z')

unfoldable pub matches_name : String → Bool
unfolding is_name_char
matches_name String.[] = true
matches_name (String.◌∷◌ c s) = is_name_char (code c) && matches_name s

-- `validateString` with the bounds of a name.
unfoldable pub validate_name : String → Option Invalid
validate_name value =
    check (ltb 128 (len value) || ltb (len value) 1) Invalid.name_length
    then check (not (matches_name value)) Invalid.name_pattern

unfoldable pub validate_description : String → Option Invalid
validate_description value = check (ltb 1024 (len value)) Invalid.description_length

unfoldable pub validate_dedupe_key : String → Option Invalid
validate_dedupe_key value = check (ltb 256 (len value)) Invalid.dedupe_key_length

unfoldable pub validate_payload : List ℕ → Option Invalid
validate_payload value = check (ltb (64 * 1024) (length value)) Invalid.payload_size

-- Outside of two bounds, as int64.
unfoldable pub is_outside : ℕ → ℕ → ℕ → Bool
is_outside lo hi value = slt value lo || slt hi value

unfoldable pub validate_keepalive_timeout : ℕ → Option Invalid
validate_keepalive_timeout value = check (is_outside 5 60 value) Invalid.keepalive_range

unfoldable pub validate_expires_in : ℕ → Option Invalid
validate_expires_in value = check (is_outside 60 (14 * 86_400) value) Invalid.expires_range

-- `if value != 0`.
unfoldable pub if_set : (ℕ → Option Invalid) → ℕ → Option Invalid
if_set validate value = elim (value == 0) [ true ↦ none | false ↦ validate value ]

unfoldable pub validate_retry_intervals : ℕ → List ℕ → Option Invalid
validate_retry_intervals i [] = none
validate_retry_intervals i (x ∷ xs) =
    check (is_outside 0 (60 * 15) x) (Invalid.at i Invalid.retry_range)
    then validate_retry_intervals (suc i) xs

unfoldable pub validate_retries : Option RetryStrategy → Option Invalid
validate_retries none = none
validate_retries (some s) =
    check (ltb 21 (length s.retry_intervals_in_seconds)) Invalid.retries_length
    then validate_retry_intervals 0 s.retry_intervals_in_seconds

abbrev pub validate_unit : IntervalUnit → Option Invalid
validate_unit seconds = none
validate_unit minutes = none
validate_unit hours = none
validate_unit unrecognized = some Invalid.interval_unit_unrecognized

unfoldable pub validate_bucket : Option TokenBucketRateLimiting → Option Invalid
validate_bucket none = none
validate_bucket (some r) =
    check (slt r.interval 0) Invalid.interval_negative
    then check (slt r.max_tokens 0) Invalid.max_tokens_negative
    then validate_unit r.interval_unit

unfoldable pub validate_dequeuing : Option DequeuingSettings → Option Invalid
validate_dequeuing none = none
validate_dequeuing (some s) =
    check (slt s.max_in_progress_tasks 0) Invalid.max_in_progress_negative
    then validate_bucket s.rate_limiting

unfoldable pub validate_dead_letters : Option DeadLetterQueueConfig → Option Invalid
validate_dead_letters none = none
validate_dead_letters (some c) =
    check (slt c.max_size 0) Invalid.max_size_negative
    then check (is_outside 60 (14 * 86_400) c.retention_period_in_seconds) Invalid.retention_range

-- `validateLimit`, of an int32.
unfoldable pub validate_limit : ℕ → Option Invalid
validate_limit value =
    check (slt (sign_extend value) 0 || slt 250 (sign_extend value)) Invalid.limit_range

-- `base64.StdEncoding` accepts the text.
module _ (is_base64 : String → Bool) where
  unfoldable pub validate_pagination_token : String → Option Invalid
  validate_pagination_token value =
      check (ltb 1024 (len value)) Invalid.token_length
      then check (not (is_base64 value)) Invalid.token_encoding

-- `gronx.New().IsValid`, or `time.LoadLocation`, accepts the text.
module _ (is_valid_cron : String → Bool) where
  unfoldable pub validate_cron : String → Option Invalid
  validate_cron value = check (not (is_valid_cron value)) Invalid.cron

module _ (is_valid_timezone : String → Bool) where
  unfoldable pub validate_timezone : String → Option Invalid
  validate_timezone value =
      check (not (is_set value)) Invalid.timezone
      then check (not (is_valid_timezone value)) Invalid.timezone

module _ ⦃B : Base62⦄ where
  unfoldable pub validate_task_id_text : List ℕ → Option Invalid
  validate_task_id_text value = elim (decode_task_id value) [
    | none ↦ some Invalid.task_id
    | some _ ↦ none
  ]
