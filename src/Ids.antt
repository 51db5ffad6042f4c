-- ===== src/Ids.antt =====
-- pkg/ids/ids.go: the ids of tasks, queues and schedules as texts. A text is the list of its bytes.
-- github.com/evrblk/yellowstone-common/encoding/base62, which the repository does not hold, is an
-- interface with what the package relies on.
pub mod Roundtrip
mod Witnesses
use moab.Base.{
  ℕ, zero, suc, ◌+◌, ◌*◌, ◌/◌, ◌%◌, ◌^◌, ◌<◌, ◌≡◌, ◌≢◌, Bool, true, false, List, [], ◌∷◌, ◌++◌,
  Option, none, some, ◌&&◌, ◌||◌, not, ◌==◌, leb, if◌then◌else◌, length, take, All,
}
use moab.Tasks.Types.{QueueId}
use moab.Queues.Types.{ScheduleId}

abbrev pub IsByte : ℕ → Type 0
IsByte b = b < 256

-- `[0-9a-zA-Z]`.
unfoldable pub is_alphanumeric : ℕ → Bool
is_alphanumeric c =
    (leb b'0' c && leb c b'9') || (leb b'a' c && leb c b'z') || (leb b'A' c && leb c b'Z')

-- base62.Encode and base62.DecodeString, which is `none` where it returns an error.
pub record Base62 : Type 0 where
  pub encode : List ℕ → List ℕ
  pub decode_string : List ℕ → Option (List ℕ)
  pub decode-encode : (bs : List ℕ) → All IsByte bs → decode_string (encode bs) ≡ some bs
  pub alphabet : (bs : List ℕ) → All (λ c. is_alphanumeric c ≡ true) (encode bs)
  pub encode_nonempty : (b : ℕ) (bs : List ℕ) → encode (b ∷ bs) ≢ []

unfoldable pub all_alphanumeric : List ℕ → Bool
unfolding is_alphanumeric
all_alphanumeric [] = true
all_alphanumeric (c ∷ cs) = is_alphanumeric c && all_alphanumeric cs

-- What follows a prefix, and `none` where the text does not begin with it.
unfoldable pub after_prefix : List ℕ → List ℕ → Option (List ℕ)
after_prefix [] s = some s
after_prefix (p ∷ ps) [] = none
after_prefix (p ∷ ps) (c ∷ cs) = let rest = after_prefix ps cs in if p == c then rest else none

unfoldable pub is_empty : List ℕ → Bool
is_empty [] = true
is_empty (_ ∷ _) = false

-- The tests of the three regular expressions, a prefix and one or more letters or digits, with
-- `strings.TrimPrefix`.
unfoldable pub match_id : List ℕ → List ℕ → Option (List ℕ)
unfolding all_alphanumeric is_empty
match_id prefix s = elim (after_prefix prefix s) [
  | none ↦ none
  | some rest ↦ if not (is_empty rest) && all_alphanumeric rest then some rest else none
]

abbrev pub drop : {A : Type 0} → ℕ → List A → List A
drop zero xs = xs
drop (suc n) [] = []
drop (suc n) (x ∷ xs) = drop n xs

-- binary.BigEndian.PutUint64 and Uint64.
unfoldable pub put_uint64 : ℕ → List ℕ
put_uint64 v =
    (v / 2 ^ 56 % 256)
    ∷ (v / 2 ^ 48 % 256)
    ∷ (v / 2 ^ 40 % 256)
    ∷ (v / 2 ^ 32 % 256)
    ∷ (v / 2 ^ 24 % 256)
    ∷ (v / 2 ^ 16 % 256)
    ∷ (v / 2 ^ 8 % 256)
    ∷ (v % 256)
    ∷ []

unfoldable pub read_uint64 : ℕ → List ℕ → ℕ
read_uint64 acc [] = acc
read_uint64 acc (b ∷ bs) = read_uint64 (acc * 256 + b) bs

unfoldable pub uint64 : List ℕ → ℕ
uint64 bs = read_uint64 0 (take 8 bs)

abbrev pub task_prefix : List ℕ
task_prefix = b't' ∷ b's' ∷ b'k' ∷ b'_' ∷ []

abbrev pub queue_prefix : List ℕ
queue_prefix = b'q' ∷ b'u' ∷ b'e' ∷ b'_' ∷ []

abbrev pub schedule_prefix : List ℕ
schedule_prefix = b's' ∷ b'c' ∷ b'h' ∷ b'd' ∷ b'l' ∷ b'_' ∷ []

-- `none` is `ErrInvalidId`.
module _ ⦃B : Base62⦄ where
  -- The bytes of a text of the right shape, if there are `n` of them.
  unfoldable pub decode_bytes : List ℕ → ℕ → List ℕ → Option (List ℕ)
  decode_bytes prefix n s = elim (match_id prefix s) [
    | none ↦ none
    | some rest ↦ elim (B.decode_string rest) [
      | none ↦ none
      | some bs ↦ if length bs == n then some bs else none
    ]
  ]

  unfoldable pub decode_task_id : List ℕ → Option ℕ
  decode_task_id s = elim (decode_bytes task_prefix 8 s) [
    | none ↦ none
    | some bs ↦ some (uint64 bs)
  ]

  unfoldable pub encode_task_id : ℕ → List ℕ
  encode_task_id id = task_prefix ++ B.encode (put_uint64 id)

  unfoldable pub decode_queue_id : List ℕ → Option QueueId
  decode_queue_id s = elim (decode_bytes queue_prefix 16 s) [
    | none ↦ none
    | some bs ↦ some (record { account_id = uint64 bs; queue_id = uint64 (drop 8 bs) })
  ]

  unfoldable pub encode_queue_id : QueueId → List ℕ
  encode_queue_id id = queue_prefix ++ B.encode (put_uint64 id.account_id ++ put_uint64 id.queue_id)

  unfoldable pub decode_schedule_id : List ℕ → Option ScheduleId
  decode_schedule_id s = elim (decode_bytes schedule_prefix 24 s) [
    | none ↦ none
    | some bs ↦ some (record {
      account_id = uint64 bs;
      queue_id = uint64 (drop 8 bs);
      schedule_id = uint64 (drop 16 bs);
    })
  ]

  unfoldable pub encode_schedule_id : ScheduleId → List ℕ
  encode_schedule_id id =
      schedule_prefix
      ++ B.encode (put_uint64 id.account_id ++ put_uint64 id.queue_id ++ put_uint64 id.schedule_id)
