-- ===== src/Ids/Witnesses.antt =====
-- An encoding that meets the interface of base62, two letters for each byte, and the round trip
-- with it.
use moab.Base.{
  ℕ, ◌+◌, ◌-◌, ◌*◌, ◌/◌, ◌%◌, ◌≡◌, ◌≢◌, refl, List, [], ◌∷◌, Option, none, some, true, All, arith,
}
use moab.Tasks.Types.{QueueId}
use moab.Queues.Types.{ScheduleId}
use moab.Ids.{
  IsByte, is_alphanumeric, Base62, decode_task_id, encode_task_id, decode_queue_id, encode_queue_id,
  decode_schedule_id, encode_schedule_id,
}
use moab.Ids.Roundtrip.{decode_id-encode}

abbrev letter : ℕ → ℕ
letter n = b'a' + n % 16

abbrev spell : List ℕ → List ℕ
spell [] = []
spell (b ∷ bs) = letter (b / 16) ∷ letter b ∷ spell bs

abbrev push : ℕ → Option (List ℕ) → Option (List ℕ)
push b none = none
push b (some bs) = some (b ∷ bs)

abbrev unspell : List ℕ → Option (List ℕ)
unspell [] = some []
unspell (c ∷ []) = none
unspell (c ∷ d ∷ cs) = push ((c - b'a') * 16 + (d - b'a')) (unspell cs)

unspell-spell : (bs : List ℕ) → All IsByte bs → unspell (spell bs) ≡ some bs
unspell-spell [] h = refl
unspell-spell (b ∷ bs) h =
    let same : (letter (b / 16) - b'a') * 16 + (letter b - b'a') ≡ b = omega (arith, h.0) in
    ground (arith, same, unspell-spell bs h.1)

letter-is_alphanumeric : (n : ℕ) → is_alphanumeric (letter n) ≡ true
unfolding is_alphanumeric
letter-is_alphanumeric n = ground arith

spell-is_alphanumeric : (bs : List ℕ) → All (λ c. is_alphanumeric c ≡ true) (spell bs)
spell-is_alphanumeric [] = tt
spell-is_alphanumeric (b ∷ bs) =
    (letter-is_alphanumeric (b / 16), (letter-is_alphanumeric b, spell-is_alphanumeric bs))

spell_nonempty : (b : ℕ) (bs : List ℕ) → spell (b ∷ bs) ≢ []
spell_nonempty b bs e = cc e

instance abbrev letters : Base62
letters = record {
  encode = spell;
  decode_string = unspell;
  decode-encode = unspell-spell;
  alphabet = spell-is_alphanumeric;
  encode_nonempty = spell_nonempty;
}

abbrev q7 : QueueId
q7 = record { account_id = 0; queue_id = 7 }

abbrev s5 : ScheduleId
s5 = record { account_id = 0; queue_id = 7; schedule_id = 300 }

decode_id-encode_example :
    (decode_task_id (encode_task_id 258) ≡ some 258)
    × (decode_queue_id (encode_queue_id q7) ≡ some q7)
    × (decode_schedule_id (encode_schedule_id s5) ≡ some s5)
decode_id-encode_example = decode_id-encode 258 q7 s5 (omega arith) (omega arith) (omega arith)
