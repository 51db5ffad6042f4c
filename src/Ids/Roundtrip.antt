-- ===== src/Ids/Roundtrip.antt =====
-- An id that pkg/ids/ids.go has encoded is decoded to itself.
use moab.Base.{
  ℕ, suc, ◌<◌, ◌≡◌, ◌≢◌, refl, ap, List, [], ◌∷◌, ◌++◌, some, true, false, All, All-append, length,
  arith,
}
use moab.Base.Word.{mod64}
use moab.Tasks.Types.{QueueId}
use moab.Queues.Types.{ScheduleId}
use moab.Ids.{
  IsByte, is_alphanumeric, Base62, all_alphanumeric, after_prefix, is_empty, match_id, put_uint64,
  uint64, read_uint64, task_prefix, queue_prefix, schedule_prefix, decode_bytes, decode_task_id,
  encode_task_id, decode_queue_id, encode_queue_id, decode_schedule_id, encode_schedule_id,
}

-- The two halves of binary.BigEndian, whatever follows the eight bytes.
uint64-put : (v : ℕ) (rest : List ℕ) → v < mod64 → uint64 (put_uint64 v ++ rest) ≡ v
unfolding uint64 read_uint64 put_uint64
uint64-put v rest h = omega arith

put_uint64-IsByte : (v : ℕ) → All IsByte (put_uint64 v)
unfolding put_uint64
put_uint64-IsByte v = omega arith

all_alphanumeric-true :
    (cs : List ℕ) → All (λ c. is_alphanumeric c ≡ true) cs → all_alphanumeric cs ≡ true
unfolding all_alphanumeric
all_alphanumeric-true [] h = refl
all_alphanumeric-true (c ∷ cs) h = ground (arith, all_alphanumeric-true cs h.1, h.0)

after_prefix-append : (ps s : List ℕ) → after_prefix ps (ps ++ s) ≡ some s
unfolding after_prefix
after_prefix-append [] s = refl
after_prefix-append (p ∷ ps) s = ground (arith, after_prefix-append ps s)

is_empty-false : (s : List ℕ) → s ≢ [] → is_empty s ≡ false
unfolding is_empty
is_empty-false [] h = absurd (h refl)
is_empty-false (c ∷ cs) h = refl

module _ ⦃B : Base62⦄ where
  decode_bytes-encode :
      (prefix : List ℕ) (n : ℕ) (bs : List ℕ)
      → All IsByte bs
      → length bs ≡ suc n
      → decode_bytes prefix (suc n) (prefix ++ B.encode bs) ≡ some bs
  unfolding decode_bytes match_id
  decode_bytes-encode prefix n [] bytes size = absurd (omega arith)
  decode_bytes-encode prefix n (b ∷ bs) bytes size = ground (
    arith,
    after_prefix-append prefix (B.encode (b ∷ bs)),
    is_empty-false (B.encode (b ∷ bs)) (B.encode_nonempty b bs),
    all_alphanumeric-true (B.encode (b ∷ bs)) (B.alphabet (b ∷ bs)),
    B.decode-encode (b ∷ bs) bytes,
    size,
  )

  decode_task_id-encode : (t : ℕ) → t < mod64 → decode_task_id (encode_task_id t) ≡ some t
  unfolding decode_task_id encode_task_id put_uint64
  decode_task_id-encode t h =
      rw
        (
          decode_bytes-encode task_prefix 7 (put_uint64 t) (put_uint64-IsByte t) refl,
          decode_task_id,
        )
        (ap some (uint64-put t [] h))

  decode_queue_id-encode :
      (q : QueueId)
      → q.account_id < mod64
      → q.queue_id < mod64
      → decode_queue_id (encode_queue_id q) ≡ some q
  unfolding decode_queue_id encode_queue_id put_uint64
  decode_queue_id-encode q ha hq =
      let a = put_uint64 q.account_id in
      let n = put_uint64 q.queue_id in
      let bytes =
        All-append IsByte a n (put_uint64-IsByte q.account_id) (put_uint64-IsByte q.queue_id) in
      let first = uint64-put q.account_id n ha in
      let second = uint64-put q.queue_id [] hq in
      rw (decode_bytes-encode queue_prefix 15 (a ++ n) bytes refl, decode_queue_id)
        λ i. some (record { account_id = first i; queue_id = second i })

  decode_schedule_id-encode :
      (s : ScheduleId)
      → s.account_id < mod64
      → s.queue_id < mod64
      → s.schedule_id < mod64
      → decode_schedule_id (encode_schedule_id s) ≡ some s
  unfolding decode_schedule_id encode_schedule_id put_uint64
  decode_schedule_id-encode s ha hq hs =
      let a = put_uint64 s.account_id in
      let n = put_uint64 s.queue_id in
      let m = put_uint64 s.schedule_id in
      let tail =
        All-append IsByte n m (put_uint64-IsByte s.queue_id) (put_uint64-IsByte s.schedule_id) in
      let bytes = All-append IsByte a (n ++ m) (put_uint64-IsByte s.account_id) tail in
      let first = uint64-put s.account_id (n ++ m) ha in
      let second = uint64-put s.queue_id m hq in
      let third = uint64-put s.schedule_id [] hs in
      rw (decode_bytes-encode schedule_prefix 23 (a ++ n ++ m) bytes refl, decode_schedule_id)
        λ i. some (record { account_id = first i; queue_id = second i; schedule_id = third i })

  -- The text of a task id, a queue id or a schedule id, whose numbers are below 2 ^ 64, decodes
  -- to the id.
  pub decode_id-encode :
      (t : ℕ) (q : QueueId) (s : ScheduleId)
      → t < mod64
      → (q.account_id < mod64) × (q.queue_id < mod64)
      → (s.account_id < mod64) × (s.queue_id < mod64) × (s.schedule_id < mod64)
      → (decode_task_id (encode_task_id t) ≡ some t)
        × (decode_queue_id (encode_queue_id q) ≡ some q)
        × (decode_schedule_id (encode_schedule_id s) ≡ some s)
  decode_id-encode t q s ht hq hs = (
    decode_task_id-encode t ht,
    decode_queue_id-encode q hq.0 hq.1,
    decode_schedule_id-encode s hs.0 hs.1 hs.2,
  )
