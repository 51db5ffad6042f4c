-- ===== src/Tasks/Dequeue/Limiter.antt =====
-- `Dequeue` of pkg/tasks/core.go as a whole: the request's limit, and the tokens that it spends.
use mathlib.Core.Option
use moab.Base.{ℕ, ◌≡◌, ◌<◌, ◌∙◌, List, length, Option, none, some, ok, fail, Fault, ◌*◌}
use moab.Base.Word.{half64, sign_extend}
use moab.Tasks.Types.{QueueId, Task, DequeueRequest, RateLimiterState, TokenBucketRateLimiting}
use moab.Tasks.Monad.{Stores, Db}
use moab.Tasks.Access.{rate_limiters_get}
use moab.Tasks.RateLimiter.{rate_limiting_enabled, unit_length}
use moab.Tasks.RateLimiter.Refilling.{refill_panics}
use moab.Tasks.Dequeue.{
  refill_bucket, cap_by_tokens, spend_tokens, dequeue_tasks_before_time, dequeue_unpurged,
  unless_purged, dequeue,
}
use moab.Tasks.Dequeue.Answers.{unless_purged-live}
use moab.Base.Transaction.{transact-fail}

module _ ⦃S : Stores⦄ where
  -- The bucket of a queue, as `GetOrDefault` reads it.
  abbrev pub bucket_of : Db → QueueId → TokenBucketRateLimiting → ℕ → RateLimiterState
  bucket_of db q r now =
      Option.get_or (S.rate_limiters.get db.rate_limiters q)
        (record { tokens = r.max_tokens; last_refilled_at = now })

  -- The steps of a `Dequeue` that answers.
  record Steps (req : DequeueRequest) (now : ℕ) (db : Db) (ts : List Task) (after : Db)
      (bucket : Option RateLimiterState) (mid last : Db) : Type 0 where
    pub refilled :
        refill_bucket req.queue_id (rate_limiting_enabled req.dequeuing_settings) now db
        ≡ ok (bucket, mid)
    pub leases : Db
    pub passed :
        dequeue_tasks_before_time req.queue_id now
          (cap_by_tokens bucket (sign_extend req.dequeue_limit))
          req.dequeuing_settings
          req.keepalive_timeout_in_seconds
          leases
        ≡ ok (ts, last)
    pub spent : spend_tokens req.queue_id bucket (length ts) last ≡ ok (tt, after)

  -- If the queue is not purged, rate limiting is enabled with an interval of fewer nanoseconds
  -- than tokens, which are fewer than 2 ^ 63, and the bucket is not full, `Dequeue` ends in a
  -- division by zero and changes nothing.
  pub dequeue_panics :
      (req : DequeueRequest) (r : TokenBucketRateLimiting) (unit now : ℕ) (db : Db)
      → S.purge_gc_records.get db.purge_gc_records req.queue_id ≡ none
      → rate_limiting_enabled req.dequeuing_settings ≡ some r
      → unit_length r.interval_unit ≡ ok unit
      → r.interval * unit < r.max_tokens
      → r.max_tokens < half64
      → (bucket_of db req.queue_id r now).tokens < r.max_tokens
      → dequeue req now db ≡ (fail Fault.divide_by_zero, db)
  unfolding dequeue dequeue_unpurged refill_bucket rate_limiters_get
  dequeue_panics req r unit now db live enabled known coarse small below =
      transact-fail (unless_purged req.queue_id (dequeue_unpurged req now)) db (
        unless_purged-live req.queue_id (dequeue_unpurged req now) db live
        ∙ rw (
          enabled,
          refill_panics r unit now (bucket_of db req.queue_id r now) known coarse small below,
        ))
