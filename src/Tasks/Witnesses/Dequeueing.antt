-- ===== src/Tasks/Witnesses/Dequeueing.antt =====
-- Runs of `Dequeue` on the sample store, and the theorems on them.
use moab.Honey.ListTable.{list_table, find, drop_key, put, rows_under, first_page}
use moab.Honey.ListIndex.{list_index, holds, discard, insert_sorted, sorted_items, between}
use moab.Base.{
  ℕ_discrete, String-discrete, decide_text, ◌≡◌, refl, false, List, none, some, Result, ok, fail,
  arith, ◌*◌, ◌/◌, Fault,
}
use moab.Tasks.Types.{
  QueueId-discrete, Task, TaskState, DequeuingSettings, TokenBucketRateLimiting, RateLimiterState,
  DequeueRequest, seconds,
}
use moab.Tasks.Samples.{
  TaskId-discrete, TextKey-discrete, Item-discrete, TaskItem-discrete, Unit-discrete, empty_db,
  sample, q1, task_of, request, storing, queueing, expiring, counting, at_state,
}
use moab.Base.Word.{add64, sub64, bias64, slt}
use moab.Tasks.Monad.{Db}
use moab.Tasks.Access.{no_counters}
use moab.Tasks.Dequeue.{dequeue_tasks_before_time, dequeue}
use moab.Tasks.RateLimiter.{unit_length, is_enabled, rate_limiting_enabled, refill}
use moab.Tasks.Dequeue.Limiter.{bucket_of, dequeue_panics}
use moab.Tasks.RateLimiter.Refilling.{Refills, refill-Refills}

-- Two tasks are due, one of which has expired.
abbrev fresh : Task
fresh = task_of 1 TaskState.enqueued "" 11

abbrev stale : Task
stale = record (task_of 2 TaskState.enqueued "" 12) { expires_at = 15 }

abbrev busy : Db
busy =
    counting (record no_counters { enqueued_tasks_count = 2 })
      (expiring fresh
        (expiring stale (queueing fresh (queueing stale (storing fresh (storing stale empty_db))))))

abbrev settings : DequeuingSettings
settings = record { max_in_progress_tasks = 3; rate_limiting = none; dequeuing_paused = false }

abbrev pass : Result (List Task × Db)
pass = dequeue_tasks_before_time q1 20 5 (some settings) 30 busy

-- A bucket of ten tokens a second.
abbrev ten : TokenBucketRateLimiting
ten = record { max_tokens = 10; interval = 1; interval_unit = seconds }

abbrev limited : DequeueRequest
limited = record (request 5) {
  dequeuing_settings = some (record settings { rate_limiting = some ten });
}

abbrev full : RateLimiterState
full = record { tokens = 10; last_refilled_at = 20 }

abbrev after_limited : Db
after_limited = (dequeue limited 20 busy).1

-- More tokens than there are nanoseconds in the interval, and a bucket that is not full.
abbrev coarse : TokenBucketRateLimiting
coarse = record { max_tokens = 2_000_000_000; interval = 1; interval_unit = seconds }

abbrev flooded : DequeueRequest
flooded = record (request 5) {
  dequeuing_settings = some (record settings { rate_limiting = some coarse });
}

abbrev drained : Db
drained = record busy {
  rate_limiters =
      sample.rate_limiters.set empty_db.rate_limiters q1
        (record { tokens = 5; last_refilled_at = 1 });
}

drained_live : sample.purge_gc_records.get drained.purge_gc_records q1 ≡ none
unfolding list_table find drop_key put rows_under first_page list_index holds discard insert_sorted
    sorted_items between ℕ_discrete String-discrete decide_text QueueId-discrete TaskId-discrete
    TextKey-discrete Item-discrete TaskItem-discrete Unit-discrete empty_db add64 sub64
drained_live = refl

drained_bucket : (bucket_of drained q1 coarse 20).tokens ≡ 5
unfolding list_table find drop_key put rows_under first_page list_index holds discard insert_sorted
    sorted_items between ℕ_discrete String-discrete decide_text QueueId-discrete TaskId-discrete
    TextKey-discrete Item-discrete TaskItem-discrete Unit-discrete empty_db add64 sub64
drained_bucket = refl

flooded_enabled : rate_limiting_enabled flooded.dequeuing_settings ≡ some coarse
unfolding bias64 slt is_enabled rate_limiting_enabled
flooded_enabled = refl

seconds_known : unit_length seconds ≡ ok 1_000_000_000
unfolding unit_length
seconds_known = refl

dequeue_panics_example : dequeue flooded 20 drained ≡ (fail Fault.divide_by_zero, drained)
dequeue_panics_example =
    dequeue_panics flooded coarse 1_000_000_000 20 drained drained_live flooded_enabled
      seconds_known (omega arith) (omega arith) (omega (arith, drained_bucket))

refill-Refills_example :
    (s' : RateLimiterState) × (refill ten 1_000_000_020
        (record { tokens = 3; last_refilled_at = 20 })
      ≡ ok s')
    × Refills 10
        (1 * 1_000_000_000 / 10)
        1_000_000_020
        (record { tokens = 3; last_refilled_at = 20 })
        s'
refill-Refills_example =
    refill-Refills ten 1_000_000_000 1_000_000_020 (record { tokens = 3; last_refilled_at = 20 })
      seconds_known (omega arith) (omega arith) (omega arith) (omega arith) (omega arith)
      (omega arith)

-- A task that is due at 11, behind a cursor at 40.
abbrev missed : Db
missed =
    at_state
      (record { task_id_sequence = 2; last_visited_enqueued = 40; last_visited_in_progress = 40 })
      (queueing fresh (storing fresh empty_db))
