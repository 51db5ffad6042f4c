-- ===== src/Tasks/Types.antt =====
-- The messages of pkg/corepb/tasks.proto, common.proto and queues.proto that the core stores and
-- receives. Times and counts are the bit patterns of an int64, `attempts` that of an int32.
use moab.Base.{ℕ, Bool, true, false, String, List, Option, ℕ_discrete}

pub record QueueId : Type 0 where
  pub account_id : ℕ
  pub queue_id : ℕ

unfoldable pub QueueId-discrete : Discrete QueueId
unfolding ℕ_discrete
QueueId-discrete = hlevel ℕ_discrete

pub record TaskId : Type 0 where
  pub account_id : ℕ
  pub queue_id : ℕ
  pub task_id : ℕ

pub data TaskState : Type 0 where
  invalid enqueued in_progress dead : TaskState

pub record RetryStrategy : Type 0 where
  pub retry_intervals_in_seconds : List ℕ

pub record Task : Type 0 where
  pub id : TaskId
  pub payload : List ℕ
  pub created_at : ℕ
  pub scheduled_at : ℕ
  pub expires_at : ℕ
  pub dedupe_key : String
  pub state : TaskState
  pub attempts : ℕ
  pub visible_at : ℕ
  pub last_failed_at : ℕ
  pub debug_info : List ℕ
  pub retry_strategy : Option RetryStrategy
  pub thread_id : String

pub record Thread : Type 0 where
  pub thread_id : String
  pub head_task_id : TaskId
  pub scheduled_at : ℕ
  pub visible_at : ℕ

pub record TasksCounter : Type 0 where
  pub enqueued_tasks_count : ℕ
  pub in_progress_tasks_count : ℕ
  pub dead_tasks_count : ℕ
  pub processed_tasks_count : ℕ
  pub expired_tasks_count : ℕ

pub record QueueState : Type 0 where
  pub task_id_sequence : ℕ
  pub last_visited_enqueued : ℕ
  pub last_visited_in_progress : ℕ

pub record RateLimiterState : Type 0 where
  pub tokens : ℕ
  pub last_refilled_at : ℕ

-- `unrecognized` is any value of the enum that has no name.
pub data IntervalUnit : Type 0 where
  unrecognized seconds minutes hours : IntervalUnit

pub record TokenBucketRateLimiting : Type 0 where
  pub max_tokens : ℕ
  pub interval : ℕ
  pub interval_unit : IntervalUnit

pub record DequeuingSettings : Type 0 where
  pub max_in_progress_tasks : ℕ
  pub rate_limiting : Option TokenBucketRateLimiting
  pub dequeuing_paused : Bool

pub record DeadLetterQueueConfig : Type 0 where
  pub enable : Bool
  pub max_size : ℕ
  pub retention_period_in_seconds : ℕ

pub data OverwriteOnDuplicate : Type 0 where
  invalid payload scheduled_at expires_at : OverwriteOnDuplicate

pub record EnqueueRequestEntry : Type 0 where
  pub payload : List ℕ
  pub scheduled_at : ℕ
  pub expires_at : ℕ
  pub dedupe_key : String
  pub retry_strategy : Option RetryStrategy
  pub overwrite_on_duplicate : List OverwriteOnDuplicate
  pub thread_id : String

pub record DequeueRequest : Type 0 where
  pub queue_id : QueueId
  pub dequeuing_settings : Option DequeuingSettings
  pub dequeue_limit : ℕ
  pub dead_letter_queue_config : Option DeadLetterQueueConfig
  pub keepalive_timeout_in_seconds : ℕ

pub data Status : Type 0 where
  invalid succeeded in_progress failed : Status

pub record ReportStatusRequestEntry : Type 0 where
  pub task_id : TaskId
  pub attempt : ℕ
  pub status : Status
  pub keepalive_timeout_in_seconds : ℕ

pub data ReportResult : Type 0 where
  invalid ok not_found not_in_progress stale_attempt : ReportResult

pub record RestartTasksRequestEntry : Type 0 where
  pub task_id : ℕ
  pub scheduled_at : ℕ
  pub expires_at : ℕ

pub data RestartResult : Type 0 where
  invalid restarted not_found not_dead dedupe_conflict : RestartResult

pub record RestartTasksResponseEntry : Type 0 where
  pub task_id : ℕ
  pub result : RestartResult
  pub task : Option Task

-- An application error, carried in the response and not as a Go error: the `NotFound` errors that
-- `taskNotFoundError` and `queueIdPurgedError` build.
pub data ApplicationError : Type 0 where
  task_not_found : TaskId → ApplicationError
  queue_not_found : QueueId → ApplicationError

-- A response: its payload, or an application error.
pub data Response (A : Type 0) : Type 0 where
  answer : A → Response A
  refused : ApplicationError → Response A

abbrev pub is_enqueued : TaskState → Bool
is_enqueued TaskState.enqueued = true
is_enqueued _ = false

abbrev pub is_in_progress : TaskState → Bool
is_in_progress TaskState.in_progress = true
is_in_progress _ = false

abbrev pub is_dead : TaskState → Bool
is_dead TaskState.dead = true
is_dead _ = false
