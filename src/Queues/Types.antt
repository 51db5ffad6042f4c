-- ===== src/Queues/Types.antt =====
-- The messages of pkg/corepb/queues.proto that the queues core stores and receives. Times, versions
-- and counts are the bit patterns of an int64.
use moab.Base.{ℕ, String, List, Option, ℕ_discrete}
use moab.Tasks.Types.{QueueId, RetryStrategy, DequeuingSettings, DeadLetterQueueConfig}

pub record ScheduleId : Type 0 where
  pub account_id : ℕ
  pub queue_id : ℕ
  pub schedule_id : ℕ

unfoldable pub ScheduleId-discrete : Discrete ScheduleId
unfolding ℕ_discrete
ScheduleId-discrete = hlevel ℕ_discrete

pub record Queue : Type 0 where
  pub id : QueueId
  pub name : String
  pub description : String
  pub created_at : ℕ
  pub updated_at : ℕ
  pub version : ℕ
  pub keepalive_timeout_in_seconds : ℕ
  pub retry_strategy : Option RetryStrategy
  pub dequeuing_settings : Option DequeuingSettings
  pub dead_letter_queue_config : Option DeadLetterQueueConfig
  pub expires_in_seconds : ℕ
  pub schedules_count : ℕ

pub record Schedule : Type 0 where
  pub id : ScheduleId
  pub name : String
  pub description : String
  pub created_at : ℕ
  pub updated_at : ℕ
  pub version : ℕ
  pub cron : String
  pub payload : List ℕ
  pub dedupe_key : String
  pub expires_in_seconds : ℕ
  pub retry_strategy : Option RetryStrategy
  pub timezone : String
  pub last_checked_at : ℕ
  pub next_scheduled_at : ℕ
  pub last_enqueued_for : ℕ

pub record QueuesCounter : Type 0 where
  pub number_of_queues : ℕ

pub record CreateQueueRequest : Type 0 where
  pub queue_id : QueueId
  pub name : String
  pub description : String
  pub keepalive_timeout_in_seconds : ℕ
  pub retry_strategy : Option RetryStrategy
  pub dequeuing_settings : Option DequeuingSettings
  pub dead_letter_queue_config : Option DeadLetterQueueConfig
  pub expires_in_seconds : ℕ
  pub max_number_of_queues : ℕ

pub record UpdateQueueRequest : Type 0 where
  pub account_id : ℕ
  pub queue_name : String
  pub description : String
  pub keepalive_timeout_in_seconds : ℕ
  pub retry_strategy : Option RetryStrategy
  pub dequeuing_settings : Option DequeuingSettings
  pub dead_letter_queue_config : Option DeadLetterQueueConfig
  pub expires_in_seconds : ℕ
  pub expected_version : ℕ

pub record SwapQueueIdRequest : Type 0 where
  pub account_id : ℕ
  pub queue_name : String
  pub new_queue_id : ℕ

pub record CreateScheduleRequest : Type 0 where
  pub account_id : ℕ
  pub queue_name : String
  pub schedule_id : ℕ
  pub schedule_name : String
  pub description : String
  pub cron : String
  pub payload : List ℕ
  pub dedupe_key : String
  pub expires_in_seconds : ℕ
  pub retry_strategy : Option RetryStrategy
  pub timezone : String
  pub max_number_of_schedules_per_queue : ℕ

pub record UpdateScheduleRequest : Type 0 where
  pub account_id : ℕ
  pub queue_name : String
  pub schedule_name : String
  pub description : String
  pub cron : String
  pub payload : List ℕ
  pub dedupe_key : String
  pub expires_in_seconds : ℕ
  pub retry_strategy : Option RetryStrategy
  pub timezone : String
  pub expected_version : ℕ

pub record ReportSchedulesStatusRequest : Type 0 where
  pub schedule_id : ScheduleId
  pub next_scheduled_at : ℕ
  pub last_enqueued_for : ℕ

pub record DequeSchedulesResponseEntry : Type 0 where
  pub schedule : Schedule
  pub queue : Queue

-- The application errors that the handlers build, with the context that each of them carries.
pub data ApplicationError : Type 0 where
  queue_name_exists : String → ApplicationError
  max_queues_reached : ℕ → ApplicationError
  queue_id_collision : QueueId → ApplicationError
  queue_id_not_found : QueueId → ApplicationError
  queue_not_found : String → ApplicationError
  queue_version_mismatch : String → ℕ → ℕ → ApplicationError
  schedule_id_collision : ScheduleId → ApplicationError
  max_schedules_reached : ℕ → ApplicationError
  schedule_name_exists : String → String → ApplicationError
  schedule_not_found : String → String → ApplicationError
  schedule_version_mismatch : String → String → ℕ → ℕ → ApplicationError
  schedule_id_not_found : ScheduleId → ApplicationError

pub data Response (A : Type 0) : Type 0 where
  answer : A → Response A
  refused : ApplicationError → Response A
