-- ===== src/Validation/Messages.antt =====
-- pkg/corepb/validators.go: what a message of the queues core must satisfy before its handler runs.
use moab.Base.{◌*◌, String, Option, none, some, Bool, not, ◌==◌, length, ltb}
use moab.Base.Word.{slt}
use moab.Queues.Types.{
  ScheduleId, CreateQueueRequest, UpdateQueueRequest, CreateScheduleRequest, UpdateScheduleRequest,
  ReportSchedulesStatusRequest,
}
use moab.Validation.{
  Violation, ◌then◌, check, unless_zero, validate_queue_id, validate_expires_in_seconds,
  validate_keepalive_timeout_in_seconds, validate_retry_strategy, validate_dequeuing_settings,
  validate_dead_letter_queue_config,
}

unfoldable pub validate_schedule_id : Option ScheduleId → Option Violation
validate_schedule_id none = some Violation.id_unset
validate_schedule_id (some s) =
    check (s.queue_id == 0) Violation.queue_id_zero
    then check (s.schedule_id == 0) Violation.schedule_id_zero

unfoldable pub validate_create_queue_request : CreateQueueRequest → Option Violation
validate_create_queue_request r =
    validate_queue_id (some r.queue_id)
    then validate_expires_in_seconds r.expires_in_seconds
    then validate_keepalive_timeout_in_seconds r.keepalive_timeout_in_seconds
    then validate_retry_strategy r.retry_strategy
    then validate_dequeuing_settings r.dequeuing_settings
    then validate_dead_letter_queue_config r.dead_letter_queue_config

unfoldable pub validate_update_queue_request : UpdateQueueRequest → Option Violation
validate_update_queue_request r =
    validate_expires_in_seconds r.expires_in_seconds
    then validate_keepalive_timeout_in_seconds r.keepalive_timeout_in_seconds
    then validate_retry_strategy r.retry_strategy
    then validate_dequeuing_settings r.dequeuing_settings
    then validate_dead_letter_queue_config r.dead_letter_queue_config

-- `gronx.New().IsValid`, and whether `time.LoadLocation` knows the time zone.
module _ (is_valid_cron is_valid_timezone : String → Bool) where
  unfoldable pub validate_create_schedule_request : CreateScheduleRequest → Option Violation
  validate_create_schedule_request r =
      check (not (is_valid_cron r.cron)) Violation.cron_invalid
      then check (not (is_valid_timezone r.timezone)) Violation.timezone_invalid
      then unless_zero validate_expires_in_seconds r.expires_in_seconds
      then validate_retry_strategy r.retry_strategy
      then check (ltb (64 * 1024) (length r.payload)) Violation.payload_too_large

  unfoldable pub validate_update_schedule_request : UpdateScheduleRequest → Option Violation
  validate_update_schedule_request r =
      check (not (is_valid_cron r.cron)) Violation.cron_invalid
      then check (not (is_valid_timezone r.timezone)) Violation.timezone_invalid
      then unless_zero validate_expires_in_seconds r.expires_in_seconds
      then validate_retry_strategy r.retry_strategy
      then check (ltb (64 * 1024) (length r.payload)) Violation.payload_too_large

unfoldable pub validate_report_schedules_status_request :
    ReportSchedulesStatusRequest → Option Violation
validate_report_schedules_status_request r =
    validate_schedule_id (some r.schedule_id)
    then check (slt r.next_scheduled_at 0) Violation.next_scheduled_at_negative
    then check (slt r.last_enqueued_for 0) Violation.last_enqueued_for_negative
