-- ===== src/Queues/Samples.antt =====
-- A concrete store of the queues core, with a queue and a schedule in it.
use moab.Base.{
  ℕ, [], none, String, Result, ok, fail, not_found, ◌≡◌, refl, ℕ_discrete, if◌then◌else◌, ltb, ◌+◌,
  ◌^◌,
}
use moab.Base.Word.{second}
use moab.Honey.{Item}
use moab.Honey.ListTable.{list_table}
use moab.Honey.ListIndex.{list_index}
use moab.Tasks.Types.{QueueId, QueueId-discrete}
use moab.Queues.Types.{
  ScheduleId, ScheduleId-discrete, Schedule, CreateQueueRequest, CreateScheduleRequest,
}
use moab.Queues.Access.{Stores, Db, QueueName-discrete, ScheduleName-discrete, queue_of}

unfoldable pub ScheduleItem-discrete : Discrete (Item ScheduleId)
unfolding ℕ_discrete
ScheduleItem-discrete = hlevel ℕ_discrete

unfoldable pub Unit-discrete : Discrete (Unit {0})
Unit-discrete = λ a b. yes refl

pub list_prefix :
    (s : ScheduleId)
    → (list_table {V = Schedule} ScheduleId-discrete QueueId-discrete queue_of).prefix s
      ≡ queue_of s
unfolding list_table
list_prefix s = refl

instance abbrev pub sample : Stores
sample = record {
  queues = list_table QueueId-discrete ℕ_discrete (λ q. q.account_id);
  queue_names = list_table QueueName-discrete Unit-discrete (λ _. tt);
  schedules = list_table ScheduleId-discrete QueueId-discrete queue_of;
  schedule_names = list_table ScheduleName-discrete Unit-discrete (λ _. tt);
  scheduled = list_index Unit-discrete ScheduleItem-discrete;
  counters = list_table ℕ_discrete Unit-discrete (λ _. tt);
  gc_records = list_table QueueId-discrete Unit-discrete (λ _. tt);
  schedules_prefix = list_prefix;
}

unfoldable pub empty_db : Db
unfolding list_table list_index
empty_db = record {
  queues = [];
  queue_names = [];
  schedules = [];
  schedule_names = [];
  scheduled = [];
  counters = [];
  gc_records = [];
}

abbrev pub q7 : QueueId
q7 = record { account_id = 0; queue_id = 7 }

abbrev pub queue_request : CreateQueueRequest
queue_request = record {
  queue_id = q7;
  name = "mail";
  description = "";
  keepalive_timeout_in_seconds = 30;
  retry_strategy = none;
  dequeuing_settings = none;
  dead_letter_queue_config = none;
  expires_in_seconds = 600;
  max_number_of_queues = 10;
}

abbrev pub schedule_request : CreateScheduleRequest
schedule_request = record {
  account_id = 0;
  queue_name = "mail";
  schedule_id = 5;
  schedule_name = "nightly";
  description = "";
  cron = "* * * * * *";
  payload = [];
  dedupe_key = "";
  expires_in_seconds = 0;
  retry_strategy = none;
  timezone = "UTC";
  max_number_of_schedules_per_queue = 10;
}

-- A clock that ticks each second.
abbrev pub every_second : String → String → ℕ → Result ℕ
every_second cron timezone t = if ltb t (2 ^ 62) then ok (t + second) else fail not_found
