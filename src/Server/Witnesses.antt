-- ===== src/Server/Witnesses.antt =====
-- Two processes of the server at the sample stores: one purges a queue, the other has it in its
-- cache.
use mathlib.Core.Path.{subst}
use moab.Honey.ListTable.{find, drop_key, rows_under, first_page, put, list_table}
use moab.Honey.ListIndex.{holds, discard, insert_sorted, sorted_items, between, list_index}
use moab.Base.{
  ℕ_discrete, decide_text, String-discrete, ℕ, ◌≡◌, ◌≢◌, refl, false, List, [], ◌∷◌, Option, none,
  some, sym, ap, ◌+◌, if◌then◌else◌, leb,
}
use moab.Base.Word.{add64, mul64, bias64, slt, sle, second, sign_extend}
use moab.Base.Transaction.{transact, for_each}
use moab.Tasks.Types.{QueueId, QueueId-discrete, EnqueueRequestEntry}
use moab.Tasks.Access.{purge_create}
use moab.Tasks.Requests as tasks_requests
use moab.Tasks.Samples as tasks_samples
use moab.Tasks.Samples.{sample as tasks_sample}
use moab.Queues.Types.{ScheduleId-discrete, Queue}
use moab.Queues.Access as queues_access
use moab.Queues.Access.{
  QueueName, QueueName-discrete, ScheduleName-discrete, queue_named, queues_find,
  queues_find_by_name, queue_names_set, queues_update, queues_delete_row, queues_swap_id,
  queues_create, counters_get, counters_set, schedules_page,
}
use moab.Queues.Registry.{
  register, create_queue_checked, create_queue, new_queue, swapped_queue, move_schedules,
  move_all_schedules, swap_found, swap_queue_id,
}
use moab.Queues.Registry.Names.{IsRegistered, registry}
use moab.Queues.Registry.Contract as Contract
use moab.Queues.Registry.Refinement as Registry
use moab.Queues.Samples.{ScheduleItem-discrete, Unit-discrete, empty_db, sample, queue_request, q7}
use moab.Validation.{
  validate_queue_id, validate_enqueue_request, validate_entries, validate_entry,
  validate_retry_strategy,
}
use moab.Server.{
  Outcome, done, Cache, ServiceLimits, Gateway, call_enqueue, call_purge_queue, cache_key,
  is_id_collision, exceeds, core_entries, resolve_scheduled_at_and_expires_at,
}
use moab.Server.Handlers.{enqueue, purge_queue, with_unique_id, call_swap_queue_id}
use moab.Server.Purging.{enqueue_after_purge}

-- A cache as a function, whose entries live for a second.
abbrev Held : Type 0
Held = QueueName → Option (ℕ × Outcome Queue)

abbrev still_held : ℕ → Option (ℕ × Outcome Queue) → Option (Outcome Queue)
still_held t none = none
still_held t (some (since, o)) = if leb t (since + second) then some o else none

abbrev put_at : Held → QueueName → Option (ℕ × Outcome Queue) → Held
put_at c k v j = elim (QueueName-discrete k j) [ yes _ ↦ v | no _ ↦ c j ]

put_at_self : (c : Held) (k : QueueName) (v : Option (ℕ × Outcome Queue)) → put_at c k v k ≡ v
put_at_self c k v = elim (QueueName-discrete k k) as (λ d. elim d [ yes _ ↦ v | no _ ↦ c k ] ≡ v) [
  | yes _ ↦ refl
  | no ne ↦ absurd (ne refl)
]

instance abbrev cache : Cache
cache = record {
  Entries = Held;
  find = λ c t k. still_held t (c k);
  store = λ c t k o. put_at c k (some (t, o));
  delete = λ c k. put_at c k none;
  find-delete_self = λ c t k. ap (still_held t) (put_at_self c k none);
}

abbrev stored : queues_access.Db
stored = (create_queue queue_request 5 empty_db).1

abbrev mail : Queue
mail = new_queue queue_request 5

abbrev mail_key : QueueName
mail_key = cache_key 0 "mail"

abbrev no_entries : Held
no_entries k = none

abbrev before : Gateway
before = record {
  queues_cache = no_entries;
  cores = record { queues = stored; tasks = tasks_samples.empty_db };
}

-- The first id that is drawn is that of the queue, and collides.
abbrev after : Gateway
after = (purge_queue (7 ∷ 9 ∷ []) 6 0 "mail" before).1

abbrev stale : Held
stale = put_at no_entries mail_key (some (5, done mail))

abbrev limits : ServiceLimits
limits = record {
  max_number_of_queues = 10_000;
  max_enqueue_batch_size = 25;
  max_dequeue_batch_size = 25;
  max_scheduled_delay_in_seconds = 1_209_600;
}

abbrev letters : List EnqueueRequestEntry
letters = tasks_samples.entry "" 11 ∷ []

purge_runs : purge_queue (7 ∷ 9 ∷ []) 6 0 "mail" before ≡ (done tt, after)
unfolding find drop_key rows_under first_page put list_table holds discard insert_sorted
    sorted_items between list_index add64 bias64 sle transact QueueId-discrete ScheduleId-discrete
    QueueName-discrete ScheduleName-discrete queue_named queues_find queues_find_by_name
    queue_names_set queues_update queues_create counters_get counters_set register
    create_queue_checked create_queue ScheduleItem-discrete Unit-discrete empty_db ℕ_discrete
    decide_text String-discrete queues_delete_row queues_swap_id schedules_page move_schedules
    move_all_schedules swap_found swap_queue_id for_each purge_create tasks_requests.purge_queue
    purge_queue with_unique_id call_swap_queue_id call_purge_queue validate_queue_id is_id_collision
    tasks_samples.empty_db
purge_runs = refl

nothing_named : (k : QueueName) → sample.queue_names.get empty_db.queue_names k ≡ none
unfolding find drop_key list_table empty_db QueueName-discrete
nothing_named k = refl

nothing_stored : (id : QueueId) → sample.queues.get empty_db.queues id ≡ none
unfolding find drop_key list_table empty_db QueueId-discrete
nothing_stored id = refl

stored-IsRegistered : IsRegistered stored
stored-IsRegistered =
    let (r, left, run, wf, _) =
      Registry.handle-Obeys (Contract.create queue_request) 5 empty_db (record {
        named = λ k i h. absurd (cc (h, nothing_named k));
        listed = λ id q h. absurd (cc (h, nothing_stored id));
      }) in
    subst (λ (d : queues_access.Db). IsRegistered d) (ap (λ x. x.1) (sym run)) wf

mail_named : registry stored mail_key ≡ some mail
unfolding find drop_key rows_under first_page put list_table holds discard insert_sorted
    sorted_items between list_index add64 bias64 sle transact QueueId-discrete ScheduleId-discrete
    QueueName-discrete ScheduleName-discrete queue_named queues_find queues_find_by_name
    queue_names_set queues_update queues_create counters_get counters_set register
    create_queue_checked create_queue ScheduleItem-discrete Unit-discrete empty_db ℕ_discrete
    decide_text String-discrete
mail_named = refl

resolved : core_entries 7 mail limits.max_scheduled_delay_in_seconds 0 letters ≡ done letters
unfolding core_entries resolve_scheduled_at_and_expires_at add64 mul64 slt bias64
resolved = refl

valid : validate_enqueue_request (some q7) letters ≡ none
unfolding validate_enqueue_request validate_queue_id validate_entries validate_entry slt
    validate_retry_strategy
valid = refl

is_cached : cache.find stale 7 mail_key ≡ some (done mail)
unfolding QueueName-discrete ℕ_discrete String-discrete decide_text
is_cached = refl

few : exceeds limits.max_enqueue_batch_size letters ≡ false
unfolding slt sign_extend
few = refl

enqueue_after_purge_example :
    (id : QueueId) × (fresh : Held) × (registry after.cores.queues mail_key
      ≡ some (swapped_queue mail id 6))
    × (id ≢ q7)
    × (enqueue limits 7 8 9 0 "mail" letters (record { queues_cache = stale; cores = after.cores })
        ≡ call_enqueue 9 id letters (record { queues_cache = fresh; cores = after.cores }))
enqueue_after_purge_example =
    enqueue_after_purge 6 0 "mail" (7 ∷ 9 ∷ []) before after mail stored-IsRegistered mail_named
      purge_runs stale limits 7 8 9 letters letters is_cached few resolved valid
