-- ===== src/Queues/Registry/Contract.antt =====
-- What the handlers of pkg/queues/core.go on queues promise: a map from names to queues.
use moab.Base.{ℕ, ◌≡◌, ◌≢◌, String, Option, none, some, ◌⊎◌}
use moab.Tasks.Types.{QueueId}
use moab.Queues.Types.{
  Queue, CreateQueueRequest, UpdateQueueRequest, SwapQueueIdRequest, ApplicationError, Response,
  answer, refused,
}
use moab.Queues.Access.{QueueName}
use moab.Queues.Registry.{new_queue, updated_queue, swapped_queue, swap_target}
use moab.Queues.Registry.Names.{Registry, Puts}

-- The requests that change queues.
pub data Command : Type 0 where
  create : CreateQueueRequest → Command
  update : UpdateQueueRequest → Command
  delete : ℕ → String → Command
  swap : SwapQueueIdRequest → Command

-- What each of them answers.
abbrev pub Answer : Command → Type 0
Answer (create _) = Queue
Answer (update _) = Queue
Answer (delete _ _) = QueueId
Answer (swap _) = Queue × QueueId

-- The name that a request is about.
abbrev pub subject : Command → QueueName
subject (create req) = record { account_id = req.queue_id.account_id; name = req.name }
subject (update req) = record { account_id = req.account_id; name = req.queue_name }
subject (delete a n) = record { account_id = a; name = n }
subject (swap req) = record { account_id = req.account_id; name = req.queue_name }

-- Why a request may be refused, given what its name stands for.
abbrev pub Refusal : Command → Option Queue → ApplicationError → Type 0
Refusal (create req) none e =
    (e ≡ ApplicationError.max_queues_reached req.max_number_of_queues)
    ⊎ (e ≡ ApplicationError.queue_id_collision req.queue_id)
Refusal (create req) (some _) e = e ≡ ApplicationError.queue_name_exists req.name
Refusal (update req) none e = e ≡ ApplicationError.queue_not_found req.queue_name
Refusal (update req) (some q) e =
    (q.version ≢ req.expected_version)
    × (e ≡ ApplicationError.queue_version_mismatch req.queue_name q.version req.expected_version)
Refusal (delete a n) none e = e ≡ ApplicationError.queue_not_found n
Refusal (delete a n) (some q) e = ⊥
Refusal (swap req) none e = e ≡ ApplicationError.queue_not_found req.queue_name
Refusal (swap req) (some q) e = e ≡ ApplicationError.queue_id_collision (swap_target req)

-- What a request answers and leaves under its name, given what its name stood for.
abbrev pub Effect : (c : Command) → ℕ → Option Queue → Answer c → Option Queue → Type 0
Effect (create req) now none q v = (q ≡ new_queue req now) × (v ≡ some q)
Effect (create req) now (some _) q v = ⊥
Effect (update req) now none q v = ⊥
Effect (update req) now (some old) q v =
    (old.version ≡ req.expected_version) × (q ≡ updated_queue old req now) × (v ≡ some q)
Effect (delete a n) now none id v = ⊥
Effect (delete a n) now (some old) id v = (id ≡ old.id) × (v ≡ none)
Effect (swap req) now none r v = ⊥
Effect (swap req) now (some old) r v =
    (r ≡ (swapped_queue old (swap_target req) now, old.id)) × (v ≡ some r.0)

-- A request that is refused changes nothing; any other changes its own name and no other.
abbrev pub Obeys : (c : Command) → ℕ → Registry → Response (Answer c) → Registry → Type 0
Obeys c now before (answer a) after =
    (v : Option Queue) × Effect c now (before (subject c)) a v × Puts before after (subject c) v
Obeys c now before (refused e) after =
    Refusal c (before (subject c)) e × ((k : QueueName) → after k ≡ before k)
