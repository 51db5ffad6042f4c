-- ===== src/Server/Validators/Witnesses.antt =====
-- The two validators at a request that creates a queue.
use moab.Base.{◌≡◌, refl, none, true, arith}
use moab.Base.Word.{slt, bias64}
use moab.Queues.Samples.{queue_request}
use moab.Validation.Messages.{validate_create_queue_request}
use moab.Server.Validators.{
  is_name_char, matches_name, validate_name, validate_description, is_outside,
  validate_keepalive_timeout, validate_expires_in, validate_retries, validate_dequeuing,
  validate_dead_letters,
}
use moab.Server.Validators.Requests.{validate_create_queue}
use moab.Server.Validators.Agreement.{queue_creation, server_valid_is_core_valid}

request_valid : validate_create_queue queue_request ≡ none
unfolding validate_create_queue is_name_char matches_name validate_name validate_description
    is_outside validate_keepalive_timeout validate_expires_in validate_retries validate_dequeuing
    validate_dead_letters slt bias64
request_valid = refl

server_valid_is_core_valid_example : validate_create_queue_request queue_request ≡ none
server_valid_is_core_valid_example =
    server_valid_is_core_valid (λ _. true) (λ _. true) (queue_creation queue_request) (omega arith)
      request_valid
