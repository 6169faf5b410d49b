-- ===== src/Samples/Execution.antt =====
-- Runs of POST /execute: one that executes, its replay, and one that comes too late.
use deep_agent_blueprint.Prelude.{true, false, ◌≡◌, refl, some, none, [], arith}
use deep_agent_blueprint.Prelude.Exec.{ok, err}
use deep_agent_blueprint.Json.{json_eq}
use deep_agent_blueprint.Schemas.{ExecuteRequest, ExecuteResponse}
use deep_agent_blueprint.Deps.{World, DownstreamCredentials}
use deep_agent_blueprint.App.{current, current_correlation_id}
use deep_agent_blueprint.Adapter.{validate_payload, resolve_credentials}
use deep_agent_blueprint.Auth.{principal_hash}
use deep_agent_blueprint.Store.{
  key_in, kind_name, get_idempotency, put_idempotency, get_proposal, delete_proposal, idem,
}
use deep_agent_blueprint.Store.Reads.{raw_at, stored_idempotency}
use deep_agent_blueprint.Execute.{
  execute_action, execute_fresh, cleared, authorized_proposal, is_authorized, check_expiry,
  verify_payload, check_schema, check_target, perform, record_outcome, request_hash, expired_error,
}
use deep_agent_blueprint.Execute.Guarded.{IsGuarded, execute_action-IsGuarded}
use deep_agent_blueprint.Execute.Outcomes.{IsQuiet}
use deep_agent_blueprint.Execute.Steps.{IsCleared}
use deep_agent_blueprint.Execute.Payload.{verify_payload_iff}
use deep_agent_blueprint.Execute.Cleared.{Effect, execute_action-Effect}
use deep_agent_blueprint.Execute.Once.{
  IsRecorded, execute_action-IsRecorded, execute_replayed, execute_consumed,
}
use deep_agent_blueprint.Samples.{
  service, proposal_1, start, request_1, memory-IsLawful, settings-HasLifetimes,
}

abbrev response_1 : ExecuteResponse
response_1 = record {
  action_id = "a1";
  result = request_1.approved_payload;
  resource_url = none;
  idempotent_replay = false;
  correlation_id = "corr-2";
}

abbrev after_first : World service
after_first = (execute_action request_1 "chat" (some "pat-1") "k1" start).1

executed : (execute_action request_1 "chat" (some "pat-1") "k1" start).0 ≡ ok response_1
unfolding execute_action execute_fresh cleared authorized_proposal is_authorized check_expiry
    verify_payload check_schema check_target perform record_outcome request_hash key_in kind_name
    get_idempotency get_proposal principal_hash current_correlation_id validate_payload
    resolve_credentials json_eq put_idempotency delete_proposal
executed = refl

execute_action-IsGuarded_example : IsGuarded start request_1 "chat" (some "pat-1") after_first
execute_action-IsGuarded_example =
    execute_action-IsGuarded start request_1 "chat" (some "pat-1") "k1"

new_key : stored_idempotency start.store "k1" ≡ none
unfolding key_in kind_name
new_key = refl

-- the same action with another payload
abbrev other_request : ExecuteRequest
other_request = record (request_1) { approved_payload = [] }

unused_key : raw_at after_first.store idem "k2" ≡ none
unfolding execute_action execute_fresh cleared authorized_proposal is_authorized check_expiry
    verify_payload check_schema check_target perform record_outcome request_hash key_in kind_name
    get_idempotency get_proposal principal_hash current_correlation_id validate_payload
    resolve_credentials json_eq put_idempotency delete_proposal
unused_key = refl

execute_replayed_example :
    ((execute_action request_1 "batch" none "k1" after_first).0
      ≡ ok (record (response_1) { idempotent_replay = true; correlation_id = current after_first }))
    × IsQuiet after_first (execute_action request_1 "batch" none "k1" after_first).1
execute_replayed_example =
    execute_replayed memory-IsLawful settings-HasLifetimes start after_first request_1 "chat"
      "batch" (some "pat-1") none "k1" new_key executed refl

execute_consumed_example :
    execute_action other_request "chat" (some "pat-1") "k2" after_first
    ≡ (err expired_error, after_first)
execute_consumed_example =
    execute_consumed memory-IsLawful settings-HasLifetimes start after_first request_1 other_request
      "chat" "chat" (some "pat-1") (some "pat-1") "k1" "k2" new_key executed refl refl unused_key

execute_action-IsRecorded_example :
    IsRecorded memory-IsLawful settings-HasLifetimes "a1" "k1"
      (request_hash "a1" request_1.approved_payload)
      response_1
      after_first.store
execute_action-IsRecorded_example =
    execute_action-IsRecorded memory-IsLawful settings-HasLifetimes start request_1 "chat"
      (some "pat-1") "k1" new_key executed

abbrev user_credentials : DownstreamCredentials
user_credentials = record { user_token = some "pat-1"; service_key = none }

request_1-IsCleared : IsCleared start request_1 "chat" (some "pat-1") proposal_1 user_credentials
unfolding key_in kind_name is_authorized principal_hash validate_payload resolve_credentials
    verify_payload json_eq
request_1-IsCleared = record {
  loaded = refl;
  authorized = refl;
  unexpired = omega arith;
  as_proposed = (verify_payload_iff proposal_1 request_1.approved_payload start).0 refl;
  valid = refl;
  resolved = refl;
  precheck = record { holds = true; details = [] };
  prechecked = refl;
  undrifted = refl;
}

no_record : raw_at start.store idem "k1" ≡ none
unfolding key_in kind_name
no_record = refl

execute_action-Effect_example :
    Effect start request_1 "chat"
      (some "pat-1")
      proposal_1
      user_credentials
      (execute_action request_1 "chat" (some "pat-1") "k1" start)
execute_action-Effect_example =
    execute_action-Effect start request_1 "chat" (some "pat-1") proposal_1 user_credentials "k1"
      no_record request_1-IsCleared
