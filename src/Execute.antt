-- ===== src/Execute.antt =====
-- app/api/execute.py: POST /execute, GET and DELETE /actions/{action_id}. Log lines and durations are
-- left out; so are the context variables that only log lines read.
pub mod Payload
pub mod Outcomes
pub mod Steps
pub mod Guarded
pub mod Once
pub mod Cleared
use Prim.Native.String.{◌++◌ as ◌<>◌}
use deep_agent_blueprint.Prelude.{
  ℕ, String, Bool, true, false, Option, none, some, List, [], ◌∷◌, ◌++◌, ◌==◌, if◌then◌else◌, keys,
  contains, leb, same_text?, not, ◌&&◌, ◌||◌,
}
use deep_agent_blueprint.Prelude.Exec.{Result, ok, err, pure, raise, gets, try_except, ◌>>=◌, ◌>>◌}
use deep_agent_blueprint.Prelude.Sorted.{sorted_set}
use deep_agent_blueprint.Json.{Object, json_eq, get_or_null}
use deep_agent_blueprint.Schemas.{
  Failure, StoredProposal, ProposedAction, ExecuteRequest, ExecuteResponse, IdempotencyRecord,
  ActionStatusResponse, proposed, rejected, api_error, unsupported, payload_invalid,
  downstream_failure, action_expired, payload_mismatch, idempotent_replay_conflict,
  unsupported_action, validation_error, downstream_error, stale_target, no_details, fields_differ,
  schema_errors, drift,
}
use deep_agent_blueprint.Deps.{Deps, PreconditionResult, ExecutionResult, DownstreamCredentials}
use deep_agent_blueprint.App.{App, utcnow, set_correlation_id, current_correlation_id}
use deep_agent_blueprint.Adapter.{validate_payload, resolve_credentials}
use deep_agent_blueprint.Auth.{is_user_pat, principal_hash}
use deep_agent_blueprint.Store.{get_proposal, delete_proposal, get_idempotency, put_idempotency}

-- The keys outside the editable fields at which the two payloads differ, under `dict.get` and `!=`.
unfoldable pub differing : List String → Object → Object → List String → List String
differing editable before approved [] = []
differing editable before approved (k ∷ ks) =
    let rest = differing editable before approved ks in
    if not (contains k editable) && not (json_eq (get_or_null k before) (get_or_null k approved))
    then k ∷ rest
    else rest

-- `unexpected` of `_verify_payload_against_proposal`
unfoldable pub unexpected : StoredProposal → Object → List String
unfolding differing
unexpected stored approved =
    differing stored.action.editable_fields stored.action.payload approved
      (keys stored.action.payload ++ keys approved)

module _ ⦃d : Deps⦄ where
  abbrev pub expired_error : Failure
  expired_error = api_error 409 action_expired no_details

  unfoldable pub request_hash : String → Object → String
  request_hash action_id payload = d.sha256 (action_id <> (":" <> d.canonical payload))

  abbrev loaded : Option StoredProposal → App StoredProposal
  loaded none = raise expired_error
  loaded (some p) = pure p

  -- the caller of the request is the one the proposal is bound to
  unfoldable pub is_authorized : StoredProposal → String → Option String → Bool
  is_authorized p consumer_id user_token =
      if is_user_pat d.adapter.auth_mode
      then same_text? (some (principal_hash (elim user_token [ none ↦ "" | some t ↦ t ])))
          p.principal_hash
      else p.consumer_id == consumer_id

  abbrev join_trace : String → Bool → App Unit
  join_trace cid true = pure tt
  join_trace cid false = set_correlation_id cid

  -- `_authorized_proposal`
  unfoldable pub authorized_proposal : String → String → Option String → App StoredProposal
  authorized_proposal action_id consumer_id user_token = do
    found ← get_proposal action_id
    stored ← loaded found
    if is_authorized stored consumer_id user_token
        then (do
          supplied ← gets (λ w. w.correlation_from_header)
          join_trace stored.action.correlation_id supplied
          pure stored)
        else raise expired_error

  -- `_verify_payload_against_proposal`
  unfoldable pub verify_payload : StoredProposal → Object → App Unit
  unfolding unexpected
  verify_payload stored approved = elim (unexpected stored approved) [
    | [] ↦ pure tt
    | k ∷ ks ↦ raise (
        api_error 409 payload_mismatch
          (fields_differ (sorted_set (k ∷ ks)) (sorted_set stored.action.editable_fields)))
  ]

  -- step (0): a known Idempotency-Key
  unfoldable pub replay : String → IdempotencyRecord → App ExecuteResponse
  replay hash existing =
      if existing.request_hash == hash
      then (do
        cid ← current_correlation_id
        pure (record (existing.response) { idempotent_replay = true; correlation_id = cid }))
      else raise (api_error 409 idempotent_replay_conflict no_details)

  -- step (1), the second half: the proposal's own expiry time
  unfoldable pub check_expiry : String → StoredProposal → App Unit
  check_expiry action_id stored = do
    now ← utcnow
    if leb stored.action.expires_at now
        then (do delete_proposal action_id; raise expired_error)
        else pure tt

  -- step (3) and its `except` clauses
  unfoldable pub schema_error : {A : Type 0} → Failure → App A
  schema_error (unsupported _) = raise (api_error 409 unsupported_action no_details)
  schema_error (payload_invalid _ errors) =
      raise (api_error 422 validation_error (schema_errors errors))
  schema_error e = raise e

  unfoldable pub check_schema : StoredProposal → Object → App Unit
  unfolding schema_error
  check_schema stored approved =
      try_except (λ w. (validate_payload d.adapter stored.action.action_type approved, w))
        schema_error

  -- step (4) and its `except` clause
  unfoldable pub precheck_error : {A : Type 0} → Failure → App A
  precheck_error (downstream_failure _) = raise (api_error 502 downstream_error no_details)
  precheck_error e = raise e

  unfoldable pub require_ok : PreconditionResult → App Unit
  require_ok p = if p.holds then pure tt else raise (api_error 409 stale_target (drift p.details))

  unfoldable pub check_target : StoredProposal → DownstreamCredentials → App Unit
  unfolding precheck_error require_ok
  check_target stored credentials = do
    p ←
        try_except (λ w. (d.adapter.check_preconditions stored.action credentials w.target, w))
          precheck_error
    require_ok p

  -- step (5) and its `except` clauses
  unfoldable pub mutation_error : {A : Type 0} → Failure → App A
  mutation_error (unsupported _) = raise (api_error 409 unsupported_action no_details)
  mutation_error (downstream_failure _) = raise (api_error 502 downstream_error no_details)
  mutation_error e = raise e

  unfoldable pub adapter_execute :
      ProposedAction → Object → DownstreamCredentials → App ExecutionResult
  adapter_execute action approved credentials w =
      let (r, target') = d.adapter.execute action approved credentials w.target in
      (r, record w { target = target' })

  unfoldable pub perform : StoredProposal → Object → DownstreamCredentials → App ExecutionResult
  unfolding mutation_error adapter_execute
  perform stored approved credentials =
      try_except (adapter_execute stored.action approved credentials) mutation_error

  abbrev pub executed_response : String → ExecutionResult → String → ExecuteResponse
  executed_response action_id outcome cid = record {
    action_id = action_id;
    result = outcome.result;
    resource_url = outcome.resource_url;
    idempotent_replay = false;
    correlation_id = cid;
  }

  -- step (6): the idempotency record first, then the proposal
  unfoldable pub record_outcome : String → String → String → ExecutionResult → App ExecuteResponse
  record_outcome action_id idempotency_key hash outcome = do
    cid ← current_correlation_id
    let response = executed_response action_id outcome cid
    now ← utcnow
    put_idempotency idempotency_key
        (record { request_hash = hash; response = response; created_at = now })
    delete_proposal action_id
    pure response

  -- the checks of steps (1) to (4), which give the proposal and the credentials
  unfoldable pub cleared :
      ExecuteRequest → String → Option String → App (StoredProposal × DownstreamCredentials)
  cleared body consumer_id user_token = do
    stored ← authorized_proposal body.action_id consumer_id user_token
    check_expiry body.action_id stored
    verify_payload stored body.approved_payload
    check_schema stored body.approved_payload
    credentials ← (λ w. (resolve_credentials d.adapter user_token, w))
    check_target stored credentials
    pure (stored, credentials)

  -- steps (1) to (6)
  unfoldable pub execute_fresh :
      ExecuteRequest → String → Option String → String → String → App ExecuteResponse
  execute_fresh body consumer_id user_token idempotency_key hash = do
    ready ← cleared body consumer_id user_token
    outcome ← perform ready.0 body.approved_payload ready.1
    record_outcome body.action_id idempotency_key hash outcome

  unfoldable pub replay_or_execute :
      ExecuteRequest
      → String
      → Option String
      → String
      → String
      → Option IdempotencyRecord
      → App ExecuteResponse
  replay_or_execute body consumer_id user_token idempotency_key hash none =
      execute_fresh body consumer_id user_token idempotency_key hash
  replay_or_execute body consumer_id user_token idempotency_key hash (some existing) =
      replay hash existing

  -- POST /execute
  unfoldable pub execute_action :
      ExecuteRequest → String → Option String → String → App ExecuteResponse
  unfolding replay_or_execute
  execute_action body consumer_id user_token idempotency_key = do
    let hash = request_hash body.action_id body.approved_payload
    existing ← get_idempotency idempotency_key
    replay_or_execute body consumer_id user_token idempotency_key hash existing

  -- GET /actions/{action_id}
  unfoldable pub get_action : String → String → Option String → App ActionStatusResponse
  get_action action_id consumer_id user_token = do
    stored ← authorized_proposal action_id consumer_id user_token
    cid ← current_correlation_id
    pure (record {
      action_id = action_id;
      status = proposed;
      expires_at = some stored.action.expires_at;
      action = some stored.action;
      correlation_id = cid;
    })

  -- DELETE /actions/{action_id}
  unfoldable pub reject_action : String → String → Option String → App ActionStatusResponse
  reject_action action_id consumer_id user_token = do
    authorized_proposal action_id consumer_id user_token
    delete_proposal action_id
    cid ← current_correlation_id
    pure (record {
      action_id = action_id;
      status = rejected;
      expires_at = none;
      action = none;
      correlation_id = cid;
    })
