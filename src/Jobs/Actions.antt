-- ===== src/Jobs/Actions.antt =====
-- GET /research/{job_id} and the handlers of app/api/execute.py as changes of a sound store (see Jobs).
use deep_agent_blueprint.Prelude.{String, refl, ap, Option, none, some, arith, leb}
use deep_agent_blueprint.Json.{Object}
use deep_agent_blueprint.Schemas.{
  Failure, unsupported, downstream_failure, StoredProposal, ExecuteRequest, IdempotencyRecord,
}
use deep_agent_blueprint.Deps.{
  Deps, IsLawful, DownstreamCredentials, ExecutionResult, PreconditionResult,
}
use deep_agent_blueprint.App.{utcnow, current_correlation_id}
use deep_agent_blueprint.Adapter.{resolve_credentials}
use deep_agent_blueprint.Store.{
  get_job, get_result, is_cancel_requested, get_proposal, get_idempotency, put_idempotency,
}
use deep_agent_blueprint.Store.Reads.{HasLifetimes}
use deep_agent_blueprint.Research.{authorized_job, poll_research}
use deep_agent_blueprint.Execute.{
  executed_response, expired_error, request_hash, authorized_proposal, verify_payload, replay,
  check_expiry, schema_error, check_schema, precheck_error, require_ok, check_target,
  mutation_error, adapter_execute, perform, record_outcome, cleared, execute_fresh,
  replay_or_execute, execute_action, get_action, reject_action,
}
use deep_agent_blueprint.Execute.Payload.{verify_payload_quiet}
use deep_agent_blueprint.Jobs.{
  Safe, Safe-still, Safe-pure, Safe-raise, Safe-if, Safe-try, Safe-bind,
}
use deep_agent_blueprint.Jobs.Writes.{delete_proposal-Safe, put_idempotency-Safe}

module _ ⦃d : Deps⦄ where
  pub poll_research-Safe : (i c : String) (t : Option String) → Safe (poll_research i c t)
  unfolding poll_research authorized_job get_job get_result is_cancel_requested
  poll_research-Safe i c t = Safe-still (λ w. ground arith)

  current_correlation_id-Safe : Safe current_correlation_id
  unfolding current_correlation_id
  current_correlation_id-Safe = Safe-still (λ w. ground arith)

  authorized_proposal-Safe : (i c : String) (t : Option String) → Safe (authorized_proposal i c t)
  unfolding authorized_proposal get_proposal
  authorized_proposal-Safe i c t = Safe-still (λ w. ground arith)

  schema_error-Safe : (e : Failure) → Safe (schema_error {A = Unit} e)
  unfolding schema_error
  schema_error-Safe (unsupported t) = Safe-raise _
  schema_error-Safe e = Safe-raise _

  check_schema-Safe : (p : StoredProposal) (a : Object) → Safe (check_schema p a)
  unfolding check_schema
  check_schema-Safe p a = Safe-try _ _ (Safe-still (λ w. refl)) schema_error-Safe

  precheck_error-Safe : (e : Failure) → Safe (precheck_error {A = PreconditionResult} e)
  unfolding precheck_error
  precheck_error-Safe (downstream_failure n) = Safe-raise _
  precheck_error-Safe e = Safe-raise _

  require_ok-Safe : (q : PreconditionResult) → Safe (require_ok q)
  unfolding require_ok
  require_ok-Safe q = Safe-if q.holds _ _ (Safe-pure tt) (Safe-raise _)

  check_target-Safe : (p : StoredProposal) (k : DownstreamCredentials) → Safe (check_target p k)
  unfolding check_target
  check_target-Safe p k =
      Safe-bind _ _ (Safe-try _ _ (Safe-still (λ w. refl)) precheck_error-Safe) require_ok-Safe

  mutation_error-Safe : (e : Failure) → Safe (mutation_error {A = ExecutionResult} e)
  unfolding mutation_error
  mutation_error-Safe (unsupported t) = Safe-raise _
  mutation_error-Safe (downstream_failure n) = Safe-raise _
  mutation_error-Safe e = Safe-raise _

  perform-Safe :
      (p : StoredProposal) (a : Object) (k : DownstreamCredentials) → Safe (perform p a k)
  unfolding perform adapter_execute
  perform-Safe p a k = Safe-try _ _ (Safe-still (λ w. refl)) mutation_error-Safe

module _ ⦃d : Deps⦄ (law : IsLawful d.redis) (lives : HasLifetimes d.settings) where
  check_expiry-Safe : (i : String) (p : StoredProposal) → Safe (check_expiry i p)
  unfolding check_expiry
  check_expiry-Safe i p = Safe-bind utcnow _ (Safe-still (λ w. refl)) λ now.
      Safe-if (leb p.action.expires_at now) _ _
        (Safe-bind _ _ (delete_proposal-Safe law i) λ _. Safe-raise expired_error) (Safe-pure tt)

  record_outcome-Safe : (i k hash : String) (o : ExecutionResult) → Safe (record_outcome i k hash o)
  unfolding record_outcome
  record_outcome-Safe i k hash o = Safe-bind _ _ current_correlation_id-Safe λ cid.
      Safe-bind utcnow _ (Safe-still (λ w. refl)) λ now.
        Safe-bind
          (put_idempotency k (record {
            request_hash = hash;
            response = executed_response i o cid;
            created_at = now;
          }))
          _ (put_idempotency-Safe law lives k _)
          λ _. Safe-bind _ _ (delete_proposal-Safe law i) λ _. Safe-pure (executed_response i o cid)

  cleared-Safe : (body : ExecuteRequest) (c : String) (t : Option String) → Safe (cleared body c t)
  unfolding cleared
  cleared-Safe body c t = Safe-bind _ _ (authorized_proposal-Safe body.action_id c t) λ p.
      Safe-bind _ _ (check_expiry-Safe body.action_id p) λ _.
        Safe-bind (verify_payload p body.approved_payload) _
          (Safe-still (λ w. ap (λ u. u.store) (verify_payload_quiet p body.approved_payload w)))
          λ _. Safe-bind _ _ (check_schema-Safe p body.approved_payload) λ _.
            Safe-bind (λ w. (resolve_credentials d.adapter t, w)) _ (Safe-still (λ w. refl))
              λ k. Safe-bind _ _ (check_target-Safe p k) λ _. Safe-pure _

  execute_fresh-Safe :
      (body : ExecuteRequest) (c : String) (t : Option String) (k hash : String)
      → Safe (execute_fresh body c t k hash)
  unfolding execute_fresh
  execute_fresh-Safe body c t k hash = Safe-bind _ _ (cleared-Safe body c t) λ ready.
      Safe-bind _ _ (perform-Safe ready.0 body.approved_payload ready.1)
        (record_outcome-Safe body.action_id k hash)

  replay_or_execute-Safe :
      (body : ExecuteRequest) (c : String) (t : Option String) (k hash : String)
      (o : Option IdempotencyRecord)
      → Safe (replay_or_execute body c t k hash o)
  unfolding replay_or_execute replay current_correlation_id
  replay_or_execute-Safe body c t k hash none = execute_fresh-Safe body c t k hash
  replay_or_execute-Safe body c t k hash (some r) = Safe-still (λ w. ground arith)

  pub execute_action-Safe :
      (body : ExecuteRequest) (c : String) (t : Option String) (k : String)
      → Safe (execute_action body c t k)
  unfolding execute_action get_idempotency
  execute_action-Safe body c t k =
      Safe-bind (get_idempotency k) _ (Safe-still (λ w. ground arith))
        (replay_or_execute-Safe body c t k (request_hash body.action_id body.approved_payload))

  pub get_action-Safe : (i c : String) (t : Option String) → Safe (get_action i c t)
  unfolding get_action
  get_action-Safe i c t =
      Safe-bind _ _ (authorized_proposal-Safe i c t)
        λ p. Safe-bind _ _ current_correlation_id-Safe λ cid. Safe-pure _

  pub reject_action-Safe : (i c : String) (t : Option String) → Safe (reject_action i c t)
  unfolding reject_action
  reject_action-Safe i c t = Safe-bind _ _ (authorized_proposal-Safe i c t) λ p.
      Safe-bind _ _ (delete_proposal-Safe law i)
        λ _. Safe-bind _ _ current_correlation_id-Safe λ cid. Safe-pure _
