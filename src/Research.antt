-- ===== src/Research.antt =====
-- app/api/research.py: POST /research, GET and DELETE /research/{job_id}. Log lines are left out.
pub mod Access
use deep_agent_blueprint.Prelude.{
  ℕ, String, Bool, true, false, Option, none, some, ◌==◌, if◌then◌else◌, same_text?,
}
use deep_agent_blueprint.Prelude.Exec.{Result, ok, err, pure, raise, gets, try_except, ◌>>=◌, ◌>>◌}
use deep_agent_blueprint.Schemas.{
  Failure, JobStatus, queued, running, completed, failed, cancelled, is_terminal, JobRecord,
  JobResultDoc, JobStatusResponse, ResearchRequest, ResearchAccepted, api_error, token_vault_error,
  queue_unavailable, dependency_unavailable, job_not_found, no_details,
}
use deep_agent_blueprint.Deps.{Deps}
use deep_agent_blueprint.App.{App, utcnow, new_id, set_correlation_id, current_correlation_id}
use deep_agent_blueprint.Auth.{is_user_pat, principal_hash}
use deep_agent_blueprint.Queue.{enqueue_research}
use deep_agent_blueprint.Store.{
  create_job, get_job, get_result, stage_token, purge_token, request_cancel, is_cancel_requested,
  transition,
}

module _ ⦃d : Deps⦄ where
  -- `principal_hash(user_token, salt) if user_token else None`
  abbrev pub submitter_hash : Option String → Option String
  submitter_hash none = none
  submitter_hash (some t) = if t == "" then none else some (principal_hash t)

  -- `user_token or ""`
  abbrev pub token_or_blank : Option String → String
  token_or_blank none = ""
  token_or_blank (some t) = t

  abbrev pub new_record : ResearchRequest → String → Option String → String → String → ℕ → JobRecord
  new_record body consumer_id user_token job_id correlation_id now = record {
    job_id = job_id;
    domain = d.settings.domain;
    status = queued;
    task = body.task;
    session_id = body.session_id;
    context = body.context;
    constraints = body.constraints;
    consumer_id = consumer_id;
    principal_hash = submitter_hash user_token;
    correlation_id = correlation_id;
    created_at = now;
    started_at = none;
    finished_at = none;
    attempt = 0;
    max_attempts = d.settings.job_max_attempts;
    progress = record { last_tool = none; steps = 0 };
    error = none;
  }

  unfoldable pub vault_encrypt : String → App String
  vault_encrypt plaintext w =
      let (r, vault') = d.encrypt plaintext w.vault in (r, record w { vault = vault' })

  -- `except TokenVaultError`: fail closed
  unfoldable pub vault_error : {A : Type 0} → Failure → App A
  vault_error token_vault_error = raise (api_error 503 dependency_unavailable no_details)
  vault_error e = raise e

  -- the token as ciphertext, or the error of a vault that is not there
  unfoldable pub seal_token : Option String → App String
  unfolding vault_encrypt vault_error
  seal_token user_token = try_except (vault_encrypt (token_or_blank user_token)) vault_error

  -- the staging of the token, in USER_PAT domains only
  unfoldable pub protect_token : String → Option String → App Unit
  protect_token job_id user_token =
      if is_user_pat d.adapter.auth_mode
      then (do ciphertext ← seal_token user_token; stage_token job_id ciphertext)
      else pure tt

  -- `except QueueUnavailable`: roll back, so that nothing secret outlives the failed submit
  unfoldable pub rollback : {A : Type 0} → String → Failure → App A
  rollback job_id queue_unavailable = do
    purge_token job_id
    transition job_id failed none (some (record { code = dependency_unavailable }))
    raise (api_error 503 dependency_unavailable no_details)
  rollback job_id e = raise e

  unfoldable pub submit_research : ResearchRequest → String → Option String → App ResearchAccepted
  submit_research body consumer_id user_token = do
    job_id ← new_id
    correlation_id ← current_correlation_id
    now ← utcnow
    protect_token job_id user_token
    create_job (new_record body consumer_id user_token job_id correlation_id now)
    try_except (enqueue_research job_id) (rollback job_id)
    pure (record {
      job_id = job_id;
      status = queued;
      estimated_wait_s = d.settings.estimated_wait_s;
      correlation_id = correlation_id;
    })

  abbrev pub not_found : Failure
  not_found = api_error 404 job_not_found no_details

  -- the caller of the request is the one the job is bound to
  unfoldable pub owns_job : JobRecord → String → Option String → Bool
  owns_job r consumer_id user_token =
      if is_user_pat d.adapter.auth_mode
      then same_text? (some (principal_hash (token_or_blank user_token))) r.principal_hash
      else r.consumer_id == consumer_id

  abbrev authorize : String → Option String → Option JobRecord → App JobRecord
  authorize consumer_id user_token none = raise not_found
  authorize consumer_id user_token (some r) =
      if owns_job r consumer_id user_token
      then (do set_correlation_id r.correlation_id; pure r)
      else raise not_found

  -- `_authorized_job`
  unfoldable pub authorized_job : String → String → Option String → App JobRecord
  authorized_job job_id consumer_id user_token = do
    found ← get_job job_id
    authorize consumer_id user_token found

  -- `_status_response`
  abbrev is_running : JobStatus → Bool
  is_running running = true
  is_running _ = false

  abbrev pub status_response : JobRecord → Bool → JobStatusResponse
  status_response r cancel_requested = record {
    job_id = r.job_id;
    status = r.status;
    session_id = r.session_id;
    correlation_id = r.correlation_id;
    created_at = r.created_at;
    started_at = r.started_at;
    finished_at = r.finished_at;
    attempt = r.attempt;
    cancel_requested = cancel_requested;
    progress = if is_running r.status then some r.progress else none;
    findings = none;
    proposed_actions = none;
    error = r.error;
  }

  abbrev pub with_result : JobStatusResponse → Option JobResultDoc → JobStatusResponse
  with_result response none = response
  with_result response (some doc) = record response {
    findings = some doc.findings;
    proposed_actions = some doc.proposed_actions;
  }

  add_result : String → JobStatusResponse → JobStatus → App JobStatusResponse
  add_result job_id response completed = do doc ← get_result job_id; pure (with_result response doc)
  add_result job_id response _ = pure response

  unfoldable pub poll_research : String → String → Option String → App JobStatusResponse
  unfolding add_result
  poll_research job_id consumer_id user_token = do
    r ← authorized_job job_id consumer_id user_token
    flagged ← is_cancel_requested job_id
    add_result job_id (status_response r flagged) r.status

  -- the part of `cancel_research` that writes, by the status that was read
  unfoldable pub cancel_by_status : String → JobRecord → JobStatus → App JobStatusResponse
  cancel_by_status job_id r queued = do
    purge_token job_id
    request_cancel job_id
    r' ← transition job_id cancelled none none
    pure (status_response r' false)
  cancel_by_status job_id r running = do
    purge_token job_id
    request_cancel job_id
    pure (status_response r true)
  cancel_by_status job_id r _ = pure (status_response r false)

  unfoldable pub cancel_research : String → String → Option String → App JobStatusResponse
  unfolding cancel_by_status
  cancel_research job_id consumer_id user_token = do
    r ← authorized_job job_id consumer_id user_token
    cancel_by_status job_id r r.status
