-- ===== src/Worker.antt =====
-- app/worker/runner.py (the run loop of one research job) and `research_job` of app/worker/main.py.
-- The agent is what it does as seen from here: a list of events, which also has what other processes
-- do to Redis meanwhile. Log lines and the log context are left out.
mod Messages
pub mod Parse
pub mod Proposals
pub mod Credentials
pub mod Concurrency
unfoldable pub use Messages.*
use deep_agent_blueprint.Prelude.{
  ℕ, suc, ◌+◌, ◌*◌, ◌^◌, min, String, Bool, true, false, Option, none, some, List, [], ◌∷◌, ltb,
  if◌then◌else◌,
}
use deep_agent_blueprint.Prelude.Exec.{Result, ok, err, pure, raise, try_except, ◌>>=◌, ◌>>◌}
use deep_agent_blueprint.Prelude.Sorted.{sorted_set}
use deep_agent_blueprint.Schemas.{
  Failure, running, completed, failed, cancelled, is_terminal, JobRecord, ProposedAction,
  AgentOutput, AgentProposedAction, StoredProposal, timed_out, job_cancelled, retryable,
  retry_after, other_error, job_timeout, internal_error,
}
use deep_agent_blueprint.Deps.{Deps, DownstreamCredentials}
use deep_agent_blueprint.App.{App, utcnow, new_id}
use deep_agent_blueprint.Adapter.{validate_payload, resolve_credentials}
use deep_agent_blueprint.Auth.{is_user_pat}
use deep_agent_blueprint.Store.{
  get_job, load_token, is_cancel_requested, save_proposal, save_result, set_progress, transition,
}

-- One event of `agent.astream`: a state is yielded, the stream raises, or another process acts on
-- the store while the worker waits.
pub data AgentEvent ⦃d : Deps⦄ : Type 0 where
  yields : List Message → AgentEvent
  raises : Failure → AgentEvent
  outside : (d.redis.Store → d.redis.Store) → AgentEvent

module _ ⦃d : Deps⦄ where
  -- `_resolve_job_credentials`
  abbrev unwrap : Option String → App DownstreamCredentials
  unwrap none = raise other_error
  unwrap (some ciphertext) = do
    token ← (λ w. (d.decrypt ciphertext w.vault, w))
    (λ w. (resolve_credentials d.adapter (some token), w))

  unfoldable pub resolve_job_credentials : JobRecord → App DownstreamCredentials
  resolve_job_credentials r =
      if is_user_pat d.adapter.auth_mode
      then (do staged ← load_token r.job_id; unwrap staged)
      else (λ w. (resolve_credentials d.adapter none, w))

  -- the end of `_stream_agent`
  unfoldable pub final_text : Option (List Message) → App String
  final_text none = raise other_error
  final_text (some messages) = elim (last? messages) [
    | none ↦ raise other_error
    | some m ↦ (λ w. (message_text m, w))
  ]

  -- `_stream_agent`
  unfoldable pub stream_agent : String → ℕ → Option (List Message) → List AgentEvent → App String
  stream_agent job_id steps final [] = final_text final
  stream_agent job_id steps final (raises e ∷ _) = raise e
  stream_agent job_id steps final (outside act ∷ rest) =
      let later = stream_agent job_id steps final rest in
      λ w. later (record w { store = act w.store })
  stream_agent job_id steps final (yields messages ∷ rest) = do
    flagged ← is_cancel_requested job_id
    if flagged then raise job_cancelled else (do
      set_progress job_id (record { last_tool = last_tool_name messages; steps = suc steps })
      stream_agent job_id (suc steps) (some messages) rest)

  -- the action that a validated candidate becomes
  unfoldable pub new_action : JobRecord → ℕ → AgentProposedAction → String → ProposedAction
  new_action r expires_at candidate action_id = record {
    action_id = action_id;
    action_type = candidate.action_type;
    target = candidate.target;
    payload = candidate.payload;
    preview = candidate.preview;
    preconditions = candidate.preconditions;
    expires_at = expires_at;
    editable_fields = sorted_set (d.adapter.editable_fields candidate.action_type);
    correlation_id = r.correlation_id;
  }

  unfoldable pub new_proposal : JobRecord → ProposedAction → ℕ → StoredProposal
  new_proposal r action now = record {
    action = action;
    job_id = r.job_id;
    session_id = r.session_id;
    consumer_id = r.consumer_id;
    principal_hash = r.principal_hash;
    created_at = now;
  }

  -- the body of the loop in `_persist_proposals`, for a candidate that validates
  unfoldable pub stage_proposal : JobRecord → ℕ → AgentProposedAction → App ProposedAction
  unfolding new_action new_proposal
  stage_proposal r expires_at candidate = do
    action_id ← new_id
    now ← utcnow
    save_proposal (new_proposal r (new_action r expires_at candidate action_id) now)
    pure (new_action r expires_at candidate action_id)

  abbrev pub is_valid : AgentProposedAction → Bool
  is_valid c = elim (validate_payload d.adapter c.action_type c.payload) [
    | ok _ ↦ true
    | err _ ↦ false
  ]

  -- the loop of `_persist_proposals`; `validate_payload` raises no other error than it catches
  unfoldable pub persist_each : JobRecord → ℕ → List AgentProposedAction → App (List ProposedAction)
  persist_each r expires_at [] = pure []
  persist_each r expires_at (c ∷ cs) =
      let rest = persist_each r expires_at cs in
      if is_valid c
      then (do action ← stage_proposal r expires_at c; actions ← rest; pure (action ∷ actions))
      else rest

  unfoldable pub persist_proposals : JobRecord → AgentOutput → App (List ProposedAction)
  persist_proposals r output = do
    now ← utcnow
    persist_each r (now + d.settings.proposal_ttl_s * 1000000) output.proposed_actions

  -- the `try` of `run_research_job`; the agent is built with the credentials, or building it raises
  unfoldable pub attempt_run :
      (DownstreamCredentials → Result Failure (List AgentEvent)) → String → JobRecord → App Unit
  attempt_run agent job_id r = do
    credentials ← resolve_job_credentials r
    events ← (λ w. (agent credentials, w))
    text ← stream_agent job_id 0 none events
    output ← (λ w. (parse_agent_output text, w))
    proposals ← persist_proposals r output
    save_result job_id (record {
      findings = record {
        summary = output.summary;
        sources = output.sources;
        details = output.details;
      };
      proposed_actions = proposals;
    })
    transition job_id completed none none
    pure tt

  -- the `except` clauses
  unfoldable pub funnel : String → JobRecord → ℕ → Failure → App Unit
  funnel job_id r attempt timed_out = do
    transition job_id failed none (some (record { code = job_timeout }))
    pure tt
  funnel job_id r attempt job_cancelled = do transition job_id cancelled none none; pure tt
  funnel job_id r attempt e =
      if ltb attempt r.max_attempts
      then raise retryable
      else (do transition job_id failed none (some (record { code = internal_error })); pure tt)

  unfoldable pub start_run :
      (DownstreamCredentials → Result Failure (List AgentEvent)) → String → ℕ → Bool → App Unit
  start_run agent job_id attempt true = do transition job_id cancelled none none; pure tt
  start_run agent job_id attempt false = do
    r ← transition job_id running (some attempt) none
    try_except (attempt_run agent job_id r) (funnel job_id r attempt)

  unfoldable pub run_found :
      (DownstreamCredentials → Result Failure (List AgentEvent))
      → String
      → ℕ
      → Option JobRecord
      → App Unit
  run_found agent job_id attempt none = pure tt
  run_found agent job_id attempt (some r) =
      if is_terminal r.status
      then pure tt
      else (do flagged ← is_cancel_requested job_id; start_run agent job_id attempt flagged)

  -- `run_research_job`
  unfoldable pub run_research_job :
      (DownstreamCredentials → Result Failure (List AgentEvent)) → String → ℕ → App Unit
  run_research_job agent job_id attempt = do
    found ← get_job job_id
    run_found agent job_id attempt found

  -- app/worker/main.py: a `RetryableJobError` becomes arq's `Retry`, with its delay in seconds
  unfoldable pub requeue : ℕ → Failure → App Unit
  requeue attempt retryable = raise (retry_after (min (2 ^ attempt) 30))
  requeue attempt e = raise e

  unfoldable pub research_job :
      (DownstreamCredentials → Result Failure (List AgentEvent)) → String → ℕ → App Unit
  research_job agent job_id attempt =
      try_except (run_research_job agent job_id attempt) (requeue attempt)
