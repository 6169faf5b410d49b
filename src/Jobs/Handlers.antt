-- ===== src/Jobs/Handlers.antt =====
-- Every handler of app/api and the run loop of app/worker/runner.py as a change of a sound store
-- (see Jobs).
use deep_agent_blueprint.Prelude.{
  ℕ, suc, ◌+◌, ◌*◌, String, ◌≡◌, refl, Bool, true, false, Option, none, some, List, [], ◌∷◌, arith,
  ltb,
}
use deep_agent_blueprint.Prelude.Exec.{Result, ok, err, pure, ◌>>=◌, ◌>>◌}
use deep_agent_blueprint.Schemas.{
  Failure, JobStatus, queued, running, completed, failed, cancelled, is_terminal, JobRecord,
  JobError, AgentProposedAction, AgentOutput, timed_out, job_cancelled, retryable,
}
use deep_agent_blueprint.Deps.{Deps, IsLawful, DownstreamCredentials}
use deep_agent_blueprint.App.{App, utcnow, new_id}
use deep_agent_blueprint.Store.{get_job, load_token, is_cancel_requested, transition, save_proposal}
use deep_agent_blueprint.Store.Reads.{HasLifetimes}
use deep_agent_blueprint.Research.{authorized_job, cancel_by_status, cancel_research}
use deep_agent_blueprint.Worker.{
  AgentEvent, yields, raises, outside, Message, final_text, stream_agent, resolve_job_credentials,
  stage_proposal, new_action, new_proposal, persist_each, persist_proposals, is_valid, attempt_run,
  funnel, start_run, run_found, run_research_job, requeue, research_job,
}
use deep_agent_blueprint.Jobs.{
  Changes, Changes-trans, Safe, Safe-still, Safe-pure, Safe-raise, Safe-if, Safe-try, Safe-bind,
}
use deep_agent_blueprint.Jobs.Writes.{
  transition-Safe, set_progress-Safe, save_result-Safe, save_proposal-Safe, request_cancel-Safe,
  purge_token-Safe,
}

-- What other processes do to the store while the agent runs.
abbrev pub ActsSafely : ⦃d : Deps⦄ → List AgentEvent → Type 0
ActsSafely [] = Unit
ActsSafely (yields m ∷ es) = ActsSafely es
ActsSafely (raises e ∷ es) = ActsSafely es
ActsSafely ⦃d⦄ (outside act ∷ es) = ((st : d.redis.Store) → Changes st (act st)) × ActsSafely es

module _ ⦃d : Deps⦄ where
  new_id-Safe : Safe new_id
  new_id-Safe = Safe-still (λ w. refl)

  utcnow-Safe : Safe utcnow
  utcnow-Safe = Safe-still (λ w. refl)

  get_job-Safe : (i : String) → Safe (get_job i)
  unfolding get_job
  get_job-Safe i = Safe-still (λ w. ground arith)

  pub is_cancel_requested-Safe : (i : String) → Safe (is_cancel_requested i)
  unfolding is_cancel_requested
  is_cancel_requested-Safe i = Safe-still (λ w. refl)

  pub resolve_job_credentials-Safe : (r : JobRecord) → Safe (resolve_job_credentials r)
  unfolding resolve_job_credentials load_token
  resolve_job_credentials-Safe r = Safe-still (λ w. ground arith)

  final_text-Safe : (m : Option (List Message)) → Safe (final_text m)
  unfolding final_text
  final_text-Safe m = Safe-still (λ w. ground arith)

  authorized_job-Safe : (i c : String) (t : Option String) → Safe (authorized_job i c t)
  unfolding authorized_job get_job
  authorized_job-Safe i c t = Safe-still (λ w. ground arith)

module _ ⦃d : Deps⦄ (law : IsLawful d.redis) (lives : HasLifetimes d.settings) where
  pub stream_agent-Safe :
      (i : String) (n : ℕ) (m : Option (List Message)) (es : List AgentEvent)
      → ActsSafely es
      → Safe (stream_agent i n m es)
  unfolding stream_agent
  stream_agent-Safe i n m [] h = final_text-Safe m
  stream_agent-Safe i n m (raises e ∷ es) h = Safe-raise e
  stream_agent-Safe i n m (outside act ∷ es) (safely, h) = record {
    at = λ w.
        Changes-trans w.store (act w.store) _ (safely w.store)
          ((stream_agent-Safe i n m es h).at (record w { store = act w.store }));
  }
  stream_agent-Safe i n m (yields messages ∷ es) h =
      Safe-bind _ _ (is_cancel_requested-Safe i) λ flagged.
        Safe-if flagged _ _ (Safe-raise job_cancelled) (
          Safe-bind _ _ (set_progress-Safe law i _)
            λ _. stream_agent-Safe i (suc n) (some messages) es h)

  stage_proposal-Safe :
      (r : JobRecord) (n : ℕ) (c : AgentProposedAction) → Safe (stage_proposal r n c)
  unfolding stage_proposal save_proposal
  stage_proposal-Safe r n c = record {
    at = λ w.
        (save_proposal-Safe law lives
            (new_proposal r (new_action r n c (d.uuid4 w.uuids_drawn)) (d.clock w.clock_reads))).at
          w;
  }

  persist_each-Safe :
      (r : JobRecord) (n : ℕ) (cs : List AgentProposedAction) → Safe (persist_each r n cs)
  unfolding persist_each
  persist_each-Safe r n [] = Safe-pure []
  persist_each-Safe r n (c ∷ cs) =
      Safe-if (is_valid c) _ _
        (Safe-bind _ _ (stage_proposal-Safe r n c)
          λ a. Safe-bind _ _ (persist_each-Safe r n cs) λ as'. Safe-pure (a ∷ as'))
        (persist_each-Safe r n cs)

  pub persist_proposals-Safe : (r : JobRecord) (o : AgentOutput) → Safe (persist_proposals r o)
  unfolding persist_proposals
  persist_proposals-Safe r o =
      Safe-bind utcnow _ utcnow-Safe
        λ now. persist_each-Safe r (now + d.settings.proposal_ttl_s * 1000000) o.proposed_actions

  settle-Safe :
      (i : String) (s : JobStatus) (e : Option JobError) → Safe (transition i s none e >> pure tt)
  settle-Safe i s e = Safe-bind _ _ (transition-Safe law i s none e) λ _. Safe-pure tt

  funnel-Safe : (i : String) (r : JobRecord) (n : ℕ) (e : Failure) → Safe (funnel i r n e)
  unfolding funnel
  funnel-Safe i r n timed_out = settle-Safe i failed _
  funnel-Safe i r n job_cancelled = settle-Safe i cancelled none
  funnel-Safe i r n e =
      Safe-if (ltb n r.max_attempts) _ _ (Safe-raise retryable) (settle-Safe i failed _)

  -- The agent's runs act on the store only through the service's own operations.
  module _ (agent : DownstreamCredentials → Result Failure (List AgentEvent))
      (acts : (k : DownstreamCredentials) (es : List AgentEvent)
        → agent k ≡ ok es
        → ActsSafely es) where
    streamed :
        (i : String) (r : Result Failure (List AgentEvent))
        → ((es : List AgentEvent) → r ≡ ok es → ActsSafely es)
        → (f : String → App Unit) → ((text : String) → Safe (f text))
        → Safe ((λ w. (r, w)) >>= λ es. stream_agent i 0 none es >>= f)
    streamed i (ok es) h f k = record {
      at = (Safe-bind _ _ (stream_agent-Safe i 0 none es (h es refl)) k).at;
    }
    streamed i (err e) h f k = Safe-still (λ w. refl)

    pub attempt_run-Safe : (i : String) (r : JobRecord) → Safe (attempt_run agent i r)
    unfolding attempt_run
    attempt_run-Safe i r = Safe-bind _ _ (resolve_job_credentials-Safe r) λ k.
        streamed i (agent k) (acts k) _ λ text. Safe-bind _ _ (Safe-still (λ w. refl)) λ output.
          Safe-bind _ _ (persist_proposals-Safe r output)
            λ ps. Safe-bind _ _ (save_result-Safe law lives i _) λ _. settle-Safe i completed none

    start_run-Safe : (i : String) (n : ℕ) (b : Bool) → Safe (start_run agent i n b)
    unfolding start_run
    start_run-Safe i n true = settle-Safe i cancelled none
    start_run-Safe i n false =
        Safe-bind _ _ (transition-Safe law i running (some n) none)
          λ r. Safe-try _ _ (attempt_run-Safe i r) (funnel-Safe i r n)

    run_found-Safe : (i : String) (n : ℕ) (o : Option JobRecord) → Safe (run_found agent i n o)
    unfolding run_found
    run_found-Safe i n none = Safe-pure tt
    run_found-Safe i n (some r) =
        Safe-if (is_terminal r.status) _ _ (Safe-pure tt)
          (Safe-bind _ _ (is_cancel_requested-Safe i) (start_run-Safe i n))

    -- A delivery of a job to the worker, however it ends, changes a sound store only so.
    pub research_job-Safe : (i : String) (n : ℕ) → Safe (research_job agent i n)
    unfolding research_job run_research_job requeue
    research_job-Safe i n =
        Safe-try _ _ (Safe-bind _ _ (get_job-Safe i) (run_found-Safe i n)) requeue-Safe
      where
        requeue-Safe : (e : Failure) → Safe (requeue n e)
        requeue-Safe e = Safe-still (λ w. ground arith)

  cancel_by_status-Safe :
      (i : String) (r : JobRecord) (s : JobStatus) → Safe (cancel_by_status i r s)
  unfolding cancel_by_status
  cancel_by_status-Safe i r queued = Safe-bind _ _ (purge_token-Safe law i) λ _.
      Safe-bind _ _ (request_cancel-Safe law lives i)
        λ _. Safe-bind _ _ (transition-Safe law i cancelled none none) λ x. Safe-pure _
  cancel_by_status-Safe i r running =
      Safe-bind _ _ (purge_token-Safe law i)
        λ _. Safe-bind _ _ (request_cancel-Safe law lives i) λ _. Safe-pure _
  cancel_by_status-Safe i r _ = Safe-pure _

  pub cancel_research-Safe : (i c : String) (t : Option String) → Safe (cancel_research i c t)
  unfolding cancel_research
  cancel_research-Safe i c t =
      Safe-bind _ _ (authorized_job-Safe i c t) λ r. cancel_by_status-Safe i r r.status
