-- ===== src/Jobs/Settled.antt =====
-- `research_job` of app/worker/main.py with app/worker/runner.py: what a delivery that returns has
-- done to its job.
use deep_agent_blueprint.Prelude.{
  ℕ, ltb, String, ◌≡◌, refl, ◌∙◌, eq_refl, Bool, true, false, Option, none, some, List, ◌⊎◌, inl,
  inr, if◌then◌else◌, Option-cases, Bool-cases,
}
use deep_agent_blueprint.Prelude.Exec.{
  Result, ok, err, pure, raise, try_except, handle, continue, ◌>>=◌, ◌>>◌,
}
use deep_agent_blueprint.Schemas.{
  Failure, timed_out, job_cancelled, retryable, JobStatus, running, completed, failed, cancelled,
  is_terminal, JobRecord, JobError,
}
use deep_agent_blueprint.Deps.{Deps, World, IsLawful, DownstreamCredentials}
use deep_agent_blueprint.App.{App}
use deep_agent_blueprint.Store.{transition}
use deep_agent_blueprint.Store.Reads.{stored_job, HasLifetimes}
use deep_agent_blueprint.Store.Transition.{
  Moves, transition_allowed, transition_atomic, get_job_found, get_job_missing,
}
use deep_agent_blueprint.Worker.{
  AgentEvent, stream_agent, attempt_run, funnel, start_run, run_found, run_research_job, requeue,
  research_job,
}
use deep_agent_blueprint.Jobs.{Safe-still, IsSound, Safe}
use deep_agent_blueprint.Jobs.Handlers.{
  ActsSafely, attempt_run-Safe, is_cancel_requested-Safe, resolve_job_credentials-Safe,
  stream_agent-Safe, persist_proposals-Safe,
}
use deep_agent_blueprint.Jobs.Writes.{transition-Safe, save_result-Safe}

module _ ⦃d : Deps⦄ (i : String) where
  -- The job is in a terminal state, or its record is gone.
  abbrev pub IsFinished : d.redis.Store → Type 0
  IsFinished st =
      (stored_job st i ≡ none)
      ⊎ ((r : JobRecord) × (stored_job st i ≡ some r) × (is_terminal r.status ≡ true))

  abbrev pub Ended : {A : Type 0} → Result Failure A → d.redis.Store → Type 0
  Ended (ok a) st = IsFinished st
  Ended (err e) st = Unit

  -- Whenever `m` returns, from a sound store, the job is finished.
  pub record Settles {A : Type 0} (m : App A) : Type 0 where
    pub at : (w : World d) → IsSound w.store → Ended (m w).0 (m w).1.store

  Settles-raise : {A : Type 0} (e : Failure) → Settles (raise {A = A} e)
  Settles-raise e = record { at = λ w s. tt }

  Settles-if :
      {A : Type 0} (b : Bool) (m n : App A) → Settles m → Settles n → Settles (if b then m else n)
  Settles-if true m n p q = p
  Settles-if false m n p q = q

  continue-Ended :
      {A B : Type 0} (f : A → App B) (r : Result Failure A) (w : World d)
      → IsSound w.store
      → ((a : A) → Settles (f a))
      → Ended (continue r f w).0 (continue r f w).1.store
  continue-Ended f (ok a) w s k = (k a).at w s
  continue-Ended f (err e) w s k = tt

  Settles-bind :
      {A B : Type 0} (m : App A) (f : A → App B)
      → Safe m
      → ((a : A) → Settles (f a))
      → Settles (m >>= f)
  Settles-bind m f p k = record {
    at = λ w s. continue-Ended f (m w).0 (m w).1 ((p.at w).sound s) k;
  }

  handle-Ended :
      {A : Type 0} (h : Failure → App A) (r : Result Failure A) (w : World d)
      → IsSound w.store
      → Ended r w.store
      → ((e : Failure) → Settles (h e))
      → Ended (handle r h w).0 (handle r h w).1.store
  handle-Ended h (ok a) w s g k = g
  handle-Ended h (err e) w s g k = (k e).at w s

  Settles-try :
      {A : Type 0} (m : App A) (h : Failure → App A)
      → Safe m
      → Settles m
      → ((e : Failure) → Settles (h e))
      → Settles (try_except m h)
  Settles-try m h p q k = record {
    at = λ w s. handle-Ended h (m w).0 (m w).1 ((p.at w).sound s) (q.at w s) k;
  }

module _ ⦃d : Deps⦄ (law : IsLawful d.redis) (i : String) where
  pub moved-IsFinished :
      (s : JobStatus) (r : JobRecord) (st st' : d.redis.Store)
      → is_terminal r.status ≡ true
      → Moves i s r st st'
      → IsFinished i st'
  moved-IsFinished s r st st' over m = inr (r, m.job_written i ∙ rw (eq_refl i) refl, over)

  settle-Settles :
      (s : JobStatus) (e : Option JobError)
      → is_terminal s ≡ true
      → Settles i (transition i s none e >> pure tt)
  settle-Settles s e over = record {
    at = λ w sound. elim (transition_atomic i s none e w) [
      | inl (r, found, legal, _) ↦
          let (returns, moves) =
            transition_allowed law i s none e w found (sound.keyed i r found) legal in
          rw returns (moved-IsFinished s _ _ _ over moves)
      | inr (x, fails) ↦ rw fails tt
    ];
  }

  funnel-Settles : (r : JobRecord) (n : ℕ) (e : Failure) → Settles i (funnel i r n e)
  unfolding funnel
  funnel-Settles r n timed_out = settle-Settles failed _ refl
  funnel-Settles r n job_cancelled = settle-Settles cancelled none refl
  funnel-Settles r n e =
      Settles-if i (ltb n r.max_attempts) _ _ (Settles-raise i retryable)
        (settle-Settles failed _ refl)

module _ ⦃d : Deps⦄ (law : IsLawful d.redis) (lives : HasLifetimes d.settings)
    (agent : DownstreamCredentials → Result Failure (List AgentEvent))
    (acts : (k : DownstreamCredentials) (es : List AgentEvent) → agent k ≡ ok es → ActsSafely es)
    (i : String) (n : ℕ) where
  streamed-Settles :
      (r : Result Failure (List AgentEvent))
      → ((es : List AgentEvent) → r ≡ ok es → ActsSafely es)
      → (f : String → App Unit) → ((text : String) → Settles i (f text))
      → Settles i ((λ w. (r, w)) >>= λ es. stream_agent i 0 none es >>= f)
  streamed-Settles (ok es) h f k = record {
    at = (Settles-bind i _ _ (stream_agent-Safe law lives i 0 none es (h es refl)) k).at;
  }
  streamed-Settles (err e) h f k = record { at = λ w s. tt }

  pub attempt_run-Settles : (r : JobRecord) → Settles i (attempt_run agent i r)
  unfolding attempt_run
  attempt_run-Settles r = Settles-bind i _ _ (resolve_job_credentials-Safe r) λ k.
      streamed-Settles (agent k) (acts k) _ λ text.
        Settles-bind i _ _ (Safe-still (λ w. refl)) λ output.
          Settles-bind i _ _ (persist_proposals-Safe law lives r output) λ ps.
            Settles-bind i _ _ (save_result-Safe law lives i _)
              λ _. settle-Settles law i completed none refl

  start_run-Settles : (b : Bool) → Settles i (start_run agent i n b)
  unfolding start_run
  start_run-Settles true = settle-Settles law i cancelled none refl
  start_run-Settles false = Settles-bind i _ _ (transition-Safe law i running (some n) none) λ r.
      Settles-try i _ _ (attempt_run-Safe law lives agent acts i r) (attempt_run-Settles r)
        (funnel-Settles law i r n)

  run-Ended :
      (w : World d)
      → IsSound w.store
      → Ended i (run_research_job agent i n w).0 (run_research_job agent i n w).1.store
  unfolding run_research_job run_found
  run-Ended w s = elim (Option-cases (stored_job w.store i)) [
    | inl missing ↦ elim (get_job_missing i w missing) [
      | inl absent ↦ rw absent (inl missing)
      | inr malformed ↦ rw malformed tt
    ]
    | inr (r, found) ↦ elim (Bool-cases (is_terminal r.status)) [
      | inl over ↦ rw (get_job_found i w found) (rw over (inr (r, found, over)))
      | inr live ↦
          rw (get_job_found i w found)
            (rw live ((Settles-bind i _ _ (is_cancel_requested-Safe i) start_run-Settles).at w s))
    ]
  ]

  -- When a delivery to the worker returns without an exception, from a sound store and whatever other
  -- operations do during the agent's run, the job's record is in a terminal state or there is none.
  pub research_job-IsFinished :
      (w : World d)
      → IsSound w.store
      → (research_job agent i n w).0 ≡ ok tt
      → IsFinished i (research_job agent i n w).1.store
  unfolding research_job requeue
  research_job-IsFinished w s h = returned (run_research_job agent i n w) (run-Ended w s) h
    where
      returned :
          (q : Result Failure Unit × World d)
          → Ended i q.0 q.1.store
          → (handle q.0 (requeue n) q.1).0 ≡ ok tt
          → IsFinished i (handle q.0 (requeue n) q.1).1.store
      returned (ok u, v) e h = e
      returned (err retryable, v) e h = cc
      returned (err x, v) e h = cc
