-- ===== src/Jobs/Retries.antt =====
-- `research_job` of app/worker/main.py with app/worker/runner.py: when a delivery asks for another one.
use deep_agent_blueprint.Prelude.{
  ℕ, ltb, String, ◌≡◌, refl, Bool, true, false, Option, none, some, List, ◌⊎◌, inl, inr,
  Option-cases, Bool-cases, min, ◌^◌,
}
use deep_agent_blueprint.Prelude.Exec.{Result, ok, err, pure, handle, continue, ◌>>◌}
use deep_agent_blueprint.Schemas.{
  Failure, timed_out, job_cancelled, retryable, retry_after, other_error, JobStatus, running,
  failed, cancelled, is_terminal, JobRecord, JobError,
}
use deep_agent_blueprint.Deps.{Deps, World, DownstreamCredentials}
use deep_agent_blueprint.Store.{cancel, key, is_allowed, is_cancel_requested, transition}
use deep_agent_blueprint.Store.Reads.{stored_job}
use deep_agent_blueprint.Store.Transition.{
  moved, get_job_found, get_job_missing, transition_found, apply_transition_lem,
}
use deep_agent_blueprint.Worker.{
  AgentEvent, attempt_run, funnel, start_run, run_found, run_research_job, requeue, research_job,
}

-- the exceptions that lead to another delivery
abbrev is_retry : Failure → Bool
is_retry retryable = true
is_retry (retry_after k) = true
is_retry e = false

abbrev ErrorIn : {A : Type 0} → (Failure → Type 0) → Result Failure A → Type 0
ErrorIn Q (ok a) = Unit
ErrorIn Q (err e) = Q e

abbrev IsFinal : Failure → Type 0
IsFinal e = is_retry e ≡ false

-- attempt `n` of `limit` is not the last
abbrev MayRetry : ℕ → ℕ → Failure → Type 0
MayRetry n limit e = IsFinal e ⊎ ((e ≡ retryable) × (ltb n limit ≡ true))

module _ ⦃d : Deps⦄ where
  transition-IsFinal :
      (i : String) (s : JobStatus) (a : Option ℕ) (e : Option JobError) (w : World d)
      → ErrorIn IsFinal (transition i s a e w).0
  transition-IsFinal i s a e w = elim (Option-cases (stored_job w.store i)) [
    | inl missing ↦ elim (get_job_missing i w missing) [
      | inl absent ↦ unfold transition in rw absent refl
      | inr malformed ↦ unfold transition in rw malformed refl
    ]
    | inr (r, found) ↦ elim (Bool-cases (is_allowed r.status s)) [
      | inl legal ↦ rw (transition_found i s a e w found legal, apply_transition_lem i s a e r w) tt
      | inr illegal ↦ unfold transition in rw (get_job_found i w found) (rw illegal refl)
    ]
  ]

  settle-IsFinal :
      (i : String) (s : JobStatus) (e : Option JobError) (w : World d)
      → ErrorIn IsFinal ((transition i s none e >> pure tt) w).0
  settle-IsFinal i s e w = go (transition i s none e w) (transition-IsFinal i s none e w)
    where
      go :
          (q : Result Failure JobRecord × World d)
          → ErrorIn IsFinal q.0
          → ErrorIn {A = Unit} IsFinal (continue q.0 (λ r. pure tt) q.1).0
      go (ok r, v) h = tt
      go (err x, v) h = h

  weaken :
      {A : Type 0} (n limit : ℕ) (r : Result Failure A)
      → ErrorIn IsFinal r
      → ErrorIn (MayRetry n limit) r
  weaken n limit (ok a) h = tt
  weaken n limit (err e) h = inl h

  settle_may :
      (n limit : ℕ) (i : String) (s : JobStatus) (e : Option JobError) (w : World d)
      → ErrorIn (MayRetry n limit) ((transition i s none e >> pure tt) w).0
  settle_may n limit i s e w = weaken n limit _ (settle-IsFinal i s e w)

  funnel_may :
      (i : String) (r : JobRecord) (n : ℕ) (e : Failure) (w : World d)
      → ErrorIn (MayRetry n r.max_attempts) (funnel i r n e w).0
  unfolding funnel
  funnel_may i r n timed_out w = settle_may n r.max_attempts i failed _ w
  funnel_may i r n job_cancelled w = settle_may n r.max_attempts i cancelled none w
  funnel_may i r n e w = elim (Bool-cases (ltb n r.max_attempts)) [
    | inl more ↦ rw more (inr (refl, more))
    | inr last ↦ rw last (settle_may n r.max_attempts i failed _ w)
  ]

-- What holds of job `i` at the start of a delivery, attempt `n`, that asks for another in `k` seconds.
pub record IsRetried ⦃d : Deps⦄ (i : String) (n k : ℕ) (w : World d) : Type 0 where
  pub job : JobRecord
  pub stored : stored_job w.store i ≡ some job
  pub unfinished : is_terminal job.status ≡ false
  pub attempts_left : ltb n job.max_attempts ≡ true
  pub delay : k ≡ min (2 ^ n) 30

module _ ⦃d : Deps⦄ (agent : DownstreamCredentials → Result Failure (List AgentEvent)) (i : String)
    (n : ℕ) where
  tried :
      (r : JobRecord) (q : Result Failure Unit × World d)
      → ErrorIn (MayRetry n r.max_attempts) (handle q.0 (funnel i r n) q.1).0
  tried r (ok u, v) = tt
  tried r (err e, v) = funnel_may i r n e v

  start_may :
      (b : Bool) (w : World d) (r : JobRecord)
      → stored_job w.store i ≡ some r
      → ErrorIn (MayRetry n r.max_attempts) (start_run agent i n b w).0
  unfolding start_run
  start_may true w r found = settle_may n r.max_attempts i cancelled none w
  start_may false w r found = elim (Bool-cases (is_allowed r.status running)) [
    | inl legal ↦
        rw
          (
            transition_found i running (some n) none w found legal,
            apply_transition_lem i running (some n) none r w,
          )
          (tried (moved (d.clock w.clock_reads) running (some n) none r)
            (attempt_run agent i (moved (d.clock w.clock_reads) running (some n) none r) _))
    | inr illegal ↦ unfold transition in rw (get_job_found i w found) (rw illegal (inl refl))
  ]

  requeued :
      (limit k : ℕ) (q : Result Failure Unit × World d)
      → ErrorIn (MayRetry n limit) q.0
      → (handle q.0 (requeue n) q.1).0 ≡ err (retry_after k)
      → (ltb n limit ≡ true) × (k ≡ min (2 ^ n) 30)
  unfolding requeue
  requeued limit k (ok u, v) m h = cc
  requeued limit k (err retryable, v) (inl f) h = cc
  requeued limit k (err retryable, v) (inr (e, more)) h = (more, cc)
  requeued limit k (err x, v) (inl f) h = cc
  requeued limit k (err x, v) (inr (e, more)) h = cc

  -- A delivery asks for another one only for a stored job that was not finished and of whose attempts
  -- this was not the last, and only with the delay min(2 ^ attempt, 30).
  pub research_job-IsRetried :
      (k : ℕ) (w : World d) → (research_job agent i n w).0 ≡ err (retry_after k) → IsRetried i n k w
  unfolding research_job run_research_job run_found is_cancel_requested requeue
  research_job-IsRetried k w h = elim (Option-cases (stored_job w.store i)) [
    | inl missing ↦ elim (get_job_missing i w missing) [
      | inl absent ↦ absurd (no_retry (ok tt) refl (rw absent at h))
      | inr malformed ↦ absurd (no_retry (err other_error) refl (rw malformed at h))
    ]
    | inr (r, found) ↦ elim (Bool-cases (is_terminal r.status)) [
      | inl over ↦ absurd (no_retry (ok tt) refl (rw (get_job_found i w found, over) at h))
      | inr live ↦
          let flagged = d.redis.exists (key cancel i) w.store in
          let (more, delay) =
            requeued r.max_attempts k (start_run agent i n flagged w) (start_may flagged w r found)
              (rw (get_job_found i w found, live) at h) in
          record { job = r; stored = found; unfinished = live; attempts_left = more; delay = delay }
    ]
  ]
    where
      retries : Result Failure Unit → Bool
      retries (err (retry_after j)) = true
      retries q = false

      no_retry : (q : Result Failure Unit) → retries q ≡ false → q ≡ err (retry_after k) → ⊥
      no_retry q f h = cc
