-- ===== src/Jobs/LastAttempt.antt =====
-- `research_job` of app/worker/main.py with app/worker/runner.py: the last attempt at a job.
use deep_agent_blueprint.Prelude.{
  ℕ, ◌⊎◌, min, ◌^◌, ltb, String, ◌≡◌, refl, Bool, true, false, Option, none, some, List, inl, inr,
  Option-cases, Bool-cases,
}
use deep_agent_blueprint.Prelude.Exec.{Result, ok, err, pure, handle, ◌>>◌}
use deep_agent_blueprint.Schemas.{
  Failure, timed_out, job_cancelled, retryable, retry_after, JobStatus, queued, running, completed,
  failed, cancelled, is_terminal, JobRecord, JobError,
}
use deep_agent_blueprint.Deps.{Deps, World, IsLawful, DownstreamCredentials}
use deep_agent_blueprint.Store.{key, cancel, is_allowed, is_cancel_requested, transition}
use deep_agent_blueprint.Store.Reads.{stored_job, HasLifetimes}
use deep_agent_blueprint.Store.Transition.{
  moved, transition_allowed, get_job_found, get_job_missing,
}
use deep_agent_blueprint.Worker.{
  AgentEvent, attempt_run, funnel, start_run, run_found, run_research_job, requeue, research_job,
}
use deep_agent_blueprint.Jobs.{IsSound}
use deep_agent_blueprint.Jobs.Handlers.{ActsSafely, attempt_run-Safe}
use deep_agent_blueprint.Jobs.Writes.{transition-Safe}
use deep_agent_blueprint.Jobs.Settled.{IsFinished, Ended, moved-IsFinished, attempt_run-Settles}

-- A status that a job may always be given: a job that may not take it is finished.
abbrev IsEnd : JobStatus → Type 0
IsEnd failed = Unit
IsEnd cancelled = Unit
IsEnd s = ⊥

refused_end : (a b : JobStatus) → IsEnd b → is_allowed a b ≡ false → is_terminal a ≡ true
unfolding is_allowed
refused_end queued failed e h = cc
refused_end queued cancelled e h = cc
refused_end running failed e h = cc
refused_end running cancelled e h = cc
refused_end completed b e h = refl
refused_end failed b e h = refl
refused_end cancelled b e h = refl
refused_end a b e h = elim e [ ]

refused_start : (a : JobStatus) → is_allowed a running ≡ false → is_terminal a ≡ true
unfolding is_allowed
refused_start queued h = cc
refused_start running h = cc
refused_start a h = refl

module _ ⦃d : Deps⦄ (law : IsLawful d.redis) (i : String) where
  -- Ending a job that way leaves it finished, whether the transition succeeds or not.
  settle-IsFinished :
      (s : JobStatus) (e : Option JobError) (w : World d)
      → IsEnd s
      → is_terminal s ≡ true
      → IsSound w.store
      → IsFinished i ((transition i s none e >> pure tt) w).1.store
  settle-IsFinished s e w end over sound = elim (Option-cases (stored_job w.store i)) [
    | inl missing ↦ elim (get_job_missing i w missing) [
      | inl absent ↦ unfold transition in rw absent (inl missing)
      | inr malformed ↦ unfold transition in rw malformed (inl missing)
    ]
    | inr (r, found) ↦ elim (Bool-cases (is_allowed r.status s)) [
      | inl legal ↦
          let (returns, moves) =
            transition_allowed law i s none e w found (sound.keyed i r found) legal in
          rw returns (moved-IsFinished law i s _ _ _ over moves)
      | inr illegal ↦
          unfold transition in
          rw (get_job_found i w found)
            (rw illegal (inr (r, found, refused_end r.status s end illegal)))
    ]
  ]

  -- What a run of attempt `n` comes to: the job is finished, or it was not the last of `limit`
  -- attempts and another one is asked for.
  abbrev Concluded : ℕ → ℕ → Result Failure Unit × World d → Type 0
  Concluded n limit q = IsFinished i q.1.store ⊎ ((q.0 ≡ err retryable) × (ltb n limit ≡ true))

  funnel-Concluded :
      (r : JobRecord) (n : ℕ) (e : Failure) (w : World d)
      → IsSound w.store
      → Concluded n r.max_attempts (funnel i r n e w)
  unfolding funnel
  funnel-Concluded r n timed_out w s = inl (settle-IsFinished failed _ w tt refl s)
  funnel-Concluded r n job_cancelled w s = inl (settle-IsFinished cancelled none w tt refl s)
  funnel-Concluded r n e w s = elim (Bool-cases (ltb n r.max_attempts)) [
    | inl more ↦ rw more (inr (refl, refl))
    | inr last ↦ rw last (inl (settle-IsFinished failed _ w tt refl s))
  ]

-- Attempt `n` at job `i`, made in `w`, ends with the exception `e`, on behalf of a stored job of which it
-- was not the last attempt.
abbrev pub AsksAgain : ⦃d : Deps⦄ → String → ℕ → World d → Result Failure Unit → Failure → Type 0
AsksAgain i n w q e =
    (r : JobRecord) × (stored_job w.store i ≡ some r) × (ltb n r.max_attempts ≡ true) × (q ≡ err e)

module _ ⦃d : Deps⦄ (law : IsLawful d.redis) (lives : HasLifetimes d.settings)
    (agent : DownstreamCredentials → Result Failure (List AgentEvent))
    (acts : (k : DownstreamCredentials) (es : List AgentEvent) → agent k ≡ ok es → ActsSafely es)
    (i : String) (n : ℕ) where
  tried-Concluded :
      (r : JobRecord) (q : Result Failure Unit × World d)
      → IsSound q.1.store
      → Ended i q.0 q.1.store
      → Concluded law i n r.max_attempts (handle q.0 (funnel i r n) q.1)
  tried-Concluded r (ok u, v) s e = inl e
  tried-Concluded r (err x, v) s e = funnel-Concluded law i r n x v s

  start-Concluded :
      (b : Bool) (w : World d) (r : JobRecord)
      → IsSound w.store
      → stored_job w.store i ≡ some r
      → Concluded law i n r.max_attempts (start_run agent i n b w)
  unfolding start_run
  start-Concluded true w r s found = inl (settle-IsFinished law i cancelled none w tt refl s)
  start-Concluded false w r s found = elim (Bool-cases (is_allowed r.status running)) [
    | inr illegal ↦
        unfold transition in
        rw (get_job_found i w found)
          (rw illegal (inl (inr (r, found, refused_start r.status illegal))))
    | inl legal ↦
        let r' = moved (d.clock w.clock_reads) running (some n) none r in
        let v = (transition i running (some n) none w).1 in
        let safe = attempt_run-Safe law lives agent acts i r' in
        let sound = ((transition-Safe law i running (some n) none).at w).sound s in
        rw ((transition_allowed law i running (some n) none w found (s.keyed i r found) legal).0) (
          tried-Concluded r' (attempt_run agent i r' v) ((safe.at v).sound sound)
            ((attempt_run-Settles law lives agent acts i n r').at v sound))
  ]

  run-Concluded :
      (w : World d)
      → IsSound w.store
      → IsFinished i (run_research_job agent i n w).1.store
        ⊎ AsksAgain i n w (run_research_job agent i n w).0 retryable
  unfolding run_research_job run_found is_cancel_requested
  run-Concluded w s = elim (Option-cases (stored_job w.store i)) [
    | inl missing ↦ elim (get_job_missing i w missing) [
      | inl absent ↦ rw absent (inl (inl missing))
      | inr malformed ↦ rw malformed (inl (inl missing))
    ]
    | inr (r, found) ↦ elim (Bool-cases (is_terminal r.status)) [
      | inl over ↦ rw (get_job_found i w found) (rw over (inl (inr (r, found, over))))
      | inr live ↦ rw (get_job_found i w found) (
          let flagged = d.redis.exists (key cancel i) w.store in
          rw live
            (told (start_run agent i n flagged w) r found (start-Concluded flagged w r s found)))
    ]
  ]
    where
      told :
          (q : Result Failure Unit × World d) (r : JobRecord)
          → stored_job w.store i ≡ some r
          → Concluded law i n r.max_attempts q
          → IsFinished i q.1.store ⊎ AsksAgain i n w q.0 retryable
      told q r found (inl over) = inl over
      told q r found (inr (asks, more)) = inr (r, found, more, asks)

  requeue-Concluded :
      (w : World d) (q : Result Failure Unit × World d)
      → IsFinished i q.1.store ⊎ AsksAgain i n w q.0 retryable
      → IsFinished i (handle q.0 (requeue n) q.1).1.store
        ⊎ AsksAgain i n w (handle q.0 (requeue n) q.1).0 (retry_after (min (2 ^ n) 30))
  unfolding requeue
  requeue-Concluded w (ok u, v) (inl f) = inl f
  requeue-Concluded w (err retryable, v) (inl f) = inl f
  requeue-Concluded w (err x, v) (inl f) = inl f
  requeue-Concluded w (q, v) (inr (r, found, more, asks)) = rw asks (inr (r, found, more, refl))

  -- From a sound store, and as long as what other processes do during the agent's run creates no job,
  -- keeps a sound store sound, and keeps finished jobs and numbers of attempts as they are, a delivery
  -- leaves the job in a terminal status or without a readable record, or it asks for another one, in
  -- min(2 ^ attempt, 30) seconds, for a stored job of whose attempts this was not the last.
  pub research_job-Concludes :
      (w : World d)
      → IsSound w.store
      → IsFinished i (research_job agent i n w).1.store
        ⊎ AsksAgain i n w (research_job agent i n w).0 (retry_after (min (2 ^ n) 30))
  unfolding research_job
  research_job-Concludes w s =
      requeue-Concluded w (run_research_job agent i n w) (run-Concluded w s)

  -- The last attempt at a job, however it goes (a result, an error, a timeout, a cancellation, a store
  -- that refuses a step), leaves the job in a terminal state or without a record: no job stays
  -- queued or running once its attempts are used up.
  pub last_attempt-IsFinished :
      (w : World d)
      → IsSound w.store
      → ((r : JobRecord) → stored_job w.store i ≡ some r → ltb n r.max_attempts ≡ false)
      → IsFinished i (research_job agent i n w).1.store
  last_attempt-IsFinished w s last = elim (research_job-Concludes w s) [
    | inl over ↦ over
    | inr (r, found, more, _) ↦ cc (last r found)
  ]
