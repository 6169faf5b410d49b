-- ===== src/Jobs/Redelivery.antt =====
-- The deliveries of one job to `research_job` (app/worker/main.py): after every `Retry` arq delivers the
-- job again, with `job_try` counted up, as long as `max_tries` allows.
use deep_agent_blueprint.Prelude.{
  ℕ, zero, suc, ◌+◌, ◌-◌, ◌≤◌, ltb, String, ◌≡◌, refl, Bool, true, false, Option, none, some, List,
  ◌⊎◌, inl, inr, if◌then◌else◌, Bool-cases, arith,
}
use deep_agent_blueprint.Prelude.Exec.{Result, ok, err}
use deep_agent_blueprint.Schemas.{Failure, retry_after, JobRecord, ResearchRequest}
use deep_agent_blueprint.Deps.{Deps, World, IsLawful, DownstreamCredentials}
use deep_agent_blueprint.Store.Reads.{stored_job, HasLifetimes}
use deep_agent_blueprint.Research.{submit_research}
use deep_agent_blueprint.Worker.{AgentEvent, research_job}
use deep_agent_blueprint.Jobs.{IsSound, Changes, Changes-trans, Evolves-limited}
use deep_agent_blueprint.Jobs.Handlers.{ActsSafely, research_job-Safe}
use deep_agent_blueprint.Jobs.Submission.{submit_research-Adds}
use deep_agent_blueprint.Jobs.Settled.{IsFinished}
use deep_agent_blueprint.Jobs.LastAttempt.{AsksAgain, research_job-Concludes}

abbrev pub asks_again : Result Failure Unit → Bool
asks_again (err (retry_after k)) = true
asks_again _ = false

-- `WorkerSettings.max_tries`
abbrev pub max_tries : ⦃d : Deps⦄ → ℕ
max_tries ⦃d⦄ = d.settings.job_max_attempts

-- The agent of each attempt, and what happens to the world between two deliveries.
module _ ⦃d : Deps⦄ (agents : ℕ → DownstreamCredentials → Result Failure (List AgentEvent))
    (between : ℕ → World d → World d) (i : String) where
  -- Deliveries from attempt `n` on, up to `fuel` of them; `none` is a job that is still delivered then.
  unfoldable pub deliveries : ℕ → ℕ → World d → Option (World d)
  deliveries zero n w = none
  deliveries (suc fuel) n w =
      let (r, v) = research_job (agents n) i n w in
      let rest = deliveries fuel (suc n) (between n v) in
      if asks_again r then (if ltb n max_tries then rest else some v) else some v

abbrev pub IsLimited : ⦃d : Deps⦄ → String → d.redis.Store → Type 0
IsLimited i st = (r : JobRecord) → stored_job st i ≡ some r → r.max_attempts ≤ max_tries

module _ ⦃d : Deps⦄ (law : IsLawful d.redis) (lives : HasLifetimes d.settings)
    (agents : ℕ → DownstreamCredentials → Result Failure (List AgentEvent))
    (acts : (n : ℕ) (k : DownstreamCredentials) (es : List AgentEvent)
      → agents n k ≡ ok es
      → ActsSafely es)
    (between : ℕ → World d → World d)
    (safely : (n : ℕ) (w : World d) → Changes w.store (between n w).store) (i : String) where
  module _ (n : ℕ) (w : World d) (s : IsSound w.store) (limited : IsLimited i w.store) where
    -- the state in which the next delivery starts
    later : World d
    later = between n (research_job (agents n) i n w).1

    later-Changes : Changes w.store later.store
    unfolding later
    later-Changes =
        Changes-trans w.store (research_job (agents n) i n w).1.store _
          ((research_job-Safe law lives (agents n) (acts n) i n).at w)
          (safely n (research_job (agents n) i n w).1)

    -- A delivery that arq does not follow by another one has finished the job.
    resolved :
        (rest : Option (World d)) (q : Result Failure Unit × World d) {k : ℕ}
        → IsFinished i q.1.store ⊎ AsksAgain i n w q.0 (retry_after k)
        → (ltb n max_tries ≡ true → (v : World d) × (rest ≡ some v) × IsFinished i v.store)
        → (v : World d) × ((if asks_again q.0
              then (if ltb n max_tries then rest else some q.1)
              else some q.1)
            ≡ some v)
          × IsFinished i v.store
    resolved rest (q, u) concluded next = elim (Bool-cases (asks_again q)) [
      | inr silent ↦
          rw silent (u, refl, elim concluded [ inl over ↦ over | inr (r, found, more, asks) ↦ cc ])
      | inl asks ↦ elim (Bool-cases (ltb n max_tries)) [
        | inl more ↦ rw (asks, more) (next more)
        | inr last ↦
            rw (asks, last)
              (
                u,
                refl,
                elim concluded [
                  | inl over ↦ over
                  | inr (r, found, more, _) ↦ absurd (ground (arith, limited r found))
                ],
              )
      ]
    ]

  -- A job with at most as many attempts as the settings say, from a sound store and whatever happens to
  -- the store during a run and between two deliveries, is delivered at most as often as its attempts
  -- are left: the deliveries come to an end, and then the job is in a terminal state or without a
  -- record. arq's own limit on tries never ends a job that is not finished.
  pub deliveries-IsFinished :
      (fuel n : ℕ) (w : World d)
      → IsSound w.store
      → IsLimited i w.store
      → max_tries ≤ n + fuel
      → (v : World d) × (deliveries agents between i (suc fuel) n w ≡ some v) × IsFinished i v.store
  unfolding deliveries later
  deliveries-IsFinished zero n w s limited enough =
      resolved n w s limited none (research_job (agents n) i n w)
        (research_job-Concludes law lives (agents n) (acts n) i n w s) λ more. absurd (ground arith)
  deliveries-IsFinished (suc fuel) n w s limited enough =
      let changed = later-Changes n w s limited in
      resolved n w s limited _ (research_job (agents n) i n w)
        (research_job-Concludes law lives (agents n) (acts n) i n w s)
        λ more.
          deliveries-IsFinished fuel (suc n) (later n w s limited) (changed.sound s)
            (Evolves-limited max_tries i _ _ (changed.evolves s i) limited) (ground arith)

  -- After any submission under a fresh job id, whether it succeeds or not, and as long as what other
  -- processes do during the runs and between the deliveries creates no job, keeps a sound store sound,
  -- and keeps finished jobs and numbers of attempts as they are, job_max_attempts deliveries at most are
  -- made of the job (one, where that is 0), and they leave it in a terminal status or without a readable
  -- record, whatever each attempt's agent does.
  pub submitted-IsFinished :
      (body : ResearchRequest) (c : String) (t : Option String) (w : World d)
      → IsSound w.store
      → d.uuid4 w.uuids_drawn ≡ i
      → stored_job w.store i ≡ none
      → (v : World d) × (deliveries agents between i
            (suc (max_tries - 1))
            1
            (submit_research body c t w).1
          ≡ some v)
        × IsFinished i v.store
  submitted-IsFinished body c t w s own fresh =
      let adds = rw own at (submit_research-Adds law lives body c t w) in
      deliveries-IsFinished (max_tries - 1) 1 (submit_research body c t w).1 (adds.sound s fresh)
        (λ r found. omega (arith, adds.limited s fresh r found)) (omega arith)
