-- ===== src/Store/Lifetimes/Outlives.antt =====
-- `_job_ttl` of app/state/redis_store.py: a job's record outlives its result.
use deep_agent_blueprint.Prelude.{
  ℕ, ◌+◌, ◌<◌, String, ◌≡◌, ◌≢◌, refl, ◌∙◌, eq_refl, true, Option, none, some, arith, is_some,
}
use deep_agent_blueprint.Schemas.{JobStatus, JobRecord, JobError, JobProgress}
use deep_agent_blueprint.Deps.{Deps, World, IsLawful, ex}
use deep_agent_blueprint.Store.{key, job, result, job_ttl, create_job, transition, set_progress}
use deep_agent_blueprint.Store.Reads.{HasLifetimes, raw_at, stored_job, raw_at-set}
use deep_agent_blueprint.Store.Contents.{Command, run}
use deep_agent_blueprint.Store.Lifetimes.{KeepsTime, deadline_at-set}
use deep_agent_blueprint.Store.Lifetimes.Writes.{IsTimely, InTime, later-IsTimely}
use deep_agent_blueprint.Store.Lifetimes.Timely.{
  run-IsTimely, transition-IsTimely, set_progress-IsTimely,
}

-- One event: an operation of the store, or time that passes. Results of job `i` are saved in time.
pub data Event ⦃d : Deps⦄ (time : KeepsTime d.redis) (i : String) (created : ℕ) (w : World d)
    : World d → Type 0 where
  does : (m : Command) → InTime time i created m w.store → Event time i created w (run m w).1
  moves :
      (j : String) (s : JobStatus) (a : Option ℕ) (e : Option JobError)
      → Event time i created w (transition j s a e w).1
  progresses : (j : String) (q : JobProgress) → Event time i created w (set_progress j q w).1
  passes : (w' : World d) → d.redis.Expires w.store w'.store → Event time i created w w'

pub data Since ⦃d : Deps⦄ (time : KeepsTime d.redis) (i : String) (created : ℕ) (w : World d)
    : World d → Type 0 where
  here : Since time i created w w
  next :
      {u v : World d}
      → Since time i created w u
      → Event time i created u v
      → Since time i created w v

module _ ⦃d : Deps⦄ (law : IsLawful d.redis) (lives : HasLifetimes d.settings)
    (time : KeepsTime d.redis) where
  Event-IsTimely :
      (i : String) (created : ℕ) {v w : World d}
      → Event time i created v w
      → IsTimely time i created v.store
      → IsTimely time i created w.store
  Event-IsTimely i created {v} (does m h) p = run-IsTimely law time i created lives m v h p
  Event-IsTimely i created {v} (moves j s a e) p =
      transition-IsTimely law time i created j s a e v p
  Event-IsTimely i created {v} (progresses j q) p = set_progress-IsTimely law time i created j q v p
  Event-IsTimely i created {v} (passes w' h) p =
      later-IsTimely law time i created v.store w'.store h p

  Since-IsTimely :
      (i : String) (created : ℕ) {v w : World d}
      → Since time i created v w
      → IsTimely time i created v.store
      → IsTimely time i created w.store
  Since-IsTimely i created here p = p
  Since-IsTimely i created (next b e) p = Event-IsTimely i created e (Since-IsTimely i created b p)

  created-IsTimely :
      (r : JobRecord) (st : d.redis.Store)
      → raw_at st result r.job_id ≡ none
      → IsTimely time r.job_id
          (time.now st)
          (d.redis.set (key job r.job_id) (d.redis.dump_job r) (ex job_ttl) st)
  created-IsTimely r st fresh =
      let v = d.redis.dump_job r in
      let live : 0 < job_ttl = omega (arith, lives.result_positive) in
      record {
        begun = omega (arith, time.now-set (key job r.job_id) v (ex job_ttl) st);
        job_lasts = λ soon.
            rw
              (
                raw_at-set law job job r.job_id r.job_id v (ex job_ttl) st live,
                deadline_at-set time job job r.job_id r.job_id v (ex job_ttl) st live,
                eq_refl r.job_id,
                law.job_roundtrip r,
                law.job_nonempty r,
              )
              (refl, (time.now st + job_ttl, refl, omega arith));
        result_ends = λ there.
            absurd
              (there (raw_at-set law job result r.job_id r.job_id v (ex job_ttl) st live ∙ fresh));
      }

  -- From the creation of a job on, through any operations of the store on any documents and any waits
  -- between them, as long as results of the job are saved at most job_timeout_s * job_max_attempts
  -- seconds after it was created: whenever a result of the job is there, its record is there too.
  pub job_outlives_result :
      (r : JobRecord) (w v : World d)
      → raw_at w.store result r.job_id ≡ none
      → Since time r.job_id (time.now w.store) (create_job r w).1 v
      → raw_at v.store result r.job_id ≢ none
      → (r' : JobRecord) × (stored_job v.store r.job_id ≡ some r')
  unfolding create_job
  job_outlives_result r w v fresh events there =
      let i = r.job_id in
      let p = Since-IsTimely i (time.now w.store) events (created-IsTimely r w.store fresh) in
      let (b, _, before, early) = p.result_ends there in
      present (stored_job v.store i) (p.job_lasts (omega arith)).0
    where
      present : (o : Option JobRecord) → is_some o ≡ true → (r' : JobRecord) × (o ≡ some r')
      present none h = cc
      present (some r') h = (r', refl)
