-- ===== src/Store/Lifetimes/Late.antt =====
-- `_job_ttl` of app/state/redis_store.py: a result that is saved late outlives its job's record.
use deep_agent_blueprint.Prelude.{
  ◌+◌, ◌≤◌, ◌<◌, String, ◌≡◌, refl, ◌∙◌, eq_refl, Option, none, some, inl, arith,
}
use deep_agent_blueprint.Prelude.Exec.{err}
use deep_agent_blueprint.Schemas.{JobRecord, JobResultDoc}
use deep_agent_blueprint.Deps.{Deps, World, IsLawful, ex}
use deep_agent_blueprint.Store.{job, result, key, job_ttl, create_job, save_result}
use deep_agent_blueprint.Store.Reads.{HasLifetimes, raw_at, stored_result, raw_at-set}
use deep_agent_blueprint.Store.Lifetimes.{KeepsTime, deadline_at, deadline_at-set}
use deep_agent_blueprint.Research.{poll_research, not_found}
use deep_agent_blueprint.Research.Access.{hidden_job}

module _ ⦃d : Deps⦄ (law : IsLawful d.redis) (lives : HasLifetimes d.settings)
    (time : KeepsTime d.redis) (r : JobRecord) (doc : JobResultDoc) (w u v : World d) where
  -- A job is created, it waits, its result is saved while its record is still there, and time passes
  -- beyond the record's lifetime, which counts from the creation, but not beyond the result's, which counts
  -- from its own: then the result is there, and a poll of the job is answered by 404.
  pub late_result :
      d.redis.Expires (create_job r w).1.store u.store
      → time.now u.store < time.now w.store + job_ttl
      → d.redis.Expires (save_result r.job_id doc u).1.store v.store
      → time.now w.store + job_ttl ≤ time.now v.store
      → time.now v.store < time.now u.store + d.settings.result_ttl_s
      → (stored_result v.store r.job_id ≡ some doc)
        × ((c : String) (t : Option String) → poll_research r.job_id c t v ≡ (err not_found, v))
  unfolding create_job save_result
  late_result waits early passes late still =
      let i = r.job_id in
      let saved = (save_result i doc u).1.store in
      let dump = d.redis.dump_result doc in
      let e = ex d.settings.result_ttl_s in
      let born : deadline_at time (create_job r w).1.store job i
          ≡ some (time.now w.store + job_ttl) =
        deadline_at-set time job job i i (d.redis.dump_job r) (ex job_ttl) w.store
          (omega (arith, lives.result_positive))
        ∙ rw (eq_refl i) refl in
      let (_, aged) = time.kept (key job i) _ u.store waits born early in
      let job_ends : deadline_at time saved job i ≡ some (time.now w.store + job_ttl) =
        deadline_at-set time result job i i dump e u.store lives.result_positive ∙ aged in
      let result_ends : deadline_at time saved result i
          ≡ some (time.now u.store + d.settings.result_ttl_s) =
        deadline_at-set time result result i i dump e u.store lives.result_positive
        ∙ rw (eq_refl i) refl in
      let written : raw_at saved result i ≡ some dump =
        raw_at-set law result result i i dump e u.store lives.result_positive
        ∙ rw (eq_refl i) refl in
      let (same, _) = time.kept (key result i) saved v.store passes result_ends still in
      let gone : raw_at v.store job i ≡ none =
        time.expired (key job i) saved v.store passes job_ends late in
      (
        rw (same ∙ written, law.result_nonempty doc, law.result_roundtrip doc) refl,
        λ c t. (hidden_job i c t v (inl gone)).0,
      )
