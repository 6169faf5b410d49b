-- ===== src/Store/Interleaved.antt =====
-- `RedisStore.transition` of app/state/redis_store.py beside other processes: it reads the record with one
-- GET and writes it with a later SET, and Redis may serve others in between.
use deep_agent_blueprint.Prelude.{ℕ, String, ◌≡◌, refl, arith, Option, none, some, if◌then◌else◌}
use deep_agent_blueprint.Prelude.Exec.{Result, ok, err, continue}
use deep_agent_blueprint.Schemas.{JobStatus, JobRecord, JobError, Failure, other_error}
use deep_agent_blueprint.Deps.{Deps, World}
use deep_agent_blueprint.Store.{get_job, checked_transition, transition, job, read}
use deep_agent_blueprint.Store.Reads.{raw_at}

module _ ⦃d : Deps⦄ where
  -- `transition` with an act of another process between its GET and its SET
  unfoldable pub interleaved :
      (World d → World d)
      → String
      → JobStatus
      → Option ℕ
      → Option JobError
      → World d
      → Result Failure JobRecord × World d
  interleaved other i s a e w =
      let (found, v) = get_job i w in continue found (checked_transition i s a e) (other v)

module _ ⦃d : Deps⦄ where
  -- what a GET of a job's record comes to
  found_in : Option d.redis.Raw → Result Failure (Option JobRecord)
  found_in none = ok none
  found_in (some raw) =
      if d.redis.is_empty raw then ok none else parsed_in (d.redis.validate_job raw)
    where
      parsed_in : Option JobRecord → Result Failure (Option JobRecord)
      parsed_in none = err other_error
      parsed_in (some r) = ok (some r)

  read_found :
      (raw : Option d.redis.Raw) (w : World d) → read d.redis.validate_job raw w ≡ (found_in raw, w)
  unfolding found_in
  read_found none w = refl
  read_found (some raw) w = ground arith

-- A transition during which another process leaves the job's record as it is does what it would have
-- done after that process's act.
pub interleaved_elsewhere :
    ⦃d : Deps⦄ (other : World d → World d) (i : String) (s : JobStatus) (a : Option ℕ)
    (e : Option JobError) (w : World d)
    → raw_at (other w).store job i ≡ raw_at w.store job i
    → interleaved other i s a e w ≡ transition i s a e (other w)
unfolding interleaved transition get_job
interleaved_elsewhere ⦃d⦄ other i s a e w same =
    let raw = raw_at w.store job i in
    rw (read_found raw w, read_found (raw_at (other w).store job i) (other w), same) refl
