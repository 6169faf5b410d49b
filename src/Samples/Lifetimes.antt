-- ===== src/Samples/Lifetimes.antt =====
-- The small service on a Redis with a clock: a result in time, and one that is late.
use deep_agent_blueprint.Prelude.{ℕ, String, Option, none, some, ◌≡◌, ◌≢◌, refl, false, [], arith}
use deep_agent_blueprint.Prelude.Exec.{err}
use deep_agent_blueprint.Schemas.{JobRecord, JobResultDoc}
use deep_agent_blueprint.Deps.{Deps, World}
use deep_agent_blueprint.Store.{result, key_in, kind_name, create_job, save_result}
use deep_agent_blueprint.Store.Reads.{raw_at, stored_job, stored_result}
use deep_agent_blueprint.Store.Contents.{saves_result}
use deep_agent_blueprint.Store.Lifetimes.Outlives.{
  Since, here, next, does, passes, job_outlives_result,
}
use deep_agent_blueprint.Store.Lifetimes.Late.{late_result}
use deep_agent_blueprint.Research.{poll_research, not_found}
use deep_agent_blueprint.Samples as Small
use deep_agent_blueprint.Samples.Timed.{ticking, ticking-IsLawful, ticking_time}

abbrev timed : Deps
timed = record Small.service { redis = ticking }

abbrev doc_1 : JobResultDoc
doc_1 = record {
  findings = record { summary = "found"; sources = []; details = [] };
  proposed_actions = [];
}

-- nothing is stored, at second `now`
abbrev empty_at : ℕ → World timed
empty_at now = record {
  store = record { now = now; entries = [] };
  queue = 0;
  target = 0;
  vault = tt;
  clock_reads = 0;
  uuids_drawn = 0;
  correlation_id = none;
  correlation_from_header = false;
}

-- the same world at another time
abbrev later : ℕ → World timed → World timed
later now w = record w { store = record w.store { now = now } }

abbrev created_world : World timed
created_world = (create_job ⦃d = timed⦄ Small.job_1 (empty_at 0)).1

abbrev saved_at : ℕ → World timed
saved_at now = (save_result ⦃d = timed⦄ "j1" doc_1 (later now created_world)).1

result_there : raw_at ⦃d = timed⦄ (later 8000 (saved_at 900)).store result "j1" ≢ none
unfolding save_result create_job key_in kind_name
result_there h = cc

-- from the creation at second 0 to a result that is saved at second 900 and read at second 8000
in_time : Since ⦃d = timed⦄ ticking_time "j1" 0 created_world (later 8000 (saved_at 900))
unfolding save_result create_job key_in kind_name
in_time =
    next
      (next (next here (passes (later 900 created_world) (omega arith, refl)))
        (does (saves_result "j1" doc_1) (λ same. omega arith)))
      (passes (later 8000 (saved_at 900)) (omega arith, refl))

job_outlives_result_example :
    (r : JobRecord) × (stored_job ⦃d = timed⦄ (later 8000 (saved_at 900)).store "j1" ≡ some r)
unfolding save_result create_job key_in kind_name
job_outlives_result_example =
    job_outlives_result ⦃d = timed⦄ ticking-IsLawful Small.settings-HasLifetimes ticking_time
      Small.job_1 (empty_at 0) (later 8000 (saved_at 900)) refl in_time result_there

late_result_example :
    (stored_result ⦃d = timed⦄ (later 9000 (saved_at 3600)).store "j1" ≡ some doc_1)
    × ((c : String) (t : Option String)
        → poll_research ⦃d = timed⦄ "j1" c t (later 9000 (saved_at 3600))
          ≡ (err (not_found ⦃d = timed⦄), later 9000 (saved_at 3600)))
unfolding save_result create_job key_in kind_name
late_result_example =
    late_result ⦃d = timed⦄ ticking-IsLawful Small.settings-HasLifetimes ticking_time Small.job_1
      doc_1 (empty_at 0) (later 3600 created_world) (later 9000 (saved_at 3600)) (omega arith, refl)
      (omega arith) (omega arith, refl) (omega arith) (omega arith)
