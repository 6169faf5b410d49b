-- ===== src/Queue.antt =====
-- app/state/queue.py: `ArqJobQueue.enqueue_research`. arq's pool is the field `enqueue_job` of Deps;
-- the id that arq deduplicates on is "research:{job_id}".
use Prim.Native.String.{◌++◌ as ◌<>◌}
use deep_agent_blueprint.Prelude.{String}
use deep_agent_blueprint.Prelude.Exec.{Result, pure, raise, ◌>>=◌}
use deep_agent_blueprint.Schemas.{queue_unavailable}
use deep_agent_blueprint.Deps.{Deps, Enqueued, raised, duplicate, added}
use deep_agent_blueprint.App.{App}

module _ ⦃d : Deps⦄ where
  abbrev pub pool_enqueue : String → App Enqueued
  pool_enqueue arq_id w =
      let (answer, queue') = d.enqueue_job arq_id w.queue in
      (Result.ok answer, record w { queue = queue' })

  abbrev pub require_added : Enqueued → App Unit
  require_added raised = raise queue_unavailable
  require_added duplicate = raise queue_unavailable
  require_added added = pure tt

  unfoldable pub enqueue_research : String → App Unit
  enqueue_research job_id = do answer ← pool_enqueue ("research:" <> job_id); require_added answer
