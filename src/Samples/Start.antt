-- ===== src/Samples/Start.antt =====
-- The small service's processes: an API that was given its dependencies and one that was not, and a worker.
use deep_agent_blueprint.Prelude.{◌≡◌, ◌↔◌, Bool, true, false, [], ◌∷◌}
use deep_agent_blueprint.Prelude.Exec.{ok}
use deep_agent_blueprint.Jira.{jira_adapter}
use deep_agent_blueprint.TokenVault.{null_vault}
use deep_agent_blueprint.Agent.{deep_agent_factory}
use deep_agent_blueprint.Startup.{Resource, serves, lifespan, startup, WorkerDeps, started}
use deep_agent_blueprint.Startup.Api.{IsAbandoned, lifespan-Serves}
use deep_agent_blueprint.Startup.Consumer.{IsReady, startup-IsReady}
use deep_agent_blueprint.Samples.{settings}
use deep_agent_blueprint.Samples.Codec.{codec}
use deep_agent_blueprint.Samples.Jira.{small_jira}

abbrev never : Resource → Bool
never r = false

lifespan-Serves_example :
    (lifespan codec small_jira (Unit {0}) settings false true false never [] ≡ (ok tt, serves ∷ []))
    × IsAbandoned codec small_jira
        (Unit {0})
        settings
        (lifespan codec small_jira (Unit {0}) settings true true false never [])
lifespan-Serves_example = lifespan-Serves codec small_jira (Unit {0}) settings true false never

-- the small service's worker, with a factory that its settings may name
abbrev small_deps : WorkerDeps codec
small_deps = record {
  vault = null_vault;
  adapter = jira_adapter small_jira settings.jira_base_url;
  agent_factory = deep_agent_factory;
}

startup-IsReady_example :
    ((startup codec small_jira (Unit {0}) settings []).0 ≡ started small_deps)
    ↔ IsReady codec small_jira (Unit {0}) settings small_deps
startup-IsReady_example = startup-IsReady codec small_jira (Unit {0}) settings [] small_deps
