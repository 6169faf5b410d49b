-- ===== src/Samples/Agents.antt =====
-- The agent of a run of the small service, which has no fast model.
use deep_agent_blueprint.Prelude.{String, ◌≡◌, ◌≢◌, ◌⊎◌, none, some, [], ◌∷◌}
use deep_agent_blueprint.Worker.Concurrency.{coroutine, plain}
use deep_agent_blueprint.Agent.{AgentFactory, factories, get_agent_factory}
use deep_agent_blueprint.Agent.Tiers.{Builds, build_agent-IsForRun}
use deep_agent_blueprint.Samples.{settings}

abbrev harness : String
harness = "react"

build_agent-IsForRun_example :
    ((f : AgentFactory) × (get_agent_factory harness factories ≡ some f)
      × Builds settings (coroutine 1 ∷ plain 2 ∷ []) "jira" "Use JQL." [] 0 f)
    ⊎ ((get_agent_factory harness factories ≡ none)
        × (harness ≢ "deepagents")
        × (harness ≢ "react"))
build_agent-IsForRun_example =
    build_agent-IsForRun settings (coroutine 1 ∷ plain 2 ∷ []) "jira" "Use JQL." [] 0 harness
