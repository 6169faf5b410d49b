-- ===== src/Agent.antt =====
-- app/agent/factory.py, app/llm/azure.py and the place in app/worker/runner.py where the agent of a run is
-- built. The harness is not in this repository: an `Agent` is what it is asked to build.
pub mod Prompts
pub mod Tiers
use Prim.Native.String.{◌++◌ as ◌<>◌}
use deep_agent_blueprint.Prelude.{
  ℕ, String, Option, none, some, List, [], ◌∷◌, ◌==◌, if◌then◌else◌, Dict, lookup, insert, then?,
}
use deep_agent_blueprint.Deps.{Settings}
use deep_agent_blueprint.Agent.Prompts.{render_research_prompt}
use deep_agent_blueprint.Worker.Concurrency.{Tool, Wrapped, cap_read_concurrency}

-- the arguments of `AzureChatOpenAI` that the settings decide
pub record ChatModel : Type 0 where
  pub azure_endpoint : String
  pub azure_deployment : String
  pub api_version : String
  pub temperature : ℕ

-- `_build`
abbrev pub build_model : Settings → String → ChatModel
build_model s deployment = record {
  azure_endpoint = s.azure_openai_endpoint;
  azure_deployment = deployment;
  api_version = s.azure_openai_api_version;
  temperature = 0;
}

abbrev pub build_llm : Settings → ChatModel
build_llm s = build_model s s.azure_openai_deployment

unfoldable pub build_fast_llm : Settings → Option ChatModel
build_fast_llm s =
    if s.azure_openai_fast_deployment == ""
    then none
    else some (build_model s s.azure_openai_fast_deployment)

pub record Subagent : Type 0 where
  pub name : String
  pub description : String
  pub system_prompt : String
  pub tools : List Wrapped
  pub model : ChatModel

-- a call of `create_deep_agent` and one of `create_agent`
pub data Agent : Type 0 where
  create_deep_agent : ChatModel → List Wrapped → String → Option (List Subagent) → Agent
  create_agent : ChatModel → List Wrapped → String → Agent

abbrev pub AgentFactory : Type 0
AgentFactory = ChatModel → List Wrapped → String → Option ChatModel → Agent

abbrev pub retriever_description : String
retriever_description =
    "Fast retrieval specialist. Delegate independent lookups here — one sub"
    <> ("-task per source or entity, launched in parallel — to fetch raw data a"
        <> ("nd return concise per-source summaries. Keep planning, cross-source sy"
            <> ("nthesis, and action proposals in the main agent.")))

abbrev pub retriever_prompt : String
retriever_prompt =
    "You retrieve and summarize; you do not plan or propose actions. Use th"
    <> ("e read-only tools to fetch exactly what the sub-task asks for, then re"
        <> ("ply with a compact structured summary: key facts, identifiers/URLs sui"
            <> ("table for citation, and the target's current state (status/version/tim"
                <> ("estamps — the caller needs these for action preconditions). No specula"
                    <> ("tion. Never include credentials or secrets.")))))

abbrev pub retriever : List Wrapped → ChatModel → Subagent
retriever tools model = record {
  name = "retriever";
  description = retriever_description;
  system_prompt = retriever_prompt;
  tools = tools;
  model = model;
}

unfoldable pub deep_agent_factory : AgentFactory
deep_agent_factory model tools instructions none = create_deep_agent model tools instructions none
deep_agent_factory model tools instructions (some fast_model) =
    create_deep_agent model tools instructions (some (retriever tools fast_model ∷ []))

unfoldable pub react_agent_factory : AgentFactory
react_agent_factory model tools instructions fast_model = create_agent model tools instructions

abbrev pub factories : Dict AgentFactory
factories = ("deepagents", deep_agent_factory) ∷ ("react", react_agent_factory) ∷ []

unfoldable pub register_agent_factory :
    String → AgentFactory → Dict AgentFactory → Dict AgentFactory
register_agent_factory name factory registry = insert name factory registry

-- `none` is a ValueError
unfoldable pub get_agent_factory : String → Dict AgentFactory → Option AgentFactory
get_agent_factory name registry = lookup name registry

-- the agent of a run, from the adapter's read tools, name, instructions and schemas (of each action
-- type, the text of its properties); `made` counts the semaphores so far, `none` is a KeyError
unfoldable pub build_agent :
    Settings → AgentFactory → List Tool → String → String → Dict String → ℕ → Option Agent × ℕ
unfolding build_fast_llm render_research_prompt
build_agent s factory read_tools name instructions schemas made =
    let (tools, made') = cap_read_concurrency read_tools s.max_concurrent_reads made in
    (
      then? (render_research_prompt name instructions schemas)
          λ prompt. some (factory (build_llm s) tools prompt (build_fast_llm s)),
      made',
    )
