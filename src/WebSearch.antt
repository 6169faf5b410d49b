-- ===== src/WebSearch.antt =====
-- app/adapters/websearch.py: `WebSearchAdapter`, and the registry of adapters of app/adapters/__init__.py.
-- `Site` is the state of the search service, which no call of the adapter's mutation contract changes.
pub mod Service
use deep_agent_blueprint.Prelude.{String, Option, none, some, [], ◌∷◌, Dict, lookup, then?}
use deep_agent_blueprint.Prelude.Exec.{Result, ok, err}
use deep_agent_blueprint.Schemas.{Failure, unsupported, ProposedAction}
use deep_agent_blueprint.Deps.{
  Settings, DomainAdapter, DownstreamCredentials, service_credential, PreconditionResult,
  ExecutionResult,
}
use deep_agent_blueprint.Jira.{Http, jira_adapter}

abbrev service_credentials : String → DownstreamCredentials
service_credentials api_key = record { user_token = none; service_key = some api_key }

abbrev check_unsupported : ProposedAction → Result Failure PreconditionResult
check_unsupported action = err (unsupported action.action_type)

abbrev execute_unsupported : ProposedAction → Result Failure ExecutionResult
execute_unsupported action = err (unsupported action.action_type)

abbrev pub websearch_adapter : Type 0 → String → DomainAdapter
websearch_adapter Site api_key = record {
  Target = Site;
  name = "websearch";
  auth_mode = service_credential;
  action_schemas = [];
  editable_fields = λ action_type. [];
  check_preconditions = λ action credentials site. check_unsupported action;
  execute = λ action approved credentials site. (execute_unsupported action, site);
  service_credentials = ok (service_credentials api_key);
}

module _ (h : Http) (Site : Type 0) where
  abbrev build_jira : Settings → DomainAdapter
  build_jira settings = jira_adapter h settings.jira_base_url

  abbrev build_websearch : Settings → DomainAdapter
  build_websearch settings = websearch_adapter Site settings.websearch_api_key

  abbrev adapter_builders : Dict (Settings → DomainAdapter)
  adapter_builders = ("jira", build_jira) ∷ ("websearch", build_websearch) ∷ []

  -- `none` is the ValueError
  unfoldable pub build_adapter : Settings → Option DomainAdapter
  build_adapter settings =
      then? (lookup settings.domain adapter_builders) λ build. some (build settings)
