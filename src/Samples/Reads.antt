-- ===== src/Samples/Reads.antt =====
-- The read tools of the Jira adapter, and the service in the web search domain.
use deep_agent_blueprint.Prelude.{ℕ, zero, suc, ◌≡◌, refl, Option, some, none, [], ◌∷◌, true}
use deep_agent_blueprint.Prelude.Exec.{ok}
use deep_agent_blueprint.Json.{Json, str, arr, obj, field, end, cons, nil}
use deep_agent_blueprint.Schemas.{AgentProposedAction}
use deep_agent_blueprint.Deps.{Settings, DomainAdapter, World}
use deep_agent_blueprint.Backoff.{Response}
use deep_agent_blueprint.Adapter.{resolve_credentials}
use deep_agent_blueprint.Execute.{execute_action}
use deep_agent_blueprint.Worker.{persist_each}
use deep_agent_blueprint.Tools.{Client}
use deep_agent_blueprint.WebSearch.{websearch_adapter, build_adapter}
use deep_agent_blueprint.WebSearch.Service.{websearch_service, websearch_reads_only}
use deep_agent_blueprint.Samples.{service, settings, job_1, proposal_1, request_1, proposal_doc}
use deep_agent_blueprint.Samples.Jira.{small_jira}

abbrev one_issue : Json
one_issue = obj (
    field "issues" (arr (cons (obj (field "key" (str "P-1") (field "fields" (obj end) end))) nil))
      end)

-- a Jira that is busy for the first request
abbrev busy_first : ℕ → Option Response × ℕ
busy_first zero = (some (record { status_code = 503; retry_after = none; body = none }), 1)
busy_first (suc n) =
    (some (record { status_code = 200; retry_after = none; body = some one_issue }), suc (suc n))

abbrev client : Client
client = record {
  Net = ℕ;
  send = λ token request n. busy_first n;
  is_success = λ n. true;
  read_delay = λ t. none;
  dumps = λ j. "issues";
}

abbrev candidate : AgentProposedAction
candidate = record {
  action_type = "add_comment";
  target = [];
  payload = proposal_1.action.payload;
  preview = "comment";
  preconditions = [];
}

-- a proposal that some other service has left in the store
abbrev web_start : World (websearch_service ℕ "tavily-1" service)
web_start = record {
  store = ("jira:proposal:a1", proposal_doc proposal_1) ∷ [];
  queue = 0;
  target = 0;
  vault = tt;
  clock_reads = 0;
  uuids_drawn = 0;
  correlation_id = some "corr-2";
  correlation_from_header = true;
}

websearch_reads_only_example :
    (persist_each ⦃d = websearch_service ℕ "tavily-1" service⦄ job_1 5 (candidate ∷ []) web_start
      ≡ (ok [], web_start))
    × ((execute_action ⦃d = websearch_service ℕ "tavily-1" service⦄ request_1 "chat"
          (some "pat-1")
          "key-1"
          web_start).1.target
        ≡ 0)
    × (resolve_credentials (websearch_adapter ℕ "tavily-1") (some "pat-1")
        ≡ ok (record { user_token = none; service_key = some "tavily-1" }))
websearch_reads_only_example =
    websearch_reads_only ℕ "tavily-1" service job_1 5 (candidate ∷ []) web_start request_1 "chat"
      (some "pat-1") "key-1"

abbrev web_settings : Settings
web_settings = record settings { domain = "websearch" }

abbrev web_adapter : DomainAdapter
web_adapter = websearch_adapter ℕ ""

web_built : build_adapter small_jira ℕ web_settings ≡ some web_adapter
unfolding build_adapter
web_built = refl
