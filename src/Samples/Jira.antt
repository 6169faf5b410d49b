-- ===== src/Samples/Jira.antt =====
-- The Jira adapter against a small Jira, with one open issue.
use deep_agent_blueprint.Prelude.{ℕ, suc, ◌≡◌, ◌↔◌, ◌⊎◌, some, none, [], ◌∷◌, true}
use deep_agent_blueprint.Prelude.Exec.{ok}
use deep_agent_blueprint.Json.{Json, str, obj, field, end}
use deep_agent_blueprint.Schemas.{ProposedAction}
use deep_agent_blueprint.Deps.{World, PreconditionResult}
use deep_agent_blueprint.Backoff.{Response}
use deep_agent_blueprint.Execute.{execute_action}
use deep_agent_blueprint.Jira.{Http, check_preconditions}
use deep_agent_blueprint.Jira.Drift.{IsCurrent, check_preconditions_iff}
use deep_agent_blueprint.Jira.Service.{jira_service, IsReviewed, execute_action-IsReviewed}
use deep_agent_blueprint.Samples.{service, proposal_1, proposal_doc, request_1}

abbrev open_issue : Json
open_issue =
    obj (field "fields" (obj (field "status" (obj (field "name" (str "Open") end)) end)) end)

abbrev answer : Response
answer = record { status_code = 200; retry_after = none; body = some open_issue }

-- Jira as the number of writes that it has seen
abbrev pub small_jira : Http
small_jira = record {
  Site = ℕ;
  get = λ token path site. some answer;
  put = λ token path body site. (some answer, suc site);
  post = λ token path body site. (some answer, suc site);
  to_str = λ v. "";
  report = λ action_type payload. str action_type;
}

abbrev comment : ProposedAction
comment = record proposal_1.action { preconditions = ("expected_status", str "Open") ∷ [] }

abbrev as_user : deep_agent_blueprint.Deps.DownstreamCredentials
as_user = record { user_token = some "pat-1"; service_key = none }

check_preconditions_iff_example :
    ((q : PreconditionResult) × (check_preconditions small_jira comment as_user 0 ≡ ok q)
      × (q.holds ≡ true))
    ↔ IsCurrent small_jira comment (some "pat-1") 0
check_preconditions_iff_example = check_preconditions_iff small_jira comment as_user 0

-- the comment is staged, and Jira has seen no write
abbrev staged : World (jira_service small_jira "https://jira/" service)
staged = record {
  store = ("jira:proposal:a1", proposal_doc (record proposal_1 { action = comment })) ∷ [];
  queue = 0;
  target = 0;
  vault = tt;
  clock_reads = 0;
  uuids_drawn = 0;
  correlation_id = some "corr-2";
  correlation_from_header = true;
}

execute_action-IsReviewed_example :
    ((execute_action ⦃d = jira_service small_jira "https://jira/" service⦄ request_1 "chat"
        (some "pat-1")
        "key-1"
        staged).1.target
      ≡ 0)
    ⊎ IsReviewed small_jira "https://jira/" service staged request_1
        (some "pat-1")
        (execute_action ⦃d = jira_service small_jira "https://jira/" service⦄ request_1 "chat"
          (some "pat-1")
          "key-1"
          staged).1.target
execute_action-IsReviewed_example =
    execute_action-IsReviewed small_jira "https://jira/" service staged request_1 (some "pat-1")
      "chat" "key-1"
