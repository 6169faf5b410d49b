-- ===== src/Samples/Front.antt =====
-- Requests as they come in and the replies that go out.
use deep_agent_blueprint.Prelude.{ℕ, suc, String, ◌≡◌, ◌≢◌, refl, Option, none, some, [], ◌∷◌, inr}
use deep_agent_blueprint.Prelude.Exec.{Result, ok, err, raise}
use deep_agent_blueprint.Json.{Json}
use deep_agent_blueprint.Schemas.{
  ExecuteRequest, ExecuteResponse, other_error, invalid_api_key, no_details,
}
use deep_agent_blueprint.App.{App, current}
use deep_agent_blueprint.Auth.{Headers, verify_api_key}
use deep_agent_blueprint.Execute.{execute_action}
use deep_agent_blueprint.Correlation.{
  Context, HeaderLines, supplied_id, Sent, entered, correlation_middleware,
}
use deep_agent_blueprint.Correlation.Header.{
  IsUnsupplied, traced, CarriesOnly, Relays, correlation_middleware-Relays,
}
use deep_agent_blueprint.Main.{Reply, refused, answer, serve, endpoint}
use deep_agent_blueprint.Main.Answers.{Delivered, serve-Delivered}
use deep_agent_blueprint.Main.Refusal.{Untouched, serve-IsUnknown}
use deep_agent_blueprint.Samples.{service, start, request_1}

abbrev job_scope : Context
job_scope = record {
  correlation_id = some "corr-1";
  request_id = none;
  job_id = some "j1";
  action_id = none;
  consumer_id = some "chat";
}

abbrev leave_alone : Context × ℕ → ℕ × (Context × ℕ)
leave_alone (c, n) = (n, (c, suc n))

abbrev request_lines : HeaderLines
request_lines = ("accept", "*/*") ∷ ("x-correlation-id", "corr-9") ∷ []

abbrev lines : HeaderLines
lines = ("content-type", "application/json") ∷ []

-- a handler with a bug
abbrev broken : App ⦃d = service⦄ ExecuteResponse
broken = raise other_error

correlation_middleware-Relays_example :
    let after = (broken (entered ⦃d = service⦄ request_lines start)).1 in
    let (q, left) = correlation_middleware ⦃d = service⦄ request_lines lines broken start in
    ((v : String)
      → supplied_id request_lines ≡ some v
      → v ≢ ""
      → current ⦃d = service⦄ (entered ⦃d = service⦄ request_lines start) ≡ v)
    × (IsUnsupplied request_lines
        → current ⦃d = service⦄ (entered ⦃d = service⦄ request_lines start)
          ≡ service.uuid4 start.uuids_drawn)
    × Relays ⦃d = service⦄ request_lines lines broken start
        (broken (entered ⦃d = service⦄ request_lines start)).0
        after
        q
    × (left.correlation_id ≡ start.correlation_id)
    × (left.correlation_from_header ≡ start.correlation_from_header)
    × (left.store ≡ after.store)
    × (left.target ≡ after.target)
correlation_middleware-Relays_example =
    correlation_middleware-Relays ⦃d = service⦄ request_lines lines broken start

serve-Delivered_example :
    (s : Sent (Reply ExecuteResponse)) × ((serve ⦃d = service⦄ request_lines lines
        (answer ⦃d = service⦄ 200 broken)
        start).0
      ≡ ok s)
    × Delivered ⦃d = service⦄ request_lines lines 200 broken start
        (err other_error)
        (entered ⦃d = service⦄ request_lines start)
        s
serve-Delivered_example = serve-Delivered ⦃d = service⦄ request_lines lines 200 broken start

abbrev stranger : Headers
stranger = record { api_key = some "secret-9"; user_token = some "pat-1" }

abbrev act : ExecuteRequest → String → Option String → App ⦃d = service⦄ ExecuteResponse
act body consumer_id user_token = execute_action ⦃d = service⦄ body consumer_id user_token "key-1"

abbrev well_formed : Result Json ExecuteRequest
well_formed = ok request_1

no_consumer : verify_api_key "secret-9" service.settings.api_keys ≡ none
unfolding verify_api_key
no_consumer = refl

serve-IsUnknown_example :
    let (q, v) =
      serve ⦃d = service⦄ request_lines lines
        (endpoint ⦃d = service⦄ 200 stranger well_formed act)
        start in
    ((s : Sent (Reply ExecuteResponse)) × (q ≡ ok s)
      × (s.reply
          ≡ refused (record {
            status_code = 401;
            code = invalid_api_key;
            details = no_details;
            correlation_id = traced ⦃d = service⦄ request_lines start;
          }))
      × CarriesOnly (traced ⦃d = service⦄ request_lines start) lines s.header_lines)
    × Untouched ⦃d = service⦄ start v
serve-IsUnknown_example =
    serve-IsUnknown ⦃d = service⦄ request_lines lines start 200 stranger well_formed act
      (inr ("secret-9", refl, no_consumer))
