-- ===== src/Main.antt =====
-- app/main.py: what reaches the client. `create_app` puts `CorrelationMiddleware` between the two places
-- where Starlette runs exception handlers: those of ApiError and RequestValidationError run inside it, the
-- one of Exception runs outside. app/api/health.py and `llm_configured` (app/llm/azure.py) follow.
pub mod Answers
pub mod Refusal
use deep_agent_blueprint.Prelude.{
  ℕ, String, Bool, true, false, Option, none, some, List, ◌==◌, ◌&&◌, not, if◌then◌else◌,
}
use deep_agent_blueprint.Prelude.Exec.{Result, ok, err, pure, raise, try_except, ◌>>=◌}
use deep_agent_blueprint.Json.{Json}
use deep_agent_blueprint.Schemas.{
  Failure, api_error, ErrorCode, validation_error, internal_error, Details, no_details,
  schema_errors,
}
use deep_agent_blueprint.Deps.{Deps, World, Settings}
use deep_agent_blueprint.App.{App, current_correlation_id}
use deep_agent_blueprint.Auth.{Headers, require_api_key, authenticated}
use deep_agent_blueprint.Store.{ping}
use deep_agent_blueprint.Correlation.{HeaderLines, Sent, correlation_middleware}

-- `ErrorResponse` with its status; the texts for people are left out
pub record Envelope : Type 0 where
  pub status_code : ℕ
  pub code : ErrorCode
  pub details : Details
  pub correlation_id : String

pub data Reply (A : Type 0) : Type 0 where
  answered : ℕ → A → Reply A
  refused : Envelope → Reply A

-- `checks` of GET /health and its status
pub record Health : Type 0 where
  pub redis_ok : Bool
  pub queue_depth : Option ℕ
  pub llm : Bool
  pub domain : String

unfoldable pub llm_configured : Settings → Bool
llm_configured s = not (s.azure_openai_endpoint == "") && not (s.azure_openai_deployment == "")

-- `deps.queue.depth()` raises where it is `none`, and is only asked where Redis answers.
unfoldable pub queue_depth_of : Bool → Option ℕ → Option ℕ
queue_depth_of redis_ok depth = if redis_ok then depth else none

module _ ⦃d : Deps⦄ where
  unfoldable pub error_response : ℕ → ErrorCode → Details → App Envelope
  error_response status_code code details = do
    cid ← current_correlation_id
    pure
        (record { status_code = status_code; code = code; details = details; correlation_id = cid })

  module _ {A : Type 0} where
    unfoldable pub handle_api_error : Failure → App (Reply A)
    unfolding error_response
    handle_api_error (api_error status_code code details) = do
      e ← error_response status_code code details
      pure (refused e)
    handle_api_error e = raise e

    unfoldable pub handle_validation_error : Json → App (Reply A)
    unfolding error_response
    handle_validation_error errors = do
      e ← error_response 422 validation_error (schema_errors errors)
      pure (refused e)

    -- outside the middleware, so no correlation header is added to the reply
    unfoldable pub handle_unexpected : HeaderLines → Failure → App (Sent (Reply A))
    unfolding error_response
    handle_unexpected lines exc = do
      e ← error_response 500 internal_error no_details
      pure (record { header_lines = lines; reply = refused e })

    -- a handler's result as a reply, and its ApiErrors
    unfoldable pub answer : ℕ → App A → App (Reply A)
    unfolding handle_api_error
    answer status_code handler =
        try_except (do a ← handler; pure (answered status_code a)) handle_api_error

    -- `create_app` around one endpoint
    unfoldable pub serve : HeaderLines → HeaderLines → App (Reply A) → App (Sent (Reply A))
    unfolding handle_unexpected
    serve request_lines lines app =
        try_except (correlation_middleware request_lines lines app) (handle_unexpected lines)

    -- An endpoint with a body: FastAPI runs the dependencies, then reports what is wrong with the request.
    -- A body that is no JSON, which it refuses before both, is left out.
    with_body : {B : Type 0} → ℕ → Result Json B → (B → App A) → App (Reply A)
    unfolding handle_validation_error answer
    with_body status_code (err errors) handler = handle_validation_error errors
    with_body status_code (ok b) handler = answer status_code (handler b)

    unfoldable pub endpoint :
        {B : Type 0}
        → ℕ
        → Headers
        → Result Json B
        → (B → String → Option String → App A)
        → App (Reply A)
    unfolding with_body handle_api_error
    endpoint status_code h body handler =
        try_except
          (authenticated h λ consumer_id user_token.
            with_body status_code body (λ b. handler b consumer_id user_token))
          handle_api_error

  -- GET /health; `answer` is what Redis makes of a ping, `none` an exception
  unfoldable pub health : Headers → Option Bool → Option ℕ → App (Reply Health)
  unfolding queue_depth_of llm_configured handle_api_error ping
  health h answer depth =
      try_except
        (do
          consumer_id ← require_api_key h
          let redis_ok = ping answer
          pure (
              answered (if redis_ok then 200 else 503) (record {
                redis_ok = redis_ok;
                queue_depth = queue_depth_of redis_ok depth;
                llm = llm_configured d.settings;
                domain = d.settings.domain;
              })))
        handle_api_error
