-- ===== src/Tools.antt =====
-- What the read tools of app/adapters/jira.py and app/adapters/websearch.py share: one request, sent by
-- `read_request_with_backoff`, and the JSON of its response. A tool returns a text or raises.
pub mod Jira
pub mod Web
pub mod Laws
use deep_agent_blueprint.Prelude.{
  ℕ, String, Bool, true, false, Option, none, some, List, if◌then◌else◌, then?,
}
use deep_agent_blueprint.Prelude.Exec.{Result, ok, err}
use deep_agent_blueprint.Json.{Json, Object}
use deep_agent_blueprint.Schemas.{Failure, other_error}
use deep_agent_blueprint.Backoff.{
  Response, Answer, returned, raised, value_error, read_request_with_backoff,
}

-- A request of a tool: a GET with its query, or a POST with its JSON body.
pub data Request : Type 0 where
  get : String → Object → Request
  post : String → Json → Request

-- The HTTP client that a tool opens, with the credentials' bearer token if it has one, against a network
-- whose state is `Net`; `none` is an exception. `is_success` is that of httpx, by which
-- `raise_for_status` raises.
pub record Client : Type 1 where
  pub Net : Type 0
  pub send : Option String → Request → Net → Option Response × Net
  pub is_success : ℕ → Bool
  pub read_delay : String → Option ℕ
  pub dumps : Json → String

-- The defaults of `read_request_with_backoff`, the delay in milliseconds.
abbrev pub max_retries : ℕ
max_retries = 3

abbrev pub base_delay : ℕ
base_delay = 500

module _ (c : Client) where
  -- `response.raise_for_status()`, then `response.json()`
  abbrev pub json_of : Answer → Option Json
  json_of raised = none
  json_of value_error = none
  json_of (returned r) = if c.is_success r.status_code then r.body else none

  abbrev pub text_of : Option String → Result Failure String
  text_of none = err other_error
  text_of (some t) = ok t

  -- a tool that sends `request` and returns what `report` makes of the response's JSON
  unfoldable pub read_tool :
      Option String → Request → (Json → Option String) → c.Net → Result Failure String × c.Net
  read_tool token request report net =
      let (answer, net') =
        read_request_with_backoff (c.send token request) c.read_delay max_retries base_delay net in
      (text_of (then? (json_of answer) report), net')
