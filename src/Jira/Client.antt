-- ===== src/Jira/Client.antt =====
-- The client of app/adapters/jira.py: `Http` is what the adapter opens with the user's token, against a
-- Jira whose state is `Site`; a GET changes nothing there.
use deep_agent_blueprint.Prelude.{String, Option}
use deep_agent_blueprint.Json.{Json, str, Object}
use deep_agent_blueprint.Backoff.{Response}

-- `none` is an exception of the client. `to_str` is `str` of a value that is no text, and `report` what
-- pydantic says of a payload that it refuses.
pub record Http : Type 1 where
  pub Site : Type 0
  pub get : Option String → String → Site → Option Response
  pub put : Option String → String → Json → Site → Option Response × Site
  pub post : Option String → String → Json → Site → Option Response × Site
  pub to_str : Json → String
  pub report : String → Object → Json

module _ (h : Http) where
  -- a value in an f-string
  abbrev pub shown : Json → String
  shown (str s) = s
  shown v = h.to_str v
