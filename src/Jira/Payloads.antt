-- ===== src/Jira/Payloads.antt =====
-- The payload schemas of app/adapters/jira.py, and what `validate_payload` makes of a payload by them.
use deep_agent_blueprint.Prelude.{
  String, Option, none, some, ◌==◌, if◌then◌else◌, lookup, then?, Dict, [], ◌∷◌,
}
use deep_agent_blueprint.Prelude.Exec.{Result, ok, err}
use deep_agent_blueprint.Json.{Json, str, obj, Fields, field, Object}
use deep_agent_blueprint.Schemas.{Failure, other_error}
use deep_agent_blueprint.Adapter.{validate_by}
use deep_agent_blueprint.Jira.Client.{Http}

pub record UpdateIssuePayload : Type 0 where
  pub issue_key : String
  pub fields : Fields

pub record AddCommentPayload : Type 0 where
  pub issue_key : String
  pub body : String

-- a field `str` with `min_length=1`
abbrev pub text_field : Option Json → Option String
text_field (some (str s)) = if s == "" then none else some s
text_field _ = none

-- a field `dict[str, Any]` with `min_length=1`
abbrev pub dict_field : Option Json → Option Fields
dict_field (some (obj (field k v fs))) = some (field k v fs)
dict_field _ = none

unfoldable pub update_issue_payload : Object → Option UpdateIssuePayload
update_issue_payload payload = then? (text_field (lookup "issue_key" payload)) λ k.
    then? (dict_field (lookup "fields" payload)) λ fs. some (record { issue_key = k; fields = fs })

unfoldable pub add_comment_payload : Object → Option AddCommentPayload
add_comment_payload payload =
    then? (text_field (lookup "issue_key" payload))
      λ k. then? (text_field (lookup "body" payload)) λ b. some (record { issue_key = k; body = b })

module _ (h : Http) where
  -- `schema.model_validate(payload)`, as the errors that it reports
  abbrev pub errors_of : {A : Type 0} → String → Object → Option A → Option Json
  errors_of action_type payload none = some (h.report action_type payload)
  errors_of action_type payload (some p) = none

  pub data Validated : Type 0 where
    update_issue : UpdateIssuePayload → Validated
    add_comment : AddCommentPayload → Validated

  unfoldable pub action_schemas : Dict (Object → Option Json)
  action_schemas =
      ("update_issue", λ payload. errors_of "update_issue" payload (update_issue_payload payload))
      ∷ ("add_comment", λ payload. errors_of "add_comment" payload (add_comment_payload payload))
      ∷ []

  -- the model that a valid payload of this action type makes
  abbrev pub model_of : String → Object → Option Validated
  model_of action_type payload =
      if action_type == "update_issue"
      then then? (update_issue_payload payload) (λ p. some (update_issue p))
      else then? (add_comment_payload payload) (λ p. some (add_comment p))

  abbrev pub with_model : Option Validated → Result Failure Unit → Result Failure Validated
  with_model m (err e) = err e
  with_model none (ok u) = err other_error
  with_model (some p) (ok u) = ok p

  -- `self.validate_payload(action.action_type, approved_payload)`, with the model that it returns
  unfoldable pub validated_payload : String → Object → Result Failure Validated
  unfolding action_schemas validate_by
  validated_payload action_type payload =
      with_model (model_of action_type payload) (validate_by action_schemas action_type payload)
