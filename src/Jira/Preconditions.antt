-- ===== src/Jira/Preconditions.antt =====
-- `JiraAdapter.check_preconditions` (app/adapters/jira.py).
use Prim.Native.String.{◌++◌ as ◌<>◌}
use deep_agent_blueprint.Prelude.{
  String, true, false, Option, none, some, [], ◌∷◌, eqb, leb, not, if◌then◌else◌, lookup, then?,
}
use deep_agent_blueprint.Prelude.Exec.{Result, ok, err}
use deep_agent_blueprint.Json.{
  Json, null, str, Fields, end, Object, get_field, get_or_null, as_fields, truthy, json_eq,
}
use deep_agent_blueprint.Schemas.{Failure, downstream_failure, other_error, ProposedAction}
use deep_agent_blueprint.Deps.{DownstreamCredentials, PreconditionResult}
use deep_agent_blueprint.Backoff.{Response}
use deep_agent_blueprint.Jira.Client.{Http, shown}

-- `d.get(k)` of a JSON object
abbrev pub field_or_null : String → Fields → Json
field_or_null k fs = elim (get_field k fs) [ none ↦ null | some v ↦ v ]

-- `v or {}`, on which `.get` is called
abbrev pub or_empty : Json → Option Fields
or_empty v = if truthy v then as_fields v else some end

-- `response.json().get("fields", {})`
abbrev pub fields_of : Fields → Option Fields
fields_of top = elim (get_field "fields" top) [ none ↦ some end | some v ↦ as_fields v ]

-- `actual`: the live values that a precondition may name; `none` where computing them raises
unfoldable pub live_values : Option Json → Option Object
live_values body = then? (then? body as_fields) λ top. then? (fields_of top) λ fs.
    then? (or_empty (field_or_null "status" fs)) λ status. some (
      ("expected_status", field_or_null "name" status)
      ∷ ("expected_updated", field_or_null "updated" fs)
      ∷ [])

abbrev pub drift_details : String → Json → Json → Object
drift_details name expected actual =
    ("precondition", str name) ∷ ("expected", expected) ∷ ("actual", actual) ∷ []

-- the loop over `action.preconditions`: the first drift
unfoldable pub first_drift : Object → Object → Option Object
first_drift actual [] = none
first_drift actual ((name, expected) ∷ rest) =
    let later = first_drift actual rest in
    elim (lookup name actual) [
      | none ↦ later
      | some v ↦ if json_eq v expected then later else some (drift_details name expected v)
    ]

abbrev pub by_drift : Option Object → PreconditionResult
by_drift none = record { holds = true; details = [] }
by_drift (some details) = record { holds = false; details = details }

abbrev pub against_live : Object → Option Object → Result Failure PreconditionResult
against_live preconditions none = err other_error
against_live preconditions (some actual) = ok (by_drift (first_drift actual preconditions))

module _ (h : Http) where
  abbrev pub issue_path : Json → String
  issue_path key = "/rest/api/2/issue/" <> shown h key

  abbrev pub gone : Json → PreconditionResult
  gone key = record {
    holds = false;
    details = ("reason", str ("issue " <> (shown h key <> " not found"))) ∷ [];
  }

  -- what follows the GET
  unfoldable pub judge_issue : Json → Object → Option Response → Result Failure PreconditionResult
  judge_issue key preconditions none = err other_error
  judge_issue key preconditions (some r) =
      if eqb r.status_code 404
      then ok (gone key)
      else if leb 400 r.status_code
      then err (downstream_failure (some r.status_code))
      else against_live preconditions (live_values r.body)

  unfoldable pub check_preconditions :
      ProposedAction → DownstreamCredentials → h.Site → Result Failure PreconditionResult
  check_preconditions action credentials site =
      let key = get_or_null "issue_key" action.payload in
      if not (truthy key)
      then ok (record { holds = false; details = ("reason", str "payload missing issue_key") ∷ [] })
      else judge_issue key action.preconditions (h.get credentials.user_token (issue_path key) site)
