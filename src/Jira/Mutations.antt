-- ===== src/Jira/Mutations.antt =====
-- `JiraAdapter.execute` (app/adapters/jira.py): the two mutations.
use Prim.Native.String.{◌++◌ as ◌<>◌}
use deep_agent_blueprint.Prelude.{
  String, Option, none, some, List, [], ◌∷◌, leb, if◌then◌else◌, then?,
}
use deep_agent_blueprint.Prelude.Exec.{Result, ok, err}
use deep_agent_blueprint.Prelude.Sorted.{sorted_set}
use deep_agent_blueprint.Json.{
  Json, str, arr, obj, Items, nil, cons, Fields, end, field, Object, as_fields,
}
use deep_agent_blueprint.Schemas.{Failure, downstream_failure, other_error, ProposedAction}
use deep_agent_blueprint.Deps.{DownstreamCredentials, ExecutionResult}
use deep_agent_blueprint.Backoff.{Response}
use deep_agent_blueprint.Jira.Client.{Http, shown}
use deep_agent_blueprint.Jira.Payloads.{
  UpdateIssuePayload, AddCommentPayload, Validated, update_issue, add_comment, validated_payload,
}
use deep_agent_blueprint.Jira.Preconditions.{field_or_null}

abbrev pub field_names : Fields → List String
field_names end = []
field_names (field k v fs) = k ∷ field_names fs

abbrev pub text_items : List String → Items
text_items [] = nil
text_items (k ∷ ks) = cons (str k) (text_items ks)

module _ (h : Http) where
  abbrev pub update_body : UpdateIssuePayload → Json
  update_body p = obj (field "fields" (obj p.fields) end)

  abbrev pub comment_body : AddCommentPayload → Json
  comment_body p = obj (field "body" (str p.body) end)

  -- `response.status_code >= 400` of both mutations
  abbrev pub failed_write : Response → Failure
  failed_write r = downstream_failure (some r.status_code)

  abbrev pub browse_url : String → String → String
  browse_url base_url key = base_url <> ("/browse/" <> key)

  unfoldable pub updated :
      String → UpdateIssuePayload → Option Response → Result Failure ExecutionResult
  updated base_url p none = err other_error
  updated base_url p (some r) =
      if leb 400 r.status_code
      then err (failed_write r)
      else ok (record {
        result =
            ("issue_key", str p.issue_key)
            ∷ ("updated_fields", arr (text_items (sorted_set (field_names p.fields))))
            ∷ [];
        resource_url = some (browse_url base_url p.issue_key);
      })

  abbrev pub comment_result :
      String → AddCommentPayload → Option Fields → Result Failure ExecutionResult
  comment_result base_url p none = err other_error
  comment_result base_url p (some answer) =
      let id = field_or_null "id" answer in
      ok (record {
        result = ("issue_key", str p.issue_key) ∷ ("comment_id", id) ∷ [];
        resource_url =
            some (browse_url base_url p.issue_key <> ("?focusedCommentId=" <> shown h id));
      })

  unfoldable pub commented :
      String → AddCommentPayload → Option Response → Result Failure ExecutionResult
  commented base_url p none = err other_error
  commented base_url p (some r) =
      if leb 400 r.status_code
      then err (failed_write r)
      else comment_result base_url p (then? r.body as_fields)

  -- the one request of each mutation
  unfoldable pub write_issue : Option String → Validated h → h.Site → Option Response × h.Site
  write_issue token (update_issue p) site =
      h.put token ("/rest/api/2/issue/" <> p.issue_key) (update_body p) site
  write_issue token (add_comment p) site =
      h.post token ("/rest/api/2/issue/" <> (p.issue_key <> "/comment")) (comment_body p) site

  abbrev pub outcome : String → Validated h → Option Response → Result Failure ExecutionResult
  outcome base_url (update_issue p) r = updated base_url p r
  outcome base_url (add_comment p) r = commented base_url p r

  abbrev pub perform_validated :
      String
      → Option String
      → Result Failure (Validated h)
      → h.Site
      → Result Failure ExecutionResult × h.Site
  perform_validated base_url token (err e) site = (err e, site)
  perform_validated base_url token (ok p) site =
      let (r, site') = write_issue token p site in (outcome base_url p r, site')

  unfoldable pub execute :
      String
      → ProposedAction
      → Object
      → DownstreamCredentials
      → h.Site
      → Result Failure ExecutionResult × h.Site
  execute base_url action approved credentials site =
      perform_validated base_url credentials.user_token
        (validated_payload h action.action_type approved) site
