-- ===== src/Tools/Jira.antt =====
-- The read tools of `JiraAdapter` (app/adapters/jira.py). `max_results` is taken to be no negative number.
use Prim.Native.String.{◌++◌ as ◌<>◌}
use deep_agent_blueprint.Prelude.{ℕ, String, Option, none, some, List, [], ◌∷◌, length, min, then?}
use deep_agent_blueprint.Prelude.Exec.{Result}
use deep_agent_blueprint.Json.{
  Json, str, nat, arr, obj, Items, nil, cons, Fields, end, field, get_field, as_fields, as_items,
}
use deep_agent_blueprint.Schemas.{Failure}
use deep_agent_blueprint.Jira.{field_or_null, or_empty}
use deep_agent_blueprint.Tools.{Request, get, Client, read_tool}

-- the entry of an issue with this key and these fields
unfoldable pub entry_of : Json → Fields → Option Json
entry_of key fs = then? (or_empty (field_or_null "status" fs)) λ status.
    then? (or_empty (field_or_null "assignee" fs)) λ assignee. some (
      obj (
        field "key" key (
          field "summary" (field_or_null "summary" fs) (
            field "status" (field_or_null "name" status) (
              field "assignee" (field_or_null "displayName" assignee)
                (field "updated" (field_or_null "updated" fs) end))))))

-- the fields of an issue that is a JSON object
abbrev pub issue_fields : Fields → Option Fields
issue_fields top = then? (get_field "fields" top) as_fields

unfoldable pub summary_of : Json → Option Json
unfolding entry_of
summary_of issue =
    then? (as_fields issue)
      λ top. then? (get_field "key" top) λ key. then? (issue_fields top) λ fs. entry_of key fs

-- the comprehension over `response.json().get("issues", [])`
unfoldable pub summaries : Items → Option (List Json)
unfolding summary_of
summaries nil = some []
summaries (cons issue rest) =
    let later = summaries rest in
    then? (summary_of issue) λ entry. then? later λ entries. some (entry ∷ entries)

abbrev pub items_of : List Json → Items
items_of [] = nil
items_of (v ∷ vs) = cons v (items_of vs)

abbrev pub issues_in : Json → Option Items
issues_in answer =
    then? (as_fields answer)
      λ top. elim (get_field "issues" top) [ none ↦ some nil | some v ↦ as_items v ]

abbrev pub found : List Json → Json
found entries =
    obj (field "total" (nat (length entries)) (field "issues" (arr (items_of entries)) end))

abbrev pub search_request : String → ℕ → Request
search_request jql max_results = get "/rest/api/2/search" (
    ("jql", str jql)
    ∷ ("maxResults", nat (min max_results 50))
    ∷ ("fields", str "summary,status,assignee,updated,issuetype")
    ∷ [])

abbrev pub comments_request : String → ℕ → Request
comments_request issue_key max_results =
    get ("/rest/api/2/issue/" <> (issue_key <> "/comment"))
      (("maxResults", nat (min max_results 50)) ∷ [])

module _ (c : Client) (token : Option String) where
  unfoldable pub search_issues : String → ℕ → c.Net → Result Failure String × c.Net
  unfolding read_tool summaries
  search_issues jql max_results net =
      read_tool c token (search_request jql max_results)
        (λ answer.
          then? (issues_in answer)
            λ xs. then? (summaries xs) λ entries. some (c.dumps (found entries)))
        net

  unfoldable pub get_issue : String → c.Net → Result Failure String × c.Net
  unfolding read_tool
  get_issue issue_key net =
      read_tool c token (get ("/rest/api/2/issue/" <> issue_key) [])
        (λ answer. some (c.dumps answer)) net

  unfoldable pub get_issue_comments : String → ℕ → c.Net → Result Failure String × c.Net
  unfolding read_tool
  get_issue_comments issue_key max_results net =
      read_tool c token (comments_request issue_key max_results) (λ answer. some (c.dumps answer))
        net
