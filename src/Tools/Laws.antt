-- ===== src/Tools/Laws.antt =====
-- The read tools: how often they send, and what the text that they return says.
use deep_agent_blueprint.Prelude.{
  ℕ, suc, ◌≤◌, String, ◌≡◌, true, Option, some, List, [], ◌∷◌, then?,
}
use deep_agent_blueprint.Json.{Object, str, nat, Json, Items, nil, cons, get_field, as_fields}
use deep_agent_blueprint.Backoff.{Response, after}
use deep_agent_blueprint.Tools.{Request, Client}
use deep_agent_blueprint.Tools.Jira.{summaries, issues_in, found}

-- Each entry has the key of its issue, in order, and none is left out.
abbrev pub Lists : Items → List Json → Type 0
Lists nil [] = Unit
Lists (cons issue rest) (entry ∷ entries) =
    ((key : Json) × (then? (as_fields issue) (get_field "key") ≡ some key)
      × (then? (as_fields entry) (get_field "key") ≡ some key))
    × Lists rest entries
Lists _ _ = ⊥

-- the query of a search of `n` issues
abbrev pub search_params : String → ℕ → Object
search_params jql n =
    ("jql", str jql)
    ∷ ("maxResults", nat n)
    ∷ ("fields", str "summary,status,assignee,updated,issuetype")
    ∷ []

module _ (c : Client) (token : Option String) where
  -- The text comes from the JSON of a successful response.
  abbrev pub IsRead : (Json → Option String) → String → Type 0
  IsRead report t =
      (r : Response) × (j : Json) × (c.is_success r.status_code ≡ true)
      × (r.body ≡ some j)
      × (report j ≡ some t)

  -- one to four sends of the same request
  abbrev pub SendsAtMost4 : Request → c.Net → c.Net → Type 0
  SendsAtMost4 request net net' =
      (n : ℕ) × (n ≤ 3) × (net' ≡ after (c.send token request) c.read_delay (suc n) net)

  -- What `search_issues` may return: the text of all issues of a successful response, in its order, each
  -- under its key, with their number.
  abbrev pub IsReport : String → Type 0
  IsReport t =
      (r : Response) × (j : Json) × (xs : Items) × (entries : List Json) × (c.is_success
          r.status_code
        ≡ true)
      × (r.body ≡ some j)
      × (issues_in j ≡ some xs)
      × Lists xs entries
      × (t ≡ c.dumps (found entries))

  abbrev report : Json → Option String
  report j =
      then? (issues_in j) λ xs. then? (summaries xs) λ entries. some (c.dumps (found entries))
