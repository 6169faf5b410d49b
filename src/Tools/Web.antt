-- ===== src/Tools/Web.antt =====
-- The read tools of `WebSearchAdapter` (app/adapters/websearch.py). `max_results` is taken to be no
-- negative number.
use deep_agent_blueprint.Prelude.{ℕ, String, Option, none, some, List, [], ◌∷◌, min, then?}
use deep_agent_blueprint.Prelude.Exec.{Result}
use deep_agent_blueprint.Json.{
  Json, null, str, nat, arr, obj, Items, nil, cons, end, field, get_field, as_fields, as_items,
}
use deep_agent_blueprint.Schemas.{Failure}
use deep_agent_blueprint.Jira.{field_or_null}
use deep_agent_blueprint.Tools.{post, Client, read_tool}
use deep_agent_blueprint.Tools.Jira.{items_of}

-- one entry of `results`
unfoldable pub hit_of : Json → Option Json
hit_of r = then? (as_fields r) λ fs. some (
    obj (
      field "title" (field_or_null "title" fs)
        (field "url" (field_or_null "url" fs) (field "content" (field_or_null "content" fs) end))))

unfoldable pub hits : Items → Option (List Json)
unfolding hit_of
hits nil = some []
hits (cons r rest) =
    let later = hits rest in then? (hit_of r) λ hit. then? later λ others. some (hit ∷ others)

abbrev pub results_in : Json → Option Items
results_in answer =
    then? (as_fields answer)
      λ top. elim (get_field "results" top) [ none ↦ some nil | some v ↦ as_items v ]

-- an optional text in a JSON body
abbrev text_or_null : Option String → Json
text_or_null none = null
text_or_null (some t) = str t

module _ (c : Client) (api_key : Option String) where
  abbrev pub search_body : String → ℕ → Json
  search_body query max_results = obj (
      field "api_key" (text_or_null api_key)
        (field "query" (str query) (field "max_results" (nat (min max_results 10)) end)))

  unfoldable pub web_search : String → ℕ → c.Net → Result Failure String × c.Net
  unfolding read_tool hits
  web_search query max_results net =
      read_tool c none (post "/search" (search_body query max_results))
        (λ answer. then? (results_in answer) λ xs.
          then? (hits xs)
            λ found. some (c.dumps (obj (field "results" (arr (items_of found)) end))))
        net

  unfoldable pub extract_page : String → c.Net → Result Failure String × c.Net
  unfolding read_tool
  extract_page url net =
      read_tool c none
        (post "/extract" (
          obj
            (field "api_key" (text_or_null api_key) (field "urls" (arr (cons (str url) nil)) end))))
        (λ answer. some (c.dumps answer)) net
