-- ===== src/WebSearch/Service.antt =====
-- The service in the web search domain (app/adapters/websearch.py), and the registry of adapters.
use deep_agent_blueprint.Prelude.{
  ℕ, String, ◌≡◌, refl, ap, sym, ◌∙◌, Option, none, some, List, [], ◌∷◌, inl, inr, String-cases,
}
use deep_agent_blueprint.Prelude.Exec.{ok}
use deep_agent_blueprint.Schemas.{AgentProposedAction, ExecuteRequest, JobRecord}
use deep_agent_blueprint.Deps.{Deps, World, Settings, DomainAdapter}
use deep_agent_blueprint.Adapter.{validate_payload, resolve_credentials}
use deep_agent_blueprint.Execute.{execute_action}
use deep_agent_blueprint.Execute.Guarded.{execute_action-IsGuarded}
use deep_agent_blueprint.Jira.{Http}
use deep_agent_blueprint.Worker.{persist_each}
use deep_agent_blueprint.WebSearch.{websearch_adapter, build_adapter}

module _ (Site : Type 0) (api_key : String) (d : Deps) where
  -- the service with the web search adapter
  abbrev pub websearch_service : Deps
  websearch_service = record d { adapter = websearch_adapter Site api_key }

  persist_each-websearch :
      (r : JobRecord) (n : ℕ) (cs : List AgentProposedAction) (w : World websearch_service)
      → persist_each ⦃d = websearch_service⦄ r n cs w ≡ (ok [], w)
  unfolding persist_each validate_payload
  persist_each-websearch r n [] w = refl
  persist_each-websearch r n (c ∷ cs) w = persist_each-websearch r n cs w

  -- In the web search domain, whatever the agent proposes, the worker stages nothing and lists no action,
  -- POST /execute leaves the search service as it was, whatever is stored and sent, and the credentials
  -- that are resolved, whatever the user's token, are the service's own key and no token.
  pub websearch_reads_only :
      (r : JobRecord) (n : ℕ) (cs : List AgentProposedAction) (w : World websearch_service)
      (body : ExecuteRequest) (c : String) (t : Option String) (key : String)
      → (persist_each ⦃d = websearch_service⦄ r n cs w ≡ (ok [], w))
        × ((execute_action ⦃d = websearch_service⦄ body c t key w).1.target ≡ w.target)
        × (resolve_credentials (websearch_adapter Site api_key) t
            ≡ ok (record { user_token = none; service_key = some api_key }))
  unfolding resolve_credentials
  websearch_reads_only r n cs w body c t key = (
    persist_each-websearch r n cs w,
    elim (execute_action-IsGuarded ⦃d = websearch_service⦄ w body c t key) [
      | inl same ↦ same
      | inr (p, k, cleared, made) ↦ made
    ],
    refl,
  )

abbrev name_of : Option DomainAdapter → String
name_of none = ""
name_of (some a) = a.name

-- The adapter that is built is the one registered for DOMAIN, under whose name jobs and actions are kept;
-- for any other DOMAIN none is built.
pub build_adapter-named :
    (h : Http) (Site : Type 0) (s : Settings) (a : DomainAdapter)
    → build_adapter h Site s ≡ some a
    → a.name ≡ s.domain
unfolding build_adapter
build_adapter-named h Site s a e = elim (String-cases "jira" s.domain) [
  | inl jira ↦ sym (ap name_of (rw (← jira) at e)) ∙ jira
  | inr (other, _) ↦ elim (String-cases "websearch" s.domain) [
    | inl web ↦ sym (ap name_of (rw (other, ← web) at e)) ∙ web
    | inr (unknown, _) ↦ cc (rw (other, unknown) at e)
  ]
]
