-- ===== src/Startup/Consumer.antt =====
-- `startup` and `shutdown` of app/worker/main.py: when the worker starts, and what it closes.
use deep_agent_blueprint.Prelude.{
  String, ◌≡◌, sym, ap, refl, ◌∙◌, ◌↔◌, ◌⊎◌, some, List, Option-cases, String-cases, inl, inr,
}
use deep_agent_blueprint.Prelude.Exec.{ok, Result-cases}
use deep_agent_blueprint.Deps.{Settings, DomainAdapter}
use deep_agent_blueprint.Jira.{Http, jira_adapter}
use deep_agent_blueprint.WebSearch.{build_adapter, websearch_adapter}
use deep_agent_blueprint.TokenVault.{Crypto, build_token_vault}
use deep_agent_blueprint.Agent.{
  AgentFactory, factories, get_agent_factory, deep_agent_factory, react_agent_factory,
}
use deep_agent_blueprint.Logging.Format.{make_record, log_event}
use deep_agent_blueprint.Startup.{Event, WorkerDeps, started, startup}

some-injective-adapter : (a b : DomainAdapter) → some a ≡ some b → a ≡ b
some-injective-adapter a b h = cc

some-injective-factory : (a b : AgentFactory) → some a ≡ some b → a ≡ b
some-injective-factory a b h = cc

-- AGENT_FACTORY names this factory.
abbrev pub IsNamed : String → AgentFactory → Type 0
IsNamed name f =
    ((name ≡ "deepagents") × (f ≡ deep_agent_factory))
    ⊎ ((name ≡ "react") × (f ≡ react_agent_factory))

factory-IsNamed :
    (name : String) (f : AgentFactory) → get_agent_factory name factories ≡ some f → IsNamed name f
unfolding get_agent_factory
factory-IsNamed name f e = elim (String-cases "deepagents" name) [
  | inl deep ↦ inl (sym deep, sym (some-injective-factory _ f (rw (← deep) at e)))
  | inr (other, _) ↦ elim (String-cases "react" name) [
    | inl react ↦ inr (sym react, sym (some-injective-factory _ f (rw (← react) at e)))
    | inr (unknown, _) ↦ cc (rw (other, unknown) at e)
  ]
]

named_factory :
    (name : String) (f : AgentFactory) → IsNamed name f → get_agent_factory name factories ≡ some f
unfolding get_agent_factory
named_factory name f (inl (deep, same)) = rw (deep, same) refl
named_factory name f (inr (react, same)) = rw (react, same) refl

module _ (c : Crypto) (h : Http) (Site : Type 0) (s : Settings) where
  -- DOMAIN names this adapter, made from its own settings.
  abbrev pub IsRegistered : DomainAdapter → Type 1
  IsRegistered a =
      ((s.domain ≡ "jira") × (a ≡ jira_adapter h s.jira_base_url))
      ⊎ ((s.domain ≡ "websearch") × (a ≡ websearch_adapter Site s.websearch_api_key))

  adapter-IsRegistered : (a : DomainAdapter) → build_adapter h Site s ≡ some a → IsRegistered a
  unfolding build_adapter
  adapter-IsRegistered a e = elim (String-cases "jira" s.domain) [
    | inl jira ↦ inl (sym jira, sym (some-injective-adapter _ a (rw (← jira) at e)))
    | inr (other, _) ↦ elim (String-cases "websearch" s.domain) [
      | inl web ↦ inr (sym web, sym (some-injective-adapter _ a (rw (← web) at e)))
      | inr (unknown, _) ↦ cc (rw (other, unknown) at e)
    ]
  ]

  registered_adapter : (a : DomainAdapter) → IsRegistered a → build_adapter h Site s ≡ some a
  unfolding build_adapter
  registered_adapter a (inl (jira, same)) = rw (jira, same) refl
  registered_adapter a (inr (web, same)) = rw (web, same) refl

  -- The settings ask for these: the vault is built, and the adapter and the factory have the names.
  abbrev pub IsReady : WorkerDeps c → Type 1
  IsReady deps =
      (build_token_vault c s ≡ ok deps.vault)
      × IsRegistered deps.adapter
      × IsNamed s.agent_factory deps.agent_factory

  started-injective : (p q : WorkerDeps c) → started p ≡ started q → p ≡ q
  started-injective p q h = cc

  -- The worker starts with a vault, an adapter and an agent factory exactly where the settings ask for
  -- them: the vault is built from the settings without an error, the adapter is that of Jira or of the
  -- web search, made from its own setting, for DOMAIN "jira" or "websearch", and the factory is that of
  -- the deep agent or of the react agent, for AGENT_FACTORY "deepagents" or "react".
  pub startup-IsReady :
      (events : List Event) (deps : WorkerDeps c)
      → ((startup c h Site s events).0 ≡ started deps) ↔ IsReady deps
  unfolding startup log_event make_record
  startup-IsReady events deps = (ready, starts)
    where
      starts : IsReady deps → (startup c h Site s events).0 ≡ started deps
      starts (vault, adapter, factory) =
          rw
            (
              vault,
              registered_adapter deps.adapter adapter,
              named_factory s.agent_factory deps.agent_factory factory,
            )
            refl

      ready : (startup c h Site s events).0 ≡ started deps → IsReady deps
      ready e = elim (Result-cases (build_token_vault c s)) [
        | inr (x, refused) ↦ cc (rw refused at e)
        | inl (v, built) ↦ elim (Option-cases (build_adapter h Site s)) [
          | inl missing ↦ cc (rw (built, missing) at e)
          | inr (a, there) ↦ elim (Option-cases (get_agent_factory s.agent_factory factories)) [
            | inl unknown ↦ cc (rw (built, there, unknown) at e)
            | inr (f, known) ↦
                let same = started-injective _ deps (rw (built, there, known) at e) in
                (
                  built ∙ ap (λ q. ok q.vault) same,
                  adapter-IsRegistered deps.adapter (there ∙ ap (λ q. some q.adapter) same),
                  factory-IsNamed s.agent_factory deps.agent_factory
                      (known ∙ ap (λ q. some q.agent_factory) same),
                )
          ]
        ]
      ]
