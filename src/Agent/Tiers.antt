-- ===== src/Agent/Tiers.antt =====
-- What an agent that app/agent/factory.py builds can do: its tools and those of its sub-agents.
use deep_agent_blueprint.Prelude.{
  ℕ, zero, suc, ◌<◌, String, ◌≡◌, refl, ap, sym, arith, ◌≢◌, ◌⊎◌, none, some, List, [], ◌∷◌, map,
  Option-cases, Dict, inl, inr, String-cases,
}
use deep_agent_blueprint.Deps.{Settings}
use deep_agent_blueprint.Worker.Concurrency.{
  Tool, coroutine, plain, Wrapped, capped_tool, as_is, wrap, Semaphore, cap_read_concurrency,
}
use deep_agent_blueprint.Agent.Prompts.{render_research_prompt, render_research_prompt-some}
use deep_agent_blueprint.Agent.{
  ChatModel, Agent, create_deep_agent, create_agent, AgentFactory, Subagent, retriever, factories,
  get_agent_factory, build_agent, build_fast_llm, deep_agent_factory, react_agent_factory,
  build_llm,
}

abbrev pub underlying : Wrapped → Tool
underlying (capped_tool semaphore t) = t
underlying (as_is t) = t

-- the tools of an agent, and of each of its sub-agents
abbrev pub sub_tools : List Subagent → List (List Wrapped)
sub_tools [] = []
sub_tools (a ∷ as_) = a.tools ∷ sub_tools as_

abbrev pub tool_lists : Agent → List (List Wrapped)
tool_lists (create_deep_agent model tools prompt none) = tools ∷ []
tool_lists (create_deep_agent model tools prompt (some subagents)) = tools ∷ sub_tools subagents
tool_lists (create_agent model tools prompt) = tools ∷ []

abbrev pub Every {ℓ} : {A : Type ℓ} → (A → Type 0) → List A → Type 0
Every P [] = Unit
Every P (x ∷ xs) = P x × Every P xs

-- under this semaphore, or not a coroutine
abbrev pub IsCapped : Semaphore → Wrapped → Type 0
IsCapped semaphore (capped_tool s t) = s ≡ semaphore
IsCapped semaphore (as_is (coroutine n)) = ⊥
IsCapped semaphore (as_is (plain n)) = Unit

-- Exactly the adapter's read tools, capped by this semaphore where there is a limit.
abbrev pub AreReadTools : Settings → List Tool → Semaphore → List Wrapped → Type 0
AreReadTools s read_tools semaphore tools =
    (map underlying tools ≡ read_tools)
    × (0 < s.max_concurrent_reads → Every (IsCapped semaphore) tools)

abbrev pub sub_models : List Subagent → List ChatModel
sub_models [] = []
sub_models (a ∷ rest) = a.model ∷ sub_models rest

-- the model and the prompt of the main agent, and the models of its sub-agents
abbrev pub main_of : Agent → ChatModel × String × List ChatModel
main_of (create_deep_agent model tools prompt none) = (model, prompt, [])
main_of (create_deep_agent model tools prompt (some subagents)) =
    (model, prompt, sub_models subagents)
main_of (create_agent model tools prompt) = (model, prompt, [])

-- What is wanted of an agent for a run: one semaphore, of the configured limit, for all its tools.
abbrev pub IsForRun : Settings → List Tool → String → Agent → Type 0
IsForRun s read_tools prompt a =
    ((semaphore : Semaphore) × (semaphore.limit ≡ s.max_concurrent_reads)
      × Every (AreReadTools s read_tools semaphore) (tool_lists a))
    × ((main_of a).0 ≡ build_llm s)
    × ((main_of a).1 ≡ prompt)
    × Every (λ model. build_fast_llm s ≡ some model) (main_of a).2

map-underlying-as_is : (tools : List Tool) → map underlying (map as_is tools) ≡ tools
map-underlying-as_is [] = refl
map-underlying-as_is (t ∷ tools) = ap (λ ts. t ∷ ts) (map-underlying-as_is tools)

module _ (semaphore : Semaphore) where
  map-underlying-wrap : (tools : List Tool) → map underlying (map (wrap semaphore) tools) ≡ tools
  map-underlying-wrap [] = refl
  map-underlying-wrap (coroutine n ∷ tools) =
      ap (λ ts. coroutine n ∷ ts) (map-underlying-wrap tools)
  map-underlying-wrap (plain n ∷ tools) = ap (λ ts. plain n ∷ ts) (map-underlying-wrap tools)

  wrap-IsCapped : (tools : List Tool) → Every (IsCapped semaphore) (map (wrap semaphore) tools)
  wrap-IsCapped [] = tt
  wrap-IsCapped (coroutine n ∷ tools) = (refl, wrap-IsCapped tools)
  wrap-IsCapped (plain n ∷ tools) = (tt, wrap-IsCapped tools)

module _ (s : Settings) (read_tools : List Tool) (name instructions : String)
    (schemas : Dict String) (made : ℕ) where
  abbrev shared : Semaphore
  shared = record { serial = made; limit = s.max_concurrent_reads }

  abbrev read_by : List Wrapped
  read_by = (cap_read_concurrency read_tools s.max_concurrent_reads made).0

  capped-AreReadTools : AreReadTools s read_tools shared read_by
  unfolding cap_read_concurrency
  capped-AreReadTools = capped s.max_concurrent_reads
    where
      capped :
          (limit : ℕ)
          → (map underlying (cap_read_concurrency read_tools limit made).0 ≡ read_tools)
            × (0 < limit
                → Every
                    (IsCapped (record { serial = made; limit = limit }))
                    (cap_read_concurrency read_tools limit made).0)
      capped zero = (map-underlying-as_is read_tools, λ h. absurd (omega arith))
      capped (suc n) =
          let semaphore : Semaphore = record { serial = made; limit = suc n } in
          (map-underlying-wrap semaphore read_tools, λ h. wrap-IsCapped semaphore read_tools)

  -- The agent that is built for a run with this factory, and what it is.
  abbrev pub Builds : AgentFactory → Type 0
  Builds f =
      (prompt : String) × (a : Agent) × (render_research_prompt name instructions schemas
        ≡ some prompt)
      × ((build_agent s f read_tools name instructions schemas made).0 ≡ some a)
      × IsForRun s read_tools prompt a

  deep_agent-Builds : Builds deep_agent_factory
  unfolding build_agent deep_agent_factory
  deep_agent-Builds =
      let (prompt, rendered) = render_research_prompt-some name instructions schemas in
      elim (Option-cases (build_fast_llm s)) [
        | inl single ↦ (
          prompt,
          create_deep_agent (build_llm s) read_by prompt none,
          rendered,
          rw (rendered, single) refl,
          ((shared, refl, (capped-AreReadTools, tt)), refl, refl, tt),
        )
        | inr (model, fast) ↦ (
          prompt,
          create_deep_agent (build_llm s) read_by prompt (some (retriever read_by model ∷ [])),
          rendered,
          rw (rendered, fast) refl,
          (
            (shared, refl, (capped-AreReadTools, (capped-AreReadTools, tt))),
            refl,
            refl,
            (fast, tt),
          ),
        )
      ]

  react_agent-Builds : Builds react_agent_factory
  unfolding build_agent react_agent_factory
  react_agent-Builds =
      let (prompt, rendered) = render_research_prompt-some name instructions schemas in
      (
        prompt,
        create_agent (build_llm s) read_by prompt,
        rendered,
        rw rendered refl,
        ((shared, refl, (capped-AreReadTools, tt)), refl, refl, tt),
      )

  -- Under either name that AGENT_FACTORY may have, the agent of a run can be built: it gets the prompt
  -- rendered for the adapter and the primary model, and it and each of its sub-agents get exactly the
  -- adapter's read tools, in order, where, if a limit is set, all coroutines among them enter one and
  -- the same semaphore of that limit; sub-agents run on the fast model, and there is none if no fast
  -- model is configured. Under another name there is no factory.
  pub build_agent-IsForRun :
      (harness : String)
      → ((f : AgentFactory) × (get_agent_factory harness factories ≡ some f) × Builds f)
        ⊎ ((get_agent_factory harness factories ≡ none)
            × (harness ≢ "deepagents")
            × (harness ≢ "react"))
  unfolding get_agent_factory
  build_agent-IsForRun harness = elim (String-cases "deepagents" harness) [
    | inl deep ↦ inl (deep_agent_factory, rw (← deep) refl, deep_agent-Builds)
    | inr (other, differs) ↦ elim (String-cases "react" harness) [
      | inl react ↦ inl (react_agent_factory, rw (← react) refl, react_agent-Builds)
      | inr (unknown, differs') ↦
          inr (rw other (rw unknown refl), λ e. differs (sym e), λ e. differs' (sym e))
    ]
  ]
