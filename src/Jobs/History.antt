-- ===== src/Jobs/History.antt =====
-- The service over time: requests, deliveries to the worker and the expiry of keys, in any order.
use deep_agent_blueprint.Prelude.{
  ℕ, String, ◌≡◌, refl, ◌∙◌, true, Option, none, some, List, ◌⊎◌, inl, inr, ap, sym,
}
use mathlib.Core.Option.{some-ne-none}
use deep_agent_blueprint.Prelude.Exec.{Result, ok}
use deep_agent_blueprint.Schemas.{Failure, JobRecord, is_terminal, ResearchRequest, ExecuteRequest}
use deep_agent_blueprint.Deps.{Deps, World, IsLawful, DownstreamCredentials}
use deep_agent_blueprint.Store.{job, tok, key}
use deep_agent_blueprint.Store.Reads.{stored_job, staged, HasLifetimes}
use deep_agent_blueprint.Research.{submit_research, poll_research, cancel_research}
use deep_agent_blueprint.Execute.{execute_action, get_action, reject_action}
use deep_agent_blueprint.Worker.{AgentEvent, research_job}
use deep_agent_blueprint.Jobs.{IsSound, Evolves-same, Changes}
use deep_agent_blueprint.Jobs.Handlers.{ActsSafely, research_job-Safe, cancel_research-Safe}
use deep_agent_blueprint.Jobs.Actions.{
  poll_research-Safe, execute_action-Safe, get_action-Safe, reject_action-Safe,
}
use deep_agent_blueprint.Jobs.Submission.{submit_research-Adds}

-- One event in the life of the service. Handlers run one after another, but for what the agent's
-- events let other processes do in the middle of a run.
pub data Step ⦃d : Deps⦄ (w : World d) : World d → Type 0 where
  submits :
      (body : ResearchRequest) (c : String) (t : Option String)
      → stored_job w.store (d.uuid4 w.uuids_drawn) ≡ none
      → Step w (submit_research body c t w).1
  polls : (i c : String) (t : Option String) → Step w (poll_research i c t w).1
  cancels : (i c : String) (t : Option String) → Step w (cancel_research i c t w).1
  delivers :
      (agent : DownstreamCredentials → Result Failure (List AgentEvent))
      → ((k : DownstreamCredentials) (es : List AgentEvent) → agent k ≡ ok es → ActsSafely es)
      → (i : String) (attempt : ℕ) → Step w (research_job agent i attempt w).1
  executes :
      (body : ExecuteRequest) (c : String) (t : Option String) (k : String)
      → Step w (execute_action body c t k w).1
  shows : (i c : String) (t : Option String) → Step w (get_action i c t w).1
  rejects : (i c : String) (t : Option String) → Step w (reject_action i c t w).1
  -- time passes, keys expire, and another request's context, clock, queue, vault and target come
  -- into view
  elapses : (w' : World d) → d.redis.Expires w.store w'.store → Step w w'

pub data Reach ⦃d : Deps⦄ (w : World d) : World d → Type 0 where
  here : Reach w w
  next : {u v : World d} → Reach w u → Step u v → Reach w v

module _ ⦃d : Deps⦄ (law : IsLawful d.redis) where
  document_Expires :
      (s t : d.redis.Store) (i : String)
      → d.redis.Expires s t
      → (stored_job t i ≡ stored_job s i) ⊎ (stored_job t i ≡ none)
  document_Expires s t i h = elim (law.get-Expires (key job i) s t h) [
    | inl same ↦ inl (rw same)
    | inr gone ↦ inr (rw gone)
  ]

  -- Expiry keeps a sound store sound.
  pub Expires-Changes : (s t : d.redis.Store) → d.redis.Expires s t → Changes s t
  Expires-Changes s t h = record {
    sound = λ sound. record {
      keyed = λ i r found. sound.keyed i r (before i r found (document_Expires s t i h));
      purged = λ i r found over.
          token i (sound.purged i r (before i r found (document_Expires s t i h)) over)
            (law.get-Expires (key tok i) s t h);
    };
    evolves = λ sound i. record {
      absent = λ none_before. after_none i none_before (document_Expires s t i h);
      finished = λ r found over. after_some i r found (document_Expires s t i h);
      limit = λ r r' found found'.
          (Evolves-same i s s refl).limit r r' found
            (before i r' found' (document_Expires s t i h));
    };
  }
    where
      before :
          (i : String) (r : JobRecord)
          → stored_job t i ≡ some r
          → (stored_job t i ≡ stored_job s i) ⊎ (stored_job t i ≡ none)
          → stored_job s i ≡ some r
      before i r found (inl same) = sym same ∙ found
      before i r found (inr gone) = cc

      token :
          (i : String)
          → staged s i ≡ none
          → (staged t i ≡ staged s i) ⊎ (staged t i ≡ none)
          → staged t i ≡ none
      token i none_before (inl same) = same ∙ none_before
      token i none_before (inr gone) = gone

      after_none :
          (i : String)
          → stored_job s i ≡ none
          → (stored_job t i ≡ stored_job s i) ⊎ (stored_job t i ≡ none)
          → stored_job t i ≡ none
      after_none i none_before (inl same) = same ∙ none_before
      after_none i none_before (inr gone) = gone

      after_some :
          (i : String) (r : JobRecord)
          → stored_job s i ≡ some r
          → (stored_job t i ≡ stored_job s i) ⊎ (stored_job t i ≡ none)
          → (stored_job t i ≡ none)
            ⊎ ((r' : JobRecord) × (stored_job t i ≡ some r') × (r'.status ≡ r.status))
      after_some i r found (inl same) = inr (r, same ∙ found, refl)
      after_some i r found (inr gone) = inl gone

module _ ⦃d : Deps⦄ (law : IsLawful d.redis) (lives : HasLifetimes d.settings) where
  Step-IsSound : {v w : World d} → Step v w → IsSound v.store → IsSound w.store
  Step-IsSound {v} (submits body c t new) s =
      (submit_research-Adds law lives body c t v).sound s new
  Step-IsSound {v} (polls i c t) s = ((poll_research-Safe i c t).at v).sound s
  Step-IsSound {v} (cancels i c t) s = ((cancel_research-Safe law lives i c t).at v).sound s
  Step-IsSound {v} (delivers agent acts i n) s =
      ((research_job-Safe law lives agent acts i n).at v).sound s
  Step-IsSound {v} (executes body c t k) s =
      ((execute_action-Safe law lives body c t k).at v).sound s
  Step-IsSound {v} (shows i c t) s = ((get_action-Safe law lives i c t).at v).sound s
  Step-IsSound {v} (rejects i c t) s = ((reject_action-Safe law lives i c t).at v).sound s
  Step-IsSound {v} (elapses w' h) s = (Expires-Changes law v.store w'.store h).sound s

  -- In every state that the service reaches from one in which it holds, by requests, deliveries,
  -- acts of other processes during a run and expiry, every job is stored under its own id and no
  -- finished job has a staged token.
  pub Reach-IsSound : {v w : World d} → IsSound v.store → Reach v w → IsSound w.store
  Reach-IsSound s here = s
  Reach-IsSound s (next r st) = Step-IsSound st (Reach-IsSound s r)

  -- A step of the service, of whatever kind, leaves the status of a finished job as it is, or the
  -- job's record is gone.
  pub Step-finished :
      {v w : World d}
      → Step v w
      → IsSound v.store
      → (i : String) (r : JobRecord) → stored_job v.store i ≡ some r
      → is_terminal r.status ≡ true
      → (stored_job w.store i ≡ none)
        ⊎ ((r' : JobRecord) × (stored_job w.store i ≡ some r') × (r'.status ≡ r.status))
  Step-finished {v} (submits body c t new) s i = λ r found.
      ((submit_research-Adds law lives body c t v).others s new i
          (λ e. some-ne-none r (sym found ∙ ap (stored_job v.store) (sym e) ∙ new))).finished
        r found
  Step-finished {v} (polls j c t) s i = (((poll_research-Safe j c t).at v).evolves s i).finished
  Step-finished {v} (cancels j c t) s i =
      (((cancel_research-Safe law lives j c t).at v).evolves s i).finished
  Step-finished {v} (delivers agent acts j n) s i =
      (((research_job-Safe law lives agent acts j n).at v).evolves s i).finished
  Step-finished {v} (executes body c t k) s i =
      (((execute_action-Safe law lives body c t k).at v).evolves s i).finished
  Step-finished {v} (shows j c t) s i =
      (((get_action-Safe law lives j c t).at v).evolves s i).finished
  Step-finished {v} (rejects j c t) s i =
      (((reject_action-Safe law lives j c t).at v).evolves s i).finished
  Step-finished {v} (elapses w' h) s i =
      ((Expires-Changes law v.store w'.store h).evolves s i).finished
