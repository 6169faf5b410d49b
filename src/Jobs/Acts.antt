-- ===== src/Jobs/Acts.antt =====
-- What the service's own processes do to the store while an agent runs (app/api/research.py,
-- app/api/execute.py and the expiry of keys), and the steps of the service with no other acts.
use deep_agent_blueprint.Prelude.{ℕ, String, ◌≡◌, true, Option, none, some, List, [], ◌∷◌, ◌⊎◌}
use deep_agent_blueprint.Prelude.Exec.{Result, ok}
use deep_agent_blueprint.Schemas.{Failure, JobRecord, is_terminal, ExecuteRequest}
use deep_agent_blueprint.Deps.{Deps, World, IsLawful, DownstreamCredentials}
use deep_agent_blueprint.Store.Reads.{stored_job, HasLifetimes}
use deep_agent_blueprint.Research.{poll_research, cancel_research}
use deep_agent_blueprint.Execute.{execute_action, get_action, reject_action}
use deep_agent_blueprint.Worker.{AgentEvent, yields, raises, outside, research_job}
use deep_agent_blueprint.Jobs.{IsSound, Changes}
use deep_agent_blueprint.Jobs.Handlers.{ActsSafely, cancel_research-Safe}
use deep_agent_blueprint.Jobs.Actions.{
  poll_research-Safe, execute_action-Safe, get_action-Safe, reject_action-Safe,
}
use deep_agent_blueprint.Jobs.History.{Step, delivers, Expires-Changes, Step-finished}

-- An act on the store that is a whole request of the API other than a submission, with its own context,
-- clock, queue, vault and target, or the expiry of keys.
pub data IsServed ⦃d : Deps⦄ (act : d.redis.Store → d.redis.Store) : Type 0 where
  by_poll :
      (w : World d) (i c : String) (t : Option String)
      → ((st : d.redis.Store) → act st ≡ (poll_research i c t (record w { store = st })).1.store)
      → IsServed act
  by_cancel :
      (w : World d) (i c : String) (t : Option String)
      → ((st : d.redis.Store) → act st ≡ (cancel_research i c t (record w { store = st })).1.store)
      → IsServed act
  by_execute :
      (w : World d) (body : ExecuteRequest) (c : String) (t : Option String) (k : String)
      → ((st : d.redis.Store)
          → act st ≡ (execute_action body c t k (record w { store = st })).1.store)
      → IsServed act
  by_show :
      (w : World d) (i c : String) (t : Option String)
      → ((st : d.redis.Store) → act st ≡ (get_action i c t (record w { store = st })).1.store)
      → IsServed act
  by_reject :
      (w : World d) (i c : String) (t : Option String)
      → ((st : d.redis.Store) → act st ≡ (reject_action i c t (record w { store = st })).1.store)
      → IsServed act
  by_expiry : ((st : d.redis.Store) → d.redis.Expires st (act st)) → IsServed act

-- What other processes do while the agent runs are such acts, between two states of the agent.
abbrev pub AreServed : ⦃d : Deps⦄ → List AgentEvent → Type 0
AreServed [] = Unit
AreServed (yields m ∷ es) = AreServed es
AreServed (raises e ∷ es) = AreServed es
AreServed (outside act ∷ es) = IsServed act × AreServed es

-- The step is a request or the passing of time.
abbrev pub IsNoDelivery : ⦃d : Deps⦄ → {v w : World d} → Step v w → Type 0
IsNoDelivery (delivers agent acts i n) = ⊥
IsNoDelivery st = Unit

-- One event in the life of the service: a request or the passing of time, each by itself, or a delivery
-- to the worker in which only requests that are no submissions, and expiry, come in between.
pub data ServiceStep ⦃d : Deps⦄ (v : World d) : World d → Type 0 where
  alone : {w : World d} (st : Step v w) → IsNoDelivery st → ServiceStep v w
  delivery :
      (agent : DownstreamCredentials → Result Failure (List AgentEvent))
      → ((k : DownstreamCredentials) (es : List AgentEvent) → agent k ≡ ok es → AreServed es)
      → (i : String) (attempt : ℕ) → ServiceStep v (research_job agent i attempt v).1

module _ ⦃d : Deps⦄ (law : IsLawful d.redis) (lives : HasLifetimes d.settings) where
  IsServed-Changes :
      (act : d.redis.Store → d.redis.Store)
      → IsServed act
      → (st : d.redis.Store) → Changes st (act st)
  IsServed-Changes act (by_poll w i c t same) st =
      rw (same st) ((poll_research-Safe i c t).at (record w { store = st }))
  IsServed-Changes act (by_cancel w i c t same) st =
      rw (same st) ((cancel_research-Safe law lives i c t).at (record w { store = st }))
  IsServed-Changes act (by_execute w body c t k same) st =
      rw (same st) ((execute_action-Safe law lives body c t k).at (record w { store = st }))
  IsServed-Changes act (by_show w i c t same) st =
      rw (same st) ((get_action-Safe law lives i c t).at (record w { store = st }))
  IsServed-Changes act (by_reject w i c t same) st =
      rw (same st) ((reject_action-Safe law lives i c t).at (record w { store = st }))
  IsServed-Changes act (by_expiry expires) st = Expires-Changes law st (act st) (expires st)

  AreServed-Safely : (es : List AgentEvent) → AreServed es → ActsSafely es
  AreServed-Safely [] h = tt
  AreServed-Safely (yields m ∷ es) h = AreServed-Safely es h
  AreServed-Safely (raises e ∷ es) h = AreServed-Safely es h
  AreServed-Safely (outside act ∷ es) (served, h) =
      (IsServed-Changes act served, AreServed-Safely es h)

  -- From a sound store, no step of the service changes the status of a finished job: it stays, or the
  -- job's record is gone. A step is a request, a delivery to the worker or the expiry of keys; requests
  -- run by themselves, and during a delivery other requests, each as a whole and none of them a
  -- submission, and expiry come in between two states of the agent. Two transitions never overlap.
  pub ServiceStep-finished :
      {v w : World d}
      → ServiceStep v w
      → IsSound v.store
      → (i : String) (r : JobRecord) → stored_job v.store i ≡ some r
      → is_terminal r.status ≡ true
      → (stored_job w.store i ≡ none)
        ⊎ ((r' : JobRecord) × (stored_job w.store i ≡ some r') × (r'.status ≡ r.status))
  ServiceStep-finished (alone st only) s i r found over =
      Step-finished law lives st s i r found over
  ServiceStep-finished (delivery agent served j n) s i r found over =
      Step-finished law lives (delivers agent (λ k es h. AreServed-Safely es (served k es h)) j n) s
        i r found over
