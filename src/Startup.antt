-- ===== src/Startup.antt =====
-- The start and the end of the processes: `_lifespan` of app/main.py, `startup` and `shutdown` of
-- app/worker/main.py. What they open and close is a list of events, oldest first; the Redis client is made
-- without a connection, so that making it does not fail.
pub mod Api
pub mod Consumer
use Prim.Native.String.{◌++◌ as ◌<>◌}
use deep_agent_blueprint.Prelude.{
  String, Bool, true, false, Option, none, some, List, [], ◌∷◌, ◌++◌, if◌then◌else◌, is_some,
}
use deep_agent_blueprint.Prelude.Exec.{Result, ok, err, Exec, pure, raise, handle, ◌>>=◌, ◌>>◌}
use deep_agent_blueprint.Json.{Object, str}
use deep_agent_blueprint.Schemas.{Failure}
use deep_agent_blueprint.Deps.{Settings, DomainAdapter}
use deep_agent_blueprint.Jira.{Http}
use deep_agent_blueprint.WebSearch.{build_adapter}
use deep_agent_blueprint.TokenVault.{Crypto, TokenVault, build_token_vault}
use deep_agent_blueprint.Agent.{AgentFactory, factories, get_agent_factory}
use deep_agent_blueprint.Logging.Format.{LogRecord, make_record, log_event}

pub data Resource : Type 0 where
  redis_client queue_pool token_vault : Resource

pub data Event : Type 0 where
  opens closes : Resource → Event
  serves : Event

-- Why a process ends with an exception: a vault or a name that the settings ask for and that is not
-- there, a Redis that does not answer, `logging`'s KeyError, the application's own exception, or a resource
-- that does not close.
pub data Fault : Type 0 where
  no_vault : Failure → Fault
  no_adapter no_factory no_redis key_error : Fault
  app_error : Fault
  not_closed : Resource → Fault

abbrev pub Life : Type 0 → Type 0
Life A = Exec (List Event) Fault A

-- what the worker's deps hold of the settings' making, and what comes of its start
pub record WorkerDeps (c : Crypto) : Type 1 where
  pub vault : TokenVault c
  pub adapter : DomainAdapter
  pub agent_factory : AgentFactory

pub data Started (c : Crypto) : Type 1 where
  started : WorkerDeps c → Started c
  stopped : Fault → Started c

abbrev pub happens : Event → Life Unit
happens e events = (ok tt, events ++ (e ∷ []))

abbrev pub made : {A : Type 0} → Fault → Option A → Life A
made e none = raise e
made e (some a) = pure a

abbrev pub require : Fault → Bool → Life Unit
require e true = pure tt
require e false = raise e

abbrev pub vault_of : {A : Type 0} → Result Failure A → Life A
vault_of (ok v) = pure v
vault_of (err e) = raise (no_vault e)

-- `aclose()`, where `stuck` says which resources do not close
abbrev pub aclose : (Resource → Bool) → Resource → Life Unit
aclose stuck r = if stuck r then raise (not_closed r) else happens (closes r)

-- `try: m finally: end`
abbrev pub finally : Life Unit → Life Unit → Life Unit
finally m end events = let (r, events') = m events in (do end; (λ es. (r, es))) events'

-- `logger.info("api started", extra={...})`
abbrev pub api_started : Settings → Option LogRecord
api_started s =
    make_record "INFO" "api started"
      (("event", str "api_started") ∷ ("message", str ("domain=" <> s.domain)) ∷ [])

module _ (c : Crypto) (h : Http) (Site : Type 0) (s : Settings) where
  -- `_lifespan` up to its `try`, where the app has no deps yet; `connects` says whether `create_pool`
  -- reaches Redis
  unfoldable pub open_resources : Bool → Life Unit
  open_resources connects = do
    happens (opens redis_client)
    (if connects then happens (opens queue_pool) else raise no_redis)
    vault_of (build_token_vault c s)
    require no_adapter (is_some (build_adapter h Site s))
    made key_error (api_started s)
    pure tt

  -- the `finally` of `_lifespan`
  unfoldable pub close_resources : Bool → (Resource → Bool) → Life Unit
  close_resources owns_resources stuck =
      if owns_resources
      then (do aclose stuck token_vault; aclose stuck queue_pool; aclose stuck redis_client)
      else pure tt

  -- `_lifespan`, around an app that ends by itself or by an exception
  unfoldable pub lifespan : Bool → Bool → Bool → (Resource → Bool) → Life Unit
  unfolding open_resources close_resources
  lifespan owns_resources connects app_fails stuck = do
    (if owns_resources then open_resources connects else pure tt)
    finally (do happens serves; (if app_fails then raise app_error else pure tt))
        (close_resources owns_resources stuck)

  -- `ctx["deps"]`, from the vault, the adapter and the agent factory that the settings name
  abbrev deps_of :
      Result Failure (TokenVault c) → Option DomainAdapter → Option AgentFactory → Started c
  deps_of (err e) a f = stopped (no_vault e)
  deps_of (ok v) none f = stopped no_adapter
  deps_of (ok v) (some a) none = stopped no_factory
  deps_of (ok v) (some a) (some f) = started (record { vault = v; adapter = a; agent_factory = f })

  -- a log line behind what has been done so far
  abbrev logged : Option LogRecord → Started c → Started c
  logged none (started deps) = stopped key_error
  logged _ q = q

  -- `startup` of the worker
  unfoldable pub startup : List Event → Started c × List Event
  startup events =
      let deps =
        deps_of (build_token_vault c s) (build_adapter h Site s)
          (get_agent_factory s.agent_factory factories) in
      (
        logged (log_event "INFO" "worker_started" ("domain=" <> s.domain) []) deps,
        events ++ (opens redis_client ∷ []),
      )

-- `shutdown` of the worker
unfoldable pub shutdown : (Resource → Bool) → Life Unit
shutdown stuck = do
  aclose stuck token_vault
  aclose stuck redis_client
  made key_error (log_event "INFO" "worker_stopped" "" [])
  pure tt
