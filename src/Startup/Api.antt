-- ===== src/Startup/Api.antt =====
-- `_lifespan` of app/main.py: with deps that were passed to create_app, and with its own.
use deep_agent_blueprint.Prelude.{
  ◌≡◌, refl, Bool, true, false, none, List, [], ◌∷◌, ◌⊎◌, is_some, Bool-cases, if◌then◌else◌, inl,
  inr,
}
use deep_agent_blueprint.Prelude.Exec.{Result, ok, err, Result-cases, continue}
use deep_agent_blueprint.Deps.{Settings}
use deep_agent_blueprint.Jira.{Http}
use deep_agent_blueprint.WebSearch.{build_adapter}
use deep_agent_blueprint.TokenVault.{Crypto, build_token_vault}
use deep_agent_blueprint.Logging.Format.{make_record}
use deep_agent_blueprint.Startup.{
  Resource, redis_client, queue_pool, Event, opens, serves, Fault, app_error, no_redis, no_vault,
  no_adapter, key_error, Life, api_started, open_resources, close_resources, lifespan,
}

api_started_fails : (s : Settings) → api_started s ≡ none
unfolding make_record
api_started_fails s = refl

module _ (c : Crypto) (h : Http) (Site : Type 0) (s : Settings) where
  -- what is left of a start that fails
  abbrev pub IsAbandoned : Result Fault Unit × List Event → Type 0
  IsAbandoned (r, events) =
      ((x : Fault) × (r ≡ err x))
      × ((events ≡ opens redis_client ∷ []) ⊎ (events ≡ opens redis_client ∷ opens queue_pool ∷ []))

  open_resources-IsAbandoned :
      (connects : Bool) → IsAbandoned (open_resources c h Site s connects [])
  unfolding open_resources
  open_resources-IsAbandoned false = ((no_redis, refl), inl refl)
  open_resources-IsAbandoned true = elim (Result-cases (build_token_vault c s)) [
    | inr (e, refused) ↦ rw refused ((no_vault e, refl), inr refl)
    | inl (v, built) ↦ elim (Bool-cases (is_some (build_adapter h Site s))) [
      | inr missing ↦ rw (built, missing) ((no_adapter, refl), inr refl)
      | inl there ↦ rw (built, there, api_started_fails s) ((key_error, refl), inr refl)
    ]
  ]

  after-IsAbandoned :
      (q : Result Fault Unit × List Event) (f : Unit → Life Unit)
      → IsAbandoned q
      → IsAbandoned (continue q.0 f q.1)
  after-IsAbandoned (ok u, events) f ((x, h), e) = cc
  after-IsAbandoned (err x, events) f h = h

  -- An app that was given its dependencies serves, ends as it ends, and opens and closes nothing. One that
  -- is to make its own never serves, under any settings and with a Redis that answers or not: its start
  -- always ends with an exception, and what it had opened is not closed.
  pub lifespan-Serves :
      (connects app_fails : Bool) (stuck : Resource → Bool)
      → (lifespan c h Site s false connects app_fails stuck []
          ≡ ((if app_fails then err app_error else ok tt), serves ∷ []))
        × IsAbandoned (lifespan c h Site s true connects app_fails stuck [])
  unfolding lifespan close_resources
  lifespan-Serves connects app_fails stuck = (
    given app_fails,
    after-IsAbandoned (open_resources c h Site s connects []) _
        (open_resources-IsAbandoned connects),
  )
    where
      given :
          (b : Bool)
          → lifespan c h Site s false connects b stuck []
            ≡ ((if b then err app_error else ok tt), serves ∷ [])
      given true = refl
      given false = refl
