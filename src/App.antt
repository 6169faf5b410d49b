-- ===== src/App.antt =====
-- The calls that every handler makes: the clock, UUIDs, the correlation id, and Redis.
use deep_agent_blueprint.Prelude.{ℕ, suc, String, Bool, Option, none, some, ◌≡◌, arith}
use deep_agent_blueprint.Prelude.Exec.{ok, Exec, pure, ◌>>=◌, ◌>>◌, gets}
use deep_agent_blueprint.Schemas.{Failure}
use deep_agent_blueprint.Deps.{Deps, World, Expiry}

-- An action of a handler or of the worker.
abbrev pub App : ⦃d : Deps⦄ → Type 0 → Type 0
App ⦃d⦄ A = Exec (World d) Failure A

module _ ⦃d : Deps⦄ where
  -- `utcnow()` of app/models/schemas.py
  abbrev pub utcnow : App ℕ
  utcnow w = (ok (d.clock w.clock_reads), record w { clock_reads = suc w.clock_reads })

  -- `str(uuid.uuid4())`, also `new_id()` of app/observability/correlation.py
  abbrev pub new_id : App String
  new_id w = (ok (d.uuid4 w.uuids_drawn), record w { uuids_drawn = suc w.uuids_drawn })

  abbrev pub redis_get : String → App (Option d.redis.Raw)
  redis_get k w = (ok (d.redis.get k w.store), w)

  abbrev pub redis_set : String → d.redis.Raw → Expiry → App Unit
  redis_set k v e w = (ok tt, record w { store = d.redis.set k v e w.store })

  abbrev pub redis_delete : String → App Unit
  redis_delete k w = (ok tt, record w { store = d.redis.delete k w.store })

  abbrev pub redis_exists : String → App Bool
  redis_exists k w = (ok (d.redis.exists k w.store), w)

  abbrev pub set_correlation_id : String → App Unit
  set_correlation_id cid w = (ok tt, record w { correlation_id = some cid })

  abbrev mint : Option String → App String
  mint (some cid) = pure cid
  mint none = do cid ← new_id; set_correlation_id cid; pure cid

  -- app/observability/correlation.py: the bound id, or a new one that is bound
  unfoldable pub current_correlation_id : App String
  current_correlation_id = do bound ← gets (λ w. w.correlation_id); mint bound

  -- the correlation id that a handler sees, and the state in which it is bound
  abbrev pub current : World d → String
  current w = elim w.correlation_id [ none ↦ d.uuid4 w.uuids_drawn | some cid ↦ cid ]

  abbrev pub bound : World d → World d
  bound w = elim w.correlation_id [
    | none ↦ record w {
      uuids_drawn = suc w.uuids_drawn;
      correlation_id = some (d.uuid4 w.uuids_drawn);
    }
    | some cid ↦ w
  ]

  pub current_correlation_id_lem :
      (w : World d) → current_correlation_id w ≡ (ok (current w), bound w)
  unfolding current_correlation_id
  current_correlation_id_lem w = ground arith
