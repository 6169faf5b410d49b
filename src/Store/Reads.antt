-- ===== src/Store/Reads.antt =====
-- What is stored, as one reads it: the effect of a SET and of a DEL on every document
-- (app/state/redis_store.py).
use deep_agent_blueprint.Prelude.{◌<◌, String, ◌≡◌, ◌==◌, ◌&&◌, Option, none, some, if◌then◌else◌}
use deep_agent_blueprint.Schemas.{JobRecord, StoredProposal, IdempotencyRecord, JobResultDoc}
use deep_agent_blueprint.Deps.{Deps, Settings, Expiry, IsLive, IsLawful}
use deep_agent_blueprint.Store.{Kind, key_in, job, tok, proposal, idem, result, cancel}
use deep_agent_blueprint.Store.Keys.{same_kind, key_in-eq}

-- Lifetimes of 0 seconds are refused by Redis.
pub record HasLifetimes (s : Settings) : Type 0 where
  pub result_positive : 0 < s.result_ttl_s
  pub proposal_positive : 0 < s.proposal_ttl_s
  pub idempotency_positive : 0 < s.idempotency_ttl_s

module _ ⦃d : Deps⦄ where
  abbrev pub raw_at : d.redis.Store → Kind → String → Option d.redis.Raw
  raw_at s k i = d.redis.get (key_in d.settings.domain k i) s

  abbrev pub document : {A : Type 0} → (d.redis.Raw → Option A) → Option d.redis.Raw → Option A
  document validate none = none
  document validate (some raw) = if d.redis.is_empty raw then none else validate raw

  -- the documents under a key, `none` also for what does not parse
  abbrev pub stored_job : d.redis.Store → String → Option JobRecord
  stored_job s i = document d.redis.validate_job (raw_at s job i)

  abbrev pub stored_result : d.redis.Store → String → Option JobResultDoc
  stored_result s i = document d.redis.validate_result (raw_at s result i)

  abbrev pub stored_proposal : d.redis.Store → String → Option StoredProposal
  stored_proposal s i = document d.redis.validate_proposal (raw_at s proposal i)

  abbrev pub stored_idempotency : d.redis.Store → String → Option IdempotencyRecord
  stored_idempotency s i = document d.redis.validate_idempotency (raw_at s idem i)

  abbrev pub staged : d.redis.Store → String → Option d.redis.Raw
  staged s i = raw_at s tok i

  abbrev pub cancel_flag : d.redis.Store → String → Option d.redis.Raw
  cancel_flag s i = raw_at s cancel i

module _ ⦃d : Deps⦄ (law : IsLawful d.redis) where
  pub raw_at-set :
      (k l : Kind) (i j : String) (v : d.redis.Raw) (e : Expiry) (s : d.redis.Store)
      → IsLive e
      → raw_at (d.redis.set (key_in d.settings.domain k i) v e s) l j
        ≡ (if same_kind k l && i == j then some v else raw_at s l j)
  raw_at-set k l i j v e s h = rw (law.get-set, h, key_in-eq)

  pub raw_at-delete :
      (k l : Kind) (i j : String) (s : d.redis.Store)
      → raw_at (d.redis.delete (key_in d.settings.domain k i) s) l j
        ≡ (if same_kind k l && i == j then none else raw_at s l j)
  raw_at-delete k l i j s = rw (law.get-delete, key_in-eq)
