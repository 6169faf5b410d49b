-- ===== src/Store/Lifetimes.antt =====
-- The lifetimes that app/state/redis_store.py gives to its keys: Redis with a clock.
pub mod Writes
pub mod Timely
pub mod Outlives
pub mod Late
use deep_agent_blueprint.Prelude.{
  ℕ, ◌+◌, ◌≤◌, ◌<◌, String, ◌≡◌, refl, ap, ◌∙◌, ◌==◌, ◌&&◌, Option, none, some, if◌then◌else◌,
}
use deep_agent_blueprint.Deps.{Deps, Redis, IsLawful, Expiry, ex, keepttl, IsLive}
use deep_agent_blueprint.Store.{Kind, key_in}
use deep_agent_blueprint.Store.Keys.{same_kind, key_in-eq}

-- the instant at which a key expires that is written at `now`; `old` is that of the key before
abbrev pub expiry_at : Expiry → ℕ → Option ℕ → Option ℕ
expiry_at (ex n) now old = some (now + n)
expiry_at keepttl now old = old

-- What Redis documents of time, in seconds: a key that is set with `ex` expires so many seconds later,
-- with `keepttl` when it would have; it is there until then and not from then on. `Expires` lets time
-- pass. A key that is absent or does not expire has no deadline.
pub record KeepsTime (R : Redis) : Type 0 where
  pub now : R.Store → ℕ
  pub deadline : String → R.Store → Option ℕ
  pub now-set : (k : String) (v : R.Raw) (e : Expiry) (s : R.Store) → now (R.set k v e s) ≡ now s
  pub now-delete : (k : String) (s : R.Store) → now (R.delete k s) ≡ now s
  pub deadline-set :
      (j k : String) (v : R.Raw) (e : Expiry) (s : R.Store)
      → IsLive e
      → deadline j (R.set k v e s)
        ≡ (if k == j then expiry_at e (now s) (deadline j s) else deadline j s)
  pub deadline-delete :
      (j k : String) (s : R.Store)
      → deadline j (R.delete k s) ≡ (if k == j then none else deadline j s)
  pub now-Expires : (s t : R.Store) → R.Expires s t → now s ≤ now t
  pub kept :
      (k : String) (s t : R.Store) {a : ℕ}
      → R.Expires s t
      → deadline k s ≡ some a
      → now t < a
      → (R.get k t ≡ R.get k s) × (deadline k t ≡ some a)
  pub expired :
      (k : String) (s t : R.Store) {a : ℕ}
      → R.Expires s t
      → deadline k s ≡ some a
      → a ≤ now t
      → R.get k t ≡ none

module _ ⦃d : Deps⦄ (time : KeepsTime d.redis) where
  abbrev pub deadline_at : d.redis.Store → Kind → String → Option ℕ
  deadline_at s k i = time.deadline (key_in d.settings.domain k i) s

  pub deadline_at-set :
      (k l : Kind) (i j : String) (v : d.redis.Raw) (e : Expiry) (s : d.redis.Store)
      → IsLive e
      → deadline_at (d.redis.set (key_in d.settings.domain k i) v e s) l j ≡ (
          if same_kind k l && i == j
          then expiry_at e (time.now s) (deadline_at s l j)
          else deadline_at s l j)
  deadline_at-set k l i j v e s h = rw (time.deadline-set, h, key_in-eq)

  pub deadline_at-delete :
      (k l : Kind) (i j : String) (s : d.redis.Store)
      → deadline_at (d.redis.delete (key_in d.settings.domain k i) s) l j
        ≡ (if same_kind k l && i == j then none else deadline_at s l j)
  deadline_at-delete k l i j s = rw (time.deadline-delete, key_in-eq)
