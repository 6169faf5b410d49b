-- ===== src/Jobs.antt =====
-- The job records of all requests together: what every operation of the API and of the worker keeps
-- (app/state/redis_store.py, app/api/research.py, app/worker/runner.py).
pub mod Records
pub mod Writes
pub mod Handlers
pub mod Actions
pub mod Additions
pub mod Submission
pub mod Settled
pub mod Retries
pub mod LastAttempt
pub mod Redelivery
pub mod History
pub mod Acts
use deep_agent_blueprint.Prelude.{
  ℕ, ◌≤◌, arith, String, ◌≡◌, refl, sym, ◌∙◌, Bool, true, false, Option, none, some, ◌⊎◌, inl, inr,
  if◌then◌else◌, ap, Option-cases,
}
use mathlib.Core.Option.{some-injective, some-ne-none}
use deep_agent_blueprint.Prelude.Exec.{
  Result, ok, err, pure, raise, try_except, handle, continue, ◌>>=◌, ◌>>◌,
}
use deep_agent_blueprint.Schemas.{Failure, JobRecord, is_terminal}
use deep_agent_blueprint.Deps.{Deps, World}
use deep_agent_blueprint.App.{App}
use deep_agent_blueprint.Store.Reads.{stored_job, staged}

module _ ⦃d : Deps⦄ where
  -- Every job is stored under its own id, and no finished job has a staged token.
  pub record IsSound (st : d.redis.Store) : Type 0 where
    pub keyed : (i : String) (r : JobRecord) → stored_job st i ≡ some r → r.job_id ≡ i
    pub purged :
        (i : String) (r : JobRecord)
        → stored_job st i ≡ some r
        → is_terminal r.status ≡ true
        → staged st i ≡ none

  -- Job `i` does not come back once it is gone, a finished one keeps its status until then, and it
  -- gets no other number of attempts.
  pub record Evolves (i : String) (st st' : d.redis.Store) : Type 0 where
    pub absent : stored_job st i ≡ none → stored_job st' i ≡ none
    pub finished :
        (r : JobRecord)
        → stored_job st i ≡ some r
        → is_terminal r.status ≡ true
        → (stored_job st' i ≡ none)
          ⊎ ((r' : JobRecord) × (stored_job st' i ≡ some r') × (r'.status ≡ r.status))
    pub limit :
        (r r' : JobRecord)
        → stored_job st i ≡ some r
        → stored_job st' i ≡ some r'
        → r'.max_attempts ≡ r.max_attempts

  -- The record of job `i` is left as it is.
  pub Evolves-same :
      (i : String) (st st' : d.redis.Store) → stored_job st' i ≡ stored_job st i → Evolves i st st'
  Evolves-same i st st' same = record {
    absent = λ h. same ∙ h;
    finished = λ r h t. inr (r, same ∙ h, refl);
    limit = λ r r' h h'. ap (λ u. u.max_attempts) (some-injective r' r (sym h' ∙ same ∙ h));
  }

  pub Evolves-refl : (i : String) (st : d.redis.Store) → Evolves i st st
  Evolves-refl i st = Evolves-same i st st refl

  pub Evolves-trans :
      (i : String) (a b c : d.redis.Store) → Evolves i a b → Evolves i b c → Evolves i a c
  Evolves-trans i a b c p q = record {
    absent = λ h. q.absent (p.absent h);
    finished = λ r h t. after r t (p.finished r h t);
    limit = λ r r'' h h''. elim (Option-cases (stored_job b i)) [
      | inl gone ↦ absurd (some-ne-none r'' (sym h'' ∙ q.absent gone))
      | inr (r', h') ↦ q.limit r' r'' h' h'' ∙ p.limit r r' h h'
    ];
  }
    where
      relabel :
          (r r' : JobRecord)
          → r'.status ≡ r.status
          → (stored_job c i ≡ none)
            ⊎ ((r'' : JobRecord) × (stored_job c i ≡ some r'') × (r''.status ≡ r'.status))
          → (stored_job c i ≡ none)
            ⊎ ((r'' : JobRecord) × (stored_job c i ≡ some r'') × (r''.status ≡ r.status))
      relabel r r' e (inl gone) = inl gone
      relabel r r' e (inr (r'', h, f)) = inr (r'', h, f ∙ e)

      after :
          (r : JobRecord)
          → is_terminal r.status ≡ true
          → (stored_job b i ≡ none)
            ⊎ ((r' : JobRecord) × (stored_job b i ≡ some r') × (r'.status ≡ r.status))
          → (stored_job c i ≡ none)
            ⊎ ((r'' : JobRecord) × (stored_job c i ≡ some r'') × (r''.status ≡ r.status))
      after r t (inl gone) = inl (q.absent gone)
      after r t (inr (r', h, e)) = relabel r r' e (q.finished r' h (rw e t))

  -- The number of attempts that job `i` may have stays within a bound.
  pub Evolves-limited :
      (limit : ℕ) (i : String) (st st' : d.redis.Store)
      → Evolves i st st'
      → ((r : JobRecord) → stored_job st i ≡ some r → r.max_attempts ≤ limit)
      → ((r : JobRecord) → stored_job st' i ≡ some r → r.max_attempts ≤ limit)
  Evolves-limited limit i st st' p h r' found = elim (Option-cases (stored_job st i)) [
    | inl gone ↦ absurd (some-ne-none r' (sym found ∙ p.absent gone))
    | inr (r, before) ↦ omega (arith, h r before, p.limit r r' before found)
  ]

  -- What an operation may do to a sound store.
  pub record Changes (st st' : d.redis.Store) : Type 0 where
    pub sound : IsSound st → IsSound st'
    pub evolves : IsSound st → (i : String) → Evolves i st st'

  pub Changes-refl : (st : d.redis.Store) → Changes st st
  Changes-refl st = record { sound = λ h. h; evolves = λ h i. Evolves-refl i st }

  pub Changes-trans : (a b c : d.redis.Store) → Changes a b → Changes b c → Changes a c
  Changes-trans a b c p q = record {
    sound = λ h. q.sound (p.sound h);
    evolves = λ h i. Evolves-trans i a b c (p.evolves h i) (q.evolves (p.sound h) i);
  }

  -- `m` changes the store only so, whether it returns or raises.
  pub record Safe {A : Type 0} (m : App A) : Type 0 where
    pub at : (w : World d) → Changes w.store (m w).1.store

module _ ⦃d : Deps⦄ {A : Type 0} where
  pub Safe-still : {m : App A} → ((w : World d) → (m w).1.store ≡ w.store) → Safe m
  Safe-still h = record { at = λ w. rw h (Changes-refl w.store) }

  pub Safe-pure : (a : A) → Safe (pure a)
  Safe-pure a = record { at = λ w. Changes-refl w.store }

  pub Safe-raise : (e : Failure) → Safe (raise {A = A} e)
  Safe-raise e = record { at = λ w. Changes-refl w.store }

  pub Safe-if : (b : Bool) (m n : App A) → Safe m → Safe n → Safe (if b then m else n)
  Safe-if true m n p q = p
  Safe-if false m n p q = q

  handle-Changes :
      (h : Failure → App A) (r : Result Failure A) (w : World d)
      → ((e : Failure) → Safe (h e))
      → Changes w.store (handle r h w).1.store
  handle-Changes h (ok a) w k = Changes-refl w.store
  handle-Changes h (err e) w k = (k e).at w

  pub Safe-try :
      (m : App A) (h : Failure → App A)
      → Safe m
      → ((e : Failure) → Safe (h e))
      → Safe (try_except m h)
  Safe-try m h p k = record {
    at = λ w.
        Changes-trans w.store (m w).1.store (try_except m h w).1.store (p.at w)
          (handle-Changes h (m w).0 (m w).1 k);
  }

module _ ⦃d : Deps⦄ {A B : Type 0} where
  continue-Changes :
      (f : A → App B) (r : Result Failure A) (w : World d)
      → ((a : A) → Safe (f a))
      → Changes w.store (continue r f w).1.store
  continue-Changes f (ok a) w k = (k a).at w
  continue-Changes f (err e) w k = Changes-refl w.store

  pub Safe-bind : (m : App A) (f : A → App B) → Safe m → ((a : A) → Safe (f a)) → Safe (m >>= f)
  Safe-bind m f p k = record {
    at = λ w.
        Changes-trans w.store (m w).1.store ((m >>= f) w).1.store (p.at w)
          (continue-Changes f (m w).0 (m w).1 k);
  }
