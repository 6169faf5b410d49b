-- ===== src/Jobs/Additions.antt =====
-- What the first writes of POST /research (app/api/research.py) add to a sound store (see Jobs).
use deep_agent_blueprint.Prelude.{
  ◌<◌, String, ◌≡◌, refl, sym, ap, ◌∙◌, ◌≢◌, false, none, some, if◌then◌else◌, arith, ◌==◌, eq_iff,
  eq_refl, inl, inr, String-cases, Option-cases,
}
use mathlib.Core.Option.{some-injective, some-ne-none}
use deep_agent_blueprint.Schemas.{JobRecord, is_terminal}
use deep_agent_blueprint.Deps.{Deps, IsLawful, ex}
use deep_agent_blueprint.Store.{job, tok, key, job_ttl, token_ttl}
use deep_agent_blueprint.Store.Reads.{raw_at-set, stored_job, staged, HasLifetimes}
use deep_agent_blueprint.Jobs.{IsSound, Evolves, Evolves-same, Evolves-trans, Changes}

module _ ⦃d : Deps⦄ (i : String) where
  -- What may happen to a sound store in which job `i` does not exist yet: it stays sound, and no other
  -- job is touched but as in `Changes`; if it then exists, it has the configured number of attempts.
  pub record Adds (st st' : d.redis.Store) : Type 0 where
    pub sound : IsSound st → stored_job st i ≡ none → IsSound st'
    pub others : IsSound st → stored_job st i ≡ none → (j : String) → i ≢ j → Evolves j st st'
    pub limited :
        IsSound st
        → stored_job st i ≡ none
        → (r : JobRecord) → stored_job st' i ≡ some r
        → r.max_attempts ≡ d.settings.job_max_attempts

  -- a step that does not store the job
  Adds-none :
      (st st' : d.redis.Store)
      → (IsSound st → stored_job st i ≡ none → IsSound st')
      → ((j : String) → stored_job st' j ≡ stored_job st j)
      → Adds st st'
  Adds-none st st' sound same = record {
    sound = sound;
    others = λ s n j ne. Evolves-same j st st' (same j);
    limited = λ s n r h. absurd (some-ne-none r (sym h ∙ same i ∙ n));
  }

  pub Adds-refl : (st : d.redis.Store) → Adds st st
  Adds-refl st = Adds-none st st (λ s _. s) (λ j. refl)

  pub Adds-Changes : (a b c : d.redis.Store) → Adds a b → Changes b c → Adds a c
  Adds-Changes a b c p q = record {
    sound = λ s n. q.sound (p.sound s n);
    others = λ s n j ne. Evolves-trans j a b c (p.others s n j ne) (q.evolves (p.sound s n) j);
    limited = λ s n r'' h''. elim (Option-cases (stored_job b i)) [
      | inl gone ↦ absurd (some-ne-none r'' (sym h'' ∙ (q.evolves (p.sound s n) i).absent gone))
      | inr (r', h') ↦ (q.evolves (p.sound s n) i).limit r' r'' h' h'' ∙ p.limited s n r' h'
    ];
  }

  -- a first step that leaves the job records
  pub Adds-before :
      (a b c : d.redis.Store)
      → Adds a b
      → ((j : String) → stored_job b j ≡ stored_job a j)
      → Adds b c
      → Adds a c
  Adds-before a b c p same q = record {
    sound = λ s n. q.sound (p.sound s n) (same i ∙ n);
    others = λ s n j ne.
        Evolves-trans j a b c (p.others s n j ne) (q.others (p.sound s n) (same i ∙ n) j ne);
    limited = λ s n. q.limited (p.sound s n) (same i ∙ n);
  }

module _ ⦃d : Deps⦄ (law : IsLawful d.redis) (lives : HasLifetimes d.settings) (i : String) where
  abbrev token_set : String → d.redis.Store → d.redis.Store
  token_set c st = d.redis.set (key tok i) (d.redis.text c) (ex token_ttl) st

  abbrev pub job_set : JobRecord → d.redis.Store → d.redis.Store
  job_set r st = d.redis.set (key job r.job_id) (d.redis.dump_job r) (ex job_ttl) st

  job_live : 0 < job_ttl
  job_live = omega (arith, lives.result_positive)

  pub token_set-jobs :
      (c : String) (st : d.redis.Store) (j : String)
      → stored_job (token_set c st) j ≡ stored_job st j
  token_set-jobs c st j =
      rw (raw_at-set law tok job i j (d.redis.text c) (ex token_ttl) st (omega arith))

  pub token_set-Adds : (c : String) (st : d.redis.Store) → Adds i st (token_set c st)
  token_set-Adds c st = Adds-none i st (token_set c st) token_sound (token_set-jobs c st)
    where
      token_sound : IsSound st → stored_job st i ≡ none → IsSound (token_set c st)
      token_sound s n = record {
        keyed = λ j r h. s.keyed j r (rw (token_set-jobs c st j) at h);
        purged = λ j r h t. elim (String-cases i j) [
          | inl e ↦ absurd (
              some-ne-none r
                (sym (rw (token_set-jobs c st j) at h) ∙ ap (stored_job st) (sym e) ∙ n))
          | inr (differ, _) ↦
              raw_at-set law tok tok i j (d.redis.text c) (ex token_ttl) st (omega arith)
              ∙ rw differ (s.purged j r (rw (token_set-jobs c st j) at h) t)
        ];
      }

  job_set-at :
      (r : JobRecord) (st : d.redis.Store) (j : String)
      → r.job_id ≡ i
      → stored_job (job_set r st) j ≡ (if i == j then some r else stored_job st j)
  job_set-at r st j own = ground (
    arith,
    raw_at-set law job job r.job_id j (d.redis.dump_job r) (ex job_ttl) st job_live,
    law.job_roundtrip r,
    law.job_nonempty r,
    eq_iff i j,
    eq_iff r.job_id j,
  )

  job_set-tokens :
      (r : JobRecord) (st : d.redis.Store) (j : String) → staged (job_set r st) j ≡ staged st j
  job_set-tokens r st j =
      raw_at-set law job tok r.job_id j (d.redis.dump_job r) (ex job_ttl) st job_live

  pub job_set-Adds :
      (r : JobRecord) (st : d.redis.Store)
      → r.job_id ≡ i
      → is_terminal r.status ≡ false
      → r.max_attempts ≡ d.settings.job_max_attempts
      → Adds i st (job_set r st)
  job_set-Adds r st own live attempts = record {
    sound = λ s n. record {
      keyed = λ j x h. elim (String-cases i j) [
        | inl e ↦ ap (λ u. u.job_id) (written j x h e) ∙ own ∙ e
        | inr (differ, _) ↦ s.keyed j x (rw (unwritten j differ) at h)
      ];
      purged = λ j x h t. elim (String-cases i j) [
        | inl e ↦ let same = written j x h e in let t' = rw same at t in cc
        | inr (differ, _) ↦ job_set-tokens r st j ∙ s.purged j x (rw (unwritten j differ) at h) t
      ];
    };
    others = λ s n j ne. elim (String-cases i j) [
      | inl e ↦ absurd (ne e)
      | inr (differ, _) ↦ Evolves-same j st (job_set r st) (unwritten j differ)
    ];
    limited = λ s n x h. ap (λ u. u.max_attempts) (written i x h refl) ∙ attempts;
  }
    where
      written : (j : String) (x : JobRecord) → stored_job (job_set r st) j ≡ some x → i ≡ j → x ≡ r
      written j x h e = some-injective x r (
          sym h
          ∙ ap (stored_job (job_set r st)) (sym e)
          ∙ job_set-at r st i own
          ∙ rw (eq_refl i) refl)

      unwritten : (j : String) → (i == j) ≡ false → stored_job (job_set r st) j ≡ stored_job st j
      unwritten j differ = rw differ at (job_set-at r st j own)
