-- ===== src/Jobs/Writes.antt =====
-- The operations of app/state/redis_store.py, each as a change of a sound store (see Jobs).
use deep_agent_blueprint.Prelude.{
  ℕ, String, ◌≡◌, refl, ◌∙◌, ◌==◌, eq_refl, ◌&&◌, Bool, true, false, Option, none, some, ◌⊎◌, inl,
  inr, if◌then◌else◌, arith, Option-cases,
}
use deep_agent_blueprint.Schemas.{
  JobStatus, JobRecord, JobError, JobProgress, JobResultDoc, StoredProposal, IdempotencyRecord,
  is_terminal,
}
use deep_agent_blueprint.Deps.{Deps, IsLawful, Expiry, keepttl, IsLive}
use deep_agent_blueprint.Store.{
  Kind, job, result, tok, proposal, idem, cancel, key, transition, set_progress, save_progress,
  save_job, save_result, save_proposal, delete_proposal, put_idempotency, purge_token,
  request_cancel,
}
use deep_agent_blueprint.Store.Keys.{same_kind}
use deep_agent_blueprint.Store.Reads.{stored_job, staged, raw_at-set, raw_at-delete, HasLifetimes}
use deep_agent_blueprint.Store.Transition.{
  Moves, get_job_found, get_job_missing, moved, transition_allowed, transition_atomic,
}
use deep_agent_blueprint.Jobs.{IsSound, Changes, Changes-refl, Safe}
use deep_agent_blueprint.Jobs.Records.{Changes-elsewhere, no_step_from_terminal, Changes-job}

module _ ⦃d : Deps⦄ (law : IsLawful d.redis) where
  -- A SET of a document that is neither a job record nor a token.
  set-Changes :
      (k : Kind) (i : String) (v : d.redis.Raw) (e : Expiry) (st : d.redis.Store)
      → IsLive e
      → same_kind k job ≡ false
      → same_kind k tok ≡ false
      → Changes st (d.redis.set (key k i) v e st)
  set-Changes k i v e st live nj nt =
      Changes-elsewhere st _ (λ j. raw_at-set law k job i j v e st live ∙ rw nj refl)
        (λ j. inl (raw_at-set law k tok i j v e st live ∙ rw nt refl))

  delete-Changes :
      (k : Kind) (i : String) (st : d.redis.Store)
      → same_kind k job ≡ false
      → Changes st (d.redis.delete (key k i) st)
  delete-Changes k i st nj =
      Changes-elsewhere st _ (λ j. raw_at-delete law k job i j st ∙ rw nj refl)
        (λ j. less j (same_kind k tok && i == j) (raw_at-delete law k tok i j st))
    where
      less :
          (j : String) (b : Bool)
          → staged (d.redis.delete (key k i) st) j ≡ (if b then none else staged st j)
          → (staged (d.redis.delete (key k i) st) j ≡ staged st j)
            ⊎ (staged (d.redis.delete (key k i) st) j ≡ none)
      less j true h = inr h
      less j false h = inl h

  -- What `Changes` says may use that the store is sound.
  Changes-when : (st st' : d.redis.Store) → (IsSound st → Changes st st') → Changes st st'
  Changes-when st st' h = record { sound = λ s. (h s).sound s; evolves = λ s. (h s).evolves s }

  Moves-Changes :
      (i : String) (r r' : JobRecord) (st st' : d.redis.Store)
      → stored_job st i ≡ some r
      → r'.job_id ≡ i
      → is_terminal r.status ≡ false
      → r'.max_attempts ≡ r.max_attempts
      → Moves i r'.status r' st st'
      → Changes st st'
  Moves-Changes i r r' st st' found own open_job attempts m =
      Changes-job i r r' st st' found own attempts (inl open_job) m.job_written
        (λ j. less j (is_terminal r'.status && i == j) (m.token_purged j))
        (λ _ over. m.token_purged i ∙ rw (over, eq_refl i) refl)
    where
      less :
          (j : String) (b : Bool)
          → staged st' j ≡ (if b then none else staged st j)
          → (staged st' j ≡ staged st j) ⊎ (staged st' j ≡ none)
      less j true h = inr h
      less j false h = inl h

  pub transition-Safe :
      (i : String) (s : JobStatus) (a : Option ℕ) (e : Option JobError) → Safe (transition i s a e)
  transition-Safe i s a e = record {
    at = λ w. elim (transition_atomic i s a e w) [
      | inr (x, refused) ↦ rw refused (Changes-refl w.store)
      | inl (r, found, legal, returned) ↦
          Changes-when w.store (transition i s a e w).1.store λ sound.
            Moves-Changes i r (moved (d.clock w.clock_reads) s a e r) w.store
              (transition i s a e w).1.store found (sound.keyed i r found)
              (no_step_from_terminal r.status s legal) refl
              (transition_allowed law i s a e w found (sound.keyed i r found) legal).1
    ];
  }

  save_Changes :
      (i k : String) (r r' : JobRecord) (st : d.redis.Store)
      → stored_job st i ≡ some r
      → k ≡ i
      → r'.job_id ≡ i
      → r'.max_attempts ≡ r.max_attempts
      → r'.status ≡ r.status
      → Changes st (d.redis.set (key job k) (d.redis.dump_job r') keepttl st)
  save_Changes i k r r' st found e own attempts same = rw e (
      Changes-job i r r' st _ found own attempts (inr same)
        (λ j. ground (
          arith,
          raw_at-set law job job i j (d.redis.dump_job r') keepttl st tt,
          law.job_roundtrip r',
          law.job_nonempty r',
        ))
        (λ j. inl (raw_at-set law job tok i j (d.redis.dump_job r') keepttl st tt))
        (λ open_job over. cc))

  pub set_progress-Safe : (i : String) (p : JobProgress) → Safe (set_progress i p)
  unfolding set_progress save_progress save_job
  set_progress-Safe i p = record {
    at = λ w. elim (Option-cases (stored_job w.store i)) [
      | inr (r, found) ↦ rw (get_job_found i w found) (
          Changes-when w.store _ λ sound.
            save_Changes i r.job_id r (record r { progress = p }) w.store found
              (sound.keyed i r found) (sound.keyed i r found) refl refl)
      | inl missing ↦ elim (get_job_missing i w missing) [
        | inl absent ↦ rw absent (Changes-refl w.store)
        | inr malformed ↦ rw malformed (Changes-refl w.store)
      ]
    ];
  }

  module _ (lives : HasLifetimes d.settings) where
    pub save_result-Safe : (i : String) (doc : JobResultDoc) → Safe (save_result i doc)
    unfolding save_result
    save_result-Safe i doc = record {
      at = λ w. set-Changes result i _ _ w.store lives.result_positive refl refl;
    }

    pub save_proposal-Safe : (p : StoredProposal) → Safe (save_proposal p)
    unfolding save_proposal
    save_proposal-Safe p = record {
      at = λ w.
          set-Changes proposal p.action.action_id _ _ w.store lives.proposal_positive refl refl;
    }

    pub put_idempotency-Safe : (k : String) (r : IdempotencyRecord) → Safe (put_idempotency k r)
    unfolding put_idempotency
    put_idempotency-Safe k r = record {
      at = λ w. set-Changes idem k _ _ w.store lives.idempotency_positive refl refl;
    }

    pub request_cancel-Safe : (i : String) → Safe (request_cancel i)
    unfolding request_cancel
    request_cancel-Safe i = record {
      at = λ w. set-Changes cancel i _ _ w.store (omega (arith, lives.result_positive)) refl refl;
    }

  pub delete_proposal-Safe : (i : String) → Safe (delete_proposal i)
  unfolding delete_proposal
  delete_proposal-Safe i = record { at = λ w. delete-Changes proposal i w.store refl }

  pub purge_token-Safe : (i : String) → Safe (purge_token i)
  unfolding purge_token
  purge_token-Safe i = record { at = λ w. delete-Changes tok i w.store refl }
