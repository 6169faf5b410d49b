-- ===== src/Jobs/Submission.antt =====
-- POST /research (app/api/research.py) over all jobs (see Jobs): a submission adds one job.
use deep_agent_blueprint.Prelude.{
  suc, String, ◌≡◌, refl, ◌∙◌, false, Option, none, arith, inl, inr, Bool-cases,
}
use deep_agent_blueprint.Prelude.Exec.{Result, ok, err, continue, handle, pure, try_except, ◌>>◌}
use deep_agent_blueprint.Schemas.{
  Failure, failed, JobRecord, is_terminal, ResearchRequest, ResearchAccepted, token_vault_error,
  queue_unavailable,
}
use deep_agent_blueprint.Deps.{Deps, World, IsLawful}
use deep_agent_blueprint.App.{bound, current_correlation_id_lem}
use deep_agent_blueprint.Auth.{is_user_pat}
use deep_agent_blueprint.Queue.{enqueue_research}
use deep_agent_blueprint.Store.{create_job, stage_token}
use deep_agent_blueprint.Store.Reads.{stored_job, HasLifetimes}
use deep_agent_blueprint.Research.{
  protect_token, seal_token, vault_error, token_or_blank, rollback, submit_research,
}
use deep_agent_blueprint.Jobs.{Safe, Safe-bind, Safe-try, Safe-still, Safe-pure, Safe-raise}
use deep_agent_blueprint.Jobs.Writes.{transition-Safe, purge_token-Safe}
use deep_agent_blueprint.Jobs.Additions.{
  Adds-refl, Adds-Changes, Adds-before, job_set, token_set-jobs, token_set-Adds, job_set-Adds, Adds,
}

module _ ⦃d : Deps⦄ (law : IsLawful d.redis) (lives : HasLifetimes d.settings) (i : String) where
  seal_token_store : (t : Option String) (w : World d) → (seal_token t w).1.store ≡ w.store
  unfolding seal_token
  seal_token_store t w =
      after (d.encrypt (token_or_blank t) w.vault).0
        (record w { vault = (d.encrypt (token_or_blank t) w.vault).1 }) refl
    where
      raised_store : (e : Failure) (v : World d) → (vault_error {A = String} e v).1.store ≡ v.store
      raised_store token_vault_error v = refl
      raised_store e v = refl

      after :
          (r : Result Failure String) (v : World d)
          → v.store ≡ w.store
          → (handle r vault_error v).1.store ≡ w.store
      after (ok c) v h = h
      after (err e) v h = raised_store e v ∙ h

  protect_token-Adds :
      (t : Option String) (w : World d)
      → Adds i w.store (protect_token i t w).1.store
        × ((j : String) → stored_job (protect_token i t w).1.store j ≡ stored_job w.store j)
  unfolding protect_token stage_token
  protect_token-Adds t w = elim (Bool-cases (is_user_pat d.adapter.auth_mode)) [
    | inr other ↦ rw other (Adds-refl i w.store, λ j. refl)
    | inl pat ↦ rw pat (staging (seal_token t w).0 (seal_token t w).1 (seal_token_store t w))
  ]
    where
      staging :
          (r : Result Failure String) (v : World d)
          → v.store ≡ w.store
          → Adds i w.store (continue r (stage_token i) v).1.store
            × ((j : String)
                → stored_job (continue r (stage_token i) v).1.store j ≡ stored_job w.store j)
      staging (ok c) v h =
          rw h (token_set-Adds law lives i c w.store, token_set-jobs law lives i c w.store)
      staging (err e) v h = rw h (Adds-refl i w.store, λ j. refl)

  enqueue_research-Safe : Safe (enqueue_research i)
  unfolding enqueue_research
  enqueue_research-Safe = Safe-still (λ w. ground arith)

  rollback-Safe : {A : Type 0} (e : Failure) → Safe (rollback {A = A} i e)
  unfolding rollback
  rollback-Safe queue_unavailable =
      Safe-bind _ _ (purge_token-Safe law i)
        λ _. Safe-bind _ _ (transition-Safe law i failed none _) λ _. Safe-raise _
  rollback-Safe e = Safe-raise e

  -- what follows the staging of the token
  accepted-Adds :
      (r : JobRecord) (a : ResearchAccepted) (w : World d)
      → r.job_id ≡ i
      → is_terminal r.status ≡ false
      → r.max_attempts ≡ d.settings.job_max_attempts
      → Adds i w.store
          ((create_job r >> (try_except (enqueue_research i) (rollback i) >> pure a)) w).1.store
  unfolding create_job
  accepted-Adds r a w own live attempts =
      Adds-Changes i w.store (job_set law lives i r w.store) _
        (job_set-Adds law lives i r w.store own live attempts)
        ((Safe-bind _ (λ _. pure a) (Safe-try _ _ enqueue_research-Safe rollback-Safe)
            (λ _. Safe-pure a)).at
          (record w { store = job_set law lives i r w.store }))

  submitted-Adds :
      (t : Option String) (r : JobRecord) (a : ResearchAccepted) (v : World d) (st : d.redis.Store)
      → v.store ≡ st
      → r.job_id ≡ i
      → is_terminal r.status ≡ false
      → r.max_attempts ≡ d.settings.job_max_attempts
      → Adds i st
          ((protect_token i t
              >> (create_job r >> (try_except (enqueue_research i) (rollback i) >> pure a)))
            v).1.store
  submitted-Adds t r a v st start own live attempts =
      let (added_token, same) = protect_token-Adds t v in
      rw (← start) (next (protect_token i t v).0 (protect_token i t v).1 added_token same)
    where
      next :
          (q : Result Failure Unit) (u : World d)
          → Adds i v.store u.store
          → ((j : String) → stored_job u.store j ≡ stored_job v.store j)
          → Adds i v.store
              (continue q
                (λ _. create_job r >> (try_except (enqueue_research i) (rollback i) >> pure a))
                u).1.store
      next (ok x) u before same =
          Adds-before i v.store u.store _ before same (accepted-Adds r a u own live attempts)
      next (err e) u before same = before

bound_store : ⦃d : Deps⦄ (w : World d) → (bound w).store ≡ w.store
bound_store w = ground arith

-- A submission under a job id that is not in use, however it ends, keeps a sound store sound; other
-- jobs do not come back once gone, finished ones keep their status, and no job gets another number of
-- attempts; a record of the new job has the configured one.
pub submit_research-Adds :
    ⦃d : Deps⦄ (law : IsLawful d.redis) (lives : HasLifetimes d.settings) (body : ResearchRequest)
    (c : String) (t : Option String) (w : World d)
    → Adds (d.uuid4 w.uuids_drawn) w.store (submit_research body c t w).1.store
unfolding submit_research
submit_research-Adds ⦃d⦄ law lives body c t w = rw current_correlation_id_lem (
    submitted-Adds law lives (d.uuid4 w.uuids_drawn) t _ _ _ w.store
      (bound_store (record w { uuids_drawn = suc w.uuids_drawn })) refl refl refl)
