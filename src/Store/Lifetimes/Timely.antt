-- ===== src/Store/Lifetimes/Timely.antt =====
-- What the operations of app/state/redis_store.py do to the lifetimes of one job's record and result.
use deep_agent_blueprint.Prelude.{
  ℕ, ◌+◌, String, refl, Bool, true, false, Option, if◌then◌else◌, arith, inl, inr, Option-cases,
}
use deep_agent_blueprint.Schemas.{JobStatus, JobError, JobProgress, is_terminal}
use deep_agent_blueprint.Deps.{Deps, World, IsLawful, ex}
use deep_agent_blueprint.Store.{
  key, tok, proposal, idem, cancel, job_ttl, create_job, save_job, save_result, stage_token,
  purge_token, request_cancel, save_proposal, delete_proposal, put_idempotency, transition,
  set_progress, save_progress,
}
use deep_agent_blueprint.Store.Reads.{HasLifetimes, stored_job}
use deep_agent_blueprint.Store.Contents.{
  Command, creates, saves, saves_result, stages, purges, requests_cancel, deletes, proposes,
  records, run,
}
use deep_agent_blueprint.Store.Transition.{
  moved, get_job_found, get_job_missing, transition_found, apply_transition_lem, transition_atomic,
}
use deep_agent_blueprint.Store.Lifetimes.{KeepsTime}
use deep_agent_blueprint.Store.Lifetimes.Writes.{
  InTime, set-IsTimely, delete-IsTimely, job_set-IsTimely, save-IsTimely, result_set-IsTimely,
  IsTimely,
}

module _ ⦃d : Deps⦄ (law : IsLawful d.redis) (time : KeepsTime d.redis) (i : String)
    (created : ℕ) where
  pub run-IsTimely :
      (lives : HasLifetimes d.settings) (m : Command) (w : World d)
      → InTime time i created m w.store
      → IsTimely time i created w.store
      → IsTimely time i created (run m w).1.store
  unfolding create_job save_job save_result stage_token purge_token request_cancel delete_proposal
      save_proposal put_idempotency
  run-IsTimely lives (creates r) w h p =
      job_set-IsTimely law time i created r (ex job_ttl) w.store
        (omega (arith, lives.result_positive))
        (λ soon. (time.now w.store + job_ttl, refl, omega (arith, p.begun))) p
  run-IsTimely lives (saves r) w h p = save-IsTimely law time i created r w.store p
  run-IsTimely lives (saves_result j doc) w h p =
      result_set-IsTimely law time i created lives j _ w.store h p
  run-IsTimely lives (stages j t) w h p =
      set-IsTimely law time i created tok j _ _ w.store refl refl (omega arith) p
  run-IsTimely lives (purges j) w h p = delete-IsTimely law time i created tok j w.store refl refl p
  run-IsTimely lives (requests_cancel j) w h p =
      set-IsTimely law time i created cancel j _ _ w.store refl refl
        (omega (arith, lives.result_positive)) p
  run-IsTimely lives (deletes j) w h p =
      delete-IsTimely law time i created proposal j w.store refl refl p
  run-IsTimely lives (proposes q) w h p =
      set-IsTimely law time i created proposal q.action.action_id _ _ w.store refl refl
        lives.proposal_positive p
  run-IsTimely lives (records k r) w h p =
      set-IsTimely law time i created idem k _ _ w.store refl refl lives.idempotency_positive p

  pub transition-IsTimely :
      (j : String) (s : JobStatus) (a : Option ℕ) (e : Option JobError) (w : World d)
      → IsTimely time i created w.store
      → IsTimely time i created (transition j s a e w).1.store
  transition-IsTimely j s a e w p = elim (transition_atomic j s a e w) [
    | inr (x, refused) ↦ rw refused p
    | inl (r, found, legal, _) ↦
        rw (transition_found j s a e w found legal, apply_transition_lem j s a e r w)
          (purged (is_terminal s)
            (save-IsTimely law time i created (moved (d.clock w.clock_reads) s a e r) w.store p))
  ]
    where
      purged :
          {st : d.redis.Store} (b : Bool)
          → IsTimely time i created st
          → IsTimely time i created
              (if b then d.redis.delete (key cancel j) (d.redis.delete (key tok j) st) else st)
      purged true q =
          delete-IsTimely law time i created cancel j _ refl refl
            (delete-IsTimely law time i created tok j _ refl refl q)
      purged false q = q

  pub set_progress-IsTimely :
      (j : String) (q : JobProgress) (w : World d)
      → IsTimely time i created w.store
      → IsTimely time i created (set_progress j q w).1.store
  unfolding set_progress save_progress save_job
  set_progress-IsTimely j q w p = elim (Option-cases (stored_job w.store j)) [
    | inr (r, found) ↦
        rw (get_job_found j w found)
          (save-IsTimely law time i created (record r { progress = q }) w.store p)
    | inl missing ↦ elim (get_job_missing j w missing) [
      | inl absent ↦ rw absent p
      | inr malformed ↦ rw malformed p
    ]
  ]
