-- ===== src/Research/Access.antt =====
-- Who may poll or cancel a job (app/api/research.py).
use deep_agent_blueprint.Prelude.{
  String, false, Option, none, some, ◌≡◌, refl, ◌⊎◌, inl, inr, arith,
}
use deep_agent_blueprint.Prelude.Exec.{err}
use deep_agent_blueprint.Schemas.{JobRecord}
use deep_agent_blueprint.Deps.{Deps, World}
use deep_agent_blueprint.Store.{job, get_job}
use deep_agent_blueprint.Store.Reads.{raw_at, stored_job}
use deep_agent_blueprint.Research.{
  authorized_job, owns_job, poll_research, cancel_research, not_found,
}

module _ ⦃d : Deps⦄ (i c : String) (t : Option String) (w : World d) where
  -- There is no such job, or it belongs to someone else.
  abbrev pub IsHidden : Type 0
  IsHidden =
      (raw_at w.store job i ≡ none)
      ⊎ ((r : JobRecord) × (stored_job w.store i ≡ some r) × (owns_job r c t ≡ false))

  authorized_job_hidden : IsHidden → authorized_job i c t w ≡ (err not_found, w)
  unfolding authorized_job get_job
  authorized_job_hidden (inl missing) = rw missing
  authorized_job_hidden (inr (r, found, denied)) = ground arith

  -- A caller to whom a job does not belong gets the same answer as for a job that does not exist,
  -- 404 JOB_NOT_FOUND, on polling and on cancelling, and nothing at all is changed by the attempt.
  pub hidden_job :
      IsHidden
      → (poll_research i c t w ≡ (err not_found, w))
        × (cancel_research i c t w ≡ (err not_found, w))
  unfolding poll_research cancel_research
  hidden_job h = (rw (authorized_job_hidden h) refl, rw (authorized_job_hidden h) refl)
