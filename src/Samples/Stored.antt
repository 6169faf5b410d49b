-- ===== src/Samples/Stored.antt =====
-- The store of the small service, read back.
use deep_agent_blueprint.Prelude.{none, false, List, [], ◌∷◌, refl}
use deep_agent_blueprint.Store.{job, tok, proposal, idem, result, cancel}
use deep_agent_blueprint.Store.Contents.{
  Contents, Command, creates, stages, saves, requests_cancel, purges, Holds, applied_all, run_all,
}
use deep_agent_blueprint.Store.Refinement.{Reads, run_all-Reads}
use deep_agent_blueprint.Samples.{service, blank, job_1, memory-IsLawful, settings-HasLifetimes}

abbrev nothing : Contents
nothing = record {
  jobs = λ i. none;
  results = λ i. none;
  tokens = λ i. none;
  proposals = λ i. none;
  responses = λ i. none;
  cancels = λ i. false;
}

nothing-Holds : Holds ⦃d = service⦄ nothing blank
nothing-Holds job i = refl
nothing-Holds result i = refl
nothing-Holds tok i = refl
nothing-Holds proposal i = refl
nothing-Holds idem i = refl
nothing-Holds cancel i = refl

abbrev commands : List Command
commands =
    creates job_1 ∷ stages "j1" "cipher" ∷ requests_cancel "j1" ∷ purges "j2" ∷ saves job_1 ∷ []

run_all-Reads_example :
    Reads ⦃d = service⦄ (applied_all commands nothing) (run_all ⦃d = service⦄ commands blank)
run_all-Reads_example =
    run_all-Reads ⦃d = service⦄ memory-IsLawful settings-HasLifetimes commands nothing blank
      nothing-Holds
