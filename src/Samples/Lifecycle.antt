-- ===== src/Samples/Lifecycle.antt =====
-- Jobs of the small service: submitted, cancelled, polled by strangers, delivered too late.
use deep_agent_blueprint.Prelude.{true, false, ◌≡◌, refl, some, none, List, ◌∷◌, [], ◌⊎◌, inr}
use deep_agent_blueprint.Prelude.Exec.{Result, ok, err}
use deep_agent_blueprint.Schemas.{running, cancelled, JobRecord, Failure, ResearchRequest}
use deep_agent_blueprint.Deps.{World, DownstreamCredentials}
use deep_agent_blueprint.App.{current_correlation_id}
use deep_agent_blueprint.Store.{
  key_in, kind_name, is_allowed, transition, create_job, stage_token, get_job, purge_token,
  request_cancel,
}
use deep_agent_blueprint.Store.Reads.{stored_job}
use deep_agent_blueprint.Store.Transition.{moved, Moves, transition_allowed, transition_atomic}
use deep_agent_blueprint.Research.{
  submit_research, protect_token, seal_token, poll_research, cancel_research, authorized_job,
  owns_job, not_found,
}
use deep_agent_blueprint.Research.Access.{hidden_job}
use deep_agent_blueprint.Auth.{principal_hash}
use deep_agent_blueprint.Queue.{enqueue_research}
use deep_agent_blueprint.Worker.{AgentEvent, outside, research_job}
use deep_agent_blueprint.Jobs.{IsSound}
use deep_agent_blueprint.Jobs.Acts.{by_poll, AreServed, delivery, ServiceStep-finished}
use deep_agent_blueprint.Jobs.History.{submits, cancels, Reach, here, next, Reach-IsSound}
use deep_agent_blueprint.Samples.{
  service, blank, start, job_1, memory-IsLawful, settings-HasLifetimes,
}

abbrev pub question : ResearchRequest
question = record { task = "look"; session_id = "s1"; context = none; constraints = none }

pub blank-IsSound : IsSound blank.store
blank-IsSound = record { keyed = λ i r found. cc; purged = λ i r found over. cc }

abbrev pub submitted : World service
submitted = (submit_research question "chat" (some "pat-1") blank).1

abbrev withdrawn : World service
withdrawn = (cancel_research "id" "chat" (some "pat-1") submitted).1

until_withdrawn : Reach blank withdrawn
until_withdrawn =
    next (next here (submits question "chat" (some "pat-1") refl))
      (cancels "id" "chat" (some "pat-1"))

Reach-IsSound_example : IsSound withdrawn.store
Reach-IsSound_example =
    Reach-IsSound memory-IsLawful settings-HasLifetimes blank-IsSound until_withdrawn

abbrev withdrawn_job : JobRecord
withdrawn_job = record (job_1) {
  job_id = "id";
  status = cancelled;
  correlation_id = "corr-2";
  finished_at = some 1;
}

withdrawn-stored : stored_job withdrawn.store "id" ≡ some withdrawn_job
unfolding submit_research cancel_research authorized_job get_job current_correlation_id
    protect_token seal_token stage_token create_job enqueue_research key_in owns_job principal_hash
    purge_token request_cancel transition
withdrawn-stored = refl

-- an agent during whose run somebody asks for the job that was withdrawn
abbrev asked : List AgentEvent
asked =
    outside (λ st. (poll_research "id" "chat" none (record withdrawn { store = st })).1.store) ∷ []

abbrev watched : DownstreamCredentials → Result Failure (List AgentEvent)
watched credentials = ok asked

abbrev delivered : World service
delivered = (research_job watched "id" 1 withdrawn).1

asked_injective :
    (es : List AgentEvent)
    → ◌≡◌ {A = Result Failure (List AgentEvent)} (ok asked) (ok es)
    → asked ≡ es
asked_injective es h = cc

asked-AreServed :
    (es : List AgentEvent)
    → ◌≡◌ {A = Result Failure (List AgentEvent)} (ok asked) (ok es)
    → AreServed es
asked-AreServed es h =
    rw (← asked_injective es h) (by_poll withdrawn "id" "chat" none (λ st. refl), tt)

ServiceStep-finished_example :
    (stored_job delivered.store "id" ≡ none)
    ⊎ ((r : JobRecord) × (stored_job delivered.store "id" ≡ some r) × (r.status ≡ cancelled))
ServiceStep-finished_example =
    ServiceStep-finished memory-IsLawful settings-HasLifetimes
      (delivery watched (λ k es h. asked-AreServed es h) "id" 1)
      (Reach-IsSound memory-IsLawful settings-HasLifetimes blank-IsSound until_withdrawn) "id"
      withdrawn_job withdrawn-stored refl

found_1 : stored_job start.store "j1" ≡ some job_1
unfolding key_in kind_name
found_1 = refl

queued_may_run : is_allowed job_1.status running ≡ true
unfolding is_allowed
queued_may_run = refl

transition_allowed_example :
    ((transition "j1" running (some 1) none start).0 ≡ ok (moved 0 running (some 1) none job_1))
    × Moves "j1" running
        (moved 0 running (some 1) none job_1)
        start.store
        (transition "j1" running (some 1) none start).1.store
transition_allowed_example =
    transition_allowed memory-IsLawful "j1" running (some 1) none start found_1 refl queued_may_run

transition_atomic_example :
    ((r : JobRecord) × (stored_job start.store "j2" ≡ some r)
      × (is_allowed r.status running ≡ true)
      × ((transition "j2" running (some 1) none start).0 ≡ ok (moved 0 running (some 1) none r)))
    ⊎ ((x : Failure) × (transition "j2" running (some 1) none start ≡ (err x, start)))
transition_atomic_example = transition_atomic "j2" running (some 1) none start

not_theirs : owns_job job_1 "chat" (some "pat-2") ≡ false
unfolding owns_job principal_hash
not_theirs = refl

hidden_job_example :
    (poll_research "j1" "chat" (some "pat-2") start ≡ (err not_found, start))
    × (cancel_research "j1" "chat" (some "pat-2") start ≡ (err not_found, start))
hidden_job_example = hidden_job "j1" "chat" (some "pat-2") start (inr (job_1, found_1, not_theirs))
