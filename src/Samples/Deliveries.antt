-- ===== src/Samples/Deliveries.antt =====
-- Deliveries of the small service's jobs: answered, failed, delivered again.
use deep_agent_blueprint.Prelude.{ap, ◌≡◌, ◌⊎◌, refl, some, List, ◌∷◌, []}
use deep_agent_blueprint.Prelude.Exec.{Result, ok, err}
use deep_agent_blueprint.Schemas.{Failure}
use deep_agent_blueprint.Deps.{World}
use deep_agent_blueprint.App.{current_correlation_id}
use deep_agent_blueprint.Store.{key_in, kind_name, transition, create_job, stage_token, get_job}
use deep_agent_blueprint.Research.{submit_research, protect_token, seal_token}
use deep_agent_blueprint.Auth.{principal_hash}
use deep_agent_blueprint.Queue.{enqueue_research}
use deep_agent_blueprint.Worker.{AgentEvent, research_job}
use deep_agent_blueprint.Jobs.{IsSound}
use deep_agent_blueprint.Jobs.Handlers.{ActsSafely}
use deep_agent_blueprint.Json.{str}
use deep_agent_blueprint.Adapter.{resolve_credentials}
use deep_agent_blueprint.Store.{
  set_progress, save_progress, save_job, save_result, is_cancel_requested, load_token,
}
use deep_agent_blueprint.Worker.{
  yields, run_research_job, run_found, start_run, attempt_run, resolve_job_credentials,
  stream_agent, final_text, message_text, parse_agent_output, last_parsed, candidates,
  parsed_candidate, persist_proposals, persist_each, unstructured,
}
use deep_agent_blueprint.Schemas.{other_error, retry_after}
use deep_agent_blueprint.Worker.{funnel, requeue}
use deep_agent_blueprint.Jobs.LastAttempt.{AsksAgain, research_job-Concludes}
use deep_agent_blueprint.Jobs.Settled.{IsFinished}
use deep_agent_blueprint.Jobs.History.{submits, here, next, Reach-IsSound}
use deep_agent_blueprint.Samples.{service, blank, memory-IsLawful, settings-HasLifetimes}
use deep_agent_blueprint.Samples.Lifecycle.{question, submitted, blank-IsSound}
use deep_agent_blueprint.Jobs.{Changes-refl}
use deep_agent_blueprint.Jobs.Redelivery.{deliveries, submitted-IsFinished}

-- an agent that answers at once
abbrev answer : Result Failure (List AgentEvent)
answer = ok (yields (record { content = str "done"; tool_calls = [] } ∷ []) ∷ [])

abbrev events_of : Result Failure (List AgentEvent) → List AgentEvent
events_of (ok es) = es
events_of (err e) = []

acts_answer : (es : List AgentEvent) → answer ≡ ok es → ActsSafely es
acts_answer es h = rw (← ap events_of h) tt

submitted-IsSound : IsSound submitted.store
submitted-IsSound =
    Reach-IsSound memory-IsLawful settings-HasLifetimes blank-IsSound
      (next here (submits question "chat" (some "pat-1") refl))

answered : (research_job (λ credentials. answer) "id" 1 submitted).0 ≡ ok tt
unfolding submit_research current_correlation_id protect_token seal_token stage_token create_job
    enqueue_research key_in kind_name principal_hash get_job transition set_progress save_progress
    save_job save_result is_cancel_requested load_token research_job run_research_job run_found
    start_run attempt_run resolve_job_credentials resolve_credentials stream_agent final_text
    message_text parse_agent_output last_parsed candidates parsed_candidate persist_proposals
    persist_each unstructured
answered = refl

-- an agent that cannot be built
abbrev failure : Result Failure (List AgentEvent)
failure = err other_error

failure_silent : (es : List AgentEvent) → failure ≡ ok es → ActsSafely es
failure_silent es h = cc

research_job-Concludes_example :
    IsFinished "id" (research_job (λ credentials. failure) "id" 2 submitted).1.store
    ⊎ AsksAgain "id" 2 submitted
        (research_job (λ credentials. failure) "id" 2 submitted).0
        (retry_after 4)
research_job-Concludes_example =
    research_job-Concludes memory-IsLawful settings-HasLifetimes (λ credentials. failure)
      (λ k es h. failure_silent es h) "id" 2 submitted submitted-IsSound

asks_again : (research_job (λ credentials. failure) "id" 1 submitted).0 ≡ err (retry_after 2)
unfolding submit_research current_correlation_id protect_token seal_token stage_token create_job
    enqueue_research key_in kind_name principal_hash get_job transition set_progress save_progress
    save_job save_result is_cancel_requested load_token research_job run_research_job run_found
    start_run attempt_run resolve_job_credentials resolve_credentials stream_agent final_text
    message_text parse_agent_output last_parsed candidates parsed_candidate persist_proposals
    persist_each unstructured funnel requeue
asks_again = refl

submitted-IsFinished_example :
    (v : World service) × (deliveries
        (λ n credentials. failure)
        (λ n w. w)
        "id"
        2
        1
        (submit_research question "chat" (some "pat-1") blank).1
      ≡ some v)
    × IsFinished "id" v.store
submitted-IsFinished_example =
    submitted-IsFinished memory-IsLawful settings-HasLifetimes (λ n credentials. failure)
      (λ n k es h. failure_silent es h) (λ n w. w) (λ n w. Changes-refl w.store) "id" question
      "chat" (some "pat-1") blank blank-IsSound refl refl
