-- ===== src/Samples/Checks.antt =====
-- The payload check, the worker's reading of the agent's answer, API keys and storage keys on
-- concrete inputs.
use deep_agent_blueprint.Backoff.{
  Response, Sent, read_request_with_backoff, read_request_with_backoff_lem, after,
}
use deep_agent_blueprint.Prelude.{
  Option, none, zero, suc, ◌≤◌, ℕ, String, ◌≡◌, refl, ◌↔◌, some, List, ◌∷◌, [], arith,
}
use deep_agent_blueprint.Prelude.Exec.{ok}
use deep_agent_blueprint.Json.{get_or_null}
use deep_agent_blueprint.Json.Laws.{HasUniqueKeys}
use deep_agent_blueprint.Schemas.{AgentProposedAction, ProposedAction}
use deep_agent_blueprint.Store.{job}
use deep_agent_blueprint.Store.Keys.{key_in-injective}
use deep_agent_blueprint.Auth.{verify_api_key}
use deep_agent_blueprint.Auth.Laws.{Configured, verify_api_key_iff}
use deep_agent_blueprint.Execute.{verify_payload}
use deep_agent_blueprint.Execute.Payload.{AgreesOutside, verify_payload_iff}
use deep_agent_blueprint.Worker.{persist_each}
use deep_agent_blueprint.Worker.Proposals.{AreDistinct, AreStaged, persist_each-AreStaged}
use deep_agent_blueprint.Samples.{
  service, settings, start, job_1, proposal_1, request_1, memory-IsLawful, settings-HasLifetimes,
}

verify_payload_iff_example :
    ((verify_payload proposal_1 request_1.approved_payload start).0 ≡ ok tt)
    ↔ AgreesOutside ("body" ∷ []) proposal_1.action.payload request_1.approved_payload
verify_payload_iff_example = verify_payload_iff proposal_1 request_1.approved_payload start

plain_values : (j : String) → HasUniqueKeys (get_or_null j proposal_1.action.payload)
plain_values j = ground arith

abbrev candidate : String → AgentProposedAction
candidate action_type = record {
  action_type = action_type;
  target = [];
  payload = proposal_1.action.payload;
  preview = "comment";
  preconditions = [];
}

abbrev proposals : List AgentProposedAction
proposals = candidate "delete_all" ∷ candidate "add_comment" ∷ []

two_distinct : AreDistinct job_1 5 0 2
two_distinct zero zero low between high = ground arith
two_distinct zero (suc zero) low between high = λ e. cc
two_distinct i (suc (suc j)) low between high = absurd (omega arith)
two_distinct (suc i) zero low between high = absurd (omega arith)
two_distinct (suc i) (suc zero) low between high = absurd (omega arith)

persist_each-AreStaged_example :
    (as' : List ProposedAction) × ((persist_each job_1 5 proposals start).0 ≡ ok as')
    × AreStaged job_1 5 (persist_each job_1 5 proposals start).1.store 0 proposals as'
persist_each-AreStaged_example =
    persist_each-AreStaged job_1 5 memory-IsLawful settings-HasLifetimes proposals start
      two_distinct

abbrev job_id : String
job_id = "j1"

key_in-injective_example : (job ≡ job) × (job_id ≡ "j1")
key_in-injective_example = key_in-injective "jira" job job job_id "j1" refl

-- a target that is unavailable at first
abbrev flaky : ℕ → Option Response × ℕ
flaky zero = (some (record { status_code = 503; retry_after = none; body = none }), 1)
flaky (suc n) = (some (record { status_code = 200; retry_after = none; body = none }), suc (suc n))

verify_api_key_iff_example :
    ((c : String)
      → verify_api_key "secret-2" settings.api_keys ≡ some c
      → Configured c "secret-2" settings.api_keys)
    × ((c : String)
        → Configured c "secret-2" settings.api_keys
        → (c' : String) × (verify_api_key "secret-2" settings.api_keys ≡ some c'))
verify_api_key_iff_example = verify_api_key_iff "secret-2" settings.api_keys

read_request_with_backoff_lem_example :
    Sent flaky (λ text. none) 3 0 (read_request_with_backoff flaky (λ text. none) 3 500 0)
    × ((n : ℕ) × (n ≤ 3)
        × ((read_request_with_backoff flaky (λ text. none) 3 500 0).1
            ≡ after flaky (λ text. none) (suc n) 0))
read_request_with_backoff_lem_example = read_request_with_backoff_lem flaky (λ text. none) 3 500 0
