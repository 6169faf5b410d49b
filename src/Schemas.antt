-- ===== src/Schemas.antt =====
-- app/models/schemas.py: the records of the service, and app/errors.py with the exceptions.
-- A `datetime` is a number of microseconds. Texts written for people (`message`) and the responses'
-- fields that hold a constant are left out; `details` of an error are kept.
use deep_agent_blueprint.Prelude.{ℕ, String, Bool, true, false, Option, List}
use deep_agent_blueprint.Json.{Json, Object}

pub data JobStatus : Type 0 where
  queued running completed failed cancelled : JobStatus

-- `status in TERMINAL_STATES`
abbrev pub is_terminal : JobStatus → Bool
is_terminal completed = true
is_terminal failed = true
is_terminal cancelled = true
is_terminal _ = false

pub data ErrorCode : Type 0 where
  invalid_api_key missing_user_token action_expired payload_mismatch stale_target : ErrorCode
  idempotent_replay_conflict job_not_found job_timeout unsupported_action : ErrorCode
  validation_error downstream_error dependency_unavailable internal_error : ErrorCode

pub record ResearchRequest : Type 0 where
  pub task : String
  pub session_id : String
  pub context : Option Object
  pub constraints : Option Object

pub record ResearchAccepted : Type 0 where
  pub job_id : String
  pub status : JobStatus
  pub estimated_wait_s : ℕ
  pub correlation_id : String

pub record JobProgress : Type 0 where
  pub last_tool : Option String
  pub steps : ℕ

pub record JobError : Type 0 where
  pub code : ErrorCode

pub record Findings : Type 0 where
  pub summary : String
  pub sources : List Object
  pub details : Object

pub record ProposedAction : Type 0 where
  pub action_id : String
  pub action_type : String
  pub target : Object
  pub payload : Object
  pub preview : String
  pub preconditions : Object
  pub expires_at : ℕ
  pub editable_fields : List String
  pub correlation_id : String

pub record JobStatusResponse : Type 0 where
  pub job_id : String
  pub status : JobStatus
  pub session_id : String
  pub correlation_id : String
  pub created_at : ℕ
  pub started_at : Option ℕ
  pub finished_at : Option ℕ
  pub attempt : ℕ
  pub cancel_requested : Bool
  pub progress : Option JobProgress
  pub findings : Option Findings
  pub proposed_actions : Option (List ProposedAction)
  pub error : Option JobError

pub record Approval : Type 0 where
  pub approved_by : String
  pub approved_at : ℕ

pub record ExecuteRequest : Type 0 where
  pub action_id : String
  pub session_id : String
  pub approved_payload : Object
  pub approval : Approval

-- `status` is always "executed"
pub record ExecuteResponse : Type 0 where
  pub action_id : String
  pub result : Object
  pub resource_url : Option String
  pub idempotent_replay : Bool
  pub correlation_id : String

pub data ActionStatus : Type 0 where
  proposed rejected : ActionStatus

pub record ActionStatusResponse : Type 0 where
  pub action_id : String
  pub status : ActionStatus
  pub expires_at : Option ℕ
  pub action : Option ProposedAction
  pub correlation_id : String

pub record JobRecord : Type 0 where
  pub job_id : String
  pub domain : String
  pub status : JobStatus
  pub task : String
  pub session_id : String
  pub context : Option Object
  pub constraints : Option Object
  pub consumer_id : String
  pub principal_hash : Option String
  pub correlation_id : String
  pub created_at : ℕ
  pub started_at : Option ℕ
  pub finished_at : Option ℕ
  pub attempt : ℕ
  pub max_attempts : ℕ
  pub progress : JobProgress
  pub error : Option JobError

pub record JobResultDoc : Type 0 where
  pub findings : Findings
  pub proposed_actions : List ProposedAction

pub record StoredProposal : Type 0 where
  pub action : ProposedAction
  pub job_id : String
  pub session_id : String
  pub consumer_id : String
  pub principal_hash : Option String
  pub created_at : ℕ

-- `response` is `ExecuteResponse.model_dump`, and is read back by `ExecuteResponse.model_validate`
pub record IdempotencyRecord : Type 0 where
  pub request_hash : String
  pub response : ExecuteResponse
  pub created_at : ℕ

pub record AgentProposedAction : Type 0 where
  pub action_type : String
  pub target : Object
  pub payload : Object
  pub preview : String
  pub preconditions : Object

pub record AgentOutput : Type 0 where
  pub summary : String
  pub sources : List Object
  pub details : Object
  pub proposed_actions : List AgentProposedAction

-- `details` of an `ApiError`
pub data Details : Type 0 where
  no_details : Details
  fields_differ : List String → List String → Details
  schema_errors : Json → Details
  drift : Object → Details

-- The exceptions that the modelled code raises, catches or lets through. `other_error` is any
-- exception that no clause of the program names.
pub data Failure : Type 0 where
  api_error : ℕ → ErrorCode → Details → Failure
  invalid_transition : JobStatus → JobStatus → Failure
  job_missing : String → Failure
  queue_unavailable : Failure
  token_vault_error : Failure
  unsupported : String → Failure
  payload_invalid : String → Json → Failure
  downstream_failure : Option ℕ → Failure
  timed_out : Failure
  job_cancelled : Failure
  retryable : Failure
  retry_after : ℕ → Failure
  other_error : Failure
