-- ===== src/Deps.antt =====
-- What the service runs on: `AppDeps` (app/main.py) and `WorkerDeps` (app/worker/runner.py) as one
-- record. Code that is not in this repository (Redis, arq, pydantic's JSON, SHA-256, the clock, UUIDs,
-- the agent harness) is a field; `IsLawful` states what the program relies on of it.
-- app/config.py is `Settings`, the DomainAdapter contract of app/adapters/base.py is `DomainAdapter`.
use deep_agent_blueprint.Prelude.{
  ℕ, ◌<◌, String, ◌≡◌, Bool, true, false, Option, none, some, List, ◌==◌, if◌then◌else◌, Dict, ◌⊎◌,
}
use deep_agent_blueprint.Prelude.Exec.{Result}
use deep_agent_blueprint.Json.{Json, Object}
use deep_agent_blueprint.Schemas.{
  JobRecord, JobResultDoc, StoredProposal, IdempotencyRecord, ProposedAction, Failure, AgentOutput,
}

-- app/config.py
pub record Settings : Type 0 where
  pub service_name : String
  pub domain : String
  pub env : String
  pub api_keys : Dict String
  pub redis_url : String
  pub queue_name : String
  pub result_ttl_s : ℕ
  pub proposal_ttl_s : ℕ
  pub idempotency_ttl_s : ℕ
  pub job_timeout_s : ℕ
  pub job_max_attempts : ℕ
  pub estimated_wait_s : ℕ
  pub max_concurrent_reads : ℕ
  pub agent_factory : String
  pub azure_openai_endpoint : String
  pub azure_openai_deployment : String
  pub azure_openai_fast_deployment : String
  pub azure_openai_api_version : String
  pub azure_keyvault_key_id : String
  pub local_crypto_key_b64 : String
  pub principal_hash_salt : String
  pub jira_base_url : String
  pub websearch_api_key : String
  pub websearch_base_url : String

pub data AuthMode : Type 0 where
  user_pat service_credential no_credential : AuthMode

pub record DownstreamCredentials : Type 0 where
  pub user_token : Option String
  pub service_key : Option String

pub record PreconditionResult : Type 0 where
  pub holds : Bool
  pub details : Object

pub record ExecutionResult : Type 0 where
  pub result : Object
  pub resource_url : Option String

-- The abstract methods of the adapter. `Target` is the state of the target system: only `execute`
-- changes it. `action_schemas` gives for an action type the schema's `model_validate`, which
-- accepts a payload or returns its errors.
pub record DomainAdapter : Type 1 where
  pub Target : Type 0
  pub name : String
  pub auth_mode : AuthMode
  pub action_schemas : Dict (Object → Option Json)
  pub editable_fields : String → List String
  pub check_preconditions :
      ProposedAction → DownstreamCredentials → Target → Result Failure PreconditionResult
  pub execute :
      ProposedAction
      → Object
      → DownstreamCredentials
      → Target
      → Result Failure ExecutionResult × Target
  pub service_credentials : Result Failure DownstreamCredentials

-- the argument `ex` or `keepttl` of a Redis SET
pub data Expiry : Type 0 where
  ex : ℕ → Expiry
  keepttl : Expiry

-- Redis and the JSON texts that the program keeps there. `Raw` is a stored text.
pub record Redis : Type 1 where
  pub Store : Type 0
  pub Raw : Type 0
  pub get : String → Store → Option Raw
  pub set : String → Raw → Expiry → Store → Store
  pub delete : String → Store → Store
  pub exists : String → Store → Bool
  pub Expires : Store → Store → Type 0
  pub is_empty : Raw → Bool
  pub text : String → Raw
  pub read_text : Raw → String
  pub dump_job : JobRecord → Raw
  pub validate_job : Raw → Option JobRecord
  pub dump_result : JobResultDoc → Raw
  pub validate_result : Raw → Option JobResultDoc
  pub dump_proposal : StoredProposal → Raw
  pub validate_proposal : Raw → Option StoredProposal
  pub dump_idempotency : IdempotencyRecord → Raw
  pub validate_idempotency : Raw → Option IdempotencyRecord

-- what arq's `enqueue_job` does: it raises, finds the job id taken, or adds the job
pub data Enqueued : Type 0 where
  raised duplicate added : Enqueued

-- what `json.loads` does: it returns a value, raises a JSONDecodeError, or raises another exception, as
-- on an integer that is too long or an array that is nested too deeply
pub data Loaded : Type 0 where
  value : Json → Loaded
  decode_error other_exception : Loaded

-- What app/worker/runner.py uses of `re`, `str`, `json.loads` and pydantic when it reads the agent's
-- last message: the groups that `_FENCED_JSON` finds, the places of the first "{" and behind the last
-- "}" (0 for none), slices, `strip`, `str`, `json.loads`, and `AgentOutput.model_validate`.
pub record Texts : Type 0 where
  pub fenced : String → List String
  pub find_open : String → Option ℕ
  pub behind_close : String → ℕ
  pub slice : String → ℕ → ℕ → String
  pub strip : String → String
  pub to_str : Json → String
  pub loads : String → Loaded
  pub validate_output : Object → Option AgentOutput

pub record Deps : Type 1 where
  pub settings : Settings
  pub redis : Redis
  pub adapter : DomainAdapter
  pub Queue : Type 0
  pub enqueue_job : String → Queue → Enqueued × Queue
  pub Vault : Type 0
  pub encrypt : String → Vault → Result Failure String × Vault
  pub decrypt : String → Vault → Result Failure String
  pub sha256 : String → String
  pub canonical : Object → String
  pub texts : Texts
  pub clock : ℕ → ℕ
  pub uuid4 : ℕ → String

-- A SET with a positive lifetime is there to be read.
abbrev pub IsLive : Expiry → Type 0
IsLive (ex n) = 0 < n
IsLive keepttl = Unit

-- What Redis and pydantic document, as far as the program relies on it.
pub record IsLawful (R : Redis) : Type 0 where
  pub get-set :
      (j k : String) (v : R.Raw) (e : Expiry) (s : R.Store)
      → IsLive e
      → R.get j (R.set k v e s) ≡ (if k == j then some v else R.get j s)
  pub get-delete :
      (j k : String) (s : R.Store) → R.get j (R.delete k s) ≡ (if k == j then none else R.get j s)
  pub exists-get :
      (k : String) (s : R.Store) → R.exists k s ≡ elim (R.get k s) [ none ↦ false | some _ ↦ true ]
  pub get-Expires :
      (k : String) (s t : R.Store) → R.Expires s t → (R.get k t ≡ R.get k s) ⊎ (R.get k t ≡ none)
  pub job_roundtrip : (r : JobRecord) → R.validate_job (R.dump_job r) ≡ some r
  pub job_nonempty : (r : JobRecord) → R.is_empty (R.dump_job r) ≡ false
  pub result_roundtrip : (r : JobResultDoc) → R.validate_result (R.dump_result r) ≡ some r
  pub result_nonempty : (r : JobResultDoc) → R.is_empty (R.dump_result r) ≡ false
  pub proposal_roundtrip : (r : StoredProposal) → R.validate_proposal (R.dump_proposal r) ≡ some r
  pub proposal_nonempty : (r : StoredProposal) → R.is_empty (R.dump_proposal r) ≡ false
  pub idempotency_roundtrip :
      (r : IdempotencyRecord) → R.validate_idempotency (R.dump_idempotency r) ≡ some r
  pub idempotency_nonempty : (r : IdempotencyRecord) → R.is_empty (R.dump_idempotency r) ≡ false
  pub text_roundtrip : (t : String) → R.read_text (R.text t) ≡ t

-- The state that a handler works on: Redis, the queue, the target system and the vault, how often
-- the clock and the UUID generator were read, and the request's context variables
-- `correlation_id_var` and `correlation_from_header_var` (app/observability/correlation.py).
pub record World (d : Deps) : Type 0 where
  pub store : d.redis.Store
  pub queue : d.Queue
  pub target : d.adapter.Target
  pub vault : d.Vault
  pub clock_reads : ℕ
  pub uuids_drawn : ℕ
  pub correlation_id : Option String
  pub correlation_from_header : Bool
