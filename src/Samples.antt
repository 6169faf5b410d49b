-- ===== src/Samples.antt =====
-- A small service to run the handlers on: Redis as a dictionary, an adapter whose target system is
-- the number of comments made, and the worlds that the tests start from.
mod Memory
mod Entries
mod Timed
mod Lifetimes
mod Execution
mod Lifecycle
mod Deliveries
mod Checks
mod Codec
mod Vault
mod Jira
mod Front
mod Reads
mod Stored
mod Logs
mod Start
mod Script
mod Agents
mod Lines
mod Races
unfoldable pub use Memory.*
use deep_agent_blueprint.Prelude.{
  ℕ, suc, true, Option, none, some, [], ◌∷◌, if◌then◌else◌, ◌==◌, lookup, arith, String, zero,
}
use deep_agent_blueprint.Prelude.Exec.{ok}
use deep_agent_blueprint.Json.{Json, Object, null, str, obj, end}
use deep_agent_blueprint.Schemas.{queued, JobRecord, StoredProposal, ExecuteRequest, AgentOutput}
use deep_agent_blueprint.Deps.{
  Settings, DomainAdapter, user_pat, Deps, World, added, Texts, value, decode_error,
}
use deep_agent_blueprint.Store.Reads.{HasLifetimes}

abbrev pub settings : Settings
settings = record {
  service_name = "domain-deep-agent";
  domain = "jira";
  env = "dev";
  api_keys = ("chat", "secret-1") ∷ ("batch", "secret-2") ∷ [];
  redis_url = "redis://localhost:6379/0";
  queue_name = "arq:queue";
  result_ttl_s = 7200;
  proposal_ttl_s = 1800;
  idempotency_ttl_s = 86400;
  job_timeout_s = 600;
  job_max_attempts = 2;
  estimated_wait_s = 5;
  max_concurrent_reads = 6;
  agent_factory = "deepagents";
  azure_openai_endpoint = "";
  azure_openai_deployment = "";
  azure_openai_fast_deployment = "";
  azure_openai_api_version = "2024-10-21";
  azure_keyvault_key_id = "";
  local_crypto_key_b64 = "";
  principal_hash_salt = "salt";
  jira_base_url = "";
  websearch_api_key = "";
  websearch_base_url = "https://api.tavily.com";
}

pub settings-HasLifetimes : HasLifetimes settings
settings-HasLifetimes = omega arith

-- a comment needs a body
abbrev comment_schema : Object → Option Json
comment_schema payload = elim (lookup "body" payload) [ none ↦ some (str "body") | some _ ↦ none ]

abbrev pub comments : DomainAdapter
comments = record {
  Target = ℕ;
  name = "jira";
  auth_mode = user_pat;
  action_schemas = ("add_comment", comment_schema) ∷ [];
  editable_fields = λ action_type. "body" ∷ [];
  check_preconditions = λ action credentials made. ok (record { holds = true; details = [] });
  execute = λ action payload credentials made.
      (ok (record { result = payload; resource_url = none }), suc made);
  service_credentials = ok (record { user_token = none; service_key = none });
}

-- every text is read as two fenced blocks, of which "{}" alone is JSON
abbrev pub parsed_output : AgentOutput
parsed_output = record { summary = "found"; sources = []; details = []; proposed_actions = [] }

-- ids of which the first two differ
abbrev two_ids : ℕ → String
two_ids zero = "id"
two_ids (suc n) = "id-2"

abbrev texts : Texts
texts = record {
  fenced = λ t. t ∷ "{}" ∷ [];
  find_open = λ t. none;
  behind_close = λ t. 0;
  slice = λ t i j. t;
  strip = λ t. t;
  to_str = λ j. "";
  loads = λ t. if t == "{}" then value (obj end) else decode_error;
  validate_output = λ o. some parsed_output;
}

instance abbrev pub service : Deps
service = record {
  settings = settings;
  redis = memory;
  adapter = comments;
  Queue = ℕ;
  enqueue_job = λ arq_id n. (added, suc n);
  Vault = Unit {0};
  encrypt = λ plaintext v. (ok plaintext, v);
  decrypt = λ ciphertext v. ok ciphertext;
  sha256 = λ t. t;
  canonical = λ payload. "payload";
  texts = texts;
  clock = λ n. n;
  uuid4 = two_ids;
}

abbrev pub proposal_1 : StoredProposal
proposal_1 = record {
  action = record {
    action_id = "a1";
    action_type = "add_comment";
    target = [];
    payload = ("issue_key", str "P-1") ∷ ("note", null) ∷ ("body", str "Hello") ∷ [];
    preview = "comment on P-1";
    preconditions = [];
    expires_at = 1000;
    editable_fields = "body" ∷ [];
    correlation_id = "corr-1";
  };
  job_id = "j1";
  session_id = "s1";
  consumer_id = "chat";
  principal_hash = some "salt:pat-1";
  created_at = 0;
}

abbrev pub job_1 : JobRecord
job_1 = record {
  job_id = "j1";
  domain = "jira";
  status = queued;
  task = "look";
  session_id = "s1";
  context = none;
  constraints = none;
  consumer_id = "chat";
  principal_hash = some "salt:pat-1";
  correlation_id = "corr-1";
  created_at = 0;
  started_at = none;
  finished_at = none;
  attempt = 0;
  max_attempts = 2;
  progress = record { last_tool = none; steps = 0 };
  error = none;
}

-- one queued job with its token staged, and one proposal
abbrev pub start : World service
start = record {
  store =
      ("jira:job:j1", job_doc job_1)
      ∷ ("jira:tok:j1", text_doc "cipher")
      ∷ ("jira:proposal:a1", proposal_doc proposal_1)
      ∷ [];
  queue = 0;
  target = 0;
  vault = tt;
  clock_reads = 0;
  uuids_drawn = 0;
  correlation_id = some "corr-2";
  correlation_from_header = true;
}

-- the same service with nothing stored
abbrev pub blank : World service
blank = record start { store = [] }

abbrev pub request_1 : ExecuteRequest
request_1 = record {
  action_id = "a1";
  session_id = "s1";
  approved_payload = ("issue_key", str "P-1") ∷ ("note", null) ∷ ("body", str "Hi") ∷ [];
  approval = record { approved_by = "ann"; approved_at = 0 };
}
