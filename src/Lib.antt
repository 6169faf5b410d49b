-- ===== src/Lib.antt =====
-- Verification library of the domain deep-agent service: a FastAPI front (app/api), an arq worker
-- (app/worker), their common state in Redis (app/state), and a domain adapter (app/adapters).
--
-- A client submits a research job (POST /research); the handler stages the user's encrypted token,
-- stores the job and enqueues it. The worker runs the agent, stores its findings, and stages the
-- actions that the agent proposes. A human approves an action (POST /execute), and the service makes
-- exactly that change in the target system, once per approval.
--
-- The parts, and the code that they follow:
--   Prelude    lists, dictionaries, Boolean tests, and the monad of handlers: a function from the
--              state to a result or failure and the state (Prelude/Exec)
--   Json       JSON values with Python's `==` on them
--   Schemas    app/models/schemas.py, app/errors.py and the other exceptions, as data
--   Deps, App  what the handlers run on: settings (app/config.py), Redis, the queue, the adapter
--              (app/adapters/base.py), the vault, the clock, the context variables (current_correlation_id
--              of app/observability/correlation.py); `World` is the state
--   Adapter    validate_payload and resolve_credentials (app/adapters)
--   Backoff    read_request_with_backoff (app/adapters/base.py)
--   Jira       app/adapters/jira.py, by Client, Payloads, Preconditions and Mutations, with Drift (the
--              precondition check), Writes (the two mutations) and
--              Service (POST /execute with this adapter)
--   WebSearch  app/adapters/websearch.py and the registry of app/adapters/__init__.py, and Service (the
--              service with this adapter)
--   Tools      the read tools of both adapters, with what they may return in Laws
--   TokenVault app/state/token_vault.py: RoundTrip (a sealed token), Selection (build_token_vault)
--              and Service (a token from submission to the worker)
--   Auth       app/auth and principal_hash (app/state/token_vault.py)
--   Queue      enqueue_research (app/state/queue.py)
--   Store      app/state/redis_store.py; Store/Keys, Store/Reads and Store/Transition are on keys, on
--              what a SET or a DEL does to each kind of document, and on transitions, and
--              Store/Contents and Store/Refinement are on the dictionaries that the store promises,
--              Store/Lifetimes is on the lifetimes of keys, by Writes, Timely, Outlives and Late, and
--              Store/Interleaved on transitions of several processes
--   Execute    app/api/execute.py: Payload (the comparison of payloads), Outcomes and Steps (what each check
--              leaves), Guarded and Cleared (when the target system changes), Once (replay and
--              consumption)
--   Research   app/api/research.py, and Access: who may see a job
--   Worker     app/worker/runner.py and research_job of app/worker/main.py: Messages, Parse, Proposals,
--              Credentials (the token on its way from submission), Concurrency (cap_read_concurrency,
--              with asyncio's semaphore as an object that tools enter)
--   Templates, Agent
--              str.format; app/agent/factory.py, app/agent/prompts.py, app/llm/azure.py and the place in
--              app/worker/runner.py where a run's agent is built: Prompts (the prompt), Tiers (its tools)
--   Logging    app/observability/logging.py: Redaction on what is left of secrets, Format (the JSON line,
--              configure_logging, log_event), Lines (what the lines hold)
--   Correlation, Main
--              app/observability/correlation.py, and the error envelope, the exception handlers and
--              GET /health of app/main.py and app/api/health.py: Header and Scopes are on context
--              variables, Answers and Refusal on what the client gets
--   Jobs       all of the above over time: Records, Writes, Handlers, Actions, Additions and
--              Submission are on single operations, Settled, Retries and LastAttempt are on a worker's delivery,
--              Redelivery on all deliveries of a job, History is on steps of the service, and Acts on
--              those steps with nothing but requests and expiry in between
--   Startup    _lifespan of app/main.py (Api), startup and shutdown of app/worker/main.py (Consumer)
--   NewDomain  scripts/new_domain.py: Texts (its templates), Additions (what it does to files)
--   Samples    a small service as a concrete instance, and runs of it
--
-- Taken as parameters, with the laws that the program relies on in `IsLawful` (Deps): Redis with
-- GET, SET, DEL and EXISTS and the expiry of keys, the JSON texts that pydantic writes and reads back.
-- Without laws: SHA-256, json.dumps, the clock, UUIDs, arq, the vault, the agent (a list of events:
-- a state, an exception, or acts of other processes on Redis), and what `re`, json.loads and pydantic
-- make of the agent's answer. Redis calls are taken to succeed. `HasLifetimes` says that configured
-- lifetimes are not 0, which Redis refuses. In History a submission draws an id that no job has.
--
-- Handlers are run one after another; only a worker's run may be interleaved with acts of other
-- processes, at the points between two states of the agent. Store/Interleaved looks at one transition with
-- an act of another process inside. In Jobs, what other processes do in between creates no job, keeps a
-- sound store sound, and keeps finished jobs and numbers of attempts as they are (`Changes`).
-- Every function is total by structural recursion; fuel is used in
-- Jobs/Redelivery only, where it bounds the deliveries of a job, and job_max_attempts is shown to be
-- enough. There arq is taken to deliver a job again after each Retry, with job_try counted up to max_tries,
-- and not after anything else; a worker that dies is left out. Instants are microseconds as natural
-- numbers; Store/Lifetimes counts in seconds by the clock of a Redis with the laws `KeepsTime`.
--
-- The vaults stand on `Crypto` (AES-GCM, base64, UTF-8, JSON texts, os.urandom, Key Vault) with the laws
-- `IsCipher`, for texts without lone surrogates and of less than 2 ^ 31
-- bytes; the adapters on the HTTP clients `Http` and `Client`. The handlers
-- run on any vault; TokenVault/Service fills it in by these. Starlette is
-- taken to run the handlers of ApiError inside the middleware and the one of Exception outside.
--
-- Not modelled: which log lines are written where, metrics, and the messages of errors; request validation
-- by FastAPI and pydantic; the agent harness, of which only the calls that build an agent are described;
-- the reads of queue_depth and scan_keys, which pass on what Redis returns; research_instructions of the
-- adapters, a text for the model; what the scaffold script prints.
pub mod Prelude
pub mod Json
pub mod Schemas
pub mod Deps
pub mod App
pub mod Adapter
pub mod Auth
pub mod Backoff
pub mod Execute
pub mod Queue
pub mod Research
pub mod Worker
pub mod Templates
pub mod Agent
pub mod Startup
pub mod NewDomain
pub mod Jobs
pub mod Jira
mod Samples
pub mod Store
pub mod Logging
pub mod Correlation
pub mod Main
pub mod Tools
pub mod WebSearch
pub mod TokenVault
