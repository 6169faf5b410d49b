-- ===== src/Store.antt =====
-- app/state/redis_store.py: jobs, results, staged tokens, cancel flags, proposals and idempotency
-- records in Redis. Log lines are left out.
pub mod Keys
pub mod Reads
pub mod Contents
pub mod Refinement
pub mod Transition
pub mod Lifetimes
pub mod Interleaved
use Prim.Native.String.{◌++◌ as ◌<>◌}
use deep_agent_blueprint.Prelude.{
  ℕ, ◌+◌, ◌*◌, String, Bool, true, false, Option, none, some, if◌then◌else◌, is_some, ◌&&◌, not,
}
use deep_agent_blueprint.Prelude.Exec.{pure, raise, gets, ◌>>=◌, ◌>>◌}
use deep_agent_blueprint.Schemas.{
  JobStatus, queued, running, completed, failed, cancelled, is_terminal, JobRecord, JobError,
  JobResultDoc, StoredProposal, IdempotencyRecord, JobProgress, job_missing, invalid_transition,
  other_error,
}
use deep_agent_blueprint.Deps.{Deps, Expiry, ex, keepttl}
use deep_agent_blueprint.App.{App, utcnow, redis_get, redis_set, redis_delete, redis_exists}

-- `_ALLOWED_TRANSITIONS`
unfoldable pub is_allowed : JobStatus → JobStatus → Bool
is_allowed queued running = true
is_allowed queued cancelled = true
is_allowed queued failed = true
is_allowed running queued = false
is_allowed running _ = true
is_allowed _ _ = false

-- the second part of a key
pub data Kind : Type 0 where
  job result tok proposal idem cancel : Kind

unfoldable pub kind_name : Kind → String
kind_name job = "job"
kind_name result = "result"
kind_name tok = "tok"
kind_name proposal = "proposal"
kind_name idem = "idem"
kind_name cancel = "cancel"

unfoldable pub key_in : String → Kind → String → String
unfolding kind_name
key_in domain kind ident = domain <> (":" <> (kind_name kind <> (":" <> ident)))

-- `if attempt is not None: record.attempt = attempt`
abbrev pub or_kept {ℓ} : {A : Type ℓ} → Option A → A → A
or_kept none old = old
or_kept (some new) old = new

-- `if error is not None: record.error = error`
abbrev pub or_kept? {ℓ} : {A : Type ℓ} → Option A → Option A → Option A
or_kept? none old = old
or_kept? (some new) old = some new

module _ ⦃d : Deps⦄ where
  abbrev pub key : Kind → String → String
  key kind ident = key_in d.settings.domain kind ident

  abbrev pub token_key : String → String
  token_key job_id = key tok job_id

  abbrev pub job_ttl : ℕ
  job_ttl = d.settings.result_ttl_s + d.settings.job_timeout_s * d.settings.job_max_attempts

  abbrev pub token_ttl : ℕ
  token_ttl = d.settings.job_timeout_s * d.settings.job_max_attempts + 120

  -- `M.model_validate_json(raw) if raw else None`, where a `ValidationError` is an `other_error`
  abbrev parsed : {A : Type 0} → Option A → App (Option A)
  parsed none = raise other_error
  parsed (some a) = pure (some a)

  abbrev pub read : {A : Type 0} → (d.redis.Raw → Option A) → Option d.redis.Raw → App (Option A)
  read validate none = pure none
  read validate (some raw) = if d.redis.is_empty raw then pure none else parsed (validate raw)

  unfoldable pub create_job : JobRecord → App Unit
  create_job r = redis_set (key job r.job_id) (d.redis.dump_job r) (ex job_ttl)

  unfoldable pub get_job : String → App (Option JobRecord)
  get_job job_id = do raw ← redis_get (key job job_id); read d.redis.validate_job raw

  unfoldable pub save_job : JobRecord → App Unit
  save_job r = redis_set (key job r.job_id) (d.redis.dump_job r) keepttl

  unfoldable pub save_result : String → JobResultDoc → App Unit
  save_result job_id doc =
      redis_set (key result job_id) (d.redis.dump_result doc) (ex d.settings.result_ttl_s)

  unfoldable pub get_result : String → App (Option JobResultDoc)
  get_result job_id = do raw ← redis_get (key result job_id); read d.redis.validate_result raw

  unfoldable pub stage_token : String → String → App Unit
  stage_token job_id ciphertext =
      redis_set (token_key job_id) (d.redis.text ciphertext) (ex token_ttl)

  abbrev as_text : Option d.redis.Raw → Option String
  as_text none = none
  as_text (some raw) = some (d.redis.read_text raw)

  unfoldable pub load_token : String → App (Option String)
  load_token job_id = do raw ← redis_get (token_key job_id); pure (as_text raw)

  unfoldable pub purge_token : String → App Unit
  purge_token job_id = redis_delete (token_key job_id)

  unfoldable pub request_cancel : String → App Unit
  request_cancel job_id = redis_set (key cancel job_id) (d.redis.text "1") (ex job_ttl)

  unfoldable pub is_cancel_requested : String → App Bool
  is_cancel_requested job_id = redis_exists (key cancel job_id)

  unfoldable pub save_proposal : StoredProposal → App Unit
  save_proposal p =
      redis_set (key proposal p.action.action_id) (d.redis.dump_proposal p)
        (ex d.settings.proposal_ttl_s)

  unfoldable pub get_proposal : String → App (Option StoredProposal)
  get_proposal action_id = do
    raw ← redis_get (key proposal action_id)
    read d.redis.validate_proposal raw

  unfoldable pub delete_proposal : String → App Unit
  delete_proposal action_id = redis_delete (key proposal action_id)

  unfoldable pub get_idempotency : String → App (Option IdempotencyRecord)
  get_idempotency k = do raw ← redis_get (key idem k); read d.redis.validate_idempotency raw

  unfoldable pub put_idempotency : String → IdempotencyRecord → App Unit
  put_idempotency k r =
      redis_set (key idem k) (d.redis.dump_idempotency r) (ex d.settings.idempotency_ttl_s)

  -- `ping`, from what the client's ping returns; `none` is an exception
  unfoldable pub ping : Option Bool → Bool
  ping none = false
  ping (some answer) = answer

  -- `if new_status is RUNNING and record.started_at is None: record.started_at = utcnow()`
  pub stamp_started : JobStatus → JobRecord → App JobRecord
  stamp_started running r = elim r.started_at [
    | some t ↦ pure r
    | none ↦ do now ← utcnow; pure (record r { started_at = some now })
  ]
  stamp_started _ r = pure r

  -- `if new_status in TERMINAL_STATES: record.finished_at = utcnow()`
  pub stamp_finished : JobStatus → JobRecord → App JobRecord
  stamp_finished s r =
      if is_terminal s
      then (do now ← utcnow; pure (record r { finished_at = some now }))
      else pure r

  -- the purge at the end of `transition`
  pub purge_terminal : String → JobStatus → App Unit
  unfolding purge_token
  purge_terminal job_id s =
      if is_terminal s then (do purge_token job_id; redis_delete (key cancel job_id)) else pure tt

  -- `transition` from the record that was read
  pub apply_transition : String → JobStatus → Option ℕ → Option JobError → JobRecord → App JobRecord
  unfolding stamp_started stamp_finished purge_terminal save_job
  apply_transition job_id s attempt error r = do
    let changed = record r {
      status = s;
      attempt = or_kept attempt r.attempt;
      error = or_kept? error r.error;
    }
    started ← stamp_started s changed
    stamped ← stamp_finished s started
    save_job stamped
    purge_terminal job_id s
    pure stamped

  pub checked_transition :
      String → JobStatus → Option ℕ → Option JobError → Option JobRecord → App JobRecord
  unfolding apply_transition is_allowed
  checked_transition job_id s attempt error none = raise (job_missing job_id)
  checked_transition job_id s attempt error (some r) =
      if is_allowed r.status s
      then apply_transition job_id s attempt error r
      else raise (invalid_transition r.status s)

  unfoldable pub transition : String → JobStatus → Option ℕ → Option JobError → App JobRecord
  unfolding checked_transition
  transition job_id s attempt error = do
    found ← get_job job_id
    checked_transition job_id s attempt error found

  unfoldable pub save_progress : JobProgress → Option JobRecord → App Unit
  save_progress p none = pure tt
  save_progress p (some r) = save_job (record r { progress = p })

  unfoldable pub set_progress : String → JobProgress → App Unit
  unfolding save_progress
  set_progress job_id p = do found ← get_job job_id; save_progress p found
