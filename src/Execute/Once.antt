-- ===== src/Execute/Once.antt =====
-- POST /execute of app/api/execute.py: a completed request is replayed under its Idempotency-Key and
-- never executed again.
use deep_agent_blueprint.Prelude.{
  ℕ, String, ◌≡◌, refl, true, Option, none, some, eq_refl, arith, inl, inr,
}
use deep_agent_blueprint.Prelude.Exec.{Result, ok, err, continue}
use deep_agent_blueprint.Schemas.{Failure, ExecuteRequest, ExecuteResponse, IdempotencyRecord}
use deep_agent_blueprint.Deps.{Deps, World, ExecutionResult, IsLawful, ex}
use deep_agent_blueprint.App.{current, bound, current_correlation_id_lem}
use deep_agent_blueprint.Store.{proposal, idem, key, put_idempotency, delete_proposal}
use deep_agent_blueprint.Store.Reads.{
  HasLifetimes, raw_at, raw_at-set, raw_at-delete, stored_idempotency,
}
use deep_agent_blueprint.Execute.{
  executed_response, expired_error, perform, record_outcome, execute_fresh, execute_action,
  request_hash,
}
use deep_agent_blueprint.Execute.Outcomes.{IsQuiet}
use deep_agent_blueprint.Execute.Guarded.{
  Fresh, halted, mutates, execute_fresh-Fresh, execute_known, execute_unknown, replay-IsQuiet,
  replay_same, execute_absent,
}

module _ ⦃d : Deps⦄ (law : IsLawful d.redis) (lives : HasLifetimes d.settings) where
  -- What step (6) leaves in the store.
  pub record IsRecorded (i k hash : String) (r : ExecuteResponse) (st : d.redis.Store)
      : Type 0 where
    pub created : ℕ
    pub recorded :
        stored_idempotency st k
        ≡ some (record { request_hash = hash; response = r; created_at = created })
    pub consumed : raw_at st proposal i ≡ none

  abbrev response_for : String → ExecutionResult → World d → ExecuteResponse
  response_for i o v = executed_response i o (current v)

  abbrev recorded_store : String → String → IdempotencyRecord → d.redis.Store → d.redis.Store
  recorded_store i k r st =
      d.redis.delete (key proposal i)
        (d.redis.set (key idem k) (d.redis.dump_idempotency r) (ex d.settings.idempotency_ttl_s) st)

  record_outcome_lem :
      (i k hash : String) (o : ExecutionResult) (v : World d)
      → let r = response_for i o v in
        ((record_outcome i k hash o v).0 ≡ ok r)
        × ((record_outcome i k hash o v).1.store
            ≡ recorded_store i k
                (record {
                  request_hash = hash;
                  response = r;
                  created_at = d.clock (bound v).clock_reads;
                })
                (bound v).store)
  unfolding record_outcome put_idempotency delete_proposal
  record_outcome_lem i k hash o v = rw current_correlation_id_lem (refl, refl)

  recorded_store-IsRecorded :
      (i k : String) (r : IdempotencyRecord) (st : d.redis.Store)
      → IsRecorded i k r.request_hash r.response (recorded_store i k r st)
  recorded_store-IsRecorded i k r st =
      let saved =
        d.redis.set (key idem k) (d.redis.dump_idempotency r) (ex d.settings.idempotency_ttl_s)
          st in
      let written =
        raw_at-set law idem idem k k (d.redis.dump_idempotency r) (ex d.settings.idempotency_ttl_s)
          st lives.idempotency_positive in
      record {
        created = r.created_at;
        recorded = ground (
          arith,
          raw_at-delete law proposal idem i k saved,
          written,
          law.idempotency_roundtrip r,
          law.idempotency_nonempty r,
          eq_refl k,
        );
        consumed = ground (arith, raw_at-delete law proposal proposal i i saved, eq_refl i);
      }

  record_outcome-IsRecorded :
      (i k hash : String) (o : ExecutionResult) (v : World d) {r : ExecuteResponse}
      → (record_outcome i k hash o v).0 ≡ ok r
      → IsRecorded i k hash r (record_outcome i k hash o v).1.store
  record_outcome-IsRecorded i k hash o v {r} h =
      let (returned, stored) = record_outcome_lem i k hash o v in
      let same : response_for i o v ≡ r = cc returned in
      rw (stored, ← same)
        (recorded_store-IsRecorded i k
          (record {
            request_hash = hash;
            response = response_for i o v;
            created_at = d.clock (bound v).clock_reads;
          })
          (bound v).store)

  -- A request that is not a replay and returns a response leaves that response under its key, and
  -- its proposal is gone.
  Fresh-IsRecorded :
      (w : World d) (body : ExecuteRequest) (c : String) (t : Option String) (k hash : String)
      (q : Result Failure ExecuteResponse × World d) {r : ExecuteResponse}
      → Fresh w body c t k hash q
      → q.0 ≡ ok r
      → IsRecorded body.action_id k hash r q.1.store
  Fresh-IsRecorded w body c t k hash _ (halted e w' same) h = cc
  Fresh-IsRecorded w body c t k hash _ {r} (mutates p creds v ready quiet) h =
      ends (perform p body.approved_payload creds v) h
    where
      ends :
          (u : Result Failure ExecutionResult × World d)
          → (continue u.0 (record_outcome body.action_id k hash) u.1).0 ≡ ok r
          → IsRecorded body.action_id k hash r
              (continue u.0 (record_outcome body.action_id k hash) u.1).1.store
      ends (ok o, v') e = record_outcome-IsRecorded body.action_id k hash o v' e
      ends (err x, v') e = cc

  module _ (w : World d) (body : ExecuteRequest) (c : String) (t : Option String) (k : String) where
    -- A request with a new Idempotency-Key that returns a response has left that response and the
    -- request's hash under the key, and has consumed its proposal.
    pub execute_action-IsRecorded :
        {r : ExecuteResponse}
        → stored_idempotency w.store k ≡ none
        → (execute_action body c t k w).0 ≡ ok r
        → IsRecorded body.action_id k
            (request_hash body.action_id body.approved_payload)
            r
            (execute_action body c t k w).1.store
    execute_action-IsRecorded {r} new h = elim (execute_unknown w body c t k new) [
      | inl fresh ↦ rw fresh (
          Fresh-IsRecorded w body c t k (request_hash body.action_id body.approved_payload)
            (execute_fresh body c t k (request_hash body.action_id body.approved_payload) w)
            (execute_fresh-Fresh w body c t k (request_hash body.action_id body.approved_payload))
            (rw fresh at h))
      | inr malformed ↦ cc
    ]

-- After a completed request, in any later state with the same store: the same request under the
-- same key returns the recorded response, marked as a replay and with the correlation id of the new
-- call, whoever sends it; the store, the queue and the target system stay as they are.
pub execute_replayed :
    ⦃d : Deps⦄ (law : IsLawful d.redis) (lives : HasLifetimes d.settings) (w v : World d)
    (body : ExecuteRequest) (c c' : String) (t t' : Option String) (k : String)
    {r : ExecuteResponse}
    → stored_idempotency w.store k ≡ none
    → (execute_action body c t k w).0 ≡ ok r
    → v.store ≡ (execute_action body c t k w).1.store
    → ((execute_action body c' t' k v).0
        ≡ ok (record r { idempotent_replay = true; correlation_id = current v }))
      × IsQuiet v (execute_action body c' t' k v).1
execute_replayed law lives w v body c c' t t' k {r} new done later =
    let left = execute_action-IsRecorded law lives w body c t k new done in
    let hash = request_hash body.action_id body.approved_payload in
    let kept : IdempotencyRecord = record {
      request_hash = hash;
      response = r;
      created_at = left.created;
    } in
    let known = execute_known v body c' t' k kept (rw later left.recorded) in
    rw known (replay_same v k hash kept refl, replay-IsQuiet v k hash kept)

-- After a completed request, in any later state with the same store: a request for the same action
-- under a key that has no record fails with 409 ACTION_EXPIRED, whoever sends it and whatever its
-- payload, and the target system stays as it is.
pub execute_consumed :
    ⦃d : Deps⦄ (law : IsLawful d.redis) (lives : HasLifetimes d.settings) (w v : World d)
    (body body' : ExecuteRequest) (c c' : String) (t t' : Option String) (k k' : String)
    {r : ExecuteResponse}
    → stored_idempotency w.store k ≡ none
    → (execute_action body c t k w).0 ≡ ok r
    → v.store ≡ (execute_action body c t k w).1.store
    → body'.action_id ≡ body.action_id
    → raw_at v.store idem k' ≡ none
    → execute_action body' c' t' k' v ≡ (err expired_error, v)
execute_consumed law lives w v body body' c c' t t' k k' new done later same unused =
    let left = execute_action-IsRecorded law lives w body c t k new done in
    execute_absent v body' c' t' k' unused (rw (same, later) left.consumed)
