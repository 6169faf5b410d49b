-- ===== src/Execute/Cleared.antt =====
-- POST /execute of app/api/execute.py: a request that meets every condition reaches the target system.
use deep_agent_blueprint.Prelude.{
  suc, ◌⊎◌, ◌<◌, String, ◌≡◌, refl, ap, ◌∙◌, true, Option, none, arith, inl, inr,
}
use deep_agent_blueprint.Prelude.Exec.{Result, ok, err, ◌>>=◌}
use deep_agent_blueprint.Json.{Object}
use deep_agent_blueprint.Schemas.{Failure, StoredProposal, ExecuteRequest, ExecuteResponse}
use deep_agent_blueprint.Deps.{
  Deps, World, DownstreamCredentials, PreconditionResult, ExecutionResult,
}
use deep_agent_blueprint.Adapter.{validate_payload}
use deep_agent_blueprint.App.{current, current_correlation_id_lem}
use deep_agent_blueprint.Store.{idem, get_idempotency, put_idempotency, delete_proposal}
use deep_agent_blueprint.Store.Reads.{raw_at}
use deep_agent_blueprint.Execute.{
  check_expiry, check_schema, check_target, cleared, perform, record_outcome, execute_fresh,
  execute_action, executed_response, request_hash,
}
use deep_agent_blueprint.Execute.Payload.{verify_payload_accepts}
use deep_agent_blueprint.Execute.Outcomes.{joined, authorized_found}
use deep_agent_blueprint.Execute.Steps.{IsCleared, require_ok_pass}
use deep_agent_blueprint.Execute.Guarded.{perform_lem, mutated, record_outcome_target}

module _ ⦃d : Deps⦄ (v : World d) (p : StoredProposal) where
  check_expiry_pass :
      (i : String)
      → d.clock v.clock_reads < p.action.expires_at
      → check_expiry i p v ≡ (ok tt, record v { clock_reads = suc v.clock_reads })
  unfolding check_expiry
  check_expiry_pass i h = ground arith

  check_schema_pass :
      (approved : Object)
      → validate_payload d.adapter p.action.action_type approved ≡ ok tt
      → check_schema p approved v ≡ (ok tt, v)
  unfolding check_schema
  check_schema_pass approved h = rw h

  check_target_pass :
      (k : DownstreamCredentials) (q : PreconditionResult)
      → d.adapter.check_preconditions p.action k v.target ≡ ok q
      → q.holds ≡ true
      → check_target p k v ≡ (ok tt, v)
  unfolding check_target
  check_target_pass k q h holds = rw h (require_ok_pass v q holds)

record_outcome_returns :
    ⦃d : Deps⦄ (i key hash : String) (o : ExecutionResult) (v : World d)
    → (record_outcome i key hash o v).0 ≡ ok (executed_response i o (current v))
unfolding record_outcome put_idempotency delete_proposal
record_outcome_returns i key hash o v = rw current_correlation_id_lem refl

module _ ⦃d : Deps⦄ (w : World d) (body : ExecuteRequest) (c : String) (t : Option String)
    (p : StoredProposal) (k : DownstreamCredentials) where
  -- the state in which the adapter is called
  abbrev ready : World d
  ready = record (joined w p) { clock_reads = suc (joined w p).clock_reads }

  joined_reads : (joined w p).clock_reads ≡ w.clock_reads
  joined_reads = ground arith

  joined_target : (joined w p).target ≡ w.target
  joined_target = ground arith

  cleared_lem : IsCleared w body c t p k → cleared body c t w ≡ (ok (p, k), ready)
  unfolding cleared
  cleared_lem h = rw (authorized_found w body.action_id c t p h.loaded h.authorized) (
      rw (check_expiry_pass (joined w p) p body.action_id (rw joined_reads h.unexpired)) (
        rw (verify_payload_accepts p body.approved_payload ready h.as_proposed) (
          rw (check_schema_pass ready p body.approved_payload h.valid) (
            rw h.resolved (
              rw
                (check_target_pass ready p k h.precheck (rw joined_target h.prechecked) h.undrifted)
                refl)))))

  execute_new :
      (key : String)
      → raw_at w.store idem key ≡ none
      → execute_action body c t key w
        ≡ execute_fresh body c t key (request_hash body.action_id body.approved_payload) w
  unfolding execute_action get_idempotency
  execute_new key h = rw h

  -- What a cleared request comes to, by what the adapter's `execute` does.
  abbrev pub Effect : Result Failure ExecuteResponse × World d → Type 0
  Effect q =
      let done = d.adapter.execute p.action body.approved_payload k w.target in
      (q.1.target ≡ done.1)
      × (((o : ExecutionResult) × (done.0 ≡ ok o)
            × (q.0 ≡ ok (executed_response body.action_id o (current ready))))
          ⊎ ((x : Failure) × (done.0 ≡ err x) × ((e : Failure) × (q.0 ≡ err e))))

  execute_fresh-Effect :
      (key hash : String) → IsCleared w body c t p k → Effect (execute_fresh body c t key hash w)
  unfolding execute_fresh
  execute_fresh-Effect key hash h =
      rw (cleared_lem h) (performed (perform_lem p body.approved_payload k ready))
    where
      performed :
          ((o : ExecutionResult) × ((d.adapter.execute p.action body.approved_payload k
                  ready.target).0
                ≡ ok o)
              × (perform p body.approved_payload k ready
                  ≡ (ok o, mutated p body.approved_payload k ready)))
            ⊎ ((x : Failure) × ((d.adapter.execute p.action body.approved_payload k ready.target).0
                  ≡ err x)
                × ((e : Failure) × (perform p body.approved_payload k ready
                      ≡ (err e, mutated p body.approved_payload k ready))))
          → Effect
              ((perform p body.approved_payload k >>= record_outcome body.action_id key hash) ready)
      performed (inl (o, done, returns)) =
          let after = mutated p body.approved_payload k ready in
          rw returns (
            record_outcome_target body.action_id key hash o after
                ∙ ap (λ g. (d.adapter.execute p.action body.approved_payload k g).1) joined_target,
            inl (
              o,
              rw (← joined_target) done,
              record_outcome_returns body.action_id key hash o after,
            ),
          )
      performed (inr (x, failed, (e, fails))) = rw fails (
        ap (λ g. (d.adapter.execute p.action body.approved_payload k g).1) joined_target,
        inr (x, rw (← joined_target) failed, (e, refl)),
      )

  -- A request with a new Idempotency-Key that meets every condition does reach the target system: the
  -- target becomes what the adapter's mutation with the approved payload makes of it; where the adapter
  -- succeeds, the response is its outcome, and where it raises, the request raises.
  pub execute_action-Effect :
      (key : String)
      → raw_at w.store idem key ≡ none
      → IsCleared w body c t p k
      → Effect (execute_action body c t key w)
  execute_action-Effect key new h =
      rw (execute_new key new)
        (execute_fresh-Effect key (request_hash body.action_id body.approved_payload) h)
