-- ===== src/Execute/Guarded.antt =====
-- POST /execute of app/api/execute.py: when the target system may change, and what a completed
-- request leaves in the store.
use deep_agent_blueprint.Prelude.{
  String, ◌≡◌, refl, true, Option, none, some, eq_iff, arith, Option-cases, inl, inr, ◌⊎◌,
}
use deep_agent_blueprint.Prelude.Exec.{Result, Result-cases, ok, err, continue, ◌>>=◌}
use deep_agent_blueprint.Json.{Object}
use deep_agent_blueprint.Schemas.{
  Failure, unsupported, downstream_failure, other_error, StoredProposal, ExecuteRequest,
  ExecuteResponse, IdempotencyRecord,
}
use deep_agent_blueprint.Deps.{Deps, World, DownstreamCredentials, ExecutionResult}
use deep_agent_blueprint.App.{current, current_correlation_id, current_correlation_id_lem}
use deep_agent_blueprint.Store.{
  proposal, idem, key, get_idempotency, put_idempotency, delete_proposal,
}
use deep_agent_blueprint.Store.Reads.{raw_at, stored_idempotency}
use deep_agent_blueprint.Execute.{
  expired_error, cleared, perform, mutation_error, adapter_execute, record_outcome, execute_fresh,
  execute_action, request_hash, replay,
}
use deep_agent_blueprint.Execute.Outcomes.{Outcome, passed, stopped, IsQuiet, authorized_absent}
use deep_agent_blueprint.Execute.Steps.{IsCleared, cleared-Outcome}

module _ ⦃d : Deps⦄ where
  mutation_error_lem :
      (x : Failure) (v : World d)
      → (y : Failure) × (mutation_error {A = ExecutionResult} x v ≡ (err y, v))
  unfolding mutation_error
  mutation_error_lem (unsupported t) v = (_, refl)
  mutation_error_lem (downstream_failure n) v = (_, refl)
  mutation_error_lem x v = (_, refl)

  -- the state after the adapter's `execute`, however it ends
  abbrev pub mutated : StoredProposal → Object → DownstreamCredentials → World d → World d
  mutated p a k v = record v { target = (d.adapter.execute p.action a k v.target).1 }

  pub perform_lem :
      (p : StoredProposal) (a : Object) (k : DownstreamCredentials) (v : World d)
      → ((o : ExecutionResult) × ((d.adapter.execute p.action a k v.target).0 ≡ ok o)
          × (perform p a k v ≡ (ok o, mutated p a k v)))
        ⊎ ((x : Failure) × ((d.adapter.execute p.action a k v.target).0 ≡ err x)
            × ((e : Failure) × (perform p a k v ≡ (err e, mutated p a k v))))
  unfolding perform adapter_execute
  perform_lem p a k v = elim (Result-cases (d.adapter.execute p.action a k v.target).0) [
    | inl (o, done) ↦ inl (o, done, rw done)
    | inr (x, failed) ↦
        let (y, ends) = mutation_error_lem x (mutated p a k v) in
        inr (x, failed, (y, rw failed ends))
  ]

  pub record_outcome_target :
      (i key hash : String) (o : ExecutionResult) (v : World d)
      → (record_outcome i key hash o v).1.target ≡ v.target
  unfolding record_outcome put_idempotency delete_proposal current_correlation_id
  record_outcome_target i key hash o v = ground arith

module _ ⦃d : Deps⦄ (w : World d) (body : ExecuteRequest) (c : String) (t : Option String) where
  -- How the request without a replay may go: it stops with the target as it was, or it is cleared
  -- and goes on to the mutation from a quiet state.
  pub data Fresh (key hash : String) : Result Failure ExecuteResponse × World d → Type 0 where
    halted : (e : Failure) (w' : World d) → w'.target ≡ w.target → Fresh key hash (err e, w')
    mutates :
        (p : StoredProposal) (k : DownstreamCredentials) (v : World d)
        → IsCleared w body c t p k
        → IsQuiet w v
        → Fresh key hash
            ((perform p body.approved_payload k >>= record_outcome body.action_id key hash) v)

  pub execute_fresh-Fresh : (key hash : String) → Fresh key hash (execute_fresh body c t key hash w)
  unfolding execute_fresh
  execute_fresh-Fresh key hash = go (cleared body c t w) (cleared-Outcome w body c t)
    where
      go :
          (q : Result Failure (StoredProposal × DownstreamCredentials) × World d)
          → Outcome w (λ ready w'. IsCleared w body c t ready.0 ready.1 × IsQuiet w w') q
          → Fresh key hash (
              continue q.0
                (λ ready.
                  perform ready.0 body.approved_payload ready.1
                  >>= record_outcome body.action_id key hash)
                q.1)
      go _ (passed (p, k) v (ready, quiet)) = mutates p k v ready quiet
      go _ (stopped e v same) = halted e v same

  -- The target system after a request: as it was, or what the adapter makes of the approved payload
  -- for a request that was cleared.
  abbrev pub IsGuarded : World d → Type 0
  IsGuarded w' =
      (w'.target ≡ w.target)
      ⊎ ((p : StoredProposal) × (k : DownstreamCredentials) × IsCleared w body c t p k
          × (w'.target ≡ (d.adapter.execute p.action body.approved_payload k w.target).1))

  Fresh-IsGuarded :
      {key hash : String} {q : Result Failure ExecuteResponse × World d}
      → Fresh key hash q
      → IsGuarded q.1
  Fresh-IsGuarded (halted e w' same) = inl same
  Fresh-IsGuarded {key} {hash} (mutates p k v ready quiet) =
      inr (p, k, ready, rw (← quiet.same_target) (ends (perform_lem p body.approved_payload k v)))
    where
      ends :
          ((o : ExecutionResult) × ((d.adapter.execute p.action body.approved_payload k v.target).0
                ≡ ok o)
              × (perform p body.approved_payload k v ≡ (ok o, mutated p body.approved_payload k v)))
            ⊎ ((x : Failure) × ((d.adapter.execute p.action body.approved_payload k v.target).0
                  ≡ err x)
                × ((e : Failure) × (perform p body.approved_payload k v
                      ≡ (err e, mutated p body.approved_payload k v))))
          → ((perform p body.approved_payload k >>= record_outcome body.action_id key hash)
              v).1.target
            ≡ (d.adapter.execute p.action body.approved_payload k v.target).1
      ends (inl (o, _, done)) =
          rw done
            (record_outcome_target body.action_id key hash o (mutated p body.approved_payload k v))
      ends (inr (x, _, (e, failed))) = rw failed

module _ ⦃d : Deps⦄ (w : World d) (key : String) where
  get_idempotency_found :
      {r : IdempotencyRecord}
      → stored_idempotency w.store key ≡ some r
      → get_idempotency key w ≡ (ok (some r), w)
  unfolding get_idempotency
  get_idempotency_found h = ground arith

  get_idempotency_missing :
      stored_idempotency w.store key ≡ none
      → (get_idempotency key w ≡ (ok none, w)) ⊎ (get_idempotency key w ≡ (err other_error, w))
  unfolding get_idempotency
  get_idempotency_missing h = ground arith

  pub replay_same :
      (hash : String) (r : IdempotencyRecord)
      → r.request_hash ≡ hash
      → (replay hash r w).0
        ≡ ok (record (r.response) { idempotent_replay = true; correlation_id = current w })
  unfolding replay
  replay_same hash r h = ground (arith, current_correlation_id_lem w, eq_iff r.request_hash hash)

  pub replay-IsQuiet : (hash : String) (r : IdempotencyRecord) → IsQuiet w (replay hash r w).1
  unfolding replay current_correlation_id
  replay-IsQuiet hash r = ground arith

module _ ⦃d : Deps⦄ (w : World d) (body : ExecuteRequest) (c : String) (t : Option String)
    (key : String) where
  pub execute_known :
      (r : IdempotencyRecord)
      → stored_idempotency w.store key ≡ some r
      → execute_action body c t key w
        ≡ replay (request_hash body.action_id body.approved_payload) r w
  unfolding execute_action
  execute_known r h = rw (get_idempotency_found w key h)

  pub execute_absent :
      raw_at w.store idem key ≡ none
      → raw_at w.store proposal body.action_id ≡ none
      → execute_action body c t key w ≡ (err expired_error, w)
  unfolding execute_action execute_fresh cleared get_idempotency
  execute_absent h k = rw h (rw (authorized_absent w body.action_id c t k))

  pub execute_unknown :
      stored_idempotency w.store key ≡ none
      → (execute_action body c t key w
          ≡ execute_fresh body c t key (request_hash body.action_id body.approved_payload) w)
        ⊎ (execute_action body c t key w ≡ (err other_error, w))
  unfolding execute_action
  execute_unknown h = elim (get_idempotency_missing w key h) [
    | inl absent ↦ inl (rw absent)
    | inr malformed ↦ inr (rw malformed)
  ]

  -- The target system is changed by a request at most by the adapter's mutation with the approved
  -- payload, and only if all of this held when the request came: the proposal was stored, bound to
  -- this caller and not expired, the approved payload agrees with it outside its editable fields and
  -- passes the action's schema, and the adapter's preconditions held for the live target.
  pub execute_action-IsGuarded : IsGuarded w body c t (execute_action body c t key w).1
  execute_action-IsGuarded = elim (Option-cases (stored_idempotency w.store key)) [
    | inr (r, known) ↦ rw (execute_known r known) (
        inl
          (replay-IsQuiet w key (request_hash body.action_id body.approved_payload) r).same_target)
    | inl unknown ↦ elim (execute_unknown unknown) [
      | inl fresh ↦ rw fresh (
          Fresh-IsGuarded w body c t (
            execute_fresh-Fresh w body c t key (request_hash body.action_id body.approved_payload)))
      | inr malformed ↦ rw malformed (inl refl)
    ]
  ]
