-- ===== src/Execute/Steps.antt =====
-- Step (1) to (4) of `execute_action` in app/api/execute.py: what a request must pass before the
-- adapter is called.
use deep_agent_blueprint.Prelude.{
  ◌<◌, String, ◌≡◌, refl, ap, ◌∙◌, true, false, Option, some, arith, Bool-cases, inl, inr, leb,
}
use deep_agent_blueprint.Prelude.Exec.{Result, Result-cases, ok, err, handle}
use deep_agent_blueprint.Json.{Object}
use deep_agent_blueprint.Schemas.{
  Failure, unsupported, downstream_failure, api_error, stale_target, drift, StoredProposal,
  ExecuteRequest,
}
use deep_agent_blueprint.Deps.{Deps, World, DownstreamCredentials, PreconditionResult}
use deep_agent_blueprint.Adapter.{validate_payload, resolve_credentials}
use deep_agent_blueprint.Store.{delete_proposal}
use deep_agent_blueprint.Store.Reads.{stored_proposal}
use deep_agent_blueprint.Execute.{
  expired_error, schema_error, precheck_error, require_ok, is_authorized, verify_payload,
  check_expiry, check_schema, check_target, cleared,
}
use deep_agent_blueprint.Execute.Payload.{AgreesOutside, verify_payload_iff, verify_payload_quiet}
use deep_agent_blueprint.Execute.Outcomes.{
  Outcome, passed, stopped, Outcome-bind, Outcome-weaken, Outcome-rebase, IsQuiet, IsQuiet-of,
  IsQuiet-trans, IsAuthorized-Outcome,
}

module _ ⦃d : Deps⦄ (w : World d) (body : ExecuteRequest) (consumer_id : String)
    (user_token : Option String) where
  -- What the human approved may be executed in `w` for this caller.
  pub record IsCleared (stored : StoredProposal) (credentials : DownstreamCredentials)
      : Type 0 where
    pub loaded : stored_proposal w.store body.action_id ≡ some stored
    pub authorized : is_authorized stored consumer_id user_token ≡ true
    pub unexpired : d.clock w.clock_reads < stored.action.expires_at
    pub as_proposed :
        AgreesOutside stored.action.editable_fields stored.action.payload body.approved_payload
    pub valid : validate_payload d.adapter stored.action.action_type body.approved_payload ≡ ok tt
    pub resolved : resolve_credentials d.adapter user_token ≡ ok credentials
    pub precheck : PreconditionResult
    pub prechecked : d.adapter.check_preconditions stored.action credentials w.target ≡ ok precheck
    pub undrifted : precheck.holds ≡ true

module _ ⦃d : Deps⦄ (v : World d) where
  expiry-Outcome :
      (i : String) (p : StoredProposal)
      → Outcome v
          (λ _ v'. (d.clock v.clock_reads < p.action.expires_at) × IsQuiet v v')
          (check_expiry i p v)
  unfolding check_expiry delete_proposal
  expiry-Outcome i p = elim (Bool-cases (leb p.action.expires_at (d.clock v.clock_reads))) [
    | inl late ↦ rw late (stopped expired_error _ refl)
    | inr early ↦ rw early (passed tt _ (ground arith, ground arith))
  ]

  payload-Outcome :
      (p : StoredProposal) (approved : Object)
      → Outcome v
          (λ _ v'. AgreesOutside p.action.editable_fields p.action.payload approved × (v' ≡ v))
          (verify_payload p approved v)
  payload-Outcome p approved =
      go (verify_payload p approved v) (verify_payload_quiet p approved v)
        (verify_payload_iff p approved v).0
    where
      go :
          (q : Result Failure Unit × World d)
          → q.1 ≡ v
          → (q.0 ≡ ok tt → AgreesOutside p.action.editable_fields p.action.payload approved)
          → Outcome v
              (λ _ v'. AgreesOutside p.action.editable_fields p.action.payload approved × (v' ≡ v))
              q
      go (ok tt, v') e h = passed tt v' (h refl, e)
      go (err x, v') e h = stopped x v' (ap (λ u. u.target) e)

  schema_error-Outcome :
      {G : Unit → World d → Type 0} (x : Failure) → Outcome v G (schema_error x v)
  unfolding schema_error
  schema_error-Outcome (unsupported t) = stopped _ v refl
  schema_error-Outcome _ = stopped _ v refl

  precheck_error-Outcome :
      (x : Failure) → Outcome v (λ _ _. ⊥) (precheck_error {A = PreconditionResult} x v)
  unfolding precheck_error
  precheck_error-Outcome (downstream_failure n) = stopped _ v refl
  precheck_error-Outcome _ = stopped _ v refl

  schema-Outcome :
      (p : StoredProposal) (approved : Object)
      → Outcome v
          (λ _ v'. (validate_payload d.adapter p.action.action_type approved ≡ ok tt) × (v' ≡ v))
          (check_schema p approved v)
  unfolding check_schema
  schema-Outcome p approved =
      elim (Result-cases (validate_payload d.adapter p.action.action_type approved)) [
        | inl (u, valid) ↦ rw valid (passed u v (refl, refl))
        | inr (x, invalid) ↦ rw invalid (schema_error-Outcome x)
      ]

  pub require_ok_pass : (q : PreconditionResult) → q.holds ≡ true → require_ok q v ≡ (ok tt, v)
  unfolding require_ok
  require_ok_pass q h = ground arith

  require_ok_stop :
      (q : PreconditionResult)
      → q.holds ≡ false
      → require_ok q v ≡ (err (api_error 409 stale_target (drift q.details)), v)
  unfolding require_ok
  require_ok_stop q h = ground arith

  require_ok-Outcome :
      (q : PreconditionResult) → Outcome v (λ _ v'. (q.holds ≡ true) × (v' ≡ v)) (require_ok q v)
  require_ok-Outcome q = elim (Bool-cases q.holds) [
    | inl holds ↦ rw (require_ok_pass q holds) (passed tt v (holds, refl))
    | inr drifted ↦ rw (require_ok_stop q drifted) (stopped _ v refl)
  ]

module _ ⦃d : Deps⦄ (v : World d) where
  target-Outcome :
      (p : StoredProposal) (c : DownstreamCredentials)
      → Outcome v
          (λ _ v'.
            ((q : PreconditionResult) × (d.adapter.check_preconditions p.action c v.target ≡ ok q)
              × (q.holds ≡ true))
            × (v' ≡ v))
          (check_target p c v)
  unfolding check_target
  target-Outcome p c =
      Outcome-bind _ (require_ok ⦃d = d⦄)
        (answered (d.adapter.check_preconditions p.action c v.target))
        λ q v' (found, same). Outcome-rebase (ap (λ u. u.target) same) (
          Outcome-weaken (require_ok-Outcome v' q)
            λ _ v'' (holds, same'). ((q, found, holds), same' ∙ same))
    where
      answered :
          (r : Result Failure PreconditionResult)
          → Outcome v (λ q v'. (r ≡ ok q) × (v' ≡ v)) (handle r precheck_error v)
      answered (ok q) = passed q v (refl, refl)
      answered (err x) = Outcome-weaken (precheck_error-Outcome v x) (λ q v' g. absurd g)

resolved-Outcome :
    ⦃d : Deps⦄ {w : World d} (v : World d) (t : Option String)
    → v.target ≡ w.target
    → Outcome w
        (λ k v'. (resolve_credentials d.adapter t ≡ ok k) × (v' ≡ v))
        (resolve_credentials d.adapter t, v)
resolved-Outcome ⦃d⦄ {w} v t e = go (resolve_credentials d.adapter t)
  where
    go :
        (r : Result Failure DownstreamCredentials)
        → Outcome w (λ k v'. (r ≡ ok k) × (v' ≡ v)) (r, v)
    go (ok k) = passed k v (refl, refl)
    go (err x) = stopped x v e

module _ ⦃d : Deps⦄ (w : World d) (body : ExecuteRequest) (c : String) (t : Option String) where
  -- The checks before the mutation: they end with an error and the target as it was, or with all of
  -- the conditions met, the store and the target unchanged.
  pub cleared-Outcome :
      Outcome w
        (λ ready w'. IsCleared w body c t ready.0 ready.1 × IsQuiet w w')
        (cleared body c t w)
  unfolding cleared
  cleared-Outcome =
      Outcome-bind _ _ (IsAuthorized-Outcome w body.action_id c t)
        λ p v (loaded, allowed, quiet, reads).
          Outcome-bind _ _ (Outcome-rebase quiet.same_target (expiry-Outcome v body.action_id p))
            λ _ v1 (early, quiet1).
              let at1 = quiet1.same_target ∙ quiet.same_target in
              Outcome-bind _ _ (Outcome-rebase at1 (payload-Outcome v1 p body.approved_payload))
                λ _ v2 (agrees, same2).
                  let at2 = ap (λ u. u.target) same2 ∙ at1 in
                  Outcome-bind _ _ (Outcome-rebase at2 (schema-Outcome v2 p body.approved_payload))
                    λ _ v3 (valid, same3).
                      let at3 = ap (λ u. u.target) same3 ∙ at2 in
                      let from_v1 : v3 ≡ v1 = same3 ∙ same2 in
                      Outcome-bind (resolve_credentials d.adapter t, v3) _
                        (resolved-Outcome v3 t at3)
                        λ k v4 (resolved, same4).
                          Outcome-bind _ _
                            (Outcome-rebase (ap (λ u. u.target) same4 ∙ at3)
                              (target-Outcome v4 p k))
                            λ _ v5 ((q, checked, holds), same5).
                              passed (p, k) v5
                                (
                                  record {
                                    loaded = loaded;
                                    authorized = allowed;
                                    unexpired = rw reads at early;
                                    as_proposed = agrees;
                                    valid = valid;
                                    resolved = resolved;
                                    precheck = q;
                                    prechecked = rw (ap (λ u. u.target) same4 ∙ at3) at checked;
                                    undrifted = holds;
                                  },
                                  IsQuiet-trans quiet
                                      (IsQuiet-trans quiet1 (IsQuiet-of (same5 ∙ same4 ∙ from_v1))),
                                )
