-- ===== src/Worker/Credentials.antt =====
-- From submission to the worker: the token that `submit_research` (app/api/research.py) stages.
use deep_agent_blueprint.Prelude.{String, ◌≡◌, refl, ◌∙◌, true, some, eq_refl, arith, inl, inr}
use deep_agent_blueprint.Prelude.Exec.{Result-cases, ok, err}
use deep_agent_blueprint.Schemas.{Failure, token_vault_error}
use deep_agent_blueprint.Deps.{Deps, World, IsLawful, ex}
use deep_agent_blueprint.Auth.{is_user_pat}
use deep_agent_blueprint.Store.{tok, stage_token, token_ttl}
use deep_agent_blueprint.Store.Reads.{staged, raw_at-set}
use deep_agent_blueprint.Research.{protect_token, seal_token, vault_encrypt, vault_error}

vault_error_raises :
    ⦃d : Deps⦄ (e : Failure) (w : World d)
    → (x : Failure) × (vault_error {A = String} e w ≡ (err x, w))
unfolding vault_error
vault_error_raises token_vault_error w = (_, refl)
vault_error_raises e w = (e, refl)

module _ ⦃d : Deps⦄ (law : IsLawful d.redis) (i token : String) where
  pub protect_token-staged :
      (w : World d)
      → is_user_pat d.adapter.auth_mode ≡ true
      → (protect_token i (some token) w).0 ≡ ok tt
      → (blob : String) × ((d.encrypt token w.vault).0 ≡ ok blob)
        × (staged (protect_token i (some token) w).1.store i ≡ some (d.redis.text blob))
  unfolding protect_token seal_token vault_encrypt stage_token
  protect_token-staged w pat h = elim (Result-cases (d.encrypt token w.vault).0) [
    | inl (blob, sealed) ↦ (
      blob,
      sealed,
      rw (pat, sealed)
          (raw_at-set law tok tok i i (d.redis.text blob) (ex token_ttl) w.store (omega arith)
            ∙ rw (eq_refl i)),
    )
    | inr (e, failed) ↦
        let (x, ends) = vault_error_raises e (record w { vault = (d.encrypt token w.vault).1 }) in
        cc (rw (pat, failed, ends) at h)
  ]
