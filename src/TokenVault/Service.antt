-- ===== src/TokenVault/Service.antt =====
-- The service on one of the vaults of app/state/token_vault.py: what the worker gets of a staged token.
use deep_agent_blueprint.Prelude.{String, ◌≡◌, refl, ◌∙◌, ap, true, none, some, ◌⊎◌, inl, inr}
use deep_agent_blueprint.Prelude.Exec.{ok, err}
use deep_agent_blueprint.Schemas.{JobRecord, token_vault_error}
use deep_agent_blueprint.Deps.{Deps, World, IsLawful, user_pat}
use deep_agent_blueprint.Auth.{is_user_pat}
use deep_agent_blueprint.Adapter.{resolve_credentials-user_pat}
use deep_agent_blueprint.Store.{load_token}
use deep_agent_blueprint.Store.Reads.{staged}
use deep_agent_blueprint.Research.{protect_token}
use deep_agent_blueprint.Worker.{resolve_job_credentials}
use deep_agent_blueprint.Worker.Credentials.{protect_token-staged}
use deep_agent_blueprint.TokenVault.{Crypto, TokenVault, key_vault, VaultState, encrypt, decrypt}
use deep_agent_blueprint.TokenVault.RoundTrip.{IsCipher, decrypt-encrypt}

module _ (c : Crypto) (v : TokenVault c) (d : Deps) where
  -- the service with this vault
  abbrev pub sealed_service : Deps
  sealed_service = record d {
    Vault = VaultState c;
    encrypt = λ t s. encrypt c v t s;
    decrypt = λ b s. decrypt c v b s;
  }

  -- In a USER_PAT domain, a token that submission has sealed and staged, and that is still staged when the
  -- worker starts, is read back as the user's own token; only where Key Vault does not unwrap its key
  -- then does the attempt fail, with `TokenVaultError`, and never with another token.
  pub resolve_job_credentials-sealed_service :
      IsLawful d.redis
      → IsCipher c
      → (i token : String) (w w' : World sealed_service) (r : JobRecord)
      → d.adapter.auth_mode ≡ user_pat
      → r.job_id ≡ i
      → (protect_token ⦃d = sealed_service⦄ i (some token) w).0 ≡ ok tt
      → staged ⦃d = sealed_service⦄ w'.store i
        ≡ staged ⦃d = sealed_service⦄
            (protect_token ⦃d = sealed_service⦄ i (some token) w).1.store
            i
      → (resolve_job_credentials ⦃d = sealed_service⦄ r w'
          ≡ (ok (record { user_token = some token; service_key = none }), w'))
        ⊎ ((key_id : String) × (v ≡ key_vault key_id)
            × (resolve_job_credentials ⦃d = sealed_service⦄ r w' ≡ (err token_vault_error, w')))
  unfolding resolve_job_credentials load_token
  resolve_job_credentials-sealed_service law cipher i token w w' r pat own done kept =
      let by_token : is_user_pat d.adapter.auth_mode ≡ true = ap is_user_pat pat in
      let (blob, sealed, there) =
        protect_token-staged ⦃d = sealed_service⦄ law i token w by_token done in
      elim (decrypt-encrypt c cipher v token w.vault w'.vault sealed) [
        | inl opens ↦ inl (
            rw (by_token, own)
              (rw (kept ∙ there) (
                rw (law.text_roundtrip blob)
                  (rw opens (rw (resolve_credentials-user_pat d.adapter (some token) pat) refl)))))
        | inr (key_id, remote, shut) ↦ inr (
          key_id,
          remote,
          rw (by_token, own) (rw (kept ∙ there) (rw (law.text_roundtrip blob) (rw shut refl))),
        )
      ]
