-- ===== src/Samples/Vault.antt =====
-- The vaults on a concrete cipher, and a token on its way from submission to the worker.
use deep_agent_blueprint.Prelude.{[], String, ◌≡◌, refl, true, false, none, some, ◌⊎◌}
use deep_agent_blueprint.Prelude.Exec.{ok, err}
use deep_agent_blueprint.Schemas.{token_vault_error}
use deep_agent_blueprint.Deps.{Settings, Deps, World}
use deep_agent_blueprint.TokenVault.{
  TokenVault, key_vault, null_vault, VaultState, encrypt, decrypt, build_token_vault,
}
use deep_agent_blueprint.TokenVault.RoundTrip.{decrypt-encrypt}
use deep_agent_blueprint.TokenVault.Selection.{
  IsSelected, build_token_vault-IsSelected, IsAnswered, token_vault_errors,
}
use deep_agent_blueprint.Research.{protect_token}
use deep_agent_blueprint.Worker.{resolve_job_credentials}
use deep_agent_blueprint.TokenVault.Service.{sealed_service, resolve_job_credentials-sealed_service}
use deep_agent_blueprint.Samples.{service, settings, memory-IsLawful, blank, job_1}
use deep_agent_blueprint.Samples.Codec.{codec, codec-IsCipher}

abbrev at_first : VaultState codec
at_first = record { draws = 0; service = true }

-- Key Vault is down
abbrev later : VaultState codec
later = record { draws = 4; service = false }

abbrev remote : TokenVault codec
remote = key_vault "key-1"

abbrev blob : String
blob = elim (encrypt codec remote "pat-1" at_first).0 [ ok b ↦ b | err e ↦ "" ]

abbrev sealed : (encrypt codec remote "pat-1" at_first).0 ≡ ok blob
unfolding encrypt
sealed = refl

decrypt-encrypt_example :
    (decrypt codec remote blob later ≡ ok "pat-1")
    ⊎ ((key_id : String) × (remote ≡ key_vault key_id)
        × (decrypt codec remote blob later ≡ err token_vault_error))
decrypt-encrypt_example = decrypt-encrypt codec codec-IsCipher remote "pat-1" at_first later sealed

abbrev keyed : Settings
keyed = record settings { local_crypto_key_b64 = "0123456789abcdef0123456789abcdef" }

abbrev built : TokenVault codec
built = elim (build_token_vault codec keyed) [ ok v ↦ v | err e ↦ null_vault ]

abbrev chosen : build_token_vault codec keyed ≡ ok built
unfolding build_token_vault deep_agent_blueprint.Samples.Codec.to_list
chosen = refl

build_token_vault-IsSelected_example : IsSelected codec keyed built
build_token_vault-IsSelected_example = build_token_vault-IsSelected codec keyed built chosen

token_vault_errors_example :
    IsAnswered (encrypt codec remote "pat-1" later).0
    × IsAnswered (decrypt codec remote "pat-1" later)
token_vault_errors_example = token_vault_errors codec "pat-1" later remote

-- the small service on Key Vault
abbrev on_key_vault : Deps
on_key_vault = sealed_service codec remote service

abbrev empty : World on_key_vault
empty = record {
  store = [];
  queue = 0;
  target = 0;
  vault = at_first;
  clock_reads = 0;
  uuids_drawn = 0;
  correlation_id = some "corr-2";
  correlation_from_header = true;
}

abbrev submitted : World on_key_vault
submitted = (protect_token ⦃d = on_key_vault⦄ "j1" (some "pat-1") empty).1

-- the worker starts when Key Vault is down
abbrev picked_up : World on_key_vault
picked_up = record submitted { vault = later }

staged_it : (protect_token ⦃d = on_key_vault⦄ "j1" (some "pat-1") empty).0 ≡ ok tt
unfolding protect_token deep_agent_blueprint.Research.seal_token
    deep_agent_blueprint.Store.stage_token encrypt
staged_it = refl

resolve_job_credentials-sealed_service_example :
    (resolve_job_credentials ⦃d = on_key_vault⦄ job_1 picked_up
      ≡ (ok (record { user_token = some "pat-1"; service_key = none }), picked_up))
    ⊎ ((key_id : String) × (remote ≡ key_vault key_id)
        × (resolve_job_credentials ⦃d = on_key_vault⦄ job_1 picked_up
            ≡ (err token_vault_error, picked_up)))
resolve_job_credentials-sealed_service_example =
    resolve_job_credentials-sealed_service codec remote service memory-IsLawful codec-IsCipher "j1"
      "pat-1" empty picked_up job_1 refl refl staged_it refl
