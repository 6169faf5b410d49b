-- ===== src/TokenVault/Selection.antt =====
-- app/state/token_vault.py: which vault the settings select, and how the vaults fail.
use deep_agent_blueprint.Prelude.{
  String, ◌≡◌, ap, ◌∙◌, ◌≢◌, ◌⊎◌, refl, Option, none, some, eqb, Bool-cases, String-cases, inl, inr,
  length, arith,
}
use deep_agent_blueprint.Prelude.Exec.{Result, Result-cases, ok, err}
use deep_agent_blueprint.Schemas.{Failure, token_vault_error}
use deep_agent_blueprint.Deps.{Settings}
use deep_agent_blueprint.TokenVault.{
  Bytes, Crypto, TokenVault, key_vault, local_vault, null_vault, VaultState, wrapped_blob, encrypt,
  key_vault_decrypt, local_decrypt, decrypt, sealed_error, local_from, build_token_vault, dek_len,
}

-- What the settings say where this vault is the one selected.
abbrev pub IsSelected : (c : Crypto) → Settings → TokenVault c → Type 0
IsSelected c s (key_vault key_id) = (key_id ≡ s.azure_keyvault_key_id) × (key_id ≢ "")
IsSelected c s (local_vault key) =
    (s.azure_keyvault_key_id ≡ "")
    × (s.env ≢ "prod")
    × (c.b64decode s.local_crypto_key_b64 ≡ some key)
    × (length key ≡ dek_len)
IsSelected c s null_vault = (s.azure_keyvault_key_id ≡ "") × (s.local_crypto_key_b64 ≡ "")

module _ (c : Crypto) (s : Settings) where
  local_IsSelected :
      (v : TokenVault c) (o : Option (Bytes c))
      → s.azure_keyvault_key_id ≡ ""
      → s.env ≢ "prod"
      → c.b64decode s.local_crypto_key_b64 ≡ o
      → local_from c o ≡ ok v
      → IsSelected c s v
  unfolding local_from
  local_IsSelected v none unset dev e h = cc
  local_IsSelected v (some key) unset dev e h = elim (Bool-cases (eqb (length key) dek_len)) [
    | inl long ↦ rw (← same (rw long at h)) (unset, dev, e, ground arith)
    | inr short ↦ cc (rw short at h)
  ]
    where
      same :
          ◌≡◌ {A = Result Failure (TokenVault c)} (ok (local_vault key)) (ok v)
          → local_vault key ≡ v
      same p = cc

  -- The vault that is built is the one that the settings ask for: Key Vault if a key id is set; else the
  -- local one if a local key is set, and then never where ENV is prod, and with a key of 32 bytes;
  -- and the one that refuses only where neither is set.
  pub build_token_vault-IsSelected :
      (v : TokenVault c) → build_token_vault c s ≡ ok v → IsSelected c s v
  unfolding build_token_vault
  build_token_vault-IsSelected v h = elim (String-cases s.azure_keyvault_key_id "") [
    | inr (set, named) ↦ rw (← same (rw set at h)) (refl, named)
    | inl unset ↦ elim (String-cases s.local_crypto_key_b64 "") [
      | inl bare ↦ rw (← same (rw (unset, bare) at h)) (unset, bare)
      | inr (keyed, _) ↦ elim (String-cases s.env "prod") [
        | inl prod ↦ cc (rw (unset, keyed, prod) at h)
        | inr (other, dev) ↦
            local_IsSelected v (c.b64decode s.local_crypto_key_b64) unset dev refl
              (rw (unset, keyed, other) at h)
      ]
    ]
  ]
    where
      same : {u : TokenVault c} → ◌≡◌ {A = Result Failure (TokenVault c)} (ok u) (ok v) → u ≡ v
      same p = cc

sealed_error_lem :
    (o : Option String) {e : Failure} → sealed_error o ≡ err e → e ≡ token_vault_error
sealed_error_lem none h = cc
sealed_error_lem (some u) h = cc

-- The call returns a text, or raises `TokenVaultError` and nothing else.
abbrev pub IsAnswered : Result Failure String → Type 0
IsAnswered r = ((u : String) × (r ≡ ok u)) ⊎ (r ≡ err token_vault_error)

answered :
    (r : Result Failure String) → ((e : Failure) → r ≡ err e → e ≡ token_vault_error) → IsAnswered r
answered r h = elim (Result-cases r) [
  | inl returns ↦ inl returns
  | inr (e, raises) ↦ inr (raises ∙ ap err (h e raises))
]

module _ (c : Crypto) (t : String) (s : VaultState c) where
  wrapped_blob_error :
      (k : String) (nonce ct : Bytes c) (o : Option (Bytes c)) {e : Failure}
      → wrapped_blob c k nonce ct o ≡ err e
      → e ≡ token_vault_error
  wrapped_blob_error k nonce ct none h = cc
  wrapped_blob_error k nonce ct (some w) h = cc

  encrypt_error :
      (v : TokenVault c) {e : Failure} → (encrypt c v t s).0 ≡ err e → e ≡ token_vault_error
  unfolding encrypt
  encrypt_error (key_vault k) h = wrapped_blob_error k _ _ _ h
  encrypt_error (local_vault k) h = cc
  encrypt_error null_vault h = cc

  decrypt_error : (v : TokenVault c) {e : Failure} → decrypt c v t s ≡ err e → e ≡ token_vault_error
  unfolding decrypt
  decrypt_error (key_vault k) h = sealed_error_lem _ (unfold key_vault_decrypt in h)
  decrypt_error (local_vault k) h = sealed_error_lem _ (unfold local_decrypt in h)
  decrypt_error null_vault h = cc

  -- Sealing a token and reading one, whatever the vault, the text and the state of Key Vault, returns a
  -- text or raises `TokenVaultError`.
  pub token_vault_errors :
      (v : TokenVault c) → IsAnswered (encrypt c v t s).0 × IsAnswered (decrypt c v t s)
  token_vault_errors v = (answered _ (λ e. encrypt_error v), answered _ (λ e. decrypt_error v))
