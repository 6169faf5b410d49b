-- ===== src/TokenVault.antt =====
-- app/state/token_vault.py: the vaults that seal a user's token before it is staged, and
-- `build_token_vault`. `Crypto` is what the vaults call: `os.urandom`, AES-GCM, base64, UTF-8, the JSON
-- text of an envelope, and Azure Key Vault's wrapping of keys, whose state is `Service`.
pub mod RoundTrip
pub mod Selection
pub mod Service
use deep_agent_blueprint.Prelude.{
  ℕ, suc, ◌+◌, String, ◌≡◌, Bool, true, false, Option, none, some, List, [], ◌∷◌, ◌++◌, ◌==◌, eqb,
  not, if◌then◌else◌, length, take, drop, then?,
}
use deep_agent_blueprint.Prelude.Exec.{Result, ok, err}
use deep_agent_blueprint.Json.{Json, str, nat, obj, Fields, end, field, get_field}
use deep_agent_blueprint.Schemas.{Failure, token_vault_error, other_error}
use deep_agent_blueprint.Deps.{Settings}

-- `none` is an exception of the call.
pub record Crypto : Type 1 where
  pub Byte : Type 0
  pub Service : Type 0
  -- `os.urandom(n)`, the `i`-th draw
  pub urandom : ℕ → ℕ → List Byte
  -- `AESGCM(key).encrypt(nonce, data, None)`, and `decrypt`, which may raise
  pub seal : List Byte → List Byte → List Byte → List Byte
  pub unseal : List Byte → List Byte → List Byte → Option (List Byte)
  pub utf8_encode : String → List Byte
  pub utf8_decode : List Byte → Option String
  pub b64encode : List Byte → String
  pub b64decode : String → Option (List Byte)
  pub dumps : Json → String
  pub loads : String → Option Json
  pub wrap_key : String → List Byte → Service → Option (List Byte) × Service
  pub unwrap_key : String → List Byte → Service → Option (List Byte)

abbrev pub nonce_len : ℕ
nonce_len = 12

abbrev pub dek_len : ℕ
dek_len = 32

-- `AESGCM(dek).encrypt(...)` of both vaults, with the fields that they write
abbrev pub key_vault_alg : String
key_vault_alg = "kv-rsa-oaep-256+aesgcm"

abbrev pub local_alg : String
local_alg = "local-aesgcm+aesgcm"

-- the envelope as a dict: any other JSON value raises when it is subscripted
fields_of : Json → Option Fields
fields_of (obj fs) = some fs
fields_of _ = none

-- a value of the envelope as a text, which `b64decode` wants
text_of : Json → Option String
text_of (str t) = some t
text_of _ = none

-- `except Exception`
abbrev sealed_error : Option String → Result Failure String
sealed_error none = err token_vault_error
sealed_error (some t) = ok t

module _ (c : Crypto) where
  abbrev pub Bytes : Type 0
  Bytes = List c.Byte

  pub data TokenVault : Type 0 where
    key_vault : String → TokenVault
    local_vault : Bytes → TokenVault
    null_vault : TokenVault

  -- `LocalTokenVault.__init__`
  unfoldable pub local_token_vault : Bytes → Result Failure TokenVault
  local_token_vault key =
      if not (eqb (length key) dek_len) then err token_vault_error else ok (local_vault key)

  local_from : Option Bytes → Result Failure TokenVault
  unfolding local_token_vault
  local_from none = err other_error
  local_from (some key) = local_token_vault key

  -- how many draws of random bytes were made, and the state of Key Vault
  pub record VaultState : Type 0 where
    pub draws : ℕ
    pub service : c.Service

  unfoldable pub pack : Fields → String
  pack envelope = c.b64encode (c.utf8_encode (c.dumps (obj envelope)))

  unfoldable pub unpack : String → Option Fields
  unfolding fields_of
  unpack blob =
      then? (c.b64decode blob)
        λ raw. then? (c.utf8_decode raw) λ text. then? (c.loads text) fields_of

  -- `base64.b64decode(envelope[key])`
  unfoldable pub bytes_at : String → Fields → Option Bytes
  unfolding text_of
  bytes_at k envelope = then? (get_field k envelope) λ v. then? (text_of v) c.b64decode

  abbrev key_vault_envelope : String → Bytes → Bytes → Bytes → Fields
  key_vault_envelope key_id wrapped nonce ct = field "v" (nat 1) (
      field "alg" (str key_vault_alg) (
        field "kid" (str key_id) (
          field "wrapped_dek" (str (c.b64encode wrapped))
            (field "nonce" (str (c.b64encode nonce)) (field "ct" (str (c.b64encode ct)) end)))))

  abbrev local_envelope : Bytes → Bytes → Bytes → Fields
  local_envelope wrapped nonce ct = field "v" (nat 1) (
      field "alg" (str local_alg) (
        field "wrapped_dek" (str (c.b64encode wrapped))
          (field "nonce" (str (c.b64encode nonce)) (field "ct" (str (c.b64encode ct)) end))))

  abbrev pub wrapped_blob : String → Bytes → Bytes → Option Bytes → Result Failure String
  wrapped_blob key_id nonce ct none = err token_vault_error
  wrapped_blob key_id nonce ct (some wrapped) =
      ok (pack (key_vault_envelope key_id wrapped nonce ct))

  -- `KeyVaultTokenVault.encrypt`
  unfoldable pub key_vault_encrypt :
      String → String → VaultState → Result Failure String × VaultState
  unfolding pack
  key_vault_encrypt key_id plaintext s =
      let dek = c.urandom dek_len s.draws in
      let nonce = c.urandom nonce_len (suc s.draws) in
      let ct = c.seal dek nonce (c.utf8_encode plaintext) in
      let (answer, service') = c.wrap_key key_id dek s.service in
      (
        wrapped_blob key_id nonce ct answer,
        record s { draws = suc (suc s.draws); service = service' },
      )

  -- `LocalTokenVault.encrypt`, which has no try: `encode` and AES-GCM return on texts without lone
  -- surrogates and of less than 2 ^ 31 bytes, and others are left out
  unfoldable pub local_encrypt : Bytes → String → VaultState → Result Failure String × VaultState
  unfolding pack
  local_encrypt kek plaintext s =
      let dek = c.urandom dek_len s.draws in
      let nonce = c.urandom nonce_len (suc s.draws) in
      let ct = c.seal dek nonce (c.utf8_encode plaintext) in
      let wrap_nonce = c.urandom nonce_len (suc (suc s.draws)) in
      let wrapped = c.seal kek wrap_nonce dek in
      (
        ok (pack (local_envelope (wrap_nonce ++ wrapped) nonce ct)),
        record s { draws = suc (suc (suc s.draws)) },
      )

  unfoldable pub encrypt : TokenVault → String → VaultState → Result Failure String × VaultState
  unfolding key_vault_encrypt local_encrypt
  encrypt (key_vault key_id) plaintext s = key_vault_encrypt key_id plaintext s
  encrypt (local_vault kek) plaintext s = local_encrypt kek plaintext s
  encrypt null_vault plaintext s = (err token_vault_error, s)

  -- what `decrypt` of both vaults does with the key that it has unwrapped
  abbrev plaintext_of : Fields → Bytes → Option String
  plaintext_of envelope dek =
      then? (bytes_at "nonce" envelope)
        λ nonce. then? (bytes_at "ct" envelope) λ ct. then? (c.unseal dek nonce ct) c.utf8_decode

  -- `KeyVaultTokenVault.decrypt`
  unfoldable pub key_vault_decrypt : String → String → VaultState → Result Failure String
  unfolding unpack bytes_at
  key_vault_decrypt key_id blob s = sealed_error (
      then? (unpack blob) λ envelope.
        then? (bytes_at "wrapped_dek" envelope)
          λ wrapped. then? (c.unwrap_key key_id wrapped s.service) (plaintext_of envelope))

  -- `LocalTokenVault.decrypt`
  unfoldable pub local_decrypt : Bytes → String → Result Failure String
  unfolding unpack bytes_at
  local_decrypt kek blob = sealed_error (
      then? (unpack blob) λ envelope. then? (bytes_at "wrapped_dek" envelope) λ wrapped.
        then? (c.unseal kek (take nonce_len wrapped) (drop nonce_len wrapped))
          (plaintext_of envelope))

  unfoldable pub decrypt : TokenVault → String → VaultState → Result Failure String
  unfolding key_vault_decrypt local_decrypt
  decrypt (key_vault key_id) blob s = key_vault_decrypt key_id blob s
  decrypt (local_vault kek) blob s = local_decrypt kek blob
  decrypt null_vault blob s = err token_vault_error

  -- a base64 text that does not decode raises another exception
  unfoldable pub build_token_vault : Settings → Result Failure TokenVault
  unfolding local_from
  build_token_vault settings =
      if not (settings.azure_keyvault_key_id == "")
      then ok (key_vault settings.azure_keyvault_key_id)
      else if not (settings.local_crypto_key_b64 == "")
      then (if settings.env == "prod"
          then err token_vault_error
          else local_from (c.b64decode settings.local_crypto_key_b64))
      else ok null_vault
