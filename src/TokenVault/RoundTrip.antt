-- ===== src/TokenVault/RoundTrip.antt =====
-- app/state/token_vault.py: reading what was sealed.
use deep_agent_blueprint.Prelude.{
  ℕ, suc, String, ◌≡◌, refl, Option, none, some, ◌++◌, ◌⊎◌, inl, inr, length, take, drop,
  take-append, drop-append,
}
use deep_agent_blueprint.Prelude.Exec.{Result, ok, err}
use deep_agent_blueprint.Json.{str, num, obj, Fields, end, field, get_field}
use deep_agent_blueprint.Json.Laws.{FieldsUnique}
use deep_agent_blueprint.Schemas.{Failure, token_vault_error}
use deep_agent_blueprint.TokenVault.{
  Bytes, Crypto, TokenVault, key_vault, local_vault, null_vault, VaultState, nonce_len, pack,
  unpack, bytes_at, encrypt, key_vault_decrypt, local_decrypt, decrypt, key_vault_envelope,
  local_envelope, plaintext_of, wrapped_blob, dek_len,
}

-- The fields of an envelope: texts and one number.
abbrev pub IsFlat : Fields → Type 0
IsFlat end = Unit
IsFlat (field k (str t) fs) = IsFlat fs
IsFlat (field k (num n) fs) = IsFlat fs
IsFlat (field k v fs) = ⊥

-- What the vaults rely on of the libraries that they call. Key Vault may refuse to unwrap a key, but
-- unwraps no other one.
pub record IsCipher (c : Crypto) : Type 0 where
  pub urandom_length : (n i : ℕ) → length (c.urandom n i) ≡ n
  pub unseal-seal :
      (key nonce plain : Bytes c) → c.unseal key nonce (c.seal key nonce plain) ≡ some plain
  pub utf8_roundtrip : (t : String) → c.utf8_decode (c.utf8_encode t) ≡ some t
  pub b64_roundtrip : (b : Bytes c) → c.b64decode (c.b64encode b) ≡ some b
  pub json_roundtrip :
      (fs : Fields) → FieldsUnique fs → IsFlat fs → c.loads (c.dumps (obj fs)) ≡ some (obj fs)
  pub unwrap-wrap :
      (key_id : String) (dek wrapped : Bytes c) (s s' : c.Service)
      → (c.wrap_key key_id dek s).0 ≡ some wrapped
      → (c.unwrap_key key_id wrapped s' ≡ some dek) ⊎ (c.unwrap_key key_id wrapped s' ≡ none)

ok_injective : (a b : String) → ◌≡◌ {A = Result Failure String} (ok a) (ok b) → a ≡ b
ok_injective a b h = cc

module _ (c : Crypto) (law : IsCipher c) where
  unpack-pack : (fs : Fields) → FieldsUnique fs → IsFlat fs → unpack c (pack c fs) ≡ some fs
  unfolding unpack pack
  unpack-pack fs u f = rw (law.b64_roundtrip, law.utf8_roundtrip, law.json_roundtrip fs u f)

  -- an envelope of either vault, opened with the right key
  plaintext_lem :
      (fs : Fields) (dek nonce : Bytes c) (t : String)
      → get_field "nonce" fs ≡ some (str (c.b64encode nonce))
      → get_field "ct" fs ≡ some (str (c.b64encode (c.seal dek nonce (c.utf8_encode t))))
      → plaintext_of c fs dek ≡ some t
  unfolding bytes_at
  plaintext_lem fs dek nonce t n ct =
      rw (n, ct)
        (rw (law.b64_roundtrip nonce) (
          rw (law.b64_roundtrip (c.seal dek nonce (c.utf8_encode t)))
            (rw (law.unseal-seal, law.utf8_roundtrip) refl)))

  bytes_lem :
      (k : String) (fs : Fields) (b : Bytes c)
      → get_field k fs ≡ some (str (c.b64encode b))
      → bytes_at c k fs ≡ some b
  unfolding bytes_at
  bytes_lem k fs b h = rw h (law.b64_roundtrip b)

  take_nonce :
      (i : ℕ) (rest : Bytes c)
      → take nonce_len (c.urandom nonce_len i ++ rest) ≡ c.urandom nonce_len i
  take_nonce i rest =
      rw (law.urandom_length nonce_len i) at (take-append (c.urandom nonce_len i) rest)

  drop_nonce : (i : ℕ) (rest : Bytes c) → drop nonce_len (c.urandom nonce_len i ++ rest) ≡ rest
  drop_nonce i rest =
      rw (law.urandom_length nonce_len i) at (drop-append (c.urandom nonce_len i) rest)

  module _ (dek nonce : Bytes c) (t : String) where
    abbrev ct : Bytes c
    ct = c.seal dek nonce (c.utf8_encode t)

    key_vault_opens :
        (key_id : String) (wrapped : Bytes c) (s : VaultState c)
        → c.unwrap_key key_id wrapped s.service ≡ some dek
        → key_vault_decrypt c key_id (pack c (key_vault_envelope c key_id wrapped nonce ct)) s
          ≡ ok t
    unfolding key_vault_decrypt
    key_vault_opens key_id wrapped s up =
        let fs = key_vault_envelope c key_id wrapped nonce ct in
        rw
          (unpack-pack fs (tt, refl, (tt, refl, (tt, refl, (tt, refl, (tt, refl, (tt, refl, tt))))))
            tt)
          (rw (bytes_lem "wrapped_dek" fs wrapped refl)
            (rw up (rw (plaintext_lem fs dek nonce t refl refl) refl)))

    -- a key that Key Vault does not unwrap now
    key_vault_shut :
        (key_id : String) (wrapped : Bytes c) (s : VaultState c)
        → c.unwrap_key key_id wrapped s.service ≡ none
        → key_vault_decrypt c key_id (pack c (key_vault_envelope c key_id wrapped nonce ct)) s
          ≡ err token_vault_error
    unfolding key_vault_decrypt
    key_vault_shut key_id wrapped s down =
        let fs = key_vault_envelope c key_id wrapped nonce ct in
        rw
          (unpack-pack fs (tt, refl, (tt, refl, (tt, refl, (tt, refl, (tt, refl, (tt, refl, tt))))))
            tt)
          (rw (bytes_lem "wrapped_dek" fs wrapped refl) (rw down refl))

    local_opens :
        (kek : Bytes c) (i : ℕ)
        → local_decrypt c kek (
            pack c (
              local_envelope c
                (c.urandom nonce_len i ++ c.seal kek (c.urandom nonce_len i) dek)
                nonce
                ct))
          ≡ ok t
    unfolding local_decrypt
    local_opens kek i =
        let wrapped = c.urandom nonce_len i ++ c.seal kek (c.urandom nonce_len i) dek in
        let fs = local_envelope c wrapped nonce ct in
        rw (unpack-pack fs (tt, refl, (tt, refl, (tt, refl, (tt, refl, (tt, refl, tt))))) tt) (
          rw (bytes_lem "wrapped_dek" fs wrapped refl) (
            rw
              (
                take_nonce i (c.seal kek (c.urandom nonce_len i) dek),
                drop_nonce i (c.seal kek (c.urandom nonce_len i) dek),
              )
              (rw law.unseal-seal (rw (plaintext_lem fs dek nonce t refl refl) refl))))

  -- A token that a vault has sealed is read back by that vault in any later state: the same token, and
  -- nothing else, or `TokenVaultError` where Key Vault does not unwrap the key at that time.
  pub decrypt-encrypt :
      (v : TokenVault c) (t : String) (s s' : VaultState c) {blob : String}
      → (encrypt c v t s).0 ≡ ok blob
      → (decrypt c v blob s' ≡ ok t)
        ⊎ ((key_id : String) × (v ≡ key_vault key_id)
            × (decrypt c v blob s' ≡ err token_vault_error))
  unfolding encrypt decrypt
  decrypt-encrypt null_vault t s s' h = cc
  decrypt-encrypt (local_vault kek) t s s' h =
      inl (rw (← ok_injective _ _ h) (local_opens _ _ t kek (suc (suc s.draws))))
  decrypt-encrypt (key_vault key_id) t s s' {blob} h =
      sealed (c.wrap_key key_id dek s.service).0 h
        (λ wrapped e. law.unwrap-wrap key_id dek wrapped s.service s'.service e)
    where
      dek : Bytes c
      dek = c.urandom dek_len s.draws

      nonce : Bytes c
      nonce = c.urandom nonce_len (suc s.draws)

      sealed :
          (answer : Option (Bytes c))
          → wrapped_blob c key_id nonce (ct dek nonce t) answer ≡ ok blob
          → ((wrapped : Bytes c)
              → answer ≡ some wrapped
              → (c.unwrap_key key_id wrapped s'.service ≡ some dek)
                ⊎ (c.unwrap_key key_id wrapped s'.service ≡ none))
          → (key_vault_decrypt c key_id blob s' ≡ ok t)
            ⊎ ((k : String) × (◌≡◌ {A = TokenVault c} (key_vault key_id) (key_vault k))
                × (key_vault_decrypt c key_id blob s' ≡ err token_vault_error))
      sealed none h opens = cc
      sealed (some wrapped) h opens = elim (opens wrapped refl) [
        | inl up ↦
            inl (rw (← ok_injective _ _ h) (key_vault_opens dek nonce t key_id wrapped s' up))
        | inr down ↦ inr (
          key_id,
          refl,
          rw (← ok_injective _ _ h) (key_vault_shut dek nonce t key_id wrapped s' down),
        )
      ]
