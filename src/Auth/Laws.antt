-- ===== src/Auth/Laws.antt =====
-- `verify_api_key` of app/auth/api_key.py: who a key belongs to.
use deep_agent_blueprint.Prelude.{
  String, Option, none, some, [], ◌∷◌, ◌==◌, ◌≡◌, refl, sym, ◌⊎◌, inl, inr, Dict, if◌then◌else◌,
  Bool-cases, eq_iff,
}
use deep_agent_blueprint.Auth.{scan_keys, verify_api_key}

-- An entry of the configured keys.
abbrev pub Configured : String → String → Dict String → Type 0
Configured c secret [] = ⊥
Configured c secret ((c', secret') ∷ rest) =
    ((c ≡ c') × (secret ≡ secret')) ⊎ Configured c secret rest

scan_keys_found :
    (p : String) (m : Option String) (ks : Dict String) (c : String)
    → scan_keys p m ks ≡ some c
    → (m ≡ some c) ⊎ Configured c p ks
unfolding scan_keys
scan_keys_found p m [] c h = inl h
scan_keys_found p m ((c', s) ∷ ks) c h = elim (Bool-cases (s == p)) [
  | inl same ↦ elim (scan_keys_found p (some c') ks c (rw same at h)) [
    | inl e ↦ inr (inl (cc, cc ((eq_iff s p).0 same)))
    | inr later ↦ inr (inr later)
  ]
  | inr other ↦ elim (scan_keys_found p m ks c (rw other at h)) [
    | inl e ↦ inl e
    | inr later ↦ inr (inr later)
  ]
]

scan_keys_kept :
    (p c : String) (ks : Dict String) → (c' : String) × (scan_keys p (some c) ks ≡ some c')
unfolding scan_keys
scan_keys_kept p c [] = (c, refl)
scan_keys_kept p c ((k, s) ∷ ks) = elim (Bool-cases (s == p)) [
  | inl same ↦ rw same (scan_keys_kept p k ks)
  | inr other ↦ rw other (scan_keys_kept p c ks)
]

scan_keys_any :
    (p : String) (m : Option String) (ks : Dict String) (c : String)
    → Configured c p ks
    → (c' : String) × (scan_keys p m ks ≡ some c')
unfolding scan_keys
scan_keys_any p m [] c h = elim h [ ]
scan_keys_any p m ((k, s) ∷ ks) c (inl (e, f)) = rw ((eq_iff s p).1 (sym f)) (scan_keys_kept p k ks)
scan_keys_any p m ((k, s) ∷ ks) c (inr later) =
    scan_keys_any p (if s == p then some k else m) ks c later

-- A consumer id that is returned is configured with exactly the presented secret.
verify_api_key_sound :
    (presented : String) (keys : Dict String) (c : String)
    → verify_api_key presented keys ≡ some c
    → Configured c presented keys
unfolding verify_api_key
verify_api_key_sound p ks c h = elim (scan_keys_found p none ks c h) [
  | inl absurd_case ↦ cc
  | inr configured ↦ configured
]

-- A secret that is configured for any consumer is accepted, wherever it stands among the keys.
verify_api_key_complete :
    (presented : String) (keys : Dict String) (c : String)
    → Configured c presented keys
    → (c' : String) × (verify_api_key presented keys ≡ some c')
unfolding verify_api_key
verify_api_key_complete p ks c h = scan_keys_any p none ks c h

-- A presented key is accepted exactly if it is one of the configured secrets, wherever that stands among
-- them, and then for a consumer that has it.
pub verify_api_key_iff :
    (presented : String) (keys : Dict String)
    → ((c : String) → verify_api_key presented keys ≡ some c → Configured c presented keys)
      × ((c : String)
          → Configured c presented keys
          → (c' : String) × (verify_api_key presented keys ≡ some c'))
verify_api_key_iff p ks = (verify_api_key_sound p ks, verify_api_key_complete p ks)
