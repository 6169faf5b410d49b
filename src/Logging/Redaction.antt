-- ===== src/Logging/Redaction.antt =====
-- `redact` (app/observability/logging.py): what is left of the secrets in a text.
use deep_agent_blueprint.Prelude.{
  ℕ, zero, suc, ◌-◌, ◌≤◌, ◌≡◌, ◌≢◌, refl, Bool, true, false, List, [], ◌∷◌, ◌++◌, ◌||◌, eqb,
  if◌then◌else◌, length, Bool-cases, inl, inr, arith,
}
use deep_agent_blueprint.Logging.{
  Text, marker_front, redacted, min_secret_len, starts, contains_text, replaced, redact,
}

-- `c` is not a character of the text.
abbrev pub Avoids : ℕ → Text → Type 0
Avoids c [] = Unit
Avoids c (x ∷ s) = (x ≢ c) × Avoids c s

-- A secret without square brackets that is no part of the marker.
pub record IsPlain (s : Text) : Type 0 where
  pub no_open : Avoids b'[' s
  pub no_close : Avoids b']' s
  pub no_part : contains_text s redacted ≡ false

eqb_sound : (a b : ℕ) → eqb a b ≡ true → a ≡ b
eqb_sound a b h = ground arith

or_false : (a b : Bool) → (a || b) ≡ false → (a ≡ false) × (b ≡ false)
or_false false b h = (refl, h)
or_false true b h = cc

-- A match that runs over a character which the secret avoids ends before it.
starts-append :
    (s front rest : Text) (c : ℕ)
    → Avoids c s
    → starts s (front ++ (c ∷ rest)) ≡ true
    → starts s (front ++ (c ∷ [])) ≡ true
unfolding starts
starts-append [] front rest c a h = refl
starts-append (x ∷ s) [] rest c (differs, a) h = elim (Bool-cases (eqb x c)) [
  | inl same ↦ absurd (differs (eqb_sound x c same))
  | inr other ↦ cc (rw other at h)
]
starts-append (x ∷ s) (y ∷ front) rest c (differs, a) h = elim (Bool-cases (eqb x y)) [
  | inl same ↦ rw same (starts-append s front rest c a (rw same at h))
  | inr other ↦ cc (rw other at h)
]

-- An occurrence behind or in the marker's text is one in the marker or one behind it.
contains_text-append :
    (s front rest : Text) (c : ℕ)
    → Avoids c s
    → contains_text s (front ++ (c ∷ [])) ≡ false
    → contains_text s rest ≡ false
    → contains_text s (front ++ (c ∷ rest)) ≡ false
unfolding contains_text
contains_text-append s [] rest c a in_front behind =
    let (first, _) = or_false (starts s (c ∷ [])) (contains_text s []) in_front in
    elim (Bool-cases (starts s (c ∷ rest))) [
      | inl here ↦ cc (starts-append s [] rest c a here, first)
      | inr other ↦ rw other behind
    ]
contains_text-append s (y ∷ front) rest c a in_front behind =
    let (first, later) =
      or_false (starts s (y ∷ front ++ (c ∷ []))) (contains_text s (front ++ (c ∷ []))) in_front in
    elim (Bool-cases (starts s (y ∷ front ++ (c ∷ rest)))) [
      | inl here ↦ cc (starts-append s (y ∷ front) rest c a here, first)
      | inr other ↦ rw other (contains_text-append s front rest c a later behind)
    ]

-- A match at the front of a text with replacements is one at the front of the text.
starts-replaced :
    (t s v : Text) → Avoids b'[' v → starts v (replaced s 0 t) ≡ true → starts v t ≡ true
unfolding starts replaced
starts-replaced t s [] a h = refl
starts-replaced [] s (x ∷ v) a h = cc
starts-replaced (c ∷ t) s (x ∷ v) (differs, a) h = elim (Bool-cases (starts s (c ∷ t))) [
  | inl cut ↦ elim (Bool-cases (eqb x b'[')) [
    | inl same ↦ absurd (differs (eqb_sound x b'[' same))
    | inr other ↦ cc (rw (other) at (rw cut at h))
  ]
  | inr kept ↦ elim (Bool-cases (eqb x c)) [
    | inl same ↦ rw same (starts-replaced t s v a (rw same at (rw kept at h)))
    | inr other ↦ cc (rw other at (rw kept at h))
  ]
]

module _ (s v : Text) (plain : IsPlain v) where
  cut-step :
      (c : ℕ) (t : Text)
      → starts s (c ∷ t) ≡ true
      → contains_text v (replaced s (length s - 1) t) ≡ false
      → contains_text v (replaced s 0 (c ∷ t)) ≡ false
  unfolding replaced
  cut-step c t cut behind = rw cut (
      contains_text-append v marker_front (replaced s (length s - 1) t) b']' plain.no_close
        plain.no_part behind)

  kept-step :
      (c : ℕ) (t : Text)
      → starts s (c ∷ t) ≡ false
      → starts v (c ∷ t) ≡ false
      → contains_text v (replaced s 0 t) ≡ false
      → contains_text v (replaced s 0 (c ∷ t)) ≡ false
  unfolding contains_text replaced
  kept-step c t kept absent behind = elim (Bool-cases (starts v (c ∷ replaced s 0 t))) [
    | inl here ↦ cc (starts-replaced (c ∷ t) s v plain.no_open (rw kept here), absent)
    | inr other ↦ rw (kept, other) behind
  ]

  -- Replacing one secret brings no other one in.
  replaced-others :
      (t : Text) (skip : ℕ)
      → contains_text v t ≡ false
      → contains_text v (replaced s skip t) ≡ false
  unfolding contains_text replaced
  replaced-others [] skip h = h
  replaced-others (c ∷ t) (suc skip) h =
      replaced-others t skip (or_false (starts v (c ∷ t)) (contains_text v t) h).1
  replaced-others (c ∷ t) zero h =
      let (absent, later) = or_false (starts v (c ∷ t)) (contains_text v t) h in
      elim (Bool-cases (starts s (c ∷ t))) [
        | inl cut ↦ cut-step c t cut (replaced-others t (length s - 1) later)
        | inr kept ↦ kept-step c t kept absent (replaced-others t 0 later)
      ]

-- Replacing a secret leaves none of it.
replaced-removes :
    (x : ℕ) (u : Text)
    → IsPlain (x ∷ u)
    → (t : Text) (skip : ℕ) → contains_text (x ∷ u) (replaced (x ∷ u) skip t) ≡ false
unfolding contains_text replaced
replaced-removes x u plain [] skip = refl
replaced-removes x u plain (c ∷ t) (suc skip) = replaced-removes x u plain t skip
replaced-removes x u plain (c ∷ t) zero = elim (Bool-cases (starts (x ∷ u) (c ∷ t))) [
  | inl cut ↦
      cut-step (x ∷ u) (x ∷ u) plain c t cut (replaced-removes x u plain t (length (x ∷ u) - 1))
  | inr kept ↦ kept-step (x ∷ u) (x ∷ u) plain c t kept kept (replaced-removes x u plain t 0)
]

-- A registered secret: long enough, and plain.
abbrev pub IsSecret : Text → Type 0
IsSecret s = (min_secret_len ≤ length s) × IsPlain s

abbrev pub Each : (Text → Type 0) → List Text → Type 0
Each P [] = Unit
Each P (s ∷ rest) = P s × Each P rest

-- the text after one round of the loop
abbrev round : Text → Text → Text
round s text = if contains_text s text then replaced s 0 text else text

round-removes : (s text : Text) → IsSecret s → contains_text s (round s text) ≡ false
round-removes [] text (long, _) = ground arith
round-removes (x ∷ u) text (_, plain) = elim (Bool-cases (contains_text (x ∷ u) text)) [
  | inl there ↦ rw there (replaced-removes x u plain text 0)
  | inr absent ↦ rw absent absent
]

round-keeps :
    (s v text : Text)
    → IsPlain v
    → contains_text v text ≡ false
    → contains_text v (round s text) ≡ false
round-keeps s v text plain h = elim (Bool-cases (contains_text s text)) [
  | inl there ↦ rw there (replaced-others s v plain text 0 h)
  | inr absent ↦ rw absent h
]

redact-keeps :
    (secrets : List Text) (v text : Text)
    → IsPlain v
    → contains_text v text ≡ false
    → contains_text v (redact secrets text) ≡ false
unfolding redact
redact-keeps [] v text plain h = h
redact-keeps (s ∷ secrets) v text plain h =
    redact-keeps secrets v (round s text) plain (round-keeps s v text plain h)

-- No registered secret is left in a text that `redact` returns, whatever the text and in whatever order
-- the secrets are met, if none of them has a square bracket or is part of the marker: replacing
-- one leaves none of it, and brings none of the others in.
pub redact-removes :
    (secrets : List Text) (text : Text)
    → Each IsSecret secrets
    → Each (λ s. contains_text s (redact secrets text) ≡ false) secrets
unfolding redact
redact-removes [] text h = tt
redact-removes (s ∷ secrets) text (secret, others) = (
  redact-keeps secrets s (round s text) secret.1 (round-removes s text secret),
  redact-removes secrets (round s text) others,
)
