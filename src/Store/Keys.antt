-- ===== src/Store/Keys.antt =====
-- Keys of app/state/redis_store.py: no two kinds of document share a key.
use Prim.Native.Char.{code}
use Prim.Native.String.{◌++◌ as ◌<>◌}
use text.Mathlib.TextLemmas.{append_cancel_left, cons-append}
use deep_agent_blueprint.Prelude.{
  ℕ, String, ◌≡◌, arith, ap, sym, ◌∙◌, Bool, ◌&&◌, ◌==◌, eq_iff, eq_refl, eqb, Bool-cases, inl, inr,
}
use deep_agent_blueprint.Store.{Kind, job, result, tok, proposal, idem, cancel, kind_name, key_in}

abbrev head_code : String → ℕ
head_code String.[] = 0
head_code (String.◌∷◌ c s) = code c

-- The kinds' names differ in their first letter.
abbrev letter : Kind → ℕ
letter job = b'j'
letter result = b'r'
letter tok = b't'
letter proposal = b'p'
letter idem = b'i'
letter cancel = b'c'

letter-kind : (k : Kind) (t : String) → head_code (kind_name k <> t) ≡ letter k
unfolding kind_name
letter-kind job t = ap head_code (cons-append "j" "ob" t)
letter-kind result t = ap head_code (cons-append "r" "esult" t)
letter-kind tok t = ap head_code (cons-append "t" "ok" t)
letter-kind proposal t = ap head_code (cons-append "p" "roposal" t)
letter-kind idem t = ap head_code (cons-append "i" "dem" t)
letter-kind cancel t = ap head_code (cons-append "c" "ancel" t)

letter-injective : (k l : Kind) → letter k ≡ letter l → k ≡ l
letter-injective k l h = ground arith

pub key_in-kind : (d : String) (k l : Kind) (i j : String) → key_in d k i ≡ key_in d l j → k ≡ l
unfolding key_in
key_in-kind d k l i j h = letter-injective k l (
    sym (letter-kind k (":" <> i))
    ∙ ap head_code (append_cancel_left ":" _ _ (append_cancel_left d _ _ h))
    ∙ letter-kind l (":" <> j))

key_in-ident : (d : String) (k : Kind) (i j : String) → key_in d k i ≡ key_in d k j → i ≡ j
unfolding key_in
key_in-ident d k i j h =
    append_cancel_left ":" _ _ (
      append_cancel_left (kind_name k) _ _
        (append_cancel_left ":" _ _ (append_cancel_left d _ _ h)))

-- Within one domain, a key determines the kind of its document and the identifier.
pub key_in-injective :
    (d : String) (k l : Kind) (i j : String) → key_in d k i ≡ key_in d l j → (k ≡ l) × (i ≡ j)
key_in-injective d k l i j h =
    let e = key_in-kind d k l i j h in (e, key_in-ident d l i j (rw e at h))

abbrev pub same_kind : Kind → Kind → Bool
same_kind k l = eqb (letter k) (letter l)

-- Two keys are equal texts exactly when kind and identifier agree.
pub key_in-eq :
    (d : String) (k l : Kind) (i j : String)
    → (key_in d k i == key_in d l j) ≡ (same_kind k l && i == j)
key_in-eq d k l i j = elim (Bool-cases (key_in d k i == key_in d l j)) [
  | inl same ↦
      let (e, f) = key_in-injective d k l i j ((eq_iff _ _).0 same) in
      rw (same, e, f, eq_refl j) (ground arith)
  | inr differ ↦ elim (Bool-cases (same_kind k l && i == j)) [
    | inl both ↦
        ground (arith, eq_iff i j, letter-injective k l, eq_iff (key_in d k i) (key_in d l j))
    | inr neither ↦ rw (differ, neither)
  ]
]
