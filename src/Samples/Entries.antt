-- ===== src/Samples/Entries.antt =====
-- A document with a deadline, at an instant.
use deep_agent_blueprint.Prelude.{
  ℕ, ◌≤◌, ◌<◌, Bool, true, false, Option, none, some, ◌≡◌, refl, ◌⊎◌, inl, inr, arith, ltb,
  if◌then◌else◌, Bool-cases, Option-cases,
}
use deep_agent_blueprint.Deps.{Expiry, ex, keepttl, IsLive}
use deep_agent_blueprint.Store.Lifetimes.{expiry_at}
use deep_agent_blueprint.Samples.Memory.{Doc}

pub record Entry : Type 0 where
  pub doc : Doc
  pub ends : Option ℕ

abbrev pub alive : ℕ → Entry → Bool
alive now e = elim (e.ends) [ none ↦ true | some a ↦ ltb now a ]

abbrev pub live_entry : ℕ → Option Entry → Option Entry
live_entry now none = none
live_entry now (some e) = if alive now e then some e else none

abbrev pub doc_of : Option Entry → Option Doc
doc_of none = none
doc_of (some e) = some e.doc

abbrev pub ends_of : Option Entry → Option ℕ
ends_of none = none
ends_of (some e) = e.ends

pub live_entry-if :
    (now : ℕ) (b : Bool) (x y : Option Entry)
    → live_entry now (if b then x else y) ≡ (if b then live_entry now x else live_entry now y)
live_entry-if now true x y = refl
live_entry-if now false x y = refl

-- A document that has just been set is there.
pub set-alive :
    (now : ℕ) (v : Doc) (e : Expiry) (o : Option Entry)
    → IsLive e
    → alive now (record { doc = v; ends = expiry_at e now (ends_of (live_entry now o)) }) ≡ true
set-alive now v (ex n) o live = ground arith
set-alive now v keepttl none live = refl
set-alive now v keepttl (some x) live = elim (Bool-cases (alive now x)) [
  | inl there ↦ rw there there
  | inr gone ↦ rw gone refl
]

pub doc_of-if :
    (b : Bool) (x y : Option Entry)
    → doc_of (if b then x else y) ≡ (if b then doc_of x else doc_of y)
doc_of-if true x y = refl
doc_of-if false x y = refl

pub ends_of-if :
    (b : Bool) (x y : Option Entry)
    → ends_of (if b then x else y) ≡ (if b then ends_of x else ends_of y)
ends_of-if true x y = refl
ends_of-if false x y = refl

alive-later :
    (now later : ℕ) (e : Entry) → now ≤ later → alive now e ≡ false → alive later e ≡ false
alive-later now later e h gone = elim (Option-cases e.ends) [
  | inl never ↦ cc (rw never at gone)
  | inr (a, ends) ↦ rw ends (let over = rw ends at gone in ground arith)
]

live_entry-ends :
    (now a : ℕ) (e : Entry)
    → ends_of (live_entry now (some e)) ≡ some a
    → (alive now e ≡ true) × (e.ends ≡ some a)
live_entry-ends now a e h = elim (Bool-cases (alive now e)) [
  | inl there ↦ (there, rw there at h)
  | inr gone ↦ cc (rw gone at h)
]

-- what is left of an entry at a later time
pub live_entry-later :
    (now later : ℕ) (o : Option Entry)
    → now ≤ later
    → (live_entry later o ≡ live_entry now o) ⊎ (live_entry later o ≡ none)
live_entry-later now later none h = inl refl
live_entry-later now later (some e) h = elim (Bool-cases (alive later e)) [
  | inr gone ↦ inr (rw gone refl)
  | inl there ↦ elim (Bool-cases (alive now e)) [
    | inl before ↦ inl (rw (there, before) refl)
    | inr gone ↦ cc (alive-later now later e h gone)
  ]
]

pub live_entry-kept :
    (now later a : ℕ) (o : Option Entry)
    → ends_of (live_entry now o) ≡ some a
    → later < a
    → live_entry later o ≡ live_entry now o
live_entry-kept now later a none h early = refl
live_entry-kept now later a (some e) h early =
    let (before, ends) = live_entry-ends now a e h in
    let there : alive later e ≡ true = rw ends (ground arith) in rw (there, before) refl

pub live_entry-expired :
    (now later a : ℕ) (o : Option Entry)
    → ends_of (live_entry now o) ≡ some a
    → a ≤ later
    → live_entry later o ≡ none
live_entry-expired now later a none h late = refl
live_entry-expired now later a (some e) h late =
    let (before, ends) = live_entry-ends now a e h in
    let gone : alive later e ≡ false = rw ends (ground arith) in rw gone refl
