-- ===== src/NewDomain/Additions.antt =====
-- scripts/new_domain.py: what it leaves of the files that were there.
use mathlib.Core.List.Sublist
use mathlib.Core.List.{Sublist}
use deep_agent_blueprint.Prelude.{
  String, ◌≡◌, ◌≢◌, refl, sym, ap, ◌∙◌, true, false, none, some, [], ◌∷◌, ◌++◌, eqb, is_some,
  length, drop, lookup, insert, lookup-insert, eq_refl, Bool-cases, Option-cases, String-cases, inl,
  inr, arith,
}
use mathlib.Core.Path.{subst}
use mathlib.Core.Option.{some-injective, some-ne-none}
use deep_agent_blueprint.Prelude.Exec.{ok}
use deep_agent_blueprint.Logging.{Text, starts}
use deep_agent_blueprint.Logging.Format.{text_of}
use deep_agent_blueprint.Templates.{format-some, covers}
use deep_agent_blueprint.NewDomain.Texts.{
  adapter_template, unit_test_template, builder_snippet, case_snippet,
}
use deep_agent_blueprint.NewDomain.{
  Files, Casing, is_domain_name, replace_first, adapter_path, test_path, registry_path, cases_path,
  registered, with_case, registry_marker, register_marker, cases_marker, case_marker, names,
  names_and_title, register_case, register_domain, scaffold, new_domain,
}

starts-drop : (s t : Text) → starts s t ≡ true → t ≡ s ++ drop (length s) t
unfolding starts
starts-drop [] t h = refl
starts-drop (x ∷ s) [] h = cc
starts-drop (x ∷ s) (c ∷ t) h = elim (Bool-cases (eqb x c)) [
  | inl same ↦
      let e : x ≡ c = ground arith in rw e (ap (λ u. c ∷ u) (starts-drop s t (rw same at h)))
  | inr other ↦ cc (rw other at h)
]

sublist-append_left : (x s : Text) → Sublist s (x ++ s)
sublist-append_left [] s = Sublist.refl s
sublist-append_left (c ∷ x) s = Sublist.cons c (sublist-append_left x s)

-- Replacing a text by one that ends with it takes nothing away.
replace_first-adds : (old x t : Text) → Sublist t (replace_first old (x ++ old) t)
unfolding replace_first
replace_first-adds old x [] = Sublist.refl []
replace_first-adds old x (c ∷ t) = elim (Bool-cases (starts old (c ∷ t))) [
  | inl here ↦
      let rest = drop (length old) (c ∷ t) in
      let grown : Sublist (old ++ rest) ((x ++ old) ++ rest) =
        Sublist.append (sublist-append_left x old) (Sublist.refl rest) in
      rw here
        (subst (λ u. Sublist u ((x ++ old) ++ rest)) (sym (starts-drop old (c ∷ t) here)) grown)
  | inr later ↦ rw later (Sublist.cons-cons c (replace_first-adds old x t))
]

registered-adds : (name : String) (builder t : Text) → Sublist t (registered name builder t)
unfolding registered
registered-adds name builder t =
    Sublist.trans (replace_first-adds (text_of "ADAPTER_BUILDERS:") [] t) (
      Sublist.trans (replace_first-adds registry_marker builder _)
        (replace_first-adds register_marker _ _))

with_case-adds : (name : String) (case t : Text) → Sublist t (with_case name case t)
unfolding with_case
with_case-adds name case t =
    Sublist.trans (replace_first-adds cases_marker case t) (replace_first-adds case_marker _ _)

-- Of every file but the one at `spared`, nothing is lost.
abbrev pub Keeps : String → Files → Files → Type 0
Keeps spared files files' =
    (path : String) (t : Text)
    → path ≢ spared
    → lookup path files ≡ some t
    → (t' : Text) × (lookup path files' ≡ some t') × Sublist t t'

Keeps-refl : (spared : String) (files : Files) → Keeps spared files files
Keeps-refl spared files path t other h = (t, h, Sublist.refl t)

Keeps-trans :
    (spared : String) (a b c : Files) → Keeps spared a b → Keeps spared b c → Keeps spared a c
Keeps-trans spared a b c p q path t other h =
    let (t', h', grown) = p path t other h in
    let (t'', h'', more) = q path t' other h' in (t'', h'', Sublist.trans grown more)

-- a file is written that only grows, or that is spared
Keeps-insert :
    (spared path : String) (new : Text) (files : Files)
    → ((t : Text) → path ≢ spared → lookup path files ≡ some t → Sublist t new)
    → Keeps spared files (insert path new files)
Keeps-insert spared path new files grows p t other h = elim (String-cases path p) [
  | inl same ↦ (
    new,
    lookup-insert p path new files ∙ rw same (rw (eq_refl p) refl),
    grows t (λ e. other (sym same ∙ e)) (rw same h),
  )
  | inr (differ, _) ↦ (t, lookup-insert p path new files ∙ rw differ h, Sublist.refl t)
]

module _ (k : Casing) (name : String) where
  -- Every field of the four templates is given.
  adapter_covered : covers (names_and_title k name) adapter_template ≡ true
  unfolding covers adapter_template
  adapter_covered = refl

  test_covered : covers (names k name) unit_test_template ≡ true
  unfolding covers unit_test_template
  test_covered = refl

  builder_covered : covers (names k name) builder_snippet ≡ true
  unfolding covers builder_snippet
  builder_covered = refl

  case_covered : covers (names k name) case_snippet ≡ true
  unfolding covers case_snippet
  case_covered = refl

  register_case-Keeps :
      (files : Files) → Keeps (test_path name) files (register_case k name files).1
  unfolding register_case
  register_case-Keeps files = elim (Option-cases (lookup cases_path files)) [
    | inl missing ↦ rw missing (Keeps-refl (test_path name) files)
    | inr (cases, found) ↦
        let (case, filled) = format-some (names k name) case_snippet case_covered in
        rw (found, filled)
          (Keeps-insert (test_path name) cases_path _ files λ t other h.
            rw (some-injective t cases (sym h ∙ found)) (with_case-adds name (text_of case) cases))
  ]

  register_domain-Keeps :
      (files : Files) → Keeps (test_path name) files (register_domain k name files).1
  unfolding register_domain
  register_domain-Keeps files = elim (Option-cases (lookup registry_path files)) [
    | inl missing ↦ rw missing (Keeps-refl (test_path name) files)
    | inr (registry, found) ↦
        let (builder, filled) = format-some (names k name) builder_snippet builder_covered in
        let new = registered name (text_of builder) registry in
        rw (found, filled)
          (Keeps-trans (test_path name) files (insert registry_path new files) _
            (Keeps-insert (test_path name) registry_path new files λ t other h.
              rw (some-injective t registry (sym h ∙ found))
                (registered-adds name (text_of builder) registry))
            (register_case-Keeps (insert registry_path new files)))
  ]

  scaffold-Keeps :
      (files : Files)
      → lookup (adapter_path name) files ≡ none
      → Keeps (test_path name) files (scaffold k name files).1
  unfolding scaffold
  scaffold-Keeps files absent =
      let (adapter, filled) =
        format-some (names_and_title k name) adapter_template adapter_covered in
      let (test, filled') = format-some (names k name) unit_test_template test_covered in
      let with_adapter = insert (adapter_path name) (text_of adapter) files in
      let with_test = insert (test_path name) (text_of test) with_adapter in
      rw (filled, filled')
        (Keeps-trans (test_path name) files with_adapter _
          (Keeps-insert (test_path name) (adapter_path name) _ files
            λ t other h. absurd (some-ne-none t (sym h ∙ absent)))
          (Keeps-trans (test_path name) with_adapter with_test _
            (Keeps-insert (test_path name) (test_path name) _ with_adapter
              λ t other h. absurd (other refl))
            (register_domain-Keeps with_test)))

  -- Whatever the name, and whether the script succeeds, refuses or breaks off because a file is missing, every
  -- file but the domain's unit test is still there afterwards with all its characters in order; an
  -- existing adapter and an invalid name leave every file exactly as it was.
  pub new_domain-Keeps :
      (files : Files)
      → Keeps (test_path name) files (new_domain k name files).1
        × (is_some (lookup (adapter_path name) files) ≡ true → (new_domain k name files).1 ≡ files)
        × (is_domain_name (text_of name) ≡ false → new_domain k name files ≡ (ok 2, files))
  unfolding new_domain
  new_domain-Keeps files = elim (Bool-cases (is_domain_name (text_of name))) [
    | inr invalid ↦ (
      rw invalid (Keeps-refl (test_path name) files),
      λ there. rw invalid refl,
      λ h. rw invalid refl,
    )
    | inl valid ↦ elim (Option-cases (lookup (adapter_path name) files)) [
      | inr (t, there) ↦ (
        rw (valid, there) (Keeps-refl (test_path name) files),
        λ h. rw (valid, there) refl,
        λ invalid. cc,
      )
      | inl absent ↦ (
        rw (valid, absent) (scaffold-Keeps files absent),
        λ h. cc (rw absent at h),
        λ invalid. cc,
      )
    ]
  ]
