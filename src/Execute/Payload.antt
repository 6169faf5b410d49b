-- ===== src/Execute/Payload.antt =====
-- `_verify_payload_against_proposal` of app/api/execute.py against a definition that does not go by
-- the keys of the two payloads.
use deep_agent_blueprint.Prelude.{
  String, ◌≡◌, refl, ◌↔◌, true, false, some, List, [], ◌∷◌, ◌++◌, ◌==◌, eq_iff, eq_refl, ap, keys,
  contains, lookup, lookup-none, lookup-erase, erase, String-cases, arith, Bool-cases, inl, inr,
}
use deep_agent_blueprint.Prelude.Exec.{ok}
use deep_agent_blueprint.Json.{Object, null, json_eq, get_or_null}
use deep_agent_blueprint.Json.Laws.{HasUniqueKeys, json_eq_refl}
use deep_agent_blueprint.Schemas.{StoredProposal}
use deep_agent_blueprint.Deps.{Deps, World}
use deep_agent_blueprint.Execute.{differing, unexpected, verify_payload}

-- The approved payload is the proposed one, but for editable fields.
abbrev pub AgreesOutside : List String → Object → Object → Type 0
AgreesOutside editable before approved =
    (k : String)
    → contains k editable ≡ false
    → json_eq (get_or_null k before) (get_or_null k approved) ≡ true

contains-append_left :
    (k : String) (xs ys : List String) → contains k (xs ++ ys) ≡ false → contains k xs ≡ false
contains-append_left k [] ys h = refl
contains-append_left k (x ∷ xs) ys h = ground (arith, contains-append_left k xs ys)

contains-append_right :
    (k : String) (xs ys : List String) → contains k (xs ++ ys) ≡ false → contains k ys ≡ false
contains-append_right k [] ys h = h
contains-append_right k (x ∷ xs) ys h = ground (arith, contains-append_right k xs ys)

module _ (editable : List String) (before approved : Object) where
  differing_none :
      (ks : List String) (k : String)
      → differing editable before approved ks ≡ []
      → contains k ks ≡ true
      → contains k editable ≡ false
      → json_eq (get_or_null k before) (get_or_null k approved) ≡ true
  unfolding differing
  differing_none [] k h m e = cc
  differing_none (j ∷ ks) k h m e = elim (Bool-cases (j == k)) [
    | inl same ↦ let p = (eq_iff j k).0 same in ground (arith, ap_json j k p)
    | inr other ↦ ground (arith, differing_none ks k)
  ]
    where
      ap_json :
          (j k : String)
          → j ≡ k
          → (contains j editable ≡ contains k editable)
            × (json_eq (get_or_null j before) (get_or_null j approved)
                ≡ json_eq (get_or_null k before) (get_or_null k approved))
      ap_json j k p = rw p (refl, refl)

  differing_all :
      (ks : List String)
      → AgreesOutside editable before approved
      → differing editable before approved ks ≡ []
  unfolding differing
  differing_all [] h = refl
  differing_all (k ∷ ks) h = ground (arith, h k, differing_all ks h)

  -- A key of neither payload is `None` in both.
  agrees_at_absent :
      (k : String)
      → contains k (keys before ++ keys approved) ≡ false
      → json_eq (get_or_null k before) (get_or_null k approved) ≡ true
  unfolding json_eq
  agrees_at_absent k h = ground (
    arith,
    lookup-none k before (contains-append_left k (keys before) (keys approved) h),
    lookup-none k approved (contains-append_right k (keys before) (keys approved) h),
  )

  differing_agrees :
      differing editable before approved (keys before ++ keys approved) ≡ []
      → AgreesOutside editable before approved
  differing_agrees h k e = elim (Bool-cases (contains k (keys before ++ keys approved))) [
    | inl present ↦ differing_none (keys before ++ keys approved) k h present e
    | inr absent ↦ agrees_at_absent k absent
  ]

module _ ⦃d : Deps⦄ (stored : StoredProposal) (approved : Object) (w : World d) where
  verified_none : unexpected stored approved ≡ [] → verify_payload stored approved w ≡ (ok tt, w)
  unfolding verify_payload
  verified_none h = ground arith

  none_verified : (verify_payload stored approved w).0 ≡ ok tt → unexpected stored approved ≡ []
  unfolding verify_payload
  none_verified h = ground arith

  -- The approved payload is accepted exactly when every field that the proposal does not mark
  -- editable has a value that is `==` to the proposed one, where a missing field counts as `None`.
  pub verify_payload_iff :
      ((verify_payload stored approved w).0 ≡ ok tt)
      ↔ AgreesOutside stored.action.editable_fields stored.action.payload approved
  unfolding unexpected
  verify_payload_iff =
      (λ h. accepted (none_verified h), λ h. ap (λ p. p.0) (verified_none (every_key h)))
    where
      accepted :
          unexpected stored approved ≡ []
          → AgreesOutside stored.action.editable_fields stored.action.payload approved
      accepted = differing_agrees stored.action.editable_fields stored.action.payload approved

      every_key :
          AgreesOutside stored.action.editable_fields stored.action.payload approved
          → unexpected stored approved ≡ []
      every_key =
          differing_all stored.action.editable_fields stored.action.payload approved
            (keys stored.action.payload ++ keys approved)

  pub verify_payload_accepts :
      AgreesOutside stored.action.editable_fields stored.action.payload approved
      → verify_payload stored approved w ≡ (ok tt, w)
  unfolding unexpected
  verify_payload_accepts h = verified_none (
      differing_all stored.action.editable_fields stored.action.payload approved
        (keys stored.action.payload ++ keys approved) h)

  -- The check changes nothing.
  pub verify_payload_quiet : (verify_payload stored approved w).1 ≡ w
  unfolding verify_payload
  verify_payload_quiet = ground arith

module _ (k : String) (before : Object) (found : lookup k before ≡ some null) where
  null_before : get_or_null k before ≡ null
  null_before = ground arith

  null_after : get_or_null k (erase k before) ≡ null
  null_after = ground (arith, lookup-erase k k before, eq_refl k)

  kept_other :
      (j : String) → (k == j) ≡ false → get_or_null j (erase k before) ≡ get_or_null j before
  kept_other j differ = ground (arith, lookup-erase j k before)

  same_value :
      ((j : String) → HasUniqueKeys (get_or_null j before))
      → (j : String) → json_eq (get_or_null j before) (get_or_null j (erase k before)) ≡ true
  same_value unique j = elim (String-cases k j) [
    | inl e ↦ rw (← e, null_before, null_after) (json_eq_refl null tt)
    | inr (differ, _) ↦ rw (kept_other j differ) (json_eq_refl (get_or_null j before) (unique j))
  ]

-- A proposed field that is null may be missing from the approved payload though it is not editable:
-- the check goes by `dict.get`, which does not tell a null from an absent key. The other proposed
-- values have no key twice, as values of Python have none.
pub verify_payload_null_dropped :
    ⦃d : Deps⦄ (stored : StoredProposal) (k : String) (w : World d)
    → lookup k stored.action.payload ≡ some null
    → ((j : String) → HasUniqueKeys (get_or_null j stored.action.payload))
    → (verify_payload stored (erase k stored.action.payload) w).0 ≡ ok tt
verify_payload_null_dropped stored k w found unique =
    (verify_payload_iff stored (erase k stored.action.payload) w).1
      λ j _. same_value k stored.action.payload found unique j
