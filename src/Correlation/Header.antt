-- ===== src/Correlation/Header.antt =====
-- `CorrelationMiddleware` (app/observability/correlation.py): the id that a request runs under, the header
-- of its reply, and the context that it leaves.
use deep_agent_blueprint.Prelude.{
  String, ◌≡◌, ◌≢◌, refl, ap, ◌∙◌, Option, none, some, ◌⊎◌, List, [], ◌∷◌, ◌++◌, if◌then◌else◌,
  Bool-cases, String-cases, inl, inr,
}
use deep_agent_blueprint.Prelude.Exec.{Result, ok, err}
use deep_agent_blueprint.Schemas.{Failure}
use deep_agent_blueprint.Deps.{Deps, World}
use deep_agent_blueprint.App.{App, current}
use deep_agent_blueprint.Correlation.{
  same_header, correlation_header, HeaderLines, supplied_id, without_id, or_text, send_wrapper,
  Sent, cid_of, entered, sent_with, correlation_middleware,
}

-- the ids that the header lines of a reply carry
abbrev pub ids : HeaderLines → List String
ids [] = []
ids ((k, v) ∷ rest) = if same_header k correlation_header then v ∷ ids rest else ids rest

ids-without_id :
    (lines : HeaderLines) (v : String)
    → ids (without_id lines ++ ((correlation_header, v) ∷ [])) ≡ v ∷ []
unfolding without_id same_header
ids-without_id [] v = refl
ids-without_id ((k, u) ∷ rest) v = elim (Bool-cases (same_header k correlation_header)) [
  | inl named ↦ rw named (ids-without_id rest v)
  | inr other ↦ rw (other, other) (ids-without_id rest v)
]

without_id-append :
    (lines : HeaderLines) (v : String)
    → without_id (without_id lines ++ ((correlation_header, v) ∷ [])) ≡ without_id lines
unfolding without_id same_header
without_id-append [] v = refl
without_id-append ((k, u) ∷ rest) v = elim (Bool-cases (same_header k correlation_header)) [
  | inl named ↦ rw named (without_id-append rest v)
  | inr other ↦ rw (other, without_id, other) (ap (λ l. (k, u) ∷ l) (without_id-append rest v))
]

-- The reply carries exactly one correlation id, and the other header lines are untouched.
abbrev pub CarriesOnly : String → HeaderLines → HeaderLines → Type 0
CarriesOnly v before after = (ids after ≡ v ∷ []) × (without_id after ≡ without_id before)

pub send_wrapper-CarriesOnly :
    (cid : String) (active : Option String) (lines : HeaderLines)
    → CarriesOnly (or_text active cid) lines (send_wrapper cid active lines)
send_wrapper-CarriesOnly cid active lines =
    (ids-without_id lines (or_text active cid), without_id-append lines (or_text active cid))

-- The caller sends no correlation header, or an empty one.
abbrev pub IsUnsupplied : HeaderLines → Type 0
IsUnsupplied request_lines =
    (supplied_id request_lines ≡ none) ⊎ (supplied_id request_lines ≡ some "")

module _ ⦃d : Deps⦄ where
  -- the id that the request runs under
  abbrev pub traced : HeaderLines → World d → String
  traced request_lines w = (cid_of (supplied_id request_lines) w).0

  traced-supplied :
      (request_lines : HeaderLines) (w : World d) (v : String)
      → supplied_id request_lines ≡ some v
      → v ≢ ""
      → traced request_lines w ≡ v
  traced-supplied request_lines w v given full = elim (String-cases v "") [
    | inl blank ↦ absurd (full blank)
    | inr (differ, _) ↦ ap (λ o. (cid_of o w).0) given ∙ rw differ refl
  ]

  traced-unsupplied :
      (request_lines : HeaderLines) (w : World d)
      → IsUnsupplied request_lines
      → traced request_lines w ≡ d.uuid4 w.uuids_drawn
  traced-unsupplied request_lines w (inl absent) = ap (λ o. (cid_of o w).0) absent
  traced-unsupplied request_lines w (inr blank) = ap (λ o. (cid_of o w).0) blank

  module _ {A : Type 0} (request_lines lines : HeaderLines) (app : App A) (w : World d) where
    -- What the middleware makes of the app's answer `r`, left in the state `after`.
    abbrev pub Relays : Result Failure A → World d → Result Failure (Sent A) → Type 0
    Relays (err e) after q = q ≡ err e
    Relays (ok a) after q =
        (s : Sent A) × (q ≡ ok s)
        × (s.reply ≡ a)
        × CarriesOnly (or_text after.correlation_id (traced request_lines w)) lines s.header_lines

    relays :
        (q : Result Failure A × World d)
        → Relays q.0 q.1 (sent_with lines (traced request_lines w) q.1.correlation_id q.0)
    relays (err e, after) = refl
    relays (ok a, after) = (
      _,
      refl,
      refl,
      send_wrapper-CarriesOnly (traced request_lines w) after.correlation_id lines,
    )

    -- Around any endpoint, the middleware lets it run under the caller's non-empty id or, where there is none, a newly drawn one,
    -- passes its exception on or sends its reply with exactly one correlation header, which holds the
    -- id that is bound when the reply is sent, and puts both context variables back in every case.
    pub correlation_middleware-Relays :
        let after = (app (entered request_lines w)).1 in
        let (q, left) = correlation_middleware request_lines lines app w in
        ((v : String)
          → supplied_id request_lines ≡ some v
          → v ≢ ""
          → current (entered request_lines w) ≡ v)
        × (IsUnsupplied request_lines → current (entered request_lines w) ≡ d.uuid4 w.uuids_drawn)
        × Relays (app (entered request_lines w)).0 after q
        × (left.correlation_id ≡ w.correlation_id)
        × (left.correlation_from_header ≡ w.correlation_from_header)
        × (left.store ≡ after.store)
        × (left.target ≡ after.target)
    unfolding correlation_middleware
    correlation_middleware-Relays = (
      (λ v given full. traced-supplied request_lines w v given full),
      traced-unsupplied request_lines w,
      relays (app (entered request_lines w)),
      refl,
      refl,
      refl,
      refl,
    )
