-- ===== src/Jira/Drift.antt =====
-- `JiraAdapter.check_preconditions` (app/adapters/jira.py): when an approved action still fits the issue.
use deep_agent_blueprint.Prelude.{
  ℕ, ◌<◌, String, ◌≡◌, refl, ◌↔◌, true, false, Option, none, some, [], ◌∷◌, eqb, leb, lookup, then?,
  sym, String-cases, Bool-cases, Option-cases, inl, inr, arith,
}
use deep_agent_blueprint.Prelude.Exec.{Result, ok}
use deep_agent_blueprint.Json.{Json, str, Fields, Object, as_fields, get_or_null, truthy, json_eq}
use deep_agent_blueprint.Schemas.{Failure, ProposedAction}
use deep_agent_blueprint.Deps.{DownstreamCredentials, PreconditionResult}
use deep_agent_blueprint.Backoff.{Response}
use deep_agent_blueprint.Jira.{
  Http, field_or_null, or_empty, fields_of, live_values, first_drift, by_drift, against_live, gone,
  issue_path, judge_issue, check_preconditions,
}

-- The preconditions on the status and on the time of the last update are equal to these values.
abbrev pub Fits : Json → Json → Object → Type 0
Fits status updated [] = Unit
Fits status updated ((name, expected) ∷ rest) =
    ((name ≡ "expected_status" → json_eq status expected ≡ true)
      × (name ≡ "expected_updated" → json_eq updated expected ≡ true))
    × Fits status updated rest

-- The status and the time of the last update that an issue has in Jira's answer: null where the field
-- is missing, where there is no status, or where the status has no name.
pub record IsLive (body : Option Json) (status updated : Json) : Type 0 where
  pub top : Fields
  pub is_object : then? body as_fields ≡ some top
  pub fields : Fields
  pub has_fields : fields_of top ≡ some fields
  pub status_fields : Fields
  pub has_status : or_empty (field_or_null "status" fields) ≡ some status_fields
  pub named : status ≡ field_or_null "name" status_fields
  pub timed : updated ≡ field_or_null "updated" fields

some_injective : {A : Type 0} (a b : A) → some a ≡ some b → a ≡ b
some_injective a b h = cc

-- Every named precondition for which there is a live value is equal to it.
abbrev Agrees : Object → Object → Type 0
Agrees actual [] = Unit
Agrees actual ((name, expected) ∷ rest) =
    ((v : Json) → lookup name actual ≡ some v → json_eq v expected ≡ true) × Agrees actual rest

first_drift-none :
    (actual preconditions : Object)
    → first_drift actual preconditions ≡ none
    → Agrees actual preconditions
unfolding first_drift
first_drift-none actual [] h = tt
first_drift-none actual ((name, expected) ∷ rest) h = elim (Option-cases (lookup name actual)) [
  | inl unknown ↦ ((λ v e. cc), first_drift-none actual rest (rw (unknown, first_drift) at h))
  | inr (v, known) ↦ elim (Bool-cases (json_eq v expected)) [
    | inl same ↦
        ((λ u e. ground arith), first_drift-none actual rest (rw (known, first_drift, same) at h))
    | inr other ↦ cc (rw (known, first_drift, other) at h)
  ]
]

first_drift-Agrees :
    (actual preconditions : Object)
    → Agrees actual preconditions
    → first_drift actual preconditions ≡ none
unfolding first_drift
first_drift-Agrees actual [] h = refl
first_drift-Agrees actual ((name, expected) ∷ rest) (here, later) =
    elim (Option-cases (lookup name actual)) [
      | inl unknown ↦ rw (unknown, first_drift) (first_drift-Agrees actual rest later)
      | inr (v, known) ↦
          rw (known, first_drift, here v known) (first_drift-Agrees actual rest later)
    ]

abbrev live_of : Json → Json → Object
live_of status updated = ("expected_status", status) ∷ ("expected_updated", updated) ∷ []

Agrees-Fits :
    (status updated : Json) (preconditions : Object)
    → Agrees (live_of status updated) preconditions
    → Fits status updated preconditions
Agrees-Fits status updated [] h = tt
Agrees-Fits status updated ((name, expected) ∷ rest) (here, later) = (
  (λ e. here status (rw e refl), λ e. here updated (rw e refl)),
  Agrees-Fits status updated rest later,
)

Fits-Agrees :
    (status updated : Json) (preconditions : Object)
    → Fits status updated preconditions
    → Agrees (live_of status updated) preconditions
Fits-Agrees status updated [] h = tt
Fits-Agrees status updated ((name, expected) ∷ rest) ((state, time), later) =
    (known, Fits-Agrees status updated rest later)
  where
    known : (v : Json) → lookup name (live_of status updated) ≡ some v → json_eq v expected ≡ true
    known v e = elim (String-cases "expected_status" name) [
      | inl s ↦ rw (← some_injective _ v (rw (← s) at e)) (state (sym s))
      | inr (other, _) ↦ elim (String-cases "expected_updated" name) [
        | inl t ↦ rw (← some_injective _ v (rw (← t) at e)) (time (sym t))
        | inr (neither, _) ↦ cc (rw (other, neither) at e)
      ]
    ]

live_values-IsLive :
    (body : Option Json) (values : Object)
    → live_values body ≡ some values
    → (status : Json) × (updated : Json) × IsLive body status updated
      × (values ≡ live_of status updated)
unfolding live_values
live_values-IsLive body values h = elim (Option-cases (then? body as_fields)) [
  | inl bad ↦ cc (rw bad at h)
  | inr (top, t) ↦ elim (Option-cases (fields_of top)) [
    | inl bad ↦ cc (rw (t, bad) at h)
    | inr (fs, f) ↦ elim (Option-cases (or_empty (field_or_null "status" fs))) [
      | inl bad ↦ cc (rw (t, f, bad) at h)
      | inr (status, s) ↦ (
        field_or_null "name" status,
        field_or_null "updated" fs,
        record {
          top = top;
          is_object = t;
          fields = fs;
          has_fields = f;
          status_fields = status;
          has_status = s;
          named = refl;
          timed = refl;
        },
        sym (some_injective _ values (rw (t, f, s) at h)),
      )
    ]
  ]
]

IsLive-live_values :
    (body : Option Json) (status updated : Json)
    → IsLive body status updated
    → live_values body ≡ some (live_of status updated)
unfolding live_values
IsLive-live_values body status updated l =
    rw (l.is_object, l.has_fields, l.has_status, l.named, l.timed) refl

below_404 : (n : ℕ) → n < 400 → eqb n 404 ≡ false
below_404 n h = ground arith

below_400 : (n : ℕ) → n < 400 → leb 400 n ≡ false
below_400 n h = ground arith

module _ (h : Http) where
  -- The issue is there, Jira shows it to the user, and it is as the action's preconditions say.
  pub record IsCurrent (action : ProposedAction) (token : Option String) (site : h.Site)
      : Type 0 where
    pub named : truthy (get_or_null "issue_key" action.payload) ≡ true
    pub response : Response
    pub answered :
        h.get token (issue_path h (get_or_null "issue_key" action.payload)) site ≡ some response
    pub readable : response.status_code < 400
    pub status : Json
    pub updated : Json
    pub live : IsLive response.body status updated
    pub fits : Fits status updated action.preconditions

  abbrev unnamed : PreconditionResult
  unnamed = record { holds = false; details = ("reason", str "payload missing issue_key") ∷ [] }

  abbrev Holds : Result Failure PreconditionResult → Type 0
  Holds r = (q : PreconditionResult) × (r ≡ ok q) × (q.holds ≡ true)

  Holds-ok :
      (r q : PreconditionResult)
      → ◌≡◌ {A = Result Failure PreconditionResult} (ok r) (ok q)
      → r.holds ≡ q.holds
  Holds-ok r q e = cc

  judged :
      (key : Json) (preconditions : Object) (r : Response)
      → Holds (judge_issue h key preconditions (some r))
      → (r.status_code < 400)
        × ((values : Object) × (live_values r.body ≡ some values) × Agrees values preconditions)
  unfolding judge_issue
  judged key preconditions r (q, e, holds) = elim (Bool-cases (eqb r.status_code 404)) [
    | inl missing ↦ cc (Holds-ok (gone h key) q (rw missing at e))
    | inr there ↦ elim (Bool-cases (leb 400 r.status_code)) [
      | inl refused ↦ cc (rw (there, refused) at e)
      | inr fine ↦ (ground arith, compared (live_values r.body) refl (rw (there, fine) at e))
    ]
  ]
    where
      compared :
          (o : Option Object)
          → live_values r.body ≡ o
          → against_live preconditions o ≡ ok q
          → (values : Object) × (live_values r.body ≡ some values) × Agrees values preconditions
      compared none l e = cc
      compared (some values) l e = elim (Option-cases (first_drift values preconditions)) [
        | inl agreed ↦ (values, l, first_drift-none values preconditions agreed)
        | inr (details, drift) ↦ cc (Holds-ok (by_drift (some details)) q (rw drift at e))
      ]

  judged_current :
      (key : Json) (preconditions values : Object) (r : Response)
      → r.status_code < 400
      → live_values r.body ≡ some values
      → Agrees values preconditions
      → judge_issue h key preconditions (some r) ≡ ok (record { holds = true; details = [] })
  unfolding judge_issue
  judged_current key preconditions values r readable live agrees = rw (
    below_404 r.status_code readable,
    below_400 r.status_code readable,
    live,
    first_drift-Agrees values preconditions agrees,
  )

  module _ (action : ProposedAction) (credentials : DownstreamCredentials) (site : h.Site) where
    abbrev named_key : Json
    named_key = get_or_null "issue_key" action.payload

    current_of :
        Holds (check_preconditions h action credentials site)
        → IsCurrent action credentials.user_token site
    unfolding check_preconditions judge_issue
    current_of (q, e, holds) = elim (Bool-cases (truthy named_key)) [
      | inr blank ↦ cc (Holds-ok unnamed q (rw blank at e))
      | inl named ↦
          elim (Option-cases (h.get credentials.user_token (issue_path h named_key) site)) [
            | inl raised ↦ cc (rw (named, raised, judge_issue) at e)
            | inr (r, answered) ↦
                let (readable, (values, live, agrees)) =
                  judged named_key action.preconditions r (q, rw (named, answered) at e, holds) in
                let (status, updated, is_live, shape) = live_values-IsLive r.body values live in
                record {
                  named = named;
                  response = r;
                  answered = answered;
                  readable = readable;
                  status = status;
                  updated = updated;
                  live = is_live;
                  fits = Agrees-Fits status updated action.preconditions (rw shape at agrees);
                }
          ]
    ]

    of_current :
        IsCurrent action credentials.user_token site
        → Holds (check_preconditions h action credentials site)
    unfolding check_preconditions
    of_current c = (
      record { holds = true; details = [] },
      rw (c.named, c.answered)
          (judged_current named_key action.preconditions (live_of c.status c.updated) c.response
            c.readable (IsLive-live_values c.response.body c.status c.updated c.live)
            (Fits-Agrees c.status c.updated action.preconditions c.fits)),
      refl,
    )

    -- The precondition check passes exactly where the payload names an issue, Jira answers for it with a
    -- status below 400, and every precondition on the status or on the time of the last update is equal
    -- to the name of the status or the time that the issue has in that answer.
    pub check_preconditions_iff :
        ((q : PreconditionResult) × (check_preconditions h action credentials site ≡ ok q)
          × (q.holds ≡ true))
        ↔ IsCurrent action credentials.user_token site
    check_preconditions_iff = (current_of, of_current)
