-- ===== src/Execute/Outcomes.antt =====
-- How the steps of `execute_action` in app/api/execute.py may end, and the first of them, authorization.
use deep_agent_blueprint.Prelude.{
  String, ◌≡◌, refl, ap, ◌∙◌, true, false, Option, none, some, if◌then◌else◌, arith, Bool-cases,
  Option-cases, inl, inr,
}
use deep_agent_blueprint.Prelude.Exec.{Result, ok, err, continue}
use deep_agent_blueprint.Schemas.{Failure, other_error, StoredProposal}
use deep_agent_blueprint.Deps.{Deps, World}
use deep_agent_blueprint.App.{App}
use deep_agent_blueprint.Store.{proposal, get_proposal}
use deep_agent_blueprint.Store.Reads.{stored_proposal, raw_at}
use deep_agent_blueprint.Execute.{expired_error, is_authorized, authorized_proposal}

-- How an action that starts in `w` may end: with a result and a state that satisfy `G`, or with an
-- error and the target system as it was.
pub data Outcome ⦃d : Deps⦄ {A : Type 0} (w : World d) (G : A → World d → Type 0)
    : Result Failure A × World d → Type 0 where
  passed : (a : A) (w' : World d) → G a w' → Outcome w G (ok a, w')
  stopped : (e : Failure) (w' : World d) → w'.target ≡ w.target → Outcome w G (err e, w')

module _ ⦃d : Deps⦄ {A B : Type 0} {w : World d} {G : A → World d → Type 0}
    {H : B → World d → Type 0} where
  pub Outcome-bind :
      (p : Result Failure A × World d) (f : A → App B)
      → Outcome w G p
      → ((a : A) (w' : World d) → G a w' → Outcome w H (f a w'))
      → Outcome w H (continue p.0 f p.1)
  Outcome-bind _ f (passed a w' g) k = k a w' g
  Outcome-bind _ f (stopped e w' t) k = stopped e w' t

module _ ⦃d : Deps⦄ {A : Type 0} {w : World d} {G H : A → World d → Type 0} where
  pub Outcome-weaken :
      {p : Result Failure A × World d}
      → Outcome w G p
      → ((a : A) (w' : World d) → G a w' → H a w')
      → Outcome w H p
  Outcome-weaken (passed a w' g) k = passed a w' (k a w' g)
  Outcome-weaken (stopped e w' t) k = stopped e w' t

module _ ⦃d : Deps⦄ {A : Type 0} {v w : World d} {G : A → World d → Type 0} where
  -- the same from an earlier state with the same target
  pub Outcome-rebase :
      {p : Result Failure A × World d} → v.target ≡ w.target → Outcome v G p → Outcome w G p
  Outcome-rebase e (passed a v' g) = passed a v' g
  Outcome-rebase e (stopped x v' t) = stopped x v' (t ∙ e)

-- Nothing but the clock and the correlation id was touched.
pub record IsQuiet ⦃d : Deps⦄ (w w' : World d) : Type 0 where
  pub same_store : w'.store ≡ w.store
  pub same_target : w'.target ≡ w.target
  pub same_queue : w'.queue ≡ w.queue

pub IsQuiet-trans : ⦃d : Deps⦄ {u v w : World d} → IsQuiet u v → IsQuiet v w → IsQuiet u w
IsQuiet-trans a b = record {
  same_store = b.same_store ∙ a.same_store;
  same_target = b.same_target ∙ a.same_target;
  same_queue = b.same_queue ∙ a.same_queue;
}

pub IsQuiet-of : ⦃d : Deps⦄ {v w : World d} → w ≡ v → IsQuiet v w
IsQuiet-of e = record {
  same_store = ap (λ u. u.store) e;
  same_target = ap (λ u. u.target) e;
  same_queue = ap (λ u. u.queue) e;
}

module _ ⦃d : Deps⦄ (w : World d) where
  -- the state after a successful authorization
  abbrev pub joined : StoredProposal → World d
  joined p =
      if w.correlation_from_header
      then w
      else record w { correlation_id = some p.action.correlation_id }

  pub joined-IsQuiet : (p : StoredProposal) → IsQuiet w (joined p)
  joined-IsQuiet p = ground arith

  pub authorized_found :
      (i c : String) (t : Option String) (p : StoredProposal)
      → stored_proposal w.store i ≡ some p
      → is_authorized p c t ≡ true
      → authorized_proposal i c t w ≡ (ok p, joined p)
  unfolding authorized_proposal get_proposal
  authorized_found i c t p h k = ground arith

  -- Without authorization the request ends, and which proposals there are is not told apart.
  pub authorized_refused :
      (i c : String) (t : Option String) (p : StoredProposal)
      → stored_proposal w.store i ≡ some p
      → is_authorized p c t ≡ false
      → authorized_proposal i c t w ≡ (err expired_error, w)
  unfolding authorized_proposal get_proposal
  authorized_refused i c t p h k = ground arith

  pub authorized_absent :
      (i c : String) (t : Option String)
      → raw_at w.store proposal i ≡ none
      → authorized_proposal i c t w ≡ (err expired_error, w)
  unfolding authorized_proposal get_proposal
  authorized_absent i c t h = rw h

  pub authorized_missing :
      (i c : String) (t : Option String)
      → stored_proposal w.store i ≡ none
      → (e : Failure) × (authorized_proposal i c t w ≡ (err e, w))
  unfolding authorized_proposal get_proposal
  authorized_missing i c t h = elim (Option-cases (raw_at w.store proposal i)) [
    | inl absent ↦ (expired_error, rw absent)
    | inr (raw, there) ↦ elim (Bool-cases (d.redis.is_empty raw)) [
      | inl empty ↦ (expired_error, rw there (rw empty))
      | inr full ↦ (other_error, ground arith)
    ]
  ]

  abbrev pub IsAuthorized : String → String → Option String → StoredProposal → World d → Type 0
  IsAuthorized i c t p w' =
      (stored_proposal w.store i ≡ some p)
      × (is_authorized p c t ≡ true)
      × IsQuiet w w'
      × (w'.clock_reads ≡ w.clock_reads)

  pub IsAuthorized-Outcome :
      (i c : String) (t : Option String)
      → Outcome w (IsAuthorized i c t) (authorized_proposal i c t w)
  IsAuthorized-Outcome i c t = elim (Option-cases (stored_proposal w.store i)) [
    | inl missing ↦ let (e, ends) = authorized_missing i c t missing in rw ends (stopped e w refl)
    | inr (p, found) ↦ elim (Bool-cases (is_authorized p c t)) [
      | inl allowed ↦
          rw (authorized_found i c t p found allowed)
            (passed p (joined p) (found, allowed, joined-IsQuiet p, ground arith))
      | inr denied ↦ rw (authorized_refused i c t p found denied) (stopped expired_error w refl)
    ]
  ]
