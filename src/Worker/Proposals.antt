-- ===== src/Worker/Proposals.antt =====
-- `_persist_proposals` of app/worker/runner.py: what is staged for approval.
use deep_agent_blueprint.Prelude.{
  ℕ, suc, ◌+◌, ◌≤◌, ◌<◌, arith, length, String, List, [], ◌∷◌, ◌≡◌, ◌≢◌, refl, ◌∙◌, ap, eq_refl,
  Option, some, if◌then◌else◌, Bool-cases, String-cases, inl, inr, true, false,
}
use mathlib.Core.Path.{subst}
use deep_agent_blueprint.Prelude.Exec.{ok, err, Result-cases}
use deep_agent_blueprint.Schemas.{
  Failure, AgentProposedAction, ProposedAction, JobRecord, StoredProposal,
}
use deep_agent_blueprint.Deps.{Deps, World, IsLawful, ex}
use deep_agent_blueprint.Adapter.{validate_payload}
use deep_agent_blueprint.Store.{save_proposal, proposal}
use deep_agent_blueprint.Store.Reads.{stored_proposal, raw_at-set, HasLifetimes, document}
use deep_agent_blueprint.Worker.{is_valid, new_action, new_proposal, stage_proposal, persist_each}

module _ ⦃d : Deps⦄ (r : JobRecord) (n : ℕ) where
  -- the actions that are returned: one for each valid candidate
  abbrev actions_of : List AgentProposedAction → ℕ → List ProposedAction
  actions_of [] k = []
  actions_of (c ∷ cs) k =
      let kept = new_action r n c (d.uuid4 k) ∷ actions_of cs (suc k) in
      let dropped = actions_of cs k in if is_valid c then kept else dropped

  persist_each-returns :
      (cs : List AgentProposedAction) (w : World d)
      → (persist_each r n cs w).0 ≡ ok (actions_of cs w.uuids_drawn)
  unfolding persist_each stage_proposal save_proposal
  persist_each-returns [] w = refl
  persist_each-returns (c ∷ cs) w = elim (Bool-cases (is_valid c)) [
    | inl valid ↦ rw valid (rw (persist_each-returns cs (stage_proposal r n c w).1) refl)
    | inr invalid ↦ rw invalid (persist_each-returns cs w)
  ]

  -- the state behind a valid candidate is that of the rest from there
  persist_each-valid :
      (c : AgentProposedAction) (cs : List AgentProposedAction) (w : World d)
      → is_valid c ≡ true
      → (persist_each r n (c ∷ cs) w).1 ≡ (persist_each r n cs (stage_proposal r n c w).1).1
  unfolding persist_each stage_proposal save_proposal
  persist_each-valid c cs w valid =
      rw valid (rw (persist_each-returns cs (stage_proposal r n c w).1) refl)

  persist_each-invalid :
      (c : AgentProposedAction) (cs : List AgentProposedAction) (w : World d)
      → is_valid c ≡ false
      → (persist_each r n (c ∷ cs) w).1 ≡ (persist_each r n cs w).1
  unfolding persist_each
  persist_each-invalid c cs w invalid = rw invalid refl

  stage_drawn :
      (c : AgentProposedAction) (w : World d)
      → (stage_proposal r n c w).1.uuids_drawn ≡ suc w.uuids_drawn
  unfolding stage_proposal save_proposal
  stage_drawn c w = refl

  later_low :
      (c : AgentProposedAction) (w : World d) (k j : ℕ)
      → w.uuids_drawn ≡ k
      → (stage_proposal r n c w).1.uuids_drawn ≤ j
      → k < j
  later_low c w k j drawn low = let q = rw (stage_drawn c w, drawn) at low in omega arith

  later_high :
      (c : AgentProposedAction) (w : World d) (k m j : ℕ)
      → w.uuids_drawn ≡ k
      → j < (stage_proposal r n c w).1.uuids_drawn + m
      → j < k + suc m
  later_high c w k m j drawn high = let q = rw (stage_drawn c w, drawn) at high in omega arith

  -- What is staged of a candidate, under the id that is given.
  pub record IsStagedAs (c : AgentProposedAction) (i : String) (a : ProposedAction)
      (s : Option StoredProposal) : Type 0 where
    pub found : StoredProposal
    pub stored : s ≡ some found
    pub shown : found.action ≡ a
    pub named : a.action_id ≡ i
    pub of_type : a.action_type ≡ c.action_type
    pub on_target : a.target ≡ c.target
    pub with_payload : a.payload ≡ c.payload
    pub with_preview : a.preview ≡ c.preview
    pub under : a.preconditions ≡ c.preconditions
    pub until : a.expires_at ≡ n
    pub traced : a.correlation_id ≡ r.correlation_id
    pub of_job : found.job_id ≡ r.job_id
    pub of_session : found.session_id ≡ r.session_id
    pub of_consumer : found.consumer_id ≡ r.consumer_id
    pub of_principal : found.principal_hash ≡ r.principal_hash

  -- The actions `as'` are those of the valid candidates, in order, and the store `st` holds each under an
  -- id of its own, drawn from the `k`th on; the other candidates are refused by the adapter's schemas.
  pub data AreStaged (st : d.redis.Store)
      : ℕ → List AgentProposedAction → List ProposedAction → Type 0 where
    all_seen : (k : ℕ) → AreStaged st k [] []
    dropped :
        (k : ℕ) (c : AgentProposedAction) (cs : List AgentProposedAction)
        (as' : List ProposedAction) (e : Failure)
        → validate_payload d.adapter c.action_type c.payload ≡ err e
        → AreStaged st k cs as'
        → AreStaged st k (c ∷ cs) as'
    kept :
        (k : ℕ) (c : AgentProposedAction) (cs : List AgentProposedAction) (a : ProposedAction)
        (as' : List ProposedAction)
        → validate_payload d.adapter c.action_type c.payload ≡ ok tt
        → IsStagedAs c (d.uuid4 k) a (stored_proposal st (d.uuid4 k))
        → AreStaged st (suc k) cs as'
        → AreStaged st k (c ∷ cs) (a ∷ as')

  -- The ids that are drawn are not equal to an earlier one.
  abbrev pub AreDistinct : ℕ → ℕ → Type 0
  AreDistinct k m = (i j : ℕ) → k ≤ i → i < j → j < k + m → d.uuid4 j ≢ d.uuid4 i

  module _ (law : IsLawful d.redis) (lives : HasLifetimes d.settings) where
    document-dump :
        (p : StoredProposal)
        → document d.redis.validate_proposal (some (d.redis.dump_proposal p)) ≡ some p
    document-dump p = rw (law.proposal_nonempty p) (law.proposal_roundtrip p)

    saved :
        (p : StoredProposal) (w : World d)
        → stored_proposal (save_proposal p w).1.store p.action.action_id ≡ some p
    unfolding save_proposal
    saved p w =
        rw
          (raw_at-set law proposal proposal p.action.action_id p.action.action_id
            (d.redis.dump_proposal p) (ex d.settings.proposal_ttl_s) w.store
            lives.proposal_positive)
          (rw (eq_refl p.action.action_id) (document-dump p))

    stage-stored :
        (c : AgentProposedAction) (w : World d)
        → stored_proposal (stage_proposal r n c w).1.store (d.uuid4 w.uuids_drawn)
          ≡ some (new_proposal r (new_action r n c (d.uuid4 w.uuids_drawn)) (d.clock w.clock_reads))
    unfolding stage_proposal save_proposal
    stage-stored c w =
        saved (new_proposal r (new_action r n c (d.uuid4 w.uuids_drawn)) (d.clock w.clock_reads)) w

    stage-elsewhere :
        (c : AgentProposedAction) (w : World d) (i : String)
        → d.uuid4 w.uuids_drawn ≢ i
        → stored_proposal (stage_proposal r n c w).1.store i ≡ stored_proposal w.store i
    unfolding stage_proposal save_proposal
    stage-elsewhere c w i other = elim (String-cases (d.uuid4 w.uuids_drawn) i) [
      | inl same ↦ absurd (other same)
      | inr (differ, _) ↦ ap (document d.redis.validate_proposal) (
          raw_at-set law proposal proposal (d.uuid4 w.uuids_drawn) i _ (ex _) w.store
            lives.proposal_positive
          ∙ rw differ refl)
    ]

    persist_each-elsewhere :
        (cs : List AgentProposedAction) (w : World d) (i : String)
        → ((j : ℕ) → w.uuids_drawn ≤ j → j < w.uuids_drawn + length cs → d.uuid4 j ≢ i)
        → stored_proposal (persist_each r n cs w).1.store i ≡ stored_proposal w.store i
    unfolding persist_each
    persist_each-elsewhere [] w i others = refl
    persist_each-elsewhere (c ∷ cs) w i others = elim (Bool-cases (is_valid c)) [
      | inr invalid ↦
          ap (λ v. stored_proposal v.store i) (persist_each-invalid c cs w invalid)
          ∙ persist_each-elsewhere cs w i (λ j low high. others j low (omega arith))
      | inl valid ↦
          ap (λ v. stored_proposal v.store i) (persist_each-valid c cs w valid)
          ∙ persist_each-elsewhere cs (stage_proposal r n c w).1 i
              (λ j low high. others j (after_low j low) (after_high j high))
          ∙ stage-elsewhere c w i (others w.uuids_drawn (omega arith) (omega arith))
    ]
      where
        after_low : (j : ℕ) → (stage_proposal r n c w).1.uuids_drawn ≤ j → w.uuids_drawn ≤ j
        after_low j low = let q = rw (stage_drawn c w) at low in omega arith

        after_high :
            (j : ℕ)
            → j < (stage_proposal r n c w).1.uuids_drawn + length cs
            → j < w.uuids_drawn + suc (length cs)
        after_high j high = let q = rw (stage_drawn c w) at high in omega arith

    staged_as :
        (c : AgentProposedAction) (i : String) (t : ℕ) (o : Option StoredProposal)
        → o ≡ some (new_proposal r (new_action r n c i) t)
        → IsStagedAs c i (new_action r n c i) o
    unfolding new_action new_proposal
    staged_as c i t o stored = record {
      found = new_proposal r (new_action r n c i) t;
      stored = stored;
      shown = refl;
      named = refl;
      of_type = refl;
      on_target = refl;
      with_payload = refl;
      with_preview = refl;
      under = refl;
      until = refl;
      traced = refl;
      of_job = refl;
      of_session = refl;
      of_consumer = refl;
      of_principal = refl;
    }

    all-AreStaged :
        (cs : List AgentProposedAction) (w : World d) (k : ℕ) (st : d.redis.Store)
        → w.uuids_drawn ≡ k
        → st ≡ (persist_each r n cs w).1.store
        → AreDistinct k (length cs)
        → AreStaged st k cs (actions_of cs k)
    all-AreStaged [] w k st drawn ends distinct = all_seen k
    all-AreStaged (c ∷ cs) w k st drawn ends distinct =
        elim (Result-cases (validate_payload d.adapter c.action_type c.payload)) [
          | inl (u, valid) ↦
              let accepted : is_valid c ≡ true = rw (valid, is_valid) refl in
              let v = (stage_proposal r n c w).1 in
              let last = ends ∙ ap (λ u. u.store) (persist_each-valid c cs w accepted) in
              rw accepted (
                kept k c cs (new_action r n c (d.uuid4 k)) (actions_of cs (suc k)) valid
                  (staged_as c (d.uuid4 k) (d.clock w.clock_reads) (stored_proposal st (d.uuid4 k))
                    (ap (λ s. stored_proposal s (d.uuid4 k)) last
                      ∙ persist_each-elsewhere cs v (d.uuid4 k) (λ j low high.
                        distinct k j (omega arith) (later_low c w k j drawn low)
                          (later_high c w k (length cs) j drawn high))
                      ∙ subst
                          (λ i.
                            stored_proposal (stage_proposal r n c w).1.store (d.uuid4 i)
                            ≡ some (
                                new_proposal r (new_action r n c (d.uuid4 i))
                                  (d.clock w.clock_reads)))
                          drawn (stage-stored c w)))
                  (all-AreStaged cs v (suc k) st (stage_drawn c w ∙ ap suc drawn) last
                    (λ i j low between high. distinct i j (omega arith) between (omega arith))))
          | inr (e, invalid) ↦
              let refused : is_valid c ≡ false = rw (invalid, is_valid) refl in
              rw refused (
                dropped k c cs (actions_of cs k) e invalid (
                  all-AreStaged cs w k st drawn
                    (ends ∙ ap (λ u. u.store) (persist_each-invalid c cs w refused))
                    (λ i j low between high. distinct i j low between (omega arith))))
        ]

    -- The proposals that are returned are those of the candidates that the adapter's schema for their
    -- action type accepts, in order, with the candidate's contents, and when the loop is through, the
    -- store holds each, bound to the job's consumer and user, under a newly drawn id of its own; the
    -- others are dropped and raise nothing. The ids that are drawn are taken to differ.
    pub persist_each-AreStaged :
        (cs : List AgentProposedAction) (w : World d)
        → AreDistinct w.uuids_drawn (length cs)
        → (as' : List ProposedAction) × ((persist_each r n cs w).0 ≡ ok as')
          × AreStaged (persist_each r n cs w).1.store w.uuids_drawn cs as'
    persist_each-AreStaged cs w distinct = (
      actions_of cs w.uuids_drawn,
      persist_each-returns cs w,
      all-AreStaged cs w w.uuids_drawn (persist_each r n cs w).1.store refl refl distinct,
    )
