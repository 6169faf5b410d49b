-- ===== src/Jobs/Records.antt =====
-- What a write of one job's record, or one elsewhere, is to a sound store (see Jobs).
use deep_agent_blueprint.Prelude.{
  String, ◌≡◌, refl, sym, ap, ◌∙◌, ◌==◌, eq_refl, true, false, none, some, ◌⊎◌, inl, inr,
  if◌then◌else◌, arith, Bool-cases, String-cases,
}
use mathlib.Core.Option.{some-injective, some-ne-none}
use deep_agent_blueprint.Schemas.{JobStatus, JobRecord, is_terminal}
use deep_agent_blueprint.Deps.{Deps}
use deep_agent_blueprint.Store.{job, is_allowed}
use deep_agent_blueprint.Store.Reads.{raw_at, stored_job, staged}
use deep_agent_blueprint.Jobs.{IsSound, Evolves-same, Changes}

module _ ⦃d : Deps⦄ where
  -- A change that leaves the job records and adds no staged token.
  pub Changes-elsewhere :
      (st st' : d.redis.Store)
      → ((i : String) → raw_at st' job i ≡ raw_at st job i)
      → ((i : String) → (staged st' i ≡ staged st i) ⊎ (staged st' i ≡ none))
      → Changes st st'
  Changes-elsewhere st st' jobs tokens = record {
    sound = λ s. record {
      keyed = λ i r h. s.keyed i r (rw (jobs i) at h);
      purged = λ i r h t. elim (tokens i) [
        | inl same ↦ same ∙ s.purged i r (rw (jobs i) at h) t
        | inr gone ↦ gone
      ];
    };
    evolves = λ s i. Evolves-same i st st' (rw (jobs i));
  }

  pub no_step_from_terminal : (s s' : JobStatus) → is_allowed s s' ≡ true → is_terminal s ≡ false
  unfolding is_allowed
  no_step_from_terminal s s' h = ground arith

  -- A job that is not finished gets a record of its own; a finished record leaves no token.
  module _ (i : String) (r r' : JobRecord) (st st' : d.redis.Store)
      (found : stored_job st i ≡ some r) (own : r'.job_id ≡ i)
      (attempts : r'.max_attempts ≡ r.max_attempts)
      (step : (is_terminal r.status ≡ false) ⊎ (r'.status ≡ r.status))
      (written : (j : String) → stored_job st' j ≡ (if i == j then some r' else stored_job st j))
      (tokens : (j : String) → (staged st' j ≡ staged st j) ⊎ (staged st' j ≡ none))
      (cleaned : is_terminal r.status ≡ false
        → is_terminal r'.status ≡ true
        → staged st' i ≡ none) where
    at_own : stored_job st' i ≡ some r'
    at_own = written i ∙ rw (eq_refl i) refl

    at_other : (j : String) → (i == j) ≡ false → stored_job st' j ≡ stored_job st j
    at_other j differ = rw differ at (written j)

    keeps_purged : IsSound st → is_terminal r'.status ≡ true → staged st' i ≡ none
    keeps_purged s t = elim (Bool-cases (is_terminal r.status)) [
      | inl over ↦ elim (tokens i) [ inl same ↦ same ∙ s.purged i r found over | inr gone ↦ gone ]
      | inr open_job ↦ cleaned open_job t
    ]

    IsSound-after : IsSound st → IsSound st'
    IsSound-after s = record {
      keyed = λ j x h. elim (String-cases i j) [
        | inl e ↦
            ap (λ u. u.job_id) (some-injective x r' (sym h ∙ ap (stored_job st') (sym e) ∙ at_own))
            ∙ own
            ∙ e
        | inr (differ, _) ↦ s.keyed j x (rw (at_other j differ) at h)
      ];
      purged = λ j x h t. elim (String-cases i j) [
        | inl e ↦
            let same : x ≡ r' =
              some-injective x r' (sym h ∙ ap (stored_job st') (sym e) ∙ at_own) in
            ap (staged st') (sym e) ∙ keeps_purged s (rw same at t)
        | inr (differ, _) ↦ elim (tokens j) [
          | inl same ↦ same ∙ s.purged j x (rw (at_other j differ) at h) t
          | inr gone ↦ gone
        ]
      ];
    }

    finished_after :
        (j : String) (x : JobRecord)
        → stored_job st j ≡ some x
        → is_terminal x.status ≡ true
        → (stored_job st' j ≡ none)
          ⊎ ((x' : JobRecord) × (stored_job st' j ≡ some x') × (x'.status ≡ x.status))
    finished_after j x h t = elim (String-cases i j) [
      | inl e ↦
          let same : x ≡ r = some-injective x r (sym h ∙ ap (stored_job st) (sym e) ∙ found) in
          inr (r', ap (stored_job st') (sym e) ∙ at_own, kept same (rw same at t) step)
      | inr (differ, _) ↦ inr (x, at_other j differ ∙ h, refl)
    ]
      where
        kept :
            x ≡ r
            → is_terminal r.status ≡ true
            → (is_terminal r.status ≡ false) ⊎ (r'.status ≡ r.status)
            → r'.status ≡ x.status
        kept same over (inl open_job) = cc
        kept same over (inr e) = e ∙ ap (λ u. u.status) (sym same)

    limit_after :
        (j : String) (x x' : JobRecord)
        → stored_job st j ≡ some x
        → stored_job st' j ≡ some x'
        → x'.max_attempts ≡ x.max_attempts
    limit_after j x x' h h' = elim (String-cases i j) [
      | inl e ↦
          let before : x ≡ r = some-injective x r (sym h ∙ ap (stored_job st) (sym e) ∙ found) in
          let after : x' ≡ r' =
            some-injective x' r' (sym h' ∙ ap (stored_job st') (sym e) ∙ at_own) in
          ap (λ u. u.max_attempts) after ∙ attempts ∙ ap (λ u. u.max_attempts) (sym before)
      | inr (differ, _) ↦ (Evolves-same j st st' (at_other j differ)).limit x x' h h'
    ]

    pub Changes-job : Changes st st'
    Changes-job = record {
      sound = IsSound-after;
      evolves = λ s j. record {
        absent = λ h. elim (String-cases i j) [
          | inl e ↦ absurd (some-ne-none r (sym found ∙ ap (stored_job st) e ∙ h))
          | inr (differ, _) ↦ at_other j differ ∙ h
        ];
        finished = finished_after j;
        limit = limit_after j;
      };
    }
