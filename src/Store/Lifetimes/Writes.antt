-- ===== src/Store/Lifetimes/Writes.antt =====
-- What a SET, a DEL and the passing of time do to the lifetimes of one job's record and result.
use deep_agent_blueprint.Prelude.{
  ℕ, ◌+◌, ◌*◌, ◌≤◌, ◌<◌, String, ◌≡◌, ◌≢◌, refl, ◌∙◌, ◌==◌, eq_refl, true, false, none, some, arith,
  is_some, String-cases, inl, inr, Bool-cases, ltb,
}
use deep_agent_blueprint.Schemas.{JobRecord}
use deep_agent_blueprint.Deps.{Deps, IsLawful, Expiry, ex, keepttl, IsLive}
use deep_agent_blueprint.Store.{Kind, key, job, result, job_ttl}
use deep_agent_blueprint.Store.Keys.{same_kind}
use deep_agent_blueprint.Store.Reads.{HasLifetimes, raw_at, stored_job, raw_at-set, raw_at-delete}
use deep_agent_blueprint.Store.Contents.{Command, saves_result}
use deep_agent_blueprint.Store.Lifetimes.{
  KeepsTime, expiry_at, deadline_at, deadline_at-set, deadline_at-delete,
}

-- The longest time from a job's creation to its result that the lifetimes are made for.
abbrev pub work_time : ⦃d : Deps⦄ → ℕ
work_time ⦃d⦄ = d.settings.job_timeout_s * d.settings.job_max_attempts

module _ ⦃d : Deps⦄ (time : KeepsTime d.redis) (i : String) (created : ℕ) where
  -- Until `created + job_ttl` the record is there; a result that is there expires before.
  pub record IsTimely (st : d.redis.Store) : Type 0 where
    pub begun : created ≤ time.now st
    pub job_lasts :
        time.now st < created + job_ttl
        → (is_some (stored_job st i) ≡ true)
          × ((a : ℕ) × (deadline_at time st job i ≡ some a) × (created + job_ttl ≤ a))
    pub result_ends :
        raw_at st result i ≢ none
        → (b : ℕ) × (deadline_at time st result i ≡ some b)
          × (time.now st < b)
          × (b ≤ created + job_ttl)

  -- Results of job `i` are saved in time.
  abbrev pub InTime : Command → d.redis.Store → Type 0
  InTime (saves_result j doc) st = j ≡ i → time.now st ≤ created + work_time
  InTime m st = Unit

module _ ⦃d : Deps⦄ (law : IsLawful d.redis) (time : KeepsTime d.redis) (i : String)
    (created : ℕ) where
  same-IsTimely :
      (st st' : d.redis.Store)
      → time.now st' ≡ time.now st
      → raw_at st' job i ≡ raw_at st job i
      → deadline_at time st' job i ≡ deadline_at time st job i
      → raw_at st' result i ≡ raw_at st result i
      → deadline_at time st' result i ≡ deadline_at time st result i
      → IsTimely time i created st
      → IsTimely time i created st'
  same-IsTimely st st' now jobs ends results result_ends p = record {
    begun = rw now p.begun;
    job_lasts = λ h. rw (jobs, ends) (p.job_lasts (rw now at h));
    result_ends = λ h. rw (now, result_ends) (p.result_ends (rw results at h));
  }

  -- Documents of other kinds do not matter.
  pub set-IsTimely :
      (k : Kind) (j : String) (v : d.redis.Raw) (e : Expiry) (st : d.redis.Store)
      → same_kind k job ≡ false
      → same_kind k result ≡ false
      → IsLive e
      → IsTimely time i created st
      → IsTimely time i created (d.redis.set (key k j) v e st)
  set-IsTimely k j v e st nj nr live =
      same-IsTimely st _ (time.now-set (key k j) v e st)
        (raw_at-set law k job j i v e st live ∙ rw nj refl)
        (deadline_at-set time k job j i v e st live ∙ rw nj refl)
        (raw_at-set law k result j i v e st live ∙ rw nr refl)
        (deadline_at-set time k result j i v e st live ∙ rw nr refl)

  pub delete-IsTimely :
      (k : Kind) (j : String) (st : d.redis.Store)
      → same_kind k job ≡ false
      → same_kind k result ≡ false
      → IsTimely time i created st
      → IsTimely time i created (d.redis.delete (key k j) st)
  delete-IsTimely k j st nj nr =
      same-IsTimely st _ (time.now-delete (key k j) st)
        (raw_at-delete law k job j i st ∙ rw nj refl)
        (deadline_at-delete time k job j i st ∙ rw nj refl)
        (raw_at-delete law k result j i st ∙ rw nr refl)
        (deadline_at-delete time k result j i st ∙ rw nr refl)

  -- A job record is written with an expiry that does not come before the promised time.
  pub job_set-IsTimely :
      (r : JobRecord) (e : Expiry) (st : d.redis.Store)
      → IsLive e
      → (time.now st < created + job_ttl
          → (a : ℕ) × (expiry_at e (time.now st) (deadline_at time st job i) ≡ some a)
            × (created + job_ttl ≤ a))
      → IsTimely time i created st
      → IsTimely time i created (d.redis.set (key job r.job_id) (d.redis.dump_job r) e st)
  job_set-IsTimely r e st live covers p =
      let now = time.now-set (key job r.job_id) (d.redis.dump_job r) e st in
      let v = d.redis.dump_job r in
      record {
        begun = rw now p.begun;
        job_lasts = λ h. elim (Bool-cases (r.job_id == i)) [
          | inl own ↦
              rw
                (
                  raw_at-set law job job r.job_id i v e st live,
                  deadline_at-set time job job r.job_id i v e st live,
                  own,
                  law.job_roundtrip r,
                  law.job_nonempty r,
                )
                (refl, covers (rw now at h))
          | inr other ↦
              rw
                (
                  raw_at-set law job job r.job_id i v e st live,
                  deadline_at-set time job job r.job_id i v e st live,
                  other,
                )
                (p.job_lasts (rw now at h))
        ];
        result_ends = λ h.
            rw (now, deadline_at-set time job result r.job_id i v e st live)
              (p.result_ends (rw (raw_at-set law job result r.job_id i v e st live) at h));
      }

  pub save-IsTimely :
      (r : JobRecord) (st : d.redis.Store)
      → IsTimely time i created st
      → IsTimely time i created (d.redis.set (key job r.job_id) (d.redis.dump_job r) keepttl st)
  save-IsTimely r st p = job_set-IsTimely r keepttl st tt (λ soon. (p.job_lasts soon).1) p

  pub result_set-IsTimely :
      (lives : HasLifetimes d.settings) (j : String) (v : d.redis.Raw) (st : d.redis.Store)
      → (j ≡ i → time.now st ≤ created + work_time)
      → IsTimely time i created st
      → IsTimely time i created (d.redis.set (key result j) v (ex d.settings.result_ttl_s) st)
  result_set-IsTimely lives j v st in_time p =
      let e = ex d.settings.result_ttl_s in
      let now = time.now-set (key result j) v e st in
      record {
        begun = rw now p.begun;
        job_lasts = λ h.
            rw
              (
                raw_at-set law result job j i v e st lives.result_positive,
                deadline_at-set time result job j i v e st lives.result_positive,
              )
              (p.job_lasts (rw now at h));
        result_ends = λ h. elim (String-cases j i) [
          | inl own ↦
              rw
                (
                  now,
                  deadline_at-set time result result j i v e st lives.result_positive,
                  own,
                  eq_refl i,
                )
                (
                  time.now st + d.settings.result_ttl_s,
                  refl,
                  omega (arith, lives.result_positive),
                  omega (arith, in_time own),
                )
          | inr (other, _) ↦
              rw (now, deadline_at-set time result result j i v e st lives.result_positive, other)
                (p.result_ends
                  (rw (raw_at-set law result result j i v e st lives.result_positive, other) at h))
        ];
      }

  pub later-IsTimely :
      (s t : d.redis.Store)
      → d.redis.Expires s t
      → IsTimely time i created s
      → IsTimely time i created t
  later-IsTimely s t h p = record {
    begun = omega (arith, p.begun, time.now-Expires s t h);
    job_lasts = λ soon.
        let (there, (a, ends, late)) = p.job_lasts (omega (arith, time.now-Expires s t h)) in
        let (same, still) = time.kept (key job i) s t h ends (omega arith) in
        (rw same there, (a, still, late));
    result_ends = λ there.
        let (b, ends, _, early) = p.result_ends (was_there there) in
        elim (Bool-cases (ltb (time.now t) b)) [
          | inl before ↦
              (b, (time.kept (key result i) s t h ends (ground arith)).1, ground arith, early)
          | inr after ↦ absurd (there (time.expired (key result i) s t h ends (ground arith)))
        ];
  }
    where
      was_there : raw_at t result i ≢ none → raw_at s result i ≢ none
      was_there there = elim (law.get-Expires (key result i) s t h) [
        | inl same ↦ λ e. there (same ∙ e)
        | inr gone ↦ λ e. there gone
      ]
