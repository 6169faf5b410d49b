-- ===== src/Store/Transition.antt =====
-- `RedisStore.transition` of app/state/redis_store.py: which transitions it makes, what it writes,
-- and what a terminal one purges.
use deep_agent_blueprint.Prelude.{
  ℕ, suc, String, ◌≡◌, refl, ◌==◌, ◌&&◌, ◌||◌, true, Option, none, some, if◌then◌else◌, arith,
  Bool-cases, inl, inr, Option-cases, ◌⊎◌,
}
use deep_agent_blueprint.Prelude.Exec.{ok, err}
use deep_agent_blueprint.Schemas.{
  JobStatus, queued, running, is_terminal, JobRecord, JobError, Failure, job_missing, other_error,
  invalid_transition,
}
use deep_agent_blueprint.Deps.{keepttl, Deps, World, IsLawful}
use deep_agent_blueprint.Store.{
  Kind, is_allowed, key, job, result, tok, proposal, idem, cancel, get_job, transition,
  apply_transition, or_kept, or_kept?,
}
use deep_agent_blueprint.Store.Keys.{same_kind}
use deep_agent_blueprint.Store.Reads.{
  raw_at, stored_job, staged, cancel_flag, raw_at-set, raw_at-delete,
}

-- The record after a transition at time `now`.
abbrev start_time : JobStatus → ℕ → Option ℕ → Option ℕ
start_time running now none = some now
start_time _ _ old = old

abbrev pub moved : ℕ → JobStatus → Option ℕ → Option JobError → JobRecord → JobRecord
moved now s attempt error r = record r {
  status = s;
  attempt = or_kept attempt r.attempt;
  error = or_kept? error r.error;
  started_at = start_time s now r.started_at;
  finished_at = if is_terminal s then some now else r.finished_at;
}

module _ ⦃d : Deps⦄ where
  pub get_job_found :
      (i : String) (w : World d) {r : JobRecord}
      → stored_job w.store i ≡ some r
      → get_job i w ≡ (ok (some r), w)
  unfolding get_job
  get_job_found i w h = ground arith

  pub get_job_missing :
      (i : String) (w : World d)
      → stored_job w.store i ≡ none
      → (get_job i w ≡ (ok none, w)) ⊎ (get_job i w ≡ (err other_error, w))
  unfolding get_job
  get_job_missing i w h = ground arith

  pub transition_found :
      (i : String) (s : JobStatus) (a : Option ℕ) (e : Option JobError) (w : World d)
      {r : JobRecord}
      → stored_job w.store i ≡ some r
      → is_allowed r.status s ≡ true
      → transition i s a e w ≡ apply_transition i s a e r w
  unfolding transition
  transition_found i s a e w h k = rw (get_job_found i w h) (rw k)

  abbrev pub moved_store : String → JobStatus → JobRecord → d.redis.Store → d.redis.Store
  moved_store i s r st =
      let saved = d.redis.set (key job r.job_id) (d.redis.dump_job r) keepttl st in
      if is_terminal s
      then d.redis.delete (key cancel i) (d.redis.delete (key tok i) saved)
      else saved

  abbrev pub moved_reads : JobStatus → Option ℕ → ℕ → ℕ
  moved_reads running (some t) n = n
  moved_reads queued _ n = n
  moved_reads _ _ n = suc n

  pub apply_transition_lem :
      (i : String) (s : JobStatus) (a : Option ℕ) (e : Option JobError) (r : JobRecord)
      (w : World d)
      → let r' = moved (d.clock w.clock_reads) s a e r in
        apply_transition i s a e r w ≡ (
          ok r',
          record w {
            store = moved_store i s r' w.store;
            clock_reads = moved_reads s r.started_at w.clock_reads;
          },
        )
  unfolding apply_transition
  apply_transition_lem i queued a e r w = refl
  apply_transition_lem i running a e r w = elim (Option-cases r.started_at) [
    | inl fresh ↦ rw fresh
    | inr (t, again) ↦ rw again
  ]
  apply_transition_lem i _ a e r w = refl

module _ ⦃d : Deps⦄ (law : IsLawful d.redis) where
  -- The stored texts after a transition, kind by kind.
  raw_at-moved_store :
      (i : String) (s : JobStatus) (r : JobRecord) (st : d.redis.Store) (k : Kind) (j : String)
      → r.job_id ≡ i
      → raw_at (moved_store i s r st) k j ≡ (
          if (same_kind tok k || same_kind cancel k) && (is_terminal s && i == j)
          then none
          else if same_kind job k && i == j
          then some (d.redis.dump_job r)
          else raw_at st k j)
  raw_at-moved_store i s r st k j h =
      let saved = d.redis.set (key job i) (d.redis.dump_job r) keepttl st in
      rw h (
        ground (
          arith,
          raw_at-set law job k i j (d.redis.dump_job r) keepttl st tt,
          raw_at-delete law tok k i j saved,
          raw_at-delete law cancel k i j (d.redis.delete (key tok i) saved),
        ))

-- What a transition of job `i` to `s` does to the store: the job's record becomes `r`, a terminal
-- one purges the job's token and cancel flag, and nothing else changes.
pub record Moves ⦃d : Deps⦄ (i : String) (s : JobStatus) (r : JobRecord) (st st' : d.redis.Store)
    : Type 0 where
  pub job_written : (j : String) → stored_job st' j ≡ (if i == j then some r else stored_job st j)
  pub token_purged :
      (j : String) → staged st' j ≡ (if is_terminal s && i == j then none else staged st j)
  pub flag_purged :
      (j : String)
      → cancel_flag st' j ≡ (if is_terminal s && i == j then none else cancel_flag st j)
  pub results_kept : (j : String) → raw_at st' result j ≡ raw_at st result j
  pub proposals_kept : (j : String) → raw_at st' proposal j ≡ raw_at st proposal j
  pub idempotency_kept : (j : String) → raw_at st' idem j ≡ raw_at st idem j

module _ ⦃d : Deps⦄ (law : IsLawful d.redis) (i : String) (s : JobStatus) where
  pub moved_store-Moves :
      (r : JobRecord) (st : d.redis.Store) → r.job_id ≡ i → Moves i s r st (moved_store i s r st)
  moved_store-Moves r st h = record {
    job_written = λ j.
        rw (raw_at-moved_store law i s r st job j h)
          (ground (arith, law.job_roundtrip r, law.job_nonempty r));
    token_purged = λ j. raw_at-moved_store law i s r st tok j h;
    flag_purged = λ j. raw_at-moved_store law i s r st cancel j h;
    results_kept = λ j. raw_at-moved_store law i s r st result j h;
    proposals_kept = λ j. raw_at-moved_store law i s r st proposal j h;
    idempotency_kept = λ j. raw_at-moved_store law i s r st idem j h;
  }

  -- A transition that the state machine allows from the stored record succeeds, returns the record
  -- with the new status and stamps, writes it under the job's key and no other, and purges the
  -- staged token and the cancel flag of that job exactly if the new status is terminal.
  pub transition_allowed :
      (a : Option ℕ) (e : Option JobError) (w : World d) {r : JobRecord}
      → stored_job w.store i ≡ some r
      → r.job_id ≡ i
      → is_allowed r.status s ≡ true
      → let r' = moved (d.clock w.clock_reads) s a e r in
        ((transition i s a e w).0 ≡ ok r') × Moves i s r' w.store (transition i s a e w).1.store
  transition_allowed a e w {r} found own legal =
      rw (transition_found i s a e w found legal, apply_transition_lem i s a e r w)
        (refl, moved_store-Moves (moved (d.clock w.clock_reads) s a e r) w.store own)

-- A transition either finds a stored record from which the state machine allows the step, and then
-- returns the changed record; or it raises and leaves everything as it was.
pub transition_atomic :
    ⦃d : Deps⦄ (i : String) (s : JobStatus) (a : Option ℕ) (e : Option JobError) (w : World d)
    → ((r : JobRecord) × (stored_job w.store i ≡ some r)
        × (is_allowed r.status s ≡ true)
        × ((transition i s a e w).0 ≡ ok (moved (d.clock w.clock_reads) s a e r)))
      ⊎ ((x : Failure) × (transition i s a e w ≡ (err x, w)))
transition_atomic i s a e w = elim (Option-cases (stored_job w.store i)) [
  | inr (r, found) ↦ elim (Bool-cases (is_allowed r.status s)) [
    | inl legal ↦ inl (
      r,
      found,
      legal,
      rw (transition_found i s a e w found legal, apply_transition_lem i s a e r w),
    )
    | inr illegal ↦ inr (
      invalid_transition r.status s,
      unfold transition in rw (get_job_found i w found) (rw illegal),
    )
  ]
  | inl missing ↦ elim (get_job_missing i w missing) [
    | inl absent ↦ inr (job_missing i, unfold transition in rw absent)
    | inr malformed ↦ inr (other_error, unfold transition in rw malformed)
  ]
]
