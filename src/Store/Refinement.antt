-- ===== src/Store/Refinement.antt =====
-- app/state/redis_store.py against the dictionaries of Store/Contents: what operations leave, and reads.
use deep_agent_blueprint.Prelude.{
  ◌<◌, String, ◌≡◌, refl, ◌∙◌, ap, Bool, true, false, Option, none, some, List, [], ◌∷◌, ◌==◌, ◌&&◌,
  if◌then◌else◌, arith,
}
use deep_agent_blueprint.Prelude.Exec.{ok}
use deep_agent_blueprint.Deps.{Deps, World, IsLawful, ex, keepttl}
use deep_agent_blueprint.Store.{
  Kind, key_in, job, tok, proposal, idem, result, cancel, create_job, get_job, save_job,
  save_result, get_result, stage_token, load_token, purge_token, request_cancel,
  is_cancel_requested, save_proposal, get_proposal, delete_proposal, get_idempotency,
  put_idempotency, read, as_text, job_ttl,
}
use deep_agent_blueprint.Store.Keys.{same_kind}
use deep_agent_blueprint.Store.Reads.{HasLifetimes, raw_at, raw_at-set, raw_at-delete}
use deep_agent_blueprint.Store.Contents.{
  Contents, Command, creates, saves, saves_result, stages, purges, requests_cancel, deletes,
  proposes, records, mapped, applied, applied_all, cancel_text, Holds, run, run_all, kind_of,
  ident_of, left_by, image-applied,
}

module _ ⦃d : Deps⦄ where
  -- What each read returns, and that it changes nothing.
  abbrev pub Reads : Contents → World d → Type 0
  Reads c w =
      (i : String)
      → (get_job i w ≡ (ok (c.jobs i), w))
        × (get_result i w ≡ (ok (c.results i), w))
        × (load_token i w ≡ (ok (c.tokens i), w))
        × (is_cancel_requested i w ≡ (ok (c.cancels i), w))
        × (get_proposal i w ≡ (ok (c.proposals i), w))
        × (get_idempotency i w ≡ (ok (c.responses i), w))

module _ ⦃d : Deps⦄ (law : IsLawful d.redis) (lives : HasLifetimes d.settings) where
  job_live : 0 < job_ttl
  job_live = let p = lives.result_positive in omega arith

  run-raw_at :
      (m : Command) (w : World d) (l : Kind) (j : String)
      → raw_at (run m w).1.store l j
        ≡ (if same_kind (kind_of m) l && ident_of m == j then left_by m else raw_at w.store l j)
  unfolding create_job save_job save_result stage_token purge_token request_cancel delete_proposal
      save_proposal put_idempotency
  run-raw_at (creates r) w l j = raw_at-set law job l r.job_id j _ (ex _) w.store job_live
  run-raw_at (saves r) w l j = raw_at-set law job l r.job_id j _ keepttl w.store tt
  run-raw_at (saves_result i doc) w l j =
      raw_at-set law result l i j _ (ex _) w.store lives.result_positive
  run-raw_at (stages i t) w l j = raw_at-set law tok l i j _ (ex _) w.store (omega arith)
  run-raw_at (purges i) w l j = raw_at-delete law tok l i j w.store
  run-raw_at (requests_cancel i) w l j = raw_at-set law cancel l i j _ (ex _) w.store job_live
  run-raw_at (deletes i) w l j = raw_at-delete law proposal l i j w.store
  run-raw_at (proposes p) w l j =
      raw_at-set law proposal l p.action.action_id j _ (ex _) w.store lives.proposal_positive
  run-raw_at (records k r) w l j =
      raw_at-set law idem l k j _ (ex _) w.store lives.idempotency_positive

  run-Holds :
      (m : Command) (c : Contents) (w : World d) → Holds c w → Holds (applied m c) (run m w).1
  run-Holds m c w h l j = run-raw_at m w l j ∙ rw (h l j) (image-applied m c l j)

  run_all-Holds :
      (ms : List Command) (c : Contents) (w : World d)
      → Holds c w
      → Holds (applied_all ms c) (run_all ms w)
  run_all-Holds [] c w h = h
  run_all-Holds (m ∷ ms) c w h = run_all-Holds ms (applied m c) (run m w).1 (run-Holds m c w h)

  read-mapped :
      {A : Type 0} (f : A → d.redis.Raw) (validate : d.redis.Raw → Option A) (w : World d)
      → ((a : A) → d.redis.is_empty (f a) ≡ false)
      → ((a : A) → validate (f a) ≡ some a)
      → (o : Option A) → read validate (mapped f o) w ≡ (ok o, w)
  read-mapped f validate w nonempty roundtrip none = refl
  read-mapped f validate w nonempty roundtrip (some a) = rw (nonempty a, roundtrip a) refl

  as_text-mapped : (o : Option String) → as_text (mapped d.redis.text o) ≡ o
  as_text-mapped none = refl
  as_text-mapped (some t) = rw (law.text_roundtrip t) refl

  flag_lem : (b : Bool) → elim (cancel_text b) [ none ↦ false | some _ ↦ true ] ≡ b
  flag_lem true = refl
  flag_lem false = refl

  Holds-Reads : (c : Contents) (w : World d) → Holds c w → Reads c w
  unfolding get_job get_result load_token is_cancel_requested get_proposal get_idempotency
  Holds-Reads c w h i = (
    rw (h job i) (
        read-mapped d.redis.dump_job d.redis.validate_job w law.job_nonempty law.job_roundtrip
          (c.jobs i)),
    rw (h result i) (
        read-mapped d.redis.dump_result d.redis.validate_result w law.result_nonempty
          law.result_roundtrip (c.results i)),
    rw (h tok i) (ap (λ t. (ok t, w)) (as_text-mapped (c.tokens i))),
    rw (law.exists-get (key_in d.settings.domain cancel i) w.store, h cancel i)
        (ap (λ b. (ok b, w)) (flag_lem (c.cancels i))),
    rw (h proposal i) (
        read-mapped d.redis.dump_proposal d.redis.validate_proposal w law.proposal_nonempty
          law.proposal_roundtrip (c.proposals i)),
    rw (h idem i) (
        read-mapped d.redis.dump_idempotency d.redis.validate_idempotency w law.idempotency_nonempty
          law.idempotency_roundtrip (c.responses i)),
  )

  -- The store implements six dictionaries: after any creations and saves of jobs, saves of results,
  -- stagings and purges of tokens, requests of cancellation, saves and deletions of proposals and records
  -- of responses, in any order, as long as no key expires, every read returns what a dictionary on which
  -- the same was done has under that identifier, and changes nothing. Transitions and progress, which
  -- read before they write, are not among these operations.
  pub run_all-Reads :
      (ms : List Command) (c : Contents) (w : World d)
      → Holds c w
      → Reads (applied_all ms c) (run_all ms w)
  run_all-Reads ms c w h = Holds-Reads (applied_all ms c) (run_all ms w) (run_all-Holds ms c w h)
