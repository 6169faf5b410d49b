-- ===== src/Store/Contents.antt =====
-- What app/state/redis_store.py promises: six dictionaries by identifier, the operations on them, and how
-- Redis keeps them.
use deep_agent_blueprint.Prelude.{
  String, ◌≡◌, refl, sym, Bool, true, false, Option, none, some, List, [], ◌∷◌, ◌==◌, ◌&&◌,
  if◌then◌else◌,
}
use deep_agent_blueprint.Schemas.{JobRecord, JobResultDoc, StoredProposal, IdempotencyRecord}
use deep_agent_blueprint.Deps.{Deps, World}
use deep_agent_blueprint.App.{App}
use deep_agent_blueprint.Store.{
  Kind, job, tok, proposal, idem, result, cancel, create_job, save_job, save_result, stage_token,
  purge_token, request_cancel, save_proposal, delete_proposal, put_idempotency,
}
use deep_agent_blueprint.Store.Keys.{same_kind}
use deep_agent_blueprint.Store.Reads.{raw_at}

-- What the store promises to hold, by identifier.
pub record Contents : Type 0 where
  pub jobs : String → Option JobRecord
  pub results : String → Option JobResultDoc
  pub tokens : String → Option String
  pub proposals : String → Option StoredProposal
  pub responses : String → Option IdempotencyRecord
  pub cancels : String → Bool

-- The operations that write without a read, all but `transition` and `set_progress`.
pub data Command : Type 0 where
  creates saves : JobRecord → Command
  saves_result : String → JobResultDoc → Command
  stages : String → String → Command
  purges requests_cancel deletes : String → Command
  proposes : StoredProposal → Command
  records : String → IdempotencyRecord → Command

module _ {A : Type 0} where
  abbrev pub put : String → Option A → (String → Option A) → String → Option A
  put i v f j = if i == j then v else f j

  abbrev pub mapped : {B : Type 0} → (A → B) → Option A → Option B
  mapped f none = none
  mapped f (some a) = some (f a)

abbrev pub flag : String → (String → Bool) → String → Bool
flag i f j = if i == j then true else f j

abbrev pub applied : Command → Contents → Contents
applied (creates r) c = record c { jobs = put r.job_id (some r) c.jobs }
applied (saves r) c = record c { jobs = put r.job_id (some r) c.jobs }
applied (saves_result i doc) c = record c { results = put i (some doc) c.results }
applied (stages i t) c = record c { tokens = put i (some t) c.tokens }
applied (purges i) c = record c { tokens = put i none c.tokens }
applied (requests_cancel i) c = record c { cancels = flag i c.cancels }
applied (deletes i) c = record c { proposals = put i none c.proposals }
applied (proposes p) c = record c { proposals = put p.action.action_id (some p) c.proposals }
applied (records k r) c = record c { responses = put k (some r) c.responses }

abbrev pub applied_all : List Command → Contents → Contents
applied_all [] c = c
applied_all (m ∷ ms) c = applied_all ms (applied m c)

mapped-put :
    {A B : Type 0} (f : A → B) (b : Bool) (v o : Option A)
    → mapped f (if b then v else o) ≡ (if b then mapped f v else mapped f o)
mapped-put f true v o = refl
mapped-put f false v o = refl

module _ ⦃d : Deps⦄ where
  abbrev pub cancel_text : Bool → Option d.redis.Raw
  cancel_text true = some (d.redis.text "1")
  cancel_text false = none

  -- the text under each key
  abbrev pub image : Contents → Kind → String → Option d.redis.Raw
  image c job i = mapped d.redis.dump_job (c.jobs i)
  image c result i = mapped d.redis.dump_result (c.results i)
  image c tok i = mapped d.redis.text (c.tokens i)
  image c proposal i = mapped d.redis.dump_proposal (c.proposals i)
  image c idem i = mapped d.redis.dump_idempotency (c.responses i)
  image c cancel i = cancel_text (c.cancels i)

  -- Redis holds these contents.
  abbrev pub Holds : Contents → World d → Type 0
  Holds c w = (k : Kind) (i : String) → raw_at w.store k i ≡ image c k i

  abbrev pub run : Command → App Unit
  run (creates r) = create_job r
  run (saves r) = save_job r
  run (saves_result i doc) = save_result i doc
  run (stages i t) = stage_token i t
  run (purges i) = purge_token i
  run (requests_cancel i) = request_cancel i
  run (deletes i) = delete_proposal i
  run (proposes p) = save_proposal p
  run (records k r) = put_idempotency k r

  abbrev pub run_all : List Command → World d → World d
  run_all [] w = w
  run_all (m ∷ ms) w = run_all ms (run m w).1

  cancel-put :
      (b c : Bool)
      → cancel_text (if b then true else c) ≡ (if b then some (d.redis.text "1") else cancel_text c)
  cancel-put true c = refl
  cancel-put false c = refl

  -- where a command writes, and what it leaves there
  abbrev pub kind_of : Command → Kind
  kind_of (creates r) = job
  kind_of (saves r) = job
  kind_of (saves_result i doc) = result
  kind_of (stages i t) = tok
  kind_of (purges i) = tok
  kind_of (requests_cancel i) = cancel
  kind_of (deletes i) = proposal
  kind_of (proposes p) = proposal
  kind_of (records k r) = idem

  abbrev pub ident_of : Command → String
  ident_of (creates r) = r.job_id
  ident_of (saves r) = r.job_id
  ident_of (saves_result i doc) = i
  ident_of (stages i t) = i
  ident_of (purges i) = i
  ident_of (requests_cancel i) = i
  ident_of (deletes i) = i
  ident_of (proposes p) = p.action.action_id
  ident_of (records k r) = k

  abbrev pub left_by : Command → Option d.redis.Raw
  left_by (creates r) = some (d.redis.dump_job r)
  left_by (saves r) = some (d.redis.dump_job r)
  left_by (saves_result i doc) = some (d.redis.dump_result doc)
  left_by (stages i t) = some (d.redis.text t)
  left_by (purges i) = none
  left_by (requests_cancel i) = some (d.redis.text "1")
  left_by (deletes i) = none
  left_by (proposes p) = some (d.redis.dump_proposal p)
  left_by (records k r) = some (d.redis.dump_idempotency r)

  pub image-applied :
      (m : Command) (c : Contents) (l : Kind) (j : String)
      → (if same_kind (kind_of m) l && ident_of m == j then left_by m else image c l j)
        ≡ image (applied m c) l j
  image-applied (creates r) c job j =
      sym (mapped-put d.redis.dump_job (r.job_id == j) (some r) (c.jobs j))
  image-applied (creates r) c l j = refl
  image-applied (saves r) c job j =
      sym (mapped-put d.redis.dump_job (r.job_id == j) (some r) (c.jobs j))
  image-applied (saves r) c l j = refl
  image-applied (saves_result i doc) c result j =
      sym (mapped-put d.redis.dump_result (i == j) (some doc) (c.results j))
  image-applied (saves_result i doc) c l j = refl
  image-applied (stages i t) c tok j = sym (mapped-put d.redis.text (i == j) (some t) (c.tokens j))
  image-applied (stages i t) c l j = refl
  image-applied (purges i) c tok j = sym (mapped-put d.redis.text (i == j) none (c.tokens j))
  image-applied (purges i) c l j = refl
  image-applied (requests_cancel i) c cancel j = sym (cancel-put (i == j) (c.cancels j))
  image-applied (requests_cancel i) c l j = refl
  image-applied (deletes i) c proposal j =
      sym (mapped-put d.redis.dump_proposal (i == j) none (c.proposals j))
  image-applied (deletes i) c l j = refl
  image-applied (proposes p) c proposal j =
      sym (mapped-put d.redis.dump_proposal (p.action.action_id == j) (some p) (c.proposals j))
  image-applied (proposes p) c l j = refl
  image-applied (records k r) c idem j =
      sym (mapped-put d.redis.dump_idempotency (k == j) (some r) (c.responses j))
  image-applied (records k r) c l j = refl
