-- ===== src/Samples/Timed.antt =====
-- Redis as a dictionary of documents with deadlines, and a clock.
use deep_agent_blueprint.Prelude.{
  ℕ, ◌≤◌, String, true, false, Option, none, some, ◌≡◌, refl, ap, ◌∙◌, ◌==◌, ◌⊎◌, Dict, lookup,
  insert, erase, lookup-insert, lookup-erase, is_some, inl, inr, arith, if◌then◌else◌, eq_iff,
}
use deep_agent_blueprint.Deps.{Redis, IsLawful, Expiry, IsLive}
use deep_agent_blueprint.Store.Lifetimes.{KeepsTime, expiry_at}
use deep_agent_blueprint.Samples.Memory.{
  Doc, text_doc, job_doc, result_doc, proposal_doc, idempotency_doc, blank_doc, doc_text, doc_job,
  doc_result, doc_proposal, doc_idempotency,
}
use deep_agent_blueprint.Samples.Entries.{
  Entry, live_entry, doc_of, ends_of, live_entry-if, set-alive, doc_of-if, ends_of-if,
  live_entry-later, live_entry-kept, live_entry-expired,
}

pub record Clocked : Type 0 where
  pub now : ℕ
  pub entries : Dict Entry

-- the entry under a key, if it has not expired
abbrev pub entry : String → Clocked → Option Entry
entry k s = live_entry s.now (lookup k s.entries)

abbrev pub set_entry : String → Doc → Expiry → Clocked → Clocked
set_entry k v e s = record s {
  entries = insert k (record { doc = v; ends = expiry_at e s.now (ends_of (entry k s)) }) s.entries;
}

abbrev pub Waits : Clocked → Clocked → Type 0
Waits s t = (s.now ≤ t.now) × (t.entries ≡ s.entries)

abbrev pub ticking : Redis
ticking = record {
  Store = Clocked;
  Raw = Doc;
  get = λ k s. doc_of (entry k s);
  set = set_entry;
  delete = λ k s. record s { entries = erase k s.entries };
  exists = λ k s. is_some (entry k s);
  Expires = Waits;
  is_empty = blank_doc;
  text = text_doc;
  read_text = doc_text;
  dump_job = job_doc;
  validate_job = doc_job;
  dump_result = result_doc;
  validate_result = doc_result;
  dump_proposal = proposal_doc;
  validate_proposal = doc_proposal;
  dump_idempotency = idempotency_doc;
  validate_idempotency = doc_idempotency;
}

entry-set :
    (j k : String) (v : Doc) (e : Expiry) (s : Clocked)
    → IsLive e
    → entry j (set_entry k v e s) ≡ (
        if k == j
        then some (record { doc = v; ends = expiry_at e s.now (ends_of (entry k s)) })
        else entry j s)
entry-set j k v e s live =
    ap (live_entry s.now) (lookup-insert j k _ s.entries)
    ∙ live_entry-if s.now (k == j) _ (lookup j s.entries)
    ∙ rw (set-alive s.now v e (lookup k s.entries) live) refl

pub entry-delete :
    (j k : String) (s : Clocked)
    → live_entry s.now (lookup j (erase k s.entries)) ≡ (if k == j then none else entry j s)
entry-delete j k s =
    ap (live_entry s.now) (lookup-erase j k s.entries)
    ∙ live_entry-if s.now (k == j) none (lookup j s.entries)

pub entry-Waits :
    (k : String) (s t : Clocked) → Waits s t → entry k t ≡ live_entry t.now (lookup k s.entries)
entry-Waits k s t h = ap (λ es. live_entry t.now (lookup k es)) h.1

exists-entry : (o : Option Entry) → is_some o ≡ elim (doc_of o) [ none ↦ false | some _ ↦ true ]
exists-entry none = refl
exists-entry (some e) = refl

get-Waits :
    (k : String) (s t : Clocked)
    → Waits s t
    → (doc_of (entry k t) ≡ doc_of (entry k s)) ⊎ (doc_of (entry k t) ≡ none)
get-Waits k s t h = elim (live_entry-later s.now t.now (lookup k s.entries) h.0) [
  | inl same ↦ inl (ap doc_of (entry-Waits k s t h ∙ same))
  | inr gone ↦ inr (ap doc_of (entry-Waits k s t h ∙ gone))
]

pub ticking-IsLawful : IsLawful ticking
ticking-IsLawful = record {
  get-set =
      λ j k v e s live. ap doc_of (entry-set j k v e s live) ∙ doc_of-if (k == j) _ (entry j s);
  get-delete = λ j k s. ap doc_of (entry-delete j k s) ∙ doc_of-if (k == j) none (entry j s);
  exists-get = λ k s. exists-entry (entry k s);
  get-Expires = get-Waits;
  job_roundtrip = λ r. refl;
  job_nonempty = λ r. refl;
  result_roundtrip = λ r. refl;
  result_nonempty = λ r. refl;
  proposal_roundtrip = λ r. refl;
  proposal_nonempty = λ r. refl;
  idempotency_roundtrip = λ r. refl;
  idempotency_nonempty = λ r. refl;
  text_roundtrip = λ t. refl;
}

pub ends-set :
    (j k : String) (v : Doc) (e : Expiry) (s : Clocked)
    → IsLive e
    → ends_of (entry j (set_entry k v e s))
      ≡ (if k == j then expiry_at e s.now (ends_of (entry j s)) else ends_of (entry j s))
ends-set j k v e s live =
    ap ends_of (entry-set j k v e s live)
    ∙ ends_of-if (k == j) _ (entry j s)
    ∙ ground (arith, eq_iff k j)

abbrev pub ticking_time : KeepsTime ticking
ticking_time = record {
  now = λ s. s.now;
  deadline = λ k s. ends_of (entry k s);
  now-set = λ k v e s. refl;
  now-delete = λ k s. refl;
  deadline-set = ends-set;
  deadline-delete = λ j k s. ap ends_of (entry-delete j k s) ∙ ends_of-if (k == j) none (entry j s);
  now-Expires = λ s t h. h.0;
  kept = λ k s t h ends early.
      let same =
        entry-Waits k s t h ∙ live_entry-kept s.now t.now _ (lookup k s.entries) ends early in
      (ap doc_of same, ap ends_of same ∙ ends);
  expired = λ k s t h ends late.
      ap doc_of
        (entry-Waits k s t h ∙ live_entry-expired s.now t.now _ (lookup k s.entries) ends late);
}
