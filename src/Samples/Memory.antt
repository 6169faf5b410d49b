-- ===== src/Samples/Memory.antt =====
-- Redis as a dictionary of documents.
use deep_agent_blueprint.Prelude.{
  String, Bool, true, false, Option, none, some, ◌≡◌, refl, sym, ap, ◌==◌, Dict, lookup, insert,
  erase, lookup-insert, lookup-erase, is_some, inl, arith,
}
use deep_agent_blueprint.Schemas.{JobRecord, JobResultDoc, StoredProposal, IdempotencyRecord}
use deep_agent_blueprint.Deps.{Redis, IsLawful}

pub data Doc : Type 0 where
  text_doc : String → Doc
  job_doc : JobRecord → Doc
  result_doc : JobResultDoc → Doc
  proposal_doc : StoredProposal → Doc
  idempotency_doc : IdempotencyRecord → Doc

abbrev pub blank_doc : Doc → Bool
blank_doc (text_doc t) = t == ""
blank_doc _ = false

abbrev pub doc_text : Doc → String
doc_text (text_doc t) = t
doc_text _ = "{}"

abbrev pub doc_job : Doc → Option JobRecord
doc_job (job_doc r) = some r
doc_job _ = none

abbrev pub doc_result : Doc → Option JobResultDoc
doc_result (result_doc r) = some r
doc_result _ = none

abbrev pub doc_proposal : Doc → Option StoredProposal
doc_proposal (proposal_doc r) = some r
doc_proposal _ = none

abbrev pub doc_idempotency : Doc → Option IdempotencyRecord
doc_idempotency (idempotency_doc r) = some r
doc_idempotency _ = none

abbrev pub memory : Redis
memory = record {
  Store = Dict Doc;
  Raw = Doc;
  get = lookup;
  set = λ k v e s. insert k v s;
  delete = erase;
  exists = λ k s. is_some (lookup k s);
  Expires = λ s t. s ≡ t;
  is_empty = blank_doc;
  text = text_doc;
  read_text = doc_text;
  dump_job = job_doc;
  validate_job = doc_job;
  dump_result = result_doc;
  validate_result = doc_result;
  dump_proposal = proposal_doc;
  validate_proposal = doc_proposal;
  dump_idempotency = idempotency_doc;
  validate_idempotency = doc_idempotency;
}

exists_lookup :
    (k : String) (s : Dict Doc)
    → is_some (lookup k s) ≡ elim (lookup k s) [ none ↦ false | some _ ↦ true ]
exists_lookup k s = ground arith

pub memory-IsLawful : IsLawful memory
memory-IsLawful = record {
  get-set = λ j k v e s live. lookup-insert j k v s;
  get-delete = λ j k s. lookup-erase j k s;
  exists-get = exists_lookup;
  get-Expires = λ k s t same. inl (sym (ap (lookup k) same));
  job_roundtrip = λ r. refl;
  job_nonempty = λ r. refl;
  result_roundtrip = λ r. refl;
  result_nonempty = λ r. refl;
  proposal_roundtrip = λ r. refl;
  proposal_nonempty = λ r. refl;
  idempotency_roundtrip = λ r. refl;
  idempotency_nonempty = λ r. refl;
  text_roundtrip = λ t. refl;
}
