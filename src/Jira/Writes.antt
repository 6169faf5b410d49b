-- ===== src/Jira/Writes.antt =====
-- The mutations of `JiraAdapter` (app/adapters/jira.py): the one request that `execute` makes, and the
-- payload schemas by which it and `validate_payload` (app/adapters/base.py) go.
use deep_agent_blueprint.Prelude.{String, ◌≡◌, Option, ◌⊎◌, inl, inr, String-cases, Option-cases}
use deep_agent_blueprint.Prelude.Exec.{Result, Result-cases, ok, err}
use deep_agent_blueprint.Json.{Object}
use deep_agent_blueprint.Schemas.{Failure, ProposedAction}
use deep_agent_blueprint.Deps.{DownstreamCredentials}
use deep_agent_blueprint.Adapter.{validate_payload}
use deep_agent_blueprint.Jira.{
  Http, Validated, update_issue_payload, add_comment_payload, action_schemas, validated_payload,
  write_issue, execute, jira_adapter,
}

module _ (h : Http) where
  -- What a call of the adapter's `execute` does to Jira: nothing where the payload does not validate,
  -- and else the one request of the validated payload, with the user's token.
  abbrev pub WritesOnce : Option String → String → Object → h.Site → h.Site → Type 0
  WritesOnce token action_type approved site site' =
      ((site' ≡ site) × ((e : Failure) × (validated_payload h action_type approved ≡ err e)))
      ⊎ ((p : Validated h) × (validated_payload h action_type approved ≡ ok p)
          × (site' ≡ (write_issue h token p site).1))

  pub execute-WritesOnce :
      (base_url : String) (action : ProposedAction) (approved : Object) (k : DownstreamCredentials)
      (site : h.Site)
      → WritesOnce k.user_token action.action_type approved site
          (execute h base_url action approved k site).1
  unfolding execute
  execute-WritesOnce base_url action approved k site =
      elim (Result-cases (validated_payload h action.action_type approved)) [
        | inl (p, valid) ↦ inr (p, valid, rw valid)
        | inr (e, invalid) ↦ inl (rw invalid, (e, invalid))
      ]

  -- the verdict alone
  abbrev pub forget : Result Failure (Validated h) → Result Failure Unit
  forget (ok p) = ok tt
  forget (err e) = err e

  -- The validation by the adapter's schemas, which the worker and the handler use, decides as the one in
  -- its `execute` does: every payload that passes has a model.
  pub validate_payload-validated_payload :
      (base_url action_type : String) (payload : Object)
      → validate_payload (jira_adapter h base_url) action_type payload
        ≡ forget (validated_payload h action_type payload)
  unfolding validate_payload validated_payload action_schemas
  validate_payload-validated_payload base_url t payload = elim (String-cases "update_issue" t) [
    | inl e ↦ rw (← e) (elim (Option-cases (update_issue_payload payload)) [
      | inl bad ↦ rw bad
      | inr (p, good) ↦ rw good
    ])
    | inr (not_update, ne) ↦ elim (String-cases "add_comment" t) [
      | inl e ↦ rw (← e) (elim (Option-cases (add_comment_payload payload)) [
        | inl bad ↦ rw bad
        | inr (p, good) ↦ rw good
      ])
      | inr (not_comment, nc) ↦ rw (not_update, not_comment)
    ]
  ]
