-- ===== src/Jira/Service.antt =====
-- POST /execute (app/api/execute.py) in the Jira domain: what reaches Jira.
use Prim.Native.String.{◌++◌ as ◌<>◌}
use deep_agent_blueprint.Json.{obj, field, end, str}
use deep_agent_blueprint.Prelude.{String, ◌≡◌, refl, ◌∙◌, Option, some, ◌⊎◌, inl, inr}
use deep_agent_blueprint.Prelude.Exec.{ok}
use deep_agent_blueprint.Schemas.{StoredProposal, ExecuteRequest}
use deep_agent_blueprint.Deps.{Deps, World, DownstreamCredentials}
use deep_agent_blueprint.Adapter.{resolve_credentials, resolve_credentials-user_pat}
use deep_agent_blueprint.Store.Reads.{stored_proposal}
use deep_agent_blueprint.Execute.{execute_action}
use deep_agent_blueprint.Execute.Steps.{IsCleared}
use deep_agent_blueprint.Execute.Guarded.{execute_action-IsGuarded}
use deep_agent_blueprint.Jira.{
  Http, Validated, update_issue, add_comment, validated_payload, write_issue, rstrip_slash, execute,
  jira_adapter,
}
use deep_agent_blueprint.Jira.Drift.{IsCurrent, check_preconditions_iff}
use deep_agent_blueprint.Jira.Writes.{
  validate_payload-validated_payload, execute-WritesOnce, WritesOnce,
}

module _ (h : Http) (base_url : String) (d : Deps) where
  -- the service with the Jira adapter
  abbrev pub jira_service : Deps
  jira_service = record d { adapter = jira_adapter h base_url }

  module _ (w : World jira_service) (body : ExecuteRequest) (t : Option String) where
    -- the one request that a payload asks for, with the caller's token, makes this of Jira
    abbrev pub IsWrite : Validated h → h.Site → Type 0
    IsWrite (update_issue p) site' =
        site'
        ≡ (h.put t ("/rest/api/2/issue/" <> p.issue_key) (obj (field "fields" (obj p.fields) end))
            w.target).1
    IsWrite (add_comment p) site' =
        site'
        ≡ (h.post t ("/rest/api/2/issue/" <> (p.issue_key <> "/comment"))
            (obj (field "body" (str p.body) end)) w.target).1

    write_issue-IsWrite :
        (p : Validated h) (site' : h.Site)
        → site' ≡ (write_issue h t p w.target).1
        → IsWrite p site'
    unfolding write_issue
    write_issue-IsWrite (update_issue p) site' e = e
    write_issue-IsWrite (add_comment p) site' e = e

    -- Jira is changed by the one request of the approved payload, made as the caller, for a stored
    -- proposal whose issue is as the human saw it.
    pub record IsReviewed (site' : h.Site) : Type 0 where
      pub proposal : StoredProposal
      pub stored : stored_proposal ⦃d = jira_service⦄ w.store body.action_id ≡ some proposal
      pub current : IsCurrent h proposal.action t w.target
      pub payload : Validated h
      pub valid : validated_payload h proposal.action.action_type body.approved_payload ≡ ok payload
      pub written : IsWrite payload site'

    token_of :
        (k : DownstreamCredentials)
        → resolve_credentials (jira_adapter h base_url) t ≡ ok k
        → t ≡ k.user_token
    token_of k e = cc (resolve_credentials-user_pat (jira_adapter h base_url) t refl)

    reviewed :
        (c : String) (p : StoredProposal) (k : DownstreamCredentials) (site' : h.Site)
        → IsCleared ⦃d = jira_service⦄ w body c t p k
        → site' ≡ (execute h (rstrip_slash base_url) p.action body.approved_payload k w.target).1
        → IsReviewed site'
    reviewed c p k site' cleared e =
        let same : t ≡ k.user_token = token_of k cleared.resolved in
        go (execute-WritesOnce h (rstrip_slash base_url) p.action body.approved_payload k w.target)
          same
          ((check_preconditions_iff h p.action k w.target).0
            (cleared.precheck, cleared.prechecked, cleared.undrifted))
      where
        go :
            WritesOnce h k.user_token p.action.action_type body.approved_payload w.target
              (execute h (rstrip_slash base_url) p.action body.approved_payload k w.target).1
            → t ≡ k.user_token
            → IsCurrent h p.action k.user_token w.target
            → IsReviewed site'
        go (inl (unchanged, (x, invalid))) same current = cc (
          cleared.valid,
          rw invalid at (
              validate_payload-validated_payload h base_url p.action.action_type
                body.approved_payload),
        )
        go (inr (v, valid, once)) same current = record {
          proposal = p;
          stored = cleared.loaded;
          current = rw same current;
          payload = v;
          valid = valid;
          written = write_issue-IsWrite v site' (e ∙ rw same once);
        }

    -- In the Jira domain a POST /execute leaves Jira as it was, or makes exactly one request there, with the
    -- caller's token: a PUT of the approved fields to the approved issue or a POST of the approved text
    -- to its comments, for a stored proposal whose issue's
    -- live status and time of update agree with every precondition that the proposal names.
    pub execute_action-IsReviewed :
        (c key : String)
        → ((execute_action ⦃d = jira_service⦄ body c t key w).1.target ≡ w.target)
          ⊎ IsReviewed (execute_action ⦃d = jira_service⦄ body c t key w).1.target
    execute_action-IsReviewed c key =
        elim (execute_action-IsGuarded ⦃d = jira_service⦄ w body c t key) [
          | inl same ↦ inl same
          | inr (p, k, cleared, made) ↦ inr (reviewed c p k _ cleared made)
        ]
