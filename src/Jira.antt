-- ===== src/Jira.antt =====
-- app/adapters/jira.py: `JiraAdapter`, of the schemas, the check and the mutations in the files beside.
mod Client
mod Payloads
mod Preconditions
mod Mutations
pub mod Drift
pub mod Writes
pub mod Service
unfoldable pub use Client.*
unfoldable pub use Payloads.*
unfoldable pub use Preconditions.*
unfoldable pub use Mutations.*
use Prim.Native.Char.{code}
use deep_agent_blueprint.Prelude.{String, List, [], ◌∷◌, ◌==◌, ◌&&◌, eqb, if◌then◌else◌}
use deep_agent_blueprint.Prelude.Exec.{err}
use deep_agent_blueprint.Schemas.{other_error}
use deep_agent_blueprint.Deps.{user_pat, DomainAdapter}

-- `base_url.rstrip("/")`
unfoldable pub rstrip_slash : String → String
rstrip_slash String.[] = ""
rstrip_slash (String.◌∷◌ c s) =
    let rest = rstrip_slash s in if rest == "" && eqb (code c) b'/' then "" else String.◌∷◌ c rest

module _ (h : Http) where
  abbrev pub editable_fields : String → List String
  editable_fields action_type = if action_type == "add_comment" then "body" ∷ [] else []

  -- `JiraAdapter(base_url)`; `service_credentials` is the base class's, which raises
  abbrev pub jira_adapter : String → DomainAdapter
  jira_adapter base_url = record {
    Target = h.Site;
    name = "jira";
    auth_mode = user_pat;
    action_schemas = action_schemas h;
    editable_fields = editable_fields;
    check_preconditions = check_preconditions h;
    execute = execute h (rstrip_slash base_url);
    service_credentials = err other_error;
  }
