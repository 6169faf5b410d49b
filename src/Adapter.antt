-- ===== src/Adapter.antt =====
-- app/adapters/base.py and app/adapters/__init__.py: what the core does with an adapter
-- (`validate_payload`, `resolve_credentials`). The adapter itself is `DomainAdapter` of Deps.
use deep_agent_blueprint.Prelude.{String, Option, none, some, Dict, lookup, ◌≡◌, ap}
use deep_agent_blueprint.Prelude.Exec.{Result, ok, err}
use deep_agent_blueprint.Json.{Json, Object}
use deep_agent_blueprint.Schemas.{Failure, unsupported, payload_invalid}
use deep_agent_blueprint.Deps.{
  DomainAdapter, AuthMode, user_pat, service_credential, no_credential, DownstreamCredentials,
}

-- `schema.model_validate(payload)`: the errors it reports, if any
checked : String → Option Json → Result Failure Unit
checked action_type none = ok tt
checked action_type (some errors) = err (payload_invalid action_type errors)

validated : String → Object → Option (Object → Option Json) → Result Failure Unit
validated action_type payload none = err (unsupported action_type)
validated action_type payload (some schema) = checked action_type (schema payload)

-- `validate_payload` over the adapter's `action_schemas()`
unfoldable pub validate_by : Dict (Object → Option Json) → String → Object → Result Failure Unit
unfolding validated checked
validate_by schemas action_type payload = validated action_type payload (lookup action_type schemas)

unfoldable pub validate_payload : DomainAdapter → String → Object → Result Failure Unit
unfolding validate_by validated checked
validate_payload a action_type payload = validate_by a.action_schemas action_type payload

credentials_for : AuthMode → DomainAdapter → Option String → Result Failure DownstreamCredentials
credentials_for user_pat a token = ok (record { user_token = token; service_key = none })
credentials_for service_credential a token = a.service_credentials
credentials_for no_credential a token = ok (record { user_token = none; service_key = none })

unfoldable pub resolve_credentials :
    DomainAdapter → Option String → Result Failure DownstreamCredentials
unfolding credentials_for
resolve_credentials a token = credentials_for a.auth_mode a token

-- In a USER_PAT domain the credentials are the user's token.
pub resolve_credentials-user_pat :
    (a : DomainAdapter) (token : Option String)
    → a.auth_mode ≡ user_pat
    → resolve_credentials a token ≡ ok (record { user_token = token; service_key = none })
unfolding resolve_credentials
resolve_credentials-user_pat a token h = ap (λ m. credentials_for m a token) h
