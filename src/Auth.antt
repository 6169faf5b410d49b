-- ===== src/Auth.antt =====
-- app/auth/api_key.py, app/auth/user_token.py and `principal_hash` of app/state/token_vault.py.
-- `hmac.compare_digest` is equality of texts; the registration of secrets for log redaction is
-- left out.
pub mod Laws
use Prim.Native.String.{◌++◌ as ◌<>◌}
use deep_agent_blueprint.Prelude.{
  String, Bool, true, false, Option, none, some, [], ◌∷◌, ◌==◌, if◌then◌else◌, Dict, is_blank, ◌&&◌,
}
use deep_agent_blueprint.Prelude.Exec.{pure, raise, ◌>>=◌}
use deep_agent_blueprint.Schemas.{api_error, invalid_api_key, missing_user_token, no_details}
use deep_agent_blueprint.Deps.{Deps, AuthMode, user_pat}
use deep_agent_blueprint.App.{App}

-- the loop of `verify_api_key`, which never stops early
scan_keys : String → Option String → Dict String → Option String
scan_keys presented matched [] = matched
scan_keys presented matched ((consumer_id, secret) ∷ rest) =
    scan_keys presented (if secret == presented then some consumer_id else matched) rest

unfoldable pub verify_api_key : String → Dict String → Option String
unfolding scan_keys
verify_api_key presented api_keys = scan_keys presented none api_keys

abbrev pub is_user_pat : AuthMode → Bool
is_user_pat user_pat = true
is_user_pat _ = false

-- the headers that the dependencies read
pub record Headers : Type 0 where
  pub api_key : Option String
  pub user_token : Option String

module _ ⦃d : Deps⦄ where
  unfoldable pub principal_hash : String → String
  principal_hash token = d.sha256 (d.settings.principal_hash_salt <> (":" <> token))

  known_consumer : Option String → App String
  known_consumer none = raise (api_error 401 invalid_api_key no_details)
  known_consumer (some consumer_id) = pure consumer_id

  present_key : Option String → App String
  unfolding known_consumer
  present_key none = raise (api_error 401 invalid_api_key no_details)
  present_key (some presented) =
      if presented == ""
      then raise (api_error 401 invalid_api_key no_details)
      else known_consumer (verify_api_key presented d.settings.api_keys)

  unfoldable pub require_api_key : Headers → App String
  unfolding present_key
  require_api_key h = present_key h.api_key

  unfoldable pub get_user_token : Headers → App (Option String)
  get_user_token h =
      if is_user_pat d.adapter.auth_mode
      then (if is_blank h.user_token
          then raise (api_error 400 missing_user_token no_details)
          else pure h.user_token)
      else pure none

  -- The `Depends` of every endpoint: the handler gets the consumer's id and the user's token.
  unfoldable pub authenticated : {A : Type 0} → Headers → (String → Option String → App A) → App A
  unfolding require_api_key get_user_token
  authenticated h handler = do
    consumer_id ← require_api_key h
    user_token ← get_user_token h
    handler consumer_id user_token
