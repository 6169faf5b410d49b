-- ===== src/Main/Refusal.antt =====
-- Requests without a known API key (app/auth/api_key.py) at any endpoint that app/main.py serves.
use mathlib.Core.Path.{subst}
use deep_agent_blueprint.Prelude.{
  ℕ, String, ◌≡◌, refl, Option, none, some, ◌==◌, ◌⊎◌, inl, inr, Bool-cases,
}
use deep_agent_blueprint.Prelude.Exec.{Result, ok, err}
use deep_agent_blueprint.Json.{Json}
use deep_agent_blueprint.Schemas.{api_error, invalid_api_key, no_details}
use deep_agent_blueprint.Deps.{Deps, World}
use deep_agent_blueprint.App.{App, current_correlation_id_lem}
use deep_agent_blueprint.Auth.{Headers, verify_api_key, require_api_key, authenticated}
use deep_agent_blueprint.Correlation.{
  HeaderLines, Sent, cid_of, entered, supplied_id, correlation_middleware, or_text, send_wrapper,
}
use deep_agent_blueprint.Correlation.Header.{traced, CarriesOnly, send_wrapper-CarriesOnly}
use deep_agent_blueprint.Main.{Reply, refused, error_response, handle_api_error, serve, endpoint}

module _ ⦃d : Deps⦄ where
  -- No key, or one that no consumer has.
  abbrev pub IsUnknown : Headers → Type 0
  IsUnknown h =
      (h.api_key ≡ none)
      ⊎ ((k : String) × (h.api_key ≡ some k) × (verify_api_key k d.settings.api_keys ≡ none))

  require_api_key-IsUnknown :
      (h : Headers) (w : World d)
      → IsUnknown h
      → require_api_key h w ≡ (err (api_error 401 invalid_api_key no_details), w)
  unfolding require_api_key
  require_api_key-IsUnknown h w (inl missing) = rw missing refl
  require_api_key-IsUnknown h w (inr (k, given, unknown)) = elim (Bool-cases (k == "")) [
    | inl blank ↦ rw (given, blank) refl
    | inr full ↦ rw (given, full, unknown) refl
  ]

  -- What a request leaves alone: all that the handlers work on.
  abbrev pub Untouched : World d → World d → Type 0
  Untouched w v =
      (v.store ≡ w.store)
      × (v.queue ≡ w.queue)
      × (v.target ≡ w.target)
      × (v.vault ≡ w.vault)
      × (v.clock_reads ≡ w.clock_reads)

  cid_of-Untouched : (o : Option String) (w : World d) → Untouched w (cid_of o w).1
  cid_of-Untouched none w = (refl, refl, refl, refl, refl)
  cid_of-Untouched (some v) w = elim (Bool-cases (v == "")) [
    | inl blank ↦ rw blank (refl, refl, refl, refl, refl)
    | inr full ↦ rw full (refl, refl, refl, refl, refl)
  ]

  or_text_self : (v : String) → or_text (some v) v ≡ v
  or_text_self v = elim (Bool-cases (v == "")) [
    | inl blank ↦ rw blank refl
    | inr full ↦ rw full refl
  ]

  send_wrapper_self :
      (v : String) (lines : HeaderLines) → CarriesOnly v lines (send_wrapper v (some v) lines)
  send_wrapper_self v lines =
      subst (λ u. CarriesOnly u lines (send_wrapper v (some v) lines)) (or_text_self v)
        (send_wrapper-CarriesOnly v (some v) lines)

  module _ {A B : Type 0} (request_lines lines : HeaderLines) (w : World d) where
    -- At every endpoint of app/api/research.py and app/api/execute.py (the health endpoints are not among
    -- them), a request without a known API key, whose body is JSON where it has one, is answered by 401 INVALID_API_KEY, with the id of the request in its one correlation header and its
    -- body, whether or not its body has the form that is wanted; nothing of the store, the queue, the
    -- target system and the vault is changed.
    pub serve-IsUnknown :
        (status : ℕ) (h : Headers) (body : Result Json B)
        (handler : B → String → Option String → App A)
        → IsUnknown h
        → let (q, v) = serve request_lines lines (endpoint status h body handler) w in
          ((s : Sent (Reply A)) × (q ≡ ok s)
            × (s.reply
                ≡ refused (record {
                  status_code = 401;
                  code = invalid_api_key;
                  details = no_details;
                  correlation_id = traced request_lines w;
                }))
            × CarriesOnly (traced request_lines w) lines s.header_lines)
          × Untouched w v
    unfolding serve endpoint handle_api_error error_response correlation_middleware authenticated
    serve-IsUnknown status h body handler unknown =
        rw
          (
            require_api_key-IsUnknown h (entered request_lines w) unknown,
            current_correlation_id_lem (entered request_lines w),
          )
          (
            (_, refl, refl, send_wrapper_self (traced request_lines w) lines),
            cid_of-Untouched (supplied_id request_lines) w,
          )
