-- ===== src/Main/Answers.antt =====
-- app/main.py: how requests are answered, and which correlation id the answer has.
use deep_agent_blueprint.Prelude.{ℕ, ◌≡◌, refl, some, Option-cases, inl, inr}
use deep_agent_blueprint.Prelude.Exec.{Result, ok, err}
use deep_agent_blueprint.Schemas.{Failure, api_error, internal_error, no_details}
use deep_agent_blueprint.Deps.{Deps, World}
use deep_agent_blueprint.App.{App, current, bound, current_correlation_id_lem}
use deep_agent_blueprint.Correlation.{HeaderLines, Sent, or_text, entered, correlation_middleware}
use deep_agent_blueprint.Correlation.Header.{traced, CarriesOnly, send_wrapper-CarriesOnly}
use deep_agent_blueprint.Main.{
  Reply, answered, refused, error_response, handle_api_error, handle_unexpected, answer, serve,
}

bound-current : ⦃d : Deps⦄ (w : World d) → (bound w).correlation_id ≡ some (current w)
bound-current w = elim (Option-cases w.correlation_id) [
  | inl none_yet ↦ rw none_yet refl
  | inr (cid, set) ↦ rw set refl
]

module _ ⦃d : Deps⦄ {A : Type 0} (request_lines lines : HeaderLines) (status : ℕ) (handler : App A)
    (w : World d) where
  -- the state with the context variables of before
  abbrev pub left : World d → World d
  left after = record after {
    correlation_id = w.correlation_id;
    correlation_from_header = w.correlation_from_header;
  }

  -- What is sent where the handler ends with `r` in the state `after`.
  abbrev pub Delivered : Result Failure A → World d → Sent (Reply A) → Type 0
  Delivered (ok a) after s =
      (s.reply ≡ answered status a)
      × CarriesOnly (or_text after.correlation_id (traced request_lines w)) lines s.header_lines
  Delivered (err (api_error n code what)) after s =
      (s.reply
        ≡ refused (record {
          status_code = n;
          code = code;
          details = what;
          correlation_id = current after;
        }))
      × CarriesOnly (or_text (some (current after)) (traced request_lines w)) lines s.header_lines
  Delivered (err e) after s =
      (s.reply
        ≡ refused (record {
          status_code = 500;
          code = internal_error;
          details = no_details;
          correlation_id = current (left after);
        }))
      × (s.header_lines ≡ lines)

  delivered :
      (q : Result Failure A × World d)
      → handler (entered request_lines w) ≡ q
      → (s : Sent (Reply A)) × ((serve request_lines lines (answer status handler) w).0 ≡ ok s)
        × Delivered q.0 q.1 s
  unfolding serve answer handle_api_error handle_unexpected error_response correlation_middleware
  delivered (ok a, after) h = rw h (
    _,
    refl,
    (refl, send_wrapper-CarriesOnly (traced request_lines w) after.correlation_id lines),
  )
  delivered (err (api_error n code what), after) h =
      rw (h, current_correlation_id_lem after)
        (
          _,
          refl,
          (
            refl,
            rw (bound-current after)
                (send_wrapper-CarriesOnly (traced request_lines w) (some (current after)) lines),
          ),
        )
  delivered (err e, after) h =
      rw (h, current_correlation_id_lem (left after)) (_, refl, (refl, refl))

  -- Every request is answered, whatever its handler does. A result goes out with its status; an ApiError
  -- with its own status, code and details; any other exception as a bare 500, the same for all of them.
  -- The first two carry exactly one correlation header, with the id that is bound when they are
  -- sent, and an error body names that id; the third has none, and its body an id drawn after the
  -- request's own was unbound, where none was bound before.
  pub serve-Delivered :
      (s : Sent (Reply A)) × ((serve request_lines lines (answer status handler) w).0 ≡ ok s)
      × Delivered (handler (entered request_lines w)).0 (handler (entered request_lines w)).1 s
  serve-Delivered = delivered (handler (entered request_lines w)) refl
