-- ===== src/Logging/Lines.antt =====
-- What the log lines of app/observability/logging.py hold: the canonical fields, and no API key.
use deep_agent_blueprint.Prelude.{
  ◌≤◌, String, ◌≡◌, refl, true, false, Option, none, some, List, [], ◌∷◌, ◌==◌, not, if◌then◌else◌,
  keys, lookup, Dict, all, contains, length,
}
use deep_agent_blueprint.Json.{Object, str}
use deep_agent_blueprint.Correlation.{Context}
use deep_agent_blueprint.Logging.{Text, min_secret_len, register_secret}
use deep_agent_blueprint.Logging.Format.{
  LogRecord, Formatter, payload, text_of, make_record, log_event, reserved, or_variable,
}

abbrev pub canonical : List String
canonical =
    "timestamp" ∷ "level" ∷ "service" ∷ "domain" ∷ "env" ∷ "correlation_id" ∷ "request_id"
    ∷ "job_id" ∷ "action_id" ∷ "consumer_id" ∷ "event" ∷ "duration_ms" ∷ "status" ∷ "message" ∷ []

abbrev pub exception_key : Option (List String) → List String
exception_key none = []
exception_key (some lines) = "exception" ∷ []

-- later calls of `register_secret`
abbrev pub registered : List (Option Text) → List Text → List Text
registered [] secrets = secrets
registered (v ∷ vs) secrets = registered vs (register_secret v secrets)

-- of the settings' API keys, those that are long enough to be registered
abbrev pub EachKey : (Text → Type 0) → Dict String → Type 0
EachKey P [] = Unit
EachKey P ((consumer_id, key) ∷ rest) =
    (min_secret_len ≤ length (text_of key) → P (text_of key)) × EachKey P rest

-- `log_event` with fields of which none has a name that `logging` reserves makes a record, on which the
-- line is built: the event's name, the message or else the event's name, the level, and for each id the given one
-- or else the context's. With a reserved one, such as `message`, making the record raises KeyError.
pub log_event-IsLogged :
    (f : Formatter) (now : String) (c : Context) (level event message : String) (fields : Object)
    → (all (λ k. not (contains k reserved)) (keys fields) ≡ true
        → (r : LogRecord) × (log_event level event message fields ≡ some r)
          × (lookup "event" (payload f now c r) ≡ some (str event))
          × (lookup "message" (payload f now c r)
              ≡ some (str (if message == "" then event else message)))
          × (lookup "level" (payload f now c r) ≡ some (str level))
          × (lookup "job_id" (payload f now c r)
              ≡ some (or_variable (lookup "job_id" fields) c.job_id))
          × (lookup "action_id" (payload f now c r)
              ≡ some (or_variable (lookup "action_id" fields) c.action_id)))
      × (all (λ k. not (contains k reserved)) (keys fields) ≡ false
          → log_event level event message fields ≡ none)
unfolding log_event make_record payload
log_event-IsLogged f now c level event message fields = (
  λ free. (
    record {
      levelname = level;
      message = if message == "" then event else message;
      extra = ("event", str event) ∷ fields;
      traceback = none;
    },
    rw free refl,
    refl,
    refl,
    refl,
    refl,
    refl,
  ),
  λ taken. rw taken refl,
)
