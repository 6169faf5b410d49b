-- ===== src/Samples/Lines.antt =====
-- The log lines of the small service, once its logging is configured.
use deep_agent_blueprint.Prelude.{false, none, some, [], ◌∷◌}
use deep_agent_blueprint.Correlation.{Context}
use deep_agent_blueprint.Json.{Object}
use deep_agent_blueprint.Logging.{Text}
use deep_agent_blueprint.Logging.Format.{LogRecord, LoggingState}

abbrev unset : LoggingState
unset = record { handlers = []; level = "WARNING"; access_log_disabled = false; secrets = [] }

-- every object is written as one of the keys
abbrev dumps : Object → Text
dumps o = b'{' ∷ (b's' ∷ b'e' ∷ b'c' ∷ b'r' ∷ b'e' ∷ b't' ∷ b'-' ∷ b'1' ∷ (b'}' ∷ []))

abbrev record_1 : LogRecord
record_1 = record { levelname = "INFO"; message = "secret-1"; extra = []; traceback = none }

abbrev context_1 : Context
context_1 = record {
  correlation_id = some "corr-1";
  request_id = none;
  job_id = none;
  action_id = none;
  consumer_id = none;
}
