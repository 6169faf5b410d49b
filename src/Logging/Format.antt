-- ===== src/Logging/Format.antt =====
-- app/observability/logging.py: the JSON line of a log record, `configure_logging` and `log_event`.
-- `dumps` is json.dumps with this module's arguments; the text of a traceback is the list of its lines.
use Prim.Native.Char.{code}
use Prim.Native.String.{◌++◌ as ◌<>◌}
use deep_agent_blueprint.Prelude.{
  String, Bool, true, Option, none, some, List, [], ◌∷◌, ◌==◌, if◌then◌else◌, not, lookup, keys,
  Dict, all, contains,
}
use deep_agent_blueprint.Json.{Json, Object, null, str, truthy}
use deep_agent_blueprint.Deps.{Settings}
use deep_agent_blueprint.Correlation.{Context}
use deep_agent_blueprint.Logging.{Text, redact, register_secret}

-- the code points of a text
unfoldable pub text_of : String → Text
text_of String.[] = []
text_of (String.◌∷◌ c s) = code c ∷ text_of s

-- A `logging.LogRecord`, as far as the formatter reads it: `getMessage()`, the attributes that `extra`
-- gave it, and the traceback of `exc_info`.
pub record LogRecord : Type 0 where
  pub levelname : String
  pub message : String
  pub extra : Object
  pub traceback : Option (List String)

abbrev or_null : Option String → Json
or_null none = null
or_null (some t) = str t

-- `getattr(record, name, None) or var.get()`
unfoldable pub or_variable : Option Json → Option String → Json
or_variable none variable = or_null variable
or_variable (some v) variable = if truthy v then v else or_null variable

-- `getattr(record, name, None)`
abbrev pub attribute : Option Json → Json
attribute none = null
attribute (some v) = v

-- `" | ".join(lines)`
abbrev joined : List String → String
joined [] = ""
joined (line ∷ []) = line
joined (line ∷ rest) = line <> (" | " <> joined rest)

-- `line for line in lines if line`
abbrev non_empty : List String → List String
non_empty [] = []
non_empty (line ∷ lines) = let rest = non_empty lines in if line == "" then rest else line ∷ rest

abbrev pub exception_field : Option (List String) → Object
exception_field none = []
exception_field (some lines) = ("exception", str (joined (non_empty lines))) ∷ []

-- `RedactingJsonFormatter`
pub record Formatter : Type 0 where
  pub service : String
  pub domain : String
  pub env : String

-- the payload of `format`
unfoldable pub payload : Formatter → String → Context → LogRecord → Object
payload f now c r =
    ("timestamp", str now)
    ∷ ("level", str r.levelname)
    ∷ ("service", str f.service)
    ∷ ("domain", str f.domain)
    ∷ ("env", str f.env)
    ∷ ("correlation_id", or_variable (lookup "correlation_id" r.extra) c.correlation_id)
    ∷ ("request_id", or_variable (lookup "request_id" r.extra) c.request_id)
    ∷ ("job_id", or_variable (lookup "job_id" r.extra) c.job_id)
    ∷ ("action_id", or_variable (lookup "action_id" r.extra) c.action_id)
    ∷ ("consumer_id", or_variable (lookup "consumer_id" r.extra) c.consumer_id)
    ∷ ("event", attribute (lookup "event" r.extra))
    ∷ ("duration_ms", attribute (lookup "duration_ms" r.extra))
    ∷ ("status", attribute (lookup "status" r.extra))
    ∷ ("message", str r.message)
    ∷ exception_field r.traceback

-- `format`, with the secrets that are registered
unfoldable pub format :
    (Object → Text) → List Text → Formatter → String → Context → LogRecord → Text
format dumps secrets f now c r = redact secrets (dumps (payload f now c r))

abbrev pub build_formatter : Settings → Formatter
build_formatter s = record { service = s.service_name; domain = s.domain; env = s.env }

-- What `configure_logging` sets: the root logger's handlers and level, whether uvicorn's access log is
-- off, and the registered secrets.
pub record LoggingState : Type 0 where
  pub handlers : List Formatter
  pub level : String
  pub access_log_disabled : Bool
  pub secrets : List Text

unfoldable pub register_keys : Dict String → List Text → List Text
register_keys [] secrets = secrets
register_keys ((consumer_id, key) ∷ rest) secrets =
    register_keys rest (register_secret (some (text_of key)) secrets)

unfoldable pub configure_logging : Settings → LoggingState → LoggingState
configure_logging s state = record {
  handlers = build_formatter s ∷ [];
  level = "INFO";
  access_log_disabled = true;
  secrets = register_keys s.api_keys state.secrets;
}

-- the names that `Logger.makeRecord` refuses in `extra`
abbrev pub reserved : List String
reserved =
    "message" ∷ "asctime" ∷ "name" ∷ "msg" ∷ "args" ∷ "levelname" ∷ "levelno" ∷ "pathname"
    ∷ "filename" ∷ "module" ∷ "exc_info" ∷ "exc_text" ∷ "stack_info" ∷ "lineno" ∷ "funcName"
    ∷ "created" ∷ "msecs" ∷ "relativeCreated" ∷ "thread" ∷ "threadName" ∷ "processName" ∷ "process"
    ∷ "taskName" ∷ []

-- `logger.log(level, message, extra=extra)` at a level that is on; `none` is a `KeyError`
unfoldable pub make_record : String → String → Object → Option LogRecord
make_record level message extra =
    if all (λ k. not (contains k reserved)) (keys extra)
    then some (record { levelname = level; message = message; extra = extra; traceback = none })
    else none

-- `log_event`
unfoldable pub log_event : String → String → String → Object → Option LogRecord
log_event level event message fields =
    make_record level (if message == "" then event else message) (("event", str event) ∷ fields)
