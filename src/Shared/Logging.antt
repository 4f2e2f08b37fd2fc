-- ===== src/Shared/Logging.antt =====
-- src/event_ledger_common/logging.py: the formatter, the filter and the registry of loggers. The clock's
-- text, the values of the extra fields, and `json.dumps` are parameters.
pub mod Lines
pub mod Setup
use distr_sys_itrvw.Base.{Bool, true, false, Option, none, some, List, [], ◌∷◌, ◌++◌, if◌then◌else◌}
use distr_sys_itrvw.Shared.Text.{Text, codes, text_eq}

-- `getattr(record, key, None)`, and `d.get(key)`.
unfoldable pub lookup {ℓ} : {V : Type ℓ} → Text → List (Text × V) → Option V
unfolding text_eq
lookup key [] = none
lookup key ((k, v) ∷ d) = if text_eq k key then some v else lookup key d

-- A `LogRecord`: `trace_id` is there once the filter has run, `extra` has the fields of the call that are
-- not `None`, `exception` is the text of `exc_info`.
pub record LogRecord (V : Type 0) : Type 0 where
  pub levelname : Text
  pub message : Text
  pub trace_id : Option Text
  pub extra : List (Text × V)
  pub exception : Option Text

-- `TraceContextFilter.filter`
unfoldable pub filter : {V : Type 0} → Text → LogRecord V → Bool × LogRecord V
filter context r = (true, record r { trace_id = some context })

abbrev pub optional_keys : List Text
optional_keys =
    codes "http_method"
    ∷ codes "path"
    ∷ codes "status_code"
    ∷ codes "duration_ms"
    ∷ codes "event_id"
    ∷ codes "account_id"
    ∷ codes "attempt"
    ∷ codes "error"
    ∷ []

abbrev pub or_context : Option Text → Text → Text
or_context none context = context
or_context (some trace_id) context = trace_id

module _ {V : Type 0} (string : Text → V) where
  abbrev pub field_if : Text → Option V → List (Text × V)
  field_if key none = []
  field_if key (some v) = (key, v) ∷ []

  -- The loop over the optional keys.
  unfoldable pub copied : List Text → List (Text × V) → List (Text × V)
  unfolding lookup
  copied [] extra = []
  copied (key ∷ keys) extra = field_if key (lookup key extra) ++ copied keys extra

  abbrev pub exception_field : Option Text → List (Text × V)
  exception_field none = []
  exception_field (some t) = (codes "exception", string t) ∷ []

  abbrev pub stamp_fields : Text → Text → Text → LogRecord V → List (Text × V)
  stamp_fields now service context r =
      (codes "timestamp", string now)
      ∷ (codes "level", string r.levelname)
      ∷ (codes "service", string service)
      ∷ (codes "trace_id", string (or_context r.trace_id context))
      ∷ (codes "message", string r.message)
      ∷ []

  -- The payload of `JsonFormatter.format`. No key of the later parts stands in an earlier one, so that
  -- assigning to it appends.
  unfoldable pub payload : Text → Text → Text → LogRecord V → List (Text × V)
  unfolding copied
  payload now service context r =
      stamp_fields now service context r
      ++ (copied optional_keys r.extra ++ exception_field r.exception)

  -- `JsonFormatter.format`
  unfoldable pub format : (List (Text × V) → Text) → Text → Text → Text → LogRecord V → Text
  unfolding payload
  format dumps now service context r = dumps (payload now service context r)

-- A handler, by the service that its `JsonFormatter` stamps; it carries the filter.
pub record Handler : Type 0 where
  pub service_name : Text

pub record Logger : Type 0 where
  pub info : Bool
  pub propagate : Bool
  pub handlers : List Handler

-- What `logging.getLogger` makes of a new name.
abbrev pub new_logger : Logger
new_logger = record { info = false; propagate = true; handlers = [] }

-- The loggers of `logging`, and `_CONFIGURED_LOGGERS`.
pub record Loggers : Type 0 where
  pub logger : Text → Logger
  pub configured : List Text

unfoldable pub is_configured : Text → List Text → Bool
unfolding text_eq
is_configured name [] = false
is_configured name (n ∷ ns) = if text_eq n name then true else is_configured name ns

abbrev pub with_logger : Text → Logger → (Text → Logger) → Text → Logger
with_logger name l loggers n = if text_eq n name then l else loggers n

-- `get_logger`
unfoldable pub get_logger : Text → Loggers → Logger × Loggers
unfolding is_configured
get_logger service_name s =
    let levelled = record (s.logger service_name) { info = true; propagate = false } in
    if is_configured service_name s.configured
    then (levelled, record s { logger = with_logger service_name levelled s.logger })
    else (let made = record levelled { handlers = record { service_name = service_name } ∷ [] } in
        (
          made,
          record {
            logger = with_logger service_name made s.logger;
            configured = service_name ∷ s.configured;
          },
        ))
