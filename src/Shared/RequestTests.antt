-- ===== src/Shared/RequestTests.antt =====
-- A request with its log line, its headers and its counters, and the theorems about these at it.
use distr_sys_itrvw.Base.{
  ℕ, ◌+◌, ◌≤◌, ◌≡◌, refl, true, false, Option, none, some, List, [], ◌∷◌, if◌then◌else◌, ◌==◌,
}
use distr_sys_itrvw.Shared.Text.{Text, codes, text_eq, text_eq_refl}
use distr_sys_itrvw.Shared.Time.{Timed}
use distr_sys_itrvw.Shared.Time.Parse.{parse_timestamp}
use distr_sys_itrvw.Shared.Trace.{trace_header, traceparent_header, trace_id_from_headers, no_trace}
use distr_sys_itrvw.Shared.Binary64.{binary64, float_sub, float_mul}
use distr_sys_itrvw.Shared.Metrics.{empty_registry, entry, no_latency, record_request}
use distr_sys_itrvw.Shared.Metrics.Counts.{empty-IsCounted, record_request-IsCounted}
use distr_sys_itrvw.Shared.Metrics.Snapshot.{Rounding, snapshot, summary, snapshot-IsCounted}
use distr_sys_itrvw.Shared.Logging.{
  Loggers, LogRecord, new_logger, lookup, filter, payload, is_configured, get_logger,
}
use distr_sys_itrvw.Shared.Logging.Setup.{IsConfigured, get_logger-IsConfigured}
use distr_sys_itrvw.Shared.Logging.Lines.{payload-filter}
use distr_sys_itrvw.Shared.Middleware.{
  Headers, IsHeaders, Incoming, Called, responded, Observed, Values, completed, elapsed_ms,
  trace_metrics_logging,
}
use distr_sys_itrvw.Shared.Middleware.Correlation.{IsTraced, trace_metrics_logging-IsTraced}
use distr_sys_itrvw.Shared.Contracts.{EventRecord, applied, ok}
use distr_sys_itrvw.Shared.Contracts.Samples.{sample_platform}
use distr_sys_itrvw.Shared.Contracts.Payloads.{noon, noon-IsUtc, salary}
use distr_sys_itrvw.Shared.Contracts.Wire.{Encoding, sent}
use distr_sys_itrvw.Shared.Contracts.Records.{EventJson, event_dump, event_dump-reads}
use distr_sys_itrvw.Shared.Decimal.{Decimal}

abbrev fresh_loggers : Loggers
fresh_loggers = record { logger = λ name. new_logger; configured = [] }

fresh-IsConfigured : IsConfigured (get_logger (codes "event-gateway") fresh_loggers).1
unfolding is_configured
fresh-IsConfigured =
    (get_logger-IsConfigured (codes "event-gateway") fresh_loggers (λ name h. absurd cc)).0

logger_configured :
    let s = (get_logger (codes "event-gateway") fresh_loggers).1 in
    IsConfigured (get_logger (codes "event-gateway") s).1
    × ((get_logger (codes "event-gateway") s).0 ≡ record {
      info = true;
      propagate = false;
      handlers = record { service_name = codes "event-gateway" } ∷ [];
    })
    × (is_configured (codes "event-gateway") (get_logger (codes "event-gateway") s).1.configured
        ≡ true)
logger_configured =
    get_logger-IsConfigured (codes "event-gateway")
      (get_logger (codes "event-gateway") fresh_loggers).1 fresh-IsConfigured

-- Values are texts.
abbrev values : Values Text
values = record { string = λ s. s; number = λ n. n ∷ []; milliseconds = λ n. n ∷ [] }

abbrev the_line : LogRecord Text
the_line = completed values (codes "POST") (codes "/events") 201 7

the_line_carried :
    let line =
      payload
        (λ s. s)
        (codes "now")
        (codes "event-gateway")
        (codes "t")
        (filter (codes "t") the_line).1 in
    (lookup (codes "trace_id") line ≡ some (codes "t"))
    × (lookup (codes "service") line ≡ some (codes "event-gateway"))
    × (lookup (codes "message") line ≡ some (codes "request completed"))
    × (lookup (codes "status_code") line ≡ some (201 ∷ []))
    × (lookup (codes "exception") line ≡ none)
unfolding text_eq lookup
the_line_carried =
    payload-filter (λ s. s) (codes "now") (codes "event-gateway") (codes "t") the_line
      (codes "status_code") refl

abbrev headers : Headers
headers = record { Map = List (Text × Text); get = lookup; set = λ name value m. (name, value) ∷ m }

headers-IsHeaders : IsHeaders headers
unfolding lookup text_eq
headers-IsHeaders = record {
  get-set = λ name value m. rw (text_eq_refl name) refl;
  get-set_traceparent = λ value m. refl;
}

-- An application that takes five units of time and answers 201.
abbrev app :
    Incoming (List (Text × Text))
    → Observed ℕ Text
    → Called (List (Text × Text)) Text × Option Text × Observed ℕ Text
app req s = (
  responded (record { status_code = 201; headers = []; body = [] }),
  some (codes "/events"),
  record s { app = s.app + 5 },
)

abbrev incoming : Incoming (List (Text × Text))
incoming = record {
  method = codes "POST";
  url_path = codes "/events";
  headers = (trace_header, codes "t") ∷ [];
}

abbrev idle : Observed ℕ Text
idle = record { app = 3; metrics = empty_registry; context = no_trace; log = [] }

abbrev traced_as : Text
traced_as =
    trace_id_from_headers [] (lookup trace_header incoming.headers)
      (lookup traceparent_header incoming.headers)

eight_less_three : elapsed_ms 3 8 ≡ 5000
unfolding elapsed_ms float_mul float_sub binary64
eight_less_three = refl

trace_metrics_logging-IsTraced_example :
    let (answer, s₂) = trace_metrics_logging headers values (λ n. n) app [] [] incoming idle in
    IsTraced headers headers-IsHeaders traced_as
      (responded (record { status_code = 201; headers = []; body = codes "" }))
      answer
    × (s₂.metrics
        ≡ record_request (codes "POST") (codes "/events") 201 (elapsed_ms 3 8) empty_registry)
    × ((line : LogRecord Text) × (s₂.log ≡ line ∷ []) × (line.trace_id ≡ some traced_as))
    × (s₂.context ≡ no_trace)
trace_metrics_logging-IsTraced_example =
    trace_metrics_logging-IsTraced headers headers-IsHeaders values (λ n. n) app (λ req s. refl) []
      [] incoming idle

abbrev rounding : Rounding
rounding = record { Float = ℕ × ℕ; average = λ s n. (s, n); rounded = λ n. (n, 1); zero = (0, 1) }

one_request_reported :
    let m = record_request (codes "GET") (codes "/events") 503 12 empty_registry in
    let s = snapshot rounding m in
    let l = entry (summary rounding no_latency) (codes "GET /events") s.latency in
    let n = entry 0 (codes "GET /events") s.requests in
    (entry 0 (codes "GET /events") s.errors ≤ n)
    × (l.count ≡ n)
    × (l.avg_ms ≡ (
        if n == 0 then (0, 1) else ((entry no_latency (codes "GET /events") m.latency_ms).sum, n)))
one_request_reported =
    snapshot-IsCounted rounding
      (record_request (codes "GET") (codes "/events") 503 12 empty_registry) (codes "GET /events")
      (record_request-IsCounted (codes "GET") (codes "/events") 503 12 empty_registry
        empty-IsCounted)

abbrev whole_numbers : Encoding
whole_numbers = record {
  Float = Decimal;
  float_of = λ d. d;
  decimal_of_float = λ x. x;
  read_datetime = λ s. none;
}

abbrev an_event : EventRecord Text
an_event = record { event = salary; status = applied; created_at = noon; updated_at = noon }

an_event_written :
    (j : EventJson Text Decimal) × (event_dump sample_platform whole_numbers an_event ≡ ok j)
    × (j.payload ≡ sent sample_platform whole_numbers salary)
    × (parse_timestamp j.created_at ≡ Timed.ok noon)
    × (parse_timestamp j.updated_at ≡ Timed.ok noon)
an_event_written =
    event_dump-reads sample_platform whole_numbers an_event noon-IsUtc noon-IsUtc noon-IsUtc
