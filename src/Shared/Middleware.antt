-- ===== src/Shared/Middleware.antt =====
-- `trace_metrics_logging_middleware`, which src/gateway_service/main.py and src/account_service/main.py
-- have word for word. The application below it (`call_next`), Starlette's headers and the clock of
-- `time.perf_counter` are parameters.
pub mod Correlation
use distr_sys_itrvw.Base.{ℕ, ◌-◌, ◌≡◌, Bool, false, Option, none, some, List, [], ◌∷◌, ◌++◌}
use distr_sys_itrvw.Shared.Text.{Text, codes}
use distr_sys_itrvw.Shared.Trace.{
  trace_header, traceparent_header, trace_id_from_headers, traceparent_from_trace_id, get_trace_id,
  set_trace_id, reset_trace_id,
}
use distr_sys_itrvw.Shared.Binary64.{float_sub, float_mul}
use distr_sys_itrvw.Shared.Metrics.{MetricsRegistry, record_request}
use distr_sys_itrvw.Shared.Logging.{LogRecord, filter}

-- Starlette's headers.
pub record Headers : Type 1 where
  pub Map : Type 0
  pub get : Text → Map → Option Text
  pub set : Text → Text → Map → Map

-- What was set under one of the two names is read under it, and setting one leaves the other.
pub record IsHeaders (h : Headers) : Type 1 where
  pub get-set : (name value : Text) (m : h.Map) → h.get name (h.set name value m) ≡ some value
  pub get-set_traceparent :
      (value : Text) (m : h.Map)
      → h.get trace_header (h.set traceparent_header value m) ≡ h.get trace_header m

pub record Incoming (H : Type 0) : Type 0 where
  pub method : Text
  pub url_path : Text
  pub headers : H

pub record Response (H B : Type 0) : Type 0 where
  pub status_code : ℕ
  pub headers : H
  pub body : B

-- What `await call_next(request)` does: it returns a response, or it raises.
pub data Called (H B : Type 0) : Type 0 where
  responded : Response H B → Called H B
  raised : Called H B

-- The state that the middleware touches: the registry, the context variable of its task, the log records
-- written; and the rest of the application.
pub record Observed (S V : Type 0) : Type 0 where
  pub app : S
  pub metrics : MetricsRegistry
  pub context : Text
  pub log : List (LogRecord V)

-- The values of the extra fields: a text, a whole number, and `round(duration_ms, 3)` of a float.
pub record Values (V : Type 0) : Type 0 where
  pub string : Text → V
  pub number : ℕ → V
  pub milliseconds : ℕ → V

abbrev pub status_of : {H B : Type 0} → Called H B → ℕ
status_of (responded r) = r.status_code
status_of raised = 500

-- `getattr(route, "path", request.url.path)`
abbrev pub or_url : Option Text → Text → Text
or_url none url = url
or_url (some path) url = path

abbrev pub completed : {V : Type 0} → Values V → Text → Text → ℕ → ℕ → LogRecord V
completed v method path status duration = record {
  levelname = codes "INFO";
  message = codes "request completed";
  trace_id = none;
  extra =
      (codes "http_method", v.string method)
      ∷ (codes "path", v.string path)
      ∷ (codes "status_code", v.number status)
      ∷ (codes "duration_ms", v.milliseconds duration)
      ∷ [];
  exception = none;
}

-- `(time.perf_counter() - started) * 1000`, in floats; the clock never runs back.
unfoldable pub elapsed_ms : ℕ → ℕ → ℕ
elapsed_ms started now = float_mul (float_sub now started) 1000

module _ (h : Headers) where
  open h use {Map}

  abbrev pub with_traceparent : Option Text → Map → Map
  with_traceparent none m = m
  with_traceparent (some traceparent) m = h.set traceparent_header traceparent m

  -- The headers that a response gets.
  abbrev pub traced : {B : Type 0} → Text → Text → Called Map B → Called Map B
  traced fresh trace_id (responded r) = responded (record r {
    headers =
        with_traceparent (traceparent_from_trace_id fresh trace_id)
          (h.set trace_header trace_id r.headers);
  })
  traced fresh trace_id raised = raised

  module _ {S B V : Type 0} (v : Values V) (perf_counter : S → ℕ)
      (call_next : Incoming Map → Observed S V → Called Map B × Option Text × Observed S V) where
    -- What the `finally` clause does, with the clock at the start and the token.
    unfoldable pub finish : ℕ → Text → Incoming Map → ℕ → Option Text → Observed S V → Observed S V
    unfolding reset_trace_id get_trace_id filter
    finish started token req status route s =
        let duration = elapsed_ms started (perf_counter s.app) in
        let path = or_url route req.url_path in
        let line = completed v req.method path status duration in
        record s {
          metrics = record_request req.method path status duration s.metrics;
          log = s.log ++ (filter (get_trace_id s.context) line).1 ∷ [];
          context = reset_trace_id token s.context;
        }

    -- `fresh` and `fresh_span` are what `uuid4().hex` draws. `call_next` also says which route it matched.
    unfoldable pub trace_metrics_logging :
        Text → Text → Incoming Map → Observed S V → Called Map B × Observed S V
    unfolding set_trace_id finish
    trace_metrics_logging fresh fresh_span req s =
        let trace_id =
          trace_id_from_headers fresh (h.get trace_header req.headers)
            (h.get traceparent_header req.headers) in
        let (token, context) = set_trace_id trace_id s.context in
        let (called, route, s') = call_next req (record s { context = context }) in
        (
          traced fresh_span trace_id called,
          finish (perf_counter s.app) token req (status_of called) route s',
        )
