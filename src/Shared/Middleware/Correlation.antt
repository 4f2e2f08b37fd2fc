-- ===== src/Shared/Middleware/Correlation.antt =====
-- One request, one trace identifier: in the context, in the response, and in the log line.
use distr_sys_itrvw.Base.{ℕ, ◌≡◌, refl, ap, ◌∙◌, Option, none, some, [], ◌∷◌, ◌++◌}
use distr_sys_itrvw.Shared.Text.{Text}
use distr_sys_itrvw.Shared.Trace.{
  trace_header, traceparent_header, trace_id_from_headers, traceparent_from_trace_id, get_trace_id,
  set_trace_id, reset_trace_id,
}
use distr_sys_itrvw.Shared.Metrics.{record_request}
use distr_sys_itrvw.Shared.Logging.{LogRecord, filter}
use distr_sys_itrvw.Shared.Middleware.{
  Headers, IsHeaders, Incoming, Called, responded, raised, Observed, Values, elapsed_ms, status_of,
  or_url, with_traceparent, traced, finish, trace_metrics_logging,
}

module _ (h : Headers) (laws : IsHeaders h) where
  open h use {Map}

  -- The header of the trace identifier that a response has.
  abbrev pub answered_trace : {B : Type 0} → Called Map B → Option Text
  answered_trace (responded r) = h.get trace_header r.headers
  answered_trace raised = none

  -- A response carries the identifier, and an exception stays one.
  abbrev pub IsTraced : {B : Type 0} → Text → Called Map B → Called Map B → Type 0
  IsTraced trace_id (responded r) answer = answered_trace answer ≡ some trace_id
  IsTraced trace_id raised answer = answer ≡ raised

  trace_kept :
      (o : Option Text) (m : Map)
      → h.get trace_header (with_traceparent h o m) ≡ h.get trace_header m
  trace_kept none m = refl
  trace_kept (some traceparent) m = laws.get-set_traceparent traceparent m

  traced-IsTraced :
      {B : Type 0} (fresh trace_id : Text) (called : Called Map B)
      → IsTraced trace_id called (traced h fresh trace_id called)
  traced-IsTraced fresh trace_id (responded r) =
      trace_kept (traceparent_from_trace_id fresh trace_id) (h.set trace_header trace_id r.headers)
      ∙ laws.get-set trace_header trace_id r.headers
  traced-IsTraced fresh trace_id raised = refl

  module _ {S B V : Type 0} (v : Values V) (perf_counter : S → ℕ)
      (call_next : Incoming Map → Observed S V → Called Map B × Option Text × Observed S V) where
    -- If the application below leaves the trace context as it found it, then the middleware runs it with
    -- the trace identifier of the request's headers as the context, puts the same identifier into the
    -- header of its response, or passes its exception on; records one request in the registry, under its
    -- route and with its status, which is 500 for an exception; appends one line to the log, which has
    -- the same identifier; and restores the context that it found.
    pub trace_metrics_logging-IsTraced :
        ((req : Incoming Map) (s : Observed S V) → (call_next req s).2.context ≡ s.context)
        → (fresh fresh_span : Text) (req : Incoming Map) (s : Observed S V)
        → let trace_id =
            trace_id_from_headers fresh
              (h.get trace_header req.headers)
              (h.get traceparent_header req.headers) in
          let (called, route, s₁) = call_next req (record s { context = trace_id }) in
          let (answer, s₂) =
            trace_metrics_logging h v perf_counter call_next fresh fresh_span req s in
          IsTraced trace_id called answer
          × (s₂.metrics
              ≡ record_request req.method
                  (or_url route req.url_path)
                  (status_of called)
                  (elapsed_ms (perf_counter s.app) (perf_counter s₁.app))
                  s₁.metrics)
          × ((line : LogRecord V) × (s₂.log ≡ s₁.log ++ line ∷ [])
              × (line.trace_id ≡ some trace_id))
          × (s₂.context ≡ s.context)
    unfolding trace_metrics_logging set_trace_id finish get_trace_id filter reset_trace_id
    trace_metrics_logging-IsTraced kept fresh fresh_span req s =
        let trace_id =
          trace_id_from_headers fresh (h.get trace_header req.headers)
            (h.get traceparent_header req.headers) in
        let (called, route, s₁) = call_next req (record s { context = trace_id }) in
        (
          traced-IsTraced fresh_span trace_id called,
          refl,
          (_, refl, ap some (kept req (record s { context = trace_id }))),
          refl,
        )
