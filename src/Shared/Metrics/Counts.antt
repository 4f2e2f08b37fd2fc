-- ===== src/Shared/Metrics/Counts.antt =====
-- The counters after an event and after a request.
use distr_sys_itrvw.Base.{
  ℕ, ◌+◌, ◌≤◌, ◌≡◌, refl, ap, true, List, [], ◌∷◌, ◌++◌, leb, arith, Bool-cases, inl, inr,
  if◌then◌else◌,
}
use distr_sys_itrvw.Shared.Text.{Text, codes, text_eq, text_eq→eq, text_eq_iff}
use distr_sys_itrvw.Shared.Metrics.{
  empty_registry, entry, update, no_latency, MetricsRegistry, record_request, count_event,
}

module _ {V : Type 0} (default : V) where
  pub entry-update :
      (key other : Text) (f : V → V) (d : List (Text × V))
      → entry default other (update default key f d)
        ≡ (if text_eq key other then f (entry default key d) else entry default other d)
  unfolding entry update
  entry-update key other f [] = refl
  entry-update key other f ((k, v) ∷ d) = ground (
    arith,
    entry-update key other f d,
    text_eq_iff k key,
    text_eq_iff k other,
    text_eq_iff key other,
  )

-- Counting an event raises its own counter by one, and changes no other counter of domain events.
pub count_event-entry :
    (name other : Text) (m : MetricsRegistry)
    → entry 0 other (count_event name m).domain_counts ≡ (
        if text_eq name other
        then entry 0 name m.domain_counts + 1
        else entry 0 other m.domain_counts)
count_event-entry name other m =
    unfold count_event in entry-update 0 name other (λ n. n + 1) m.domain_counts

-- Of every route there are no more errors than requests, and as many latencies.
pub record IsCounted (m : MetricsRegistry) : Type 0 where
  pub errors : (key : Text) → entry 0 key m.error_counts ≤ entry 0 key m.request_counts
  pub samples :
      (key : Text) → (entry no_latency key m.latency_ms).count ≡ entry 0 key m.request_counts

pub empty-IsCounted : IsCounted empty_registry
unfolding entry
empty-IsCounted = record { errors = λ key. omega arith; samples = λ key. refl }

pub entry_same :
    {V : Type 0} (default : V) (k key : Text) (d : List (Text × V))
    → text_eq k key ≡ true
    → entry default k d ≡ entry default key d
entry_same default k key d e = ap (λ s. entry default s d) (text_eq→eq k key e)

-- If a registry counts no more errors of a route than requests, and has one latency for each
-- request, then so does the registry after a request was recorded.
pub record_request-IsCounted :
    (method path : Text) (status duration : ℕ) (m : MetricsRegistry)
    → IsCounted m
    → IsCounted (record_request method path status duration m)
record_request-IsCounted method path status duration m h =
    let k = method ++ (codes " " ++ path) in
    unfold record_request in
    record {
      errors = λ key. elim (Bool-cases (leb 500 status)) [
        | inl failed ↦ rw failed (simp entry-update (ground (arith, h.errors k, h.errors key)))
        | inr fine ↦ rw fine (
            simp entry-update (
              ground (
                arith,
                h.errors k,
                h.errors key,
                entry_same 0 k key m.error_counts,
                entry_same 0 k key m.request_counts,
              )))
      ];
      samples = λ key. simp entry-update (ground (arith, h.samples k, h.samples key));
    }
