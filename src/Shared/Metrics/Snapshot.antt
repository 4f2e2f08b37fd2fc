-- ===== src/Shared/Metrics/Snapshot.antt =====
-- `MetricsRegistry.snapshot`: the copy that `GET /metrics` returns. The division and the
-- rounding to three places of floats are a parameter.
use distr_sys_itrvw.Base.{
  ℕ, ◌≤◌, ◌≡◌, refl, ap, List, [], ◌∷◌, ◌==◌, inl, inr, Bool-cases, if◌then◌else◌,
}
use distr_sys_itrvw.Shared.Text.{Text, text_eq}
use distr_sys_itrvw.Shared.Metrics.{MetricsRegistry, Latency, no_latency, entry}
use distr_sys_itrvw.Shared.Metrics.Counts.{IsCounted}

-- `round(total / count, 3)`, `round(value, 3)` and `0.0`.
pub record Rounding : Type 1 where
  pub Float : Type 0
  pub average : ℕ → ℕ → Float
  pub rounded : ℕ → Float
  pub zero : Float

pub record LatencySummary (F : Type 0) : Type 0 where
  pub count : ℕ
  pub avg_ms : F
  pub max_ms : F

pub record Snapshot (F : Type 0) : Type 0 where
  pub requests : List (Text × ℕ)
  pub errors : List (Text × ℕ)
  pub latency : List (Text × LatencySummary F)
  pub domain_events : List (Text × ℕ)

module _ (r : Rounding) where
  open r use {Float}

  unfoldable pub summary : Latency → LatencySummary Float
  summary l = record {
    count = l.count;
    avg_ms = if l.count == 0 then r.zero else r.average l.sum l.count;
    max_ms = r.rounded l.maximum;
  }

  unfoldable pub summaries : List (Text × Latency) → List (Text × LatencySummary Float)
  unfolding summary
  summaries [] = []
  summaries ((key, l) ∷ d) = (key, summary l) ∷ summaries d

  -- `snapshot`
  unfoldable pub snapshot : MetricsRegistry → Snapshot Float
  unfolding summaries
  snapshot m = record {
    requests = m.request_counts;
    errors = m.error_counts;
    latency = summaries m.latency_ms;
    domain_events = m.domain_counts;
  }

  entry-summaries :
      (key : Text) (d : List (Text × Latency))
      → entry (summary no_latency) key (summaries d) ≡ summary (entry no_latency key d)
  unfolding entry summaries
  entry-summaries key [] = refl
  entry-summaries key ((k, l) ∷ d) = elim (Bool-cases (text_eq k key)) [
    | inl same ↦ rw same refl
    | inr apart ↦ rw apart (entry-summaries key d)
  ]

  -- Of a registry that counts no more errors of a route than requests and one latency for each request,
  -- the snapshot reports for every route no more errors than requests, and a latency over exactly as many
  -- requests as it counts, whose average is that of the registry's sum over this count.
  pub snapshot-IsCounted :
      (m : MetricsRegistry) (key : Text)
      → IsCounted m
      → let s = snapshot m in
        let l = entry (summary no_latency) key s.latency in
        let n = entry 0 key s.requests in
        (entry 0 key s.errors ≤ n)
        × (l.count ≡ n)
        × (l.avg_ms
            ≡ (if n == 0 then r.zero else r.average (entry no_latency key m.latency_ms).sum n))
  unfolding snapshot summary
  snapshot-IsCounted m key h = rw (entry-summaries key m.latency_ms) (
    h.errors key,
    h.samples key,
    ap (λ n. if n == 0 then r.zero else r.average (entry no_latency key m.latency_ms).sum n)
        (h.samples key),
  )
