-- ===== src/Shared/Metrics.antt =====
-- src/event_ledger_common/metrics.py: the counters of `MetricsRegistry`. A `defaultdict` is an
-- association list in which a missing key reads as the default. Durations are floats of milliseconds, in
-- the units of Shared/Binary64.
pub mod Counts
pub mod Requests
pub mod Snapshot
pub mod Tests
use Prim.Native.Nat.{max}
use distr_sys_itrvw.Base.{
  ℕ, ◌+◌, Bool, Option, none, some, List, [], ◌∷◌, ◌++◌, ltb, leb, if◌then◌else◌,
}
use distr_sys_itrvw.Shared.Text.{Text, codes, text_eq}
use distr_sys_itrvw.Shared.Binary64.{float_add}

module _ {V : Type 0} (default : V) where
  -- `d[key]`
  unfoldable pub entry : Text → List (Text × V) → V
  entry key [] = default
  entry key ((k, v) ∷ d) = if text_eq k key then v else entry key d

  -- `d[key] = f(d[key])`
  unfoldable pub update : Text → (V → V) → List (Text × V) → List (Text × V)
  update key f [] = (key, f default) ∷ []
  update key f ((k, v) ∷ d) = if text_eq k key then (k, f v) ∷ d else (k, v) ∷ update key f d

pub record Latency : Type 0 where
  pub count : ℕ
  pub sum : ℕ
  pub maximum : ℕ

abbrev pub no_latency : Latency
no_latency = record { count = 0; sum = 0; maximum = 0 }

pub record MetricsRegistry : Type 0 where
  pub request_counts : List (Text × ℕ)
  pub error_counts : List (Text × ℕ)
  pub domain_counts : List (Text × ℕ)
  pub latency_ms : List (Text × Latency)

abbrev pub empty_registry : MetricsRegistry
empty_registry = record {
  request_counts = [];
  error_counts = [];
  domain_counts = [];
  latency_ms = [];
}

abbrev pub add_latency : ℕ → Latency → Latency
add_latency duration l = record {
  count = l.count + 1;
  sum = float_add l.sum duration;
  maximum = max l.maximum duration;
}

unfoldable pub record_request : Text → Text → ℕ → ℕ → MetricsRegistry → MetricsRegistry
record_request method path status_code duration m =
    let key = method ++ (codes " " ++ path) in
    record m {
      request_counts = update 0 key (λ n. n + 1) m.request_counts;
      error_counts =
          if leb 500 status_code then update 0 key (λ n. n + 1) m.error_counts else m.error_counts;
      latency_ms = update no_latency key (add_latency duration) m.latency_ms;
    }

-- `none` is the `ValueError` of an amount below 1.
unfoldable pub record_domain_event : Text → ℕ → MetricsRegistry → Option MetricsRegistry
record_domain_event name amount m =
    if ltb amount 1
    then none
    else some (record m { domain_counts = update 0 name (λ n. n + amount) m.domain_counts })

-- The handlers count by one, which never raises.
unfoldable pub count_event : Text → MetricsRegistry → MetricsRegistry
unfolding record_domain_event
count_event name m = elim (record_domain_event name 1 m) [ none ↦ m | some m' ↦ m' ]
