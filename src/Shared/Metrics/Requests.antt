-- ===== src/Shared/Metrics/Requests.antt =====
-- What `MetricsRegistry` of src/event_ledger_common/metrics.py holds after a sequence of requests.
use Prim.Native.Nat.{max}
use distr_sys_itrvw.Base.{
  ℕ, ◌+◌, ◌≡◌, refl, ap, ◌∙◌, List, [], ◌∷◌, ◌++◌, leb, arith, Bool-cases, inl, inr, if◌then◌else◌,
}
use distr_sys_itrvw.Base.Lists.{length}
use distr_sys_itrvw.Shared.Text.{Text, codes, text_eq}
use distr_sys_itrvw.Shared.Binary64.{float_add}
use distr_sys_itrvw.Shared.Rows.{select}
use distr_sys_itrvw.Shared.Metrics.{
  empty_registry, entry, update, Latency, no_latency, MetricsRegistry, add_latency, record_request,
}
use distr_sys_itrvw.Shared.Metrics.Counts.{entry-update, entry_same}

-- The arguments of a call of `record_request`.
pub record Completed : Type 0 where
  pub method : Text
  pub path : Text
  pub status_code : ℕ
  pub duration_ms : ℕ

-- The calls, one after the other.
abbrev pub record_all : List Completed → MetricsRegistry → MetricsRegistry
record_all [] m = m
record_all (r ∷ rs) m = record_all rs (record_request r.method r.path r.status_code r.duration_ms m)

abbrev pub route : Completed → Text
route r = r.method ++ (codes " " ++ r.path)

-- The requests of a route, and those that failed.
abbrev pub on_route : Text → List Completed → List Completed
on_route key rs = select (λ r. text_eq (route r) key) rs

abbrev pub failures : List Completed → List Completed
failures rs = select (λ r. leb 500 r.status_code) rs

-- The durations added to a float, in order.
abbrev pub added : ℕ → List Completed → ℕ
added s [] = s
added s (r ∷ rs) = added (float_add s r.duration_ms) rs

abbrev pub greatest : List Completed → ℕ
greatest [] = 0
greatest (r ∷ rs) = max r.duration_ms (greatest rs)

-- A latency after the requests.
abbrev after : List Completed → Latency → Latency
after rs l = record {
  count = l.count + length rs;
  sum = added l.sum rs;
  maximum = max l.maximum (greatest rs);
}

update_at :
    {V : Type 0} (default : V) (k key : Text) (f : V → V) (d : List (Text × V))
    → entry default key (update default k f d)
      ≡ (if text_eq k key then f (entry default key d) else entry default key d)
update_at default k key f d = elim (Bool-cases (text_eq k key)) [
  | inl same ↦
      rw (entry-update default k key f d) (rw same (ap f (entry_same default k key d same)))
  | inr apart ↦ rw (entry-update default k key f d) (rw apart refl)
]

after-add_latency :
    (r : Completed) (rs : List Completed) (l : Latency)
    → after rs (add_latency r.duration_ms l) ≡ after (r ∷ rs) l
after-add_latency r rs l =
    let c : l.count + 1 + length rs ≡ l.count + length (r ∷ rs) = omega arith in
    let g : max (max l.maximum r.duration_ms) (greatest rs) ≡ max l.maximum (greatest (r ∷ rs)) =
      omega arith in
    λ i. record { count = c i; sum = added (float_add l.sum r.duration_ms) rs; maximum = g i }

after-nil : (l : Latency) → l ≡ after [] l
after-nil l =
    let c : l.count ≡ l.count + 0 = omega arith in
    let g : l.maximum ≡ max l.maximum 0 = omega arith in
    λ i. record { count = c i; sum = l.sum; maximum = g i }

module _ (key : Text) where
  requests_step :
      (rs : List Completed) (m : MetricsRegistry)
      → entry 0 key (record_all rs m).request_counts
        ≡ entry 0 key m.request_counts + length (on_route key rs)
  unfolding select record_request
  requests_step [] m = omega arith
  requests_step (r ∷ rs) m =
      requests_step rs (record_request r.method r.path r.status_code r.duration_ms m)
      ∙ (rw (update_at 0 (route r) key (λ n. n + 1) m.request_counts)
          (elim (Bool-cases (text_eq (route r) key)) [
            | inl same ↦ rw same (omega arith)
            | inr apart ↦ rw apart refl
          ]))

  latency_step :
      (rs : List Completed) (m : MetricsRegistry)
      → entry no_latency key (record_all rs m).latency_ms
        ≡ after (on_route key rs) (entry no_latency key m.latency_ms)
  unfolding select record_request
  latency_step [] m = after-nil (entry no_latency key m.latency_ms)
  latency_step (r ∷ rs) m =
      latency_step rs (record_request r.method r.path r.status_code r.duration_ms m)
      ∙ (rw (update_at no_latency (route r) key (add_latency r.duration_ms) m.latency_ms)
          (elim (Bool-cases (text_eq (route r) key)) [
            | inl same ↦
                rw same (after-add_latency r (on_route key rs) (entry no_latency key m.latency_ms))
            | inr apart ↦ rw apart refl
          ]))

  errors_step :
      (rs : List Completed) (m : MetricsRegistry)
      → entry 0 key (record_all rs m).error_counts
        ≡ entry 0 key m.error_counts + length (failures (on_route key rs))
  unfolding select record_request
  errors_step [] m = omega arith
  errors_step (r ∷ rs) m =
      errors_step rs (record_request r.method r.path r.status_code r.duration_ms m)
      ∙ (elim (Bool-cases (leb 500 r.status_code)) [
        | inl failed ↦ rw failed (
            rw (update_at 0 (route r) key (λ n. n + 1) m.error_counts)
              (elim (Bool-cases (text_eq (route r) key)) [
                | inl same ↦ rw same (rw failed (omega arith))
                | inr apart ↦ rw apart refl
              ]))
        | inr fine ↦ rw fine (elim (Bool-cases (text_eq (route r) key)) [
          | inl same ↦ rw same (rw fine refl)
          | inr apart ↦ rw apart refl
        ])
      ])

-- After any requests, recorded one after the other in an empty registry, every route has as many
-- requests as were recorded under it, as many errors as there are among these with a status of at least
-- 500, and a latency whose count is the number of these requests, whose sum is that of their durations,
-- added as floats in their order, and whose maximum is the greatest of their durations.
pub record_all-totals :
    (rs : List Completed) (key : Text)
    → let m = record_all rs empty_registry in
      let recorded = on_route key rs in
      (entry 0 key m.request_counts ≡ length recorded)
      × (entry 0 key m.error_counts ≡ length (failures recorded))
      × (entry no_latency key m.latency_ms
          ≡ record { count = length recorded; sum = added 0 recorded; maximum = greatest recorded })
unfolding entry
record_all-totals rs key =
    let recorded = on_route key rs in
    let z : (n : ℕ) → 0 + n ≡ n = λ n. omega arith in
    let g : max 0 (greatest recorded) ≡ greatest recorded = omega arith in
    (
      requests_step key rs empty_registry ∙ z (length recorded),
      errors_step key rs empty_registry ∙ z (length (failures recorded)),
      latency_step key rs empty_registry
          ∙ (λ i. record { count = z (length recorded) i; sum = added 0 recorded; maximum = g i }),
    )
