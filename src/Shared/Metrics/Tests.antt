-- ===== src/Shared/Metrics/Tests.antt =====
-- Runs of the metrics registry, and the theorem on its totals at such a run.
use distr_sys_itrvw.Base.{ℕ, ◌*◌, ◌^◌, ◌≡◌, refl, false, List, [], ◌∷◌, leb}
use distr_sys_itrvw.Base.Lists.{length}
use distr_sys_itrvw.Shared.Text.{codes, text_eq}
use distr_sys_itrvw.Shared.Rows.{select}
use distr_sys_itrvw.Shared.Binary64.{binary64, float_add}
use distr_sys_itrvw.Shared.Metrics.{empty_registry, entry, no_latency}
use distr_sys_itrvw.Shared.Metrics.Requests.{
  Completed, record_all, on_route, failures, added, greatest, record_all-totals,
}

-- 0.2 milliseconds, the float nearest to it.
abbrev fifth : ℕ
fifth = 7205759403792794 * 2 ^ 1019

abbrev quick : ℕ → Completed
quick status = record {
  method = codes "GET";
  path = codes "/events";
  status_code = status;
  duration_ms = fifth;
}

-- One of the three failed, and a request of another route is apart.
abbrev three_and_one : List Completed
three_and_one =
    quick 200 ∷ quick 503 ∷ record (quick 500) { path = codes "/metrics" } ∷ quick 404 ∷ []

record_all-totals_example :
    let m = record_all three_and_one empty_registry in
    let key = codes "GET /events" in
    (entry 0 key m.request_counts ≡ length (on_route key three_and_one))
    × (entry 0 key m.error_counts ≡ length (failures (on_route key three_and_one)))
    × (entry no_latency key m.latency_ms ≡ record {
      count = length (on_route key three_and_one);
      sum = added 0 (on_route key three_and_one);
      maximum = greatest (on_route key three_and_one);
    })
record_all-totals_example = record_all-totals three_and_one (codes "GET /events")

three_requests : length (on_route (codes "GET /events") three_and_one) ≡ 3
unfolding select text_eq
three_requests = refl

-- As floats, three times 0.2 are more than thrice 0.2: this average is above the maximum.
average_above_maximum : leb (added 0 (quick 200 ∷ quick 503 ∷ quick 404 ∷ [])) (3 * fifth) ≡ false
unfolding float_add binary64
average_above_maximum = refl
