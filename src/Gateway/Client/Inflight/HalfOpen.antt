-- ===== src/Gateway/Client/Inflight/HalfOpen.antt =====
-- What an open circuit lets through once its reset time has passed.
use distr_sys_itrvw.Base.{ℕ, zero, suc, ◌+◌, ◌≤◌, ◌≡◌, refl, sym, ap, List, [], ◌∷◌, some, arith}
use distr_sys_itrvw.Gateway.Client.{HttpAccountClient, timed_out, circuit_allows}
use distr_sys_itrvw.Gateway.Client.Inflight.{
  Phase, created, sending, Inflight, advance, goes_on, comes_in, Interleaving, none_yet, and_then,
}

module _ {J : Type 0} where
  abbrev pub repeated : ℕ → Phase J → List (Phase J)
  repeated zero q = []
  repeated (suc n) q = q ∷ repeated n q

  -- Another request, which does nothing meanwhile.
  beside :
      (q : Phase J) {s t : Inflight J}
      → Interleaving s t
      → Interleaving
          (record s { requests = q ∷ s.requests })
          (record t { requests = q ∷ t.requests })
  beside q none_yet = none_yet
  beside q (and_then run (goes_on now o before r after at eq)) = and_then (beside q run) (
      goes_on now o (q ∷ before) r after (ap (λ rs. q ∷ rs) at)
        (ap (λ (u : Inflight J). record u { requests = q ∷ u.requests }) eq))
  beside q (and_then run (comes_in eq)) =
      and_then (beside q run)
        (comes_in (ap (λ (u : Inflight J). record u { requests = q ∷ u.requests }) eq))

  advance-created :
      (now opened_at : ℕ) (c : HttpAccountClient)
      → c.circuit_opened_at ≡ some opened_at
      → opened_at + c.circuit_reset_seconds ≤ now
      → advance {J = J} now timed_out created c ≡ (sending 1, c)
  unfolding advance circuit_allows
  advance-created now opened_at c opened passed = rw opened (ground arith)

  -- Once the reset time has passed, an open circuit lets through any number of requests before the first
  -- of them has its response, and stays as it is.
  pub half_open_starts_all :
      (now opened_at n : ℕ) (c : HttpAccountClient)
      → c.circuit_opened_at ≡ some opened_at
      → opened_at + c.circuit_reset_seconds ≤ now
      → Interleaving
          (record { client = c; requests = repeated n created })
          (record { client = c; requests = repeated n (sending 1) })
  half_open_starts_all now opened_at zero c opened passed = none_yet
  half_open_starts_all now opened_at (suc n) c opened passed =
      and_then (beside created (half_open_starts_all now opened_at n c opened passed)) (
        goes_on now timed_out [] created (repeated n (sending 1)) refl (
          ap
            (λ (r : Phase J × HttpAccountClient). record {
              client = r.1;
              requests = r.0 ∷ repeated n (sending 1);
            })
            (sym (advance-created now opened_at c opened passed))))
