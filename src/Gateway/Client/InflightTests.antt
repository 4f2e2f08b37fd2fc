-- ===== src/Gateway/Client/InflightTests.antt =====
-- Requests in flight on one client, and the theorems about them at such runs.
use distr_sys_itrvw.Base.{ℕ, ◌≡◌, refl, none, some, [], ◌∷◌, arith}
use distr_sys_itrvw.Shared.Text.{codes}
use distr_sys_itrvw.Gateway.Client.{HttpAccountClient, Method, Request, fields, returned, request}
use distr_sys_itrvw.Gateway.Client.Breaker.{IsConsistent}
use distr_sys_itrvw.Gateway.Client.Inflight.{created, sending, finished, Inflight, Interleaving}
use distr_sys_itrvw.Gateway.Client.Inflight.Bounded.{IsBounded, Interleaving-IsBounded}
use distr_sys_itrvw.Gateway.Client.Inflight.HalfOpen.{half_open_starts_all}
use distr_sys_itrvw.Gateway.Client.Inflight.Alone.{alone, alone-request}
use distr_sys_itrvw.Gateway.Client.Tests.{scripted, client, world, recovers}

abbrev broken_client : HttpAccountClient
broken_client = record client { consecutive_failures = 1; circuit_opened_at = some 7 }

not_none : {A : Type 0} {a : A} → some a ≡ none → ⊥
not_none e = cc

broken_client-IsConsistent : IsConsistent broken_client
broken_client-IsConsistent = record {
  tries = omega arith;
  threshold = omega arith;
  closed = λ e. absurd (not_none e);
  opened = λ ne. omega arith;
}

abbrev waiting : Inflight ℕ
waiting = record { client = broken_client; requests = created ∷ created ∷ [] }

abbrev probing : Inflight ℕ
probing = record { client = broken_client; requests = sending 1 ∷ sending 1 ∷ [] }

half_open_starts_all_example : Interleaving waiting probing
half_open_starts_all_example = half_open_starts_all 57 7 2 broken_client refl (omega arith)

waiting-Interleaving : Interleaving waiting probing
waiting-Interleaving = half_open_starts_all 57 7 2 broken_client refl (omega arith)

Interleaving-IsBounded_example : IsBounded 3 probing
Interleaving-IsBounded_example =
    Interleaving-IsBounded 3
      (record {
        consistent = broken_client-IsConsistent;
        configured = refl;
        requests = (tt, (tt, tt));
      })
      waiting-Interleaving

abbrev a_request : Request ℕ
a_request = record {
  method = Method.get;
  path = codes "/accounts/a/balance";
  payload = none;
  headers = [];
}

alone_requests : alone scripted a_request 6 created client (world recovers) ≡ (
  finished (returned (fields [])),
  client,
  record { outcomes = []; calls = 3; now = 10; pauses = 1 ∷ 2 ∷ [] },
)
unfolding request
alone_requests = alone-request scripted a_request 2 client (world recovers) refl
