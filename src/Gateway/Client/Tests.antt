-- ===== src/Gateway/Client/Tests.antt =====
-- Runs of the client against a scripted network, and the theorems about it at such runs.
use distr_sys_itrvw.Base.{ℕ, ◌+◌, ◌≤◌, ◌≡◌, refl, none, List, [], ◌∷◌, arith, ◌++◌}
use distr_sys_itrvw.Base.Int.{pos, negsuc}
use distr_sys_itrvw.Shared.Text.{codes}
use distr_sys_itrvw.Gateway.Client.{
  HttpAccountClient, init_client, Method, Request, Network, Outcome, timed_out, response, fields,
  circuit_open, unavailable, server_error, rejected, returned, value, request,
  record_downstream_failure, record_downstream_success, circuit_allows, response_detail, backoff,
}
use distr_sys_itrvw.Gateway.Client.Breaker.{
  IsConsistent, init_client-IsConsistent, request-IsConsistent,
}
use distr_sys_itrvw.Gateway.Client.Retry.{request_settles, request_gives_up}
use distr_sys_itrvw.Gateway.Client.Deadline.{request-deadline}
use distr_sys_itrvw.Gateway.Client.Calls.{request_calls_bound, request_blocked_after_failures}

-- The outcomes to come, the calls made, the clock and the pauses taken.
pub record Script : Type 0 where
  pub outcomes : List (Outcome ℕ)
  pub calls : ℕ
  pub now : ℕ
  pub pauses : List ℕ

abbrev pub next_outcome : List (Outcome ℕ) → Outcome ℕ
next_outcome [] = timed_out
next_outcome (o ∷ os) = o

abbrev pub later_outcomes : List (Outcome ℕ) → List (Outcome ℕ)
later_outcomes [] = []
later_outcomes (o ∷ os) = os

abbrev pub scripted : Network Script ℕ
scripted = record {
  send = λ req w. (
    next_outcome w.outcomes,
    record w { outcomes = later_outcomes w.outcomes; calls = w.calls + 1 },
  );
  clock = λ w. w.now;
  sleep = λ d w. record w { now = w.now + d; pauses = w.pauses ++ d ∷ [] };
}

abbrev a_request : Request ℕ
a_request = record {
  method = Method.get;
  path = codes "/accounts/a/balance";
  payload = none;
  headers = [];
}

abbrev pub client : HttpAccountClient
client = record {
  base_url = codes "http://account";
  timeout_seconds = 15;
  max_attempts = 3;
  backoff_seconds = 1;
  circuit_failure_threshold = 1;
  circuit_reset_seconds = 50;
  consecutive_failures = 0;
  circuit_opened_at = none;
}

client-built :
    init_client (codes "http://account//") 15 (pos 3) (pos 1) (negsuc 4) (pos 50) ≡ client
unfolding init_client
client-built = refl

abbrev pub world : List (Outcome ℕ) → Script
world outcomes = record { outcomes = outcomes; calls = 0; now = 7; pauses = [] }

abbrev pub recovers : List (Outcome ℕ)
recovers = timed_out ∷ response 503 (fields []) ∷ response 200 (fields []) ∷ []

abbrev pub conflict : List (Outcome ℕ)
conflict = timed_out ∷ response 409 (fields ((codes "detail", 4) ∷ [])) ∷ []

abbrev pub outage : List (Outcome ℕ)
outage = timed_out ∷ timed_out ∷ response 500 (fields []) ∷ response 200 (fields []) ∷ []

request-recovers : request scripted a_request client (world recovers) ≡ (
  returned (fields []),
  client,
  record { outcomes = []; calls = 3; now = 10; pauses = 1 ∷ 2 ∷ [] },
)
unfolding request
request-recovers = refl

request-IsConsistent_example : IsConsistent (request scripted a_request client (world outage)).1
unfolding init_client
request-IsConsistent_example =
    request-IsConsistent scripted a_request client (world outage)
      (init_client-IsConsistent (codes "http://account//") 15 (pos 3) (pos 1) (negsuc 4) (pos 50))

request_settles_example : request scripted a_request client (world conflict) ≡ (
  rejected 409 (value 4),
  record_downstream_success client,
  record { outcomes = []; calls = 2; now = 8; pauses = 1 ∷ [] },
)
unfolding circuit_allows response_detail backoff
request_settles_example =
    request_settles scripted a_request client 1 (world conflict) refl (omega arith) (tt, tt) refl
      (omega arith)

request_gives_up_example : request scripted a_request client (world outage) ≡ (
  unavailable server_error,
  record_downstream_failure 10 client,
  record { outcomes = response 200 (fields []) ∷ []; calls = 3; now = 10; pauses = 1 ∷ 2 ∷ [] },
)
unfolding circuit_allows backoff
request_gives_up_example =
    request_gives_up scripted a_request client 2 (world outage) refl refl (tt, (tt, tt))
      (omega arith)

calls_bounded : (request scripted a_request client (world outage)).2.calls ≤ 0 + 3
calls_bounded =
    request_calls_bound scripted (λ w. w.calls) (λ req w. refl) (λ d w. refl) a_request client
      (world outage)

request_blocked_after_failures_example :
    request scripted a_request
      (request scripted a_request client (world outage)).1
      (record (world []) { now = 59 })
    ≡ (
      circuit_open,
      (request scripted a_request client (world outage)).1,
      record (world []) { now = 59 },
    )
unfolding circuit_allows backoff
request_blocked_after_failures_example =
    request_blocked_after_failures scripted a_request client 2 (world outage) refl refl
      (tt, (tt, tt)) (omega arith) (omega arith) a_request (record (world []) { now = 59 })
      (omega arith)

-- The calls of this script take no time.
request-deadline_example : (request scripted a_request client (world outage)).2.now + 1 ≤ 11
request-deadline_example =
    request-deadline scripted 0 (λ req w. omega arith) (λ d w. refl) a_request client (world outage)
      (omega arith)
