-- ===== src/Gateway/Client/Breaker.antt =====
-- The circuit breaker of account_client.py: when it is open, and what a request does to it.
use distr_sys_itrvw.Base.{
  ℕ, zero, suc, ◌+◌, ◌≤◌, ◌<◌, ◌≡◌, ◌≢◌, refl, Bool, true, false, inl, inr, none, arith, leb,
  Bool-cases, if◌then◌else◌,
}
use distr_sys_itrvw.Base.Int.{ℤ}
use distr_sys_itrvw.Shared.Text.{Text}
use distr_sys_itrvw.Gateway.Client.{
  HttpAccountClient, init_client, Request, Network, Answer, Outcome, timed_out, crashed, response,
  Body, settle, after_attempt, backoff, attempts, request, circuit_allows,
  record_downstream_success, record_downstream_failure,
}

-- The circuit is open exactly while the failures in a row have reached the threshold, which is at
-- least 1, as is the number of attempts.
pub record IsConsistent (c : HttpAccountClient) : Type 0 where
  pub tries : 1 ≤ c.max_attempts
  pub threshold : 1 ≤ c.circuit_failure_threshold
  pub closed : c.circuit_opened_at ≡ none → c.consecutive_failures < c.circuit_failure_threshold
  pub opened : c.circuit_opened_at ≢ none → c.circuit_failure_threshold ≤ c.consecutive_failures

pub init_client-IsConsistent :
    (url : Text) (timeout : ℕ) (tries backoff threshold reset : ℤ)
    → IsConsistent (init_client url timeout tries backoff threshold reset)
unfolding init_client
init_client-IsConsistent url timeout tries backoff threshold reset = record {
  tries = omega arith;
  threshold = omega arith;
  closed = λ e. omega arith;
  opened = λ ne. absurd (ne refl);
}

pub success-IsConsistent :
    (c : HttpAccountClient) → IsConsistent c → IsConsistent (record_downstream_success c)
unfolding record_downstream_success
success-IsConsistent c h = record {
  tries = h.tries;
  threshold = h.threshold;
  closed = λ e. omega (arith, h.threshold);
  opened = λ ne. absurd (ne refl);
}

pub failure-IsConsistent :
    (now : ℕ) (c : HttpAccountClient)
    → IsConsistent c
    → IsConsistent (record_downstream_failure now c)
unfolding record_downstream_failure
failure-IsConsistent now c h = record {
  tries = h.tries;
  threshold = h.threshold;
  closed = ground (arith, h.closed);
  opened = ground (arith, h.opened);
}

module _ {J : Type 0} where
  pub settle-IsConsistent :
      (status : ℕ) (body : Body J) (c : HttpAccountClient)
      → IsConsistent c
      → IsConsistent (settle status body c).1
  unfolding settle
  settle-IsConsistent status body c h = elim (Bool-cases (leb 400 status)) [
    | inl e ↦ rw e (success-IsConsistent c h)
    | inr e ↦ rw e (success-IsConsistent c h)
  ]

module _ {W J : Type 0} (net : Network W J) where
  -- A choice between two consistent ends is consistent.
  if-IsConsistent :
      (b : Bool) (r s : Answer J × HttpAccountClient × W)
      → IsConsistent r.1
      → IsConsistent s.1
      → IsConsistent (if b then r else s).1
  if-IsConsistent true r s hr hs = hr
  if-IsConsistent false r s hr hs = hs

  after_attempt-IsConsistent :
      (o : Outcome J) (attempt : ℕ) (again : Answer J × HttpAccountClient × W)
      (c : HttpAccountClient) (w : W)
      → IsConsistent again.1
      → IsConsistent c
      → IsConsistent (after_attempt net o attempt again c w).1
  unfolding after_attempt
  after_attempt-IsConsistent timed_out attempt again c w ha h =
      if-IsConsistent _ again _ ha (failure-IsConsistent (net.clock w) c h)
  after_attempt-IsConsistent crashed attempt again c w ha h = h
  after_attempt-IsConsistent (response status body) attempt again c w ha h =
      if-IsConsistent (leb 500 status) _ _
        (if-IsConsistent _ again _ ha (failure-IsConsistent (net.clock w) c h))
        (settle-IsConsistent status body c h)

  attempts-IsConsistent :
      (left attempt : ℕ) (req : Request J) (c : HttpAccountClient) (w : W)
      → IsConsistent c
      → IsConsistent (attempts net left attempt req c w).1
  unfolding attempts
  attempts-IsConsistent zero attempt req c w h = failure-IsConsistent (net.clock w) c h
  attempts-IsConsistent (suc left) attempt req c w h =
      let (o, w') = net.send req w in
      after_attempt-IsConsistent o attempt _ c w'
        (attempts-IsConsistent left (attempt + 1) req c (net.sleep (backoff c attempt) w') h) h

  -- Whatever the network does, a request keeps the client so that it has at least one attempt and
  -- a threshold of at least one, and its circuit is open exactly if the failures in a row have
  -- reached the threshold.
  pub request-IsConsistent :
      (req : Request J) (c : HttpAccountClient) (w : W)
      → IsConsistent c
      → IsConsistent (request net req c w).1
  unfolding request
  request-IsConsistent req c w h = elim (Bool-cases (circuit_allows (net.clock w) c)) [
    | inl e ↦ rw e (attempts-IsConsistent c.max_attempts 1 req c w h)
    | inr e ↦ rw e h
  ]
