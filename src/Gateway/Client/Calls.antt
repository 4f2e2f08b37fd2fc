-- ===== src/Gateway/Client/Calls.antt =====
-- How often account_client.py calls the Account Service: at most as often as it is configured to,
-- and not at all while the circuit is open.
use distr_sys_itrvw.Base.{
  ℕ, zero, suc, ◌+◌, ◌≤◌, ◌<◌, ◌≡◌, Bool, true, false, arith, leb, if◌then◌else◌,
}
use distr_sys_itrvw.Gateway.Client.{
  HttpAccountClient, Request, Network, Answer, Outcome, timed_out, crashed, response, circuit_open,
  after_attempt, backoff, attempts, request, circuit_allows, record_downstream_failure,
}
use distr_sys_itrvw.Gateway.Client.Retry.{IsRetryable, AllRetryable, retried, request_gives_up}

module _ {W J : Type 0} (net : Network W J) (calls : W → ℕ) where
  if-calls :
      (b : Bool) (r s : Answer J × HttpAccountClient × W) {n : ℕ}
      → calls r.2 ≤ n
      → calls s.2 ≤ n
      → calls (if b then r else s).2 ≤ n
  if-calls true r s hr hs = hr
  if-calls false r s hr hs = hs

  after_attempt-calls :
      (o : Outcome J) (attempt n : ℕ) (again : Answer J × HttpAccountClient × W)
      (c : HttpAccountClient) (w : W)
      → calls again.2 ≤ n
      → calls w ≤ n
      → calls (after_attempt net o attempt again c w).2 ≤ n
  unfolding after_attempt
  after_attempt-calls timed_out attempt n again c w ha h = if-calls _ again _ ha h
  after_attempt-calls crashed attempt n again c w ha h = h
  after_attempt-calls (response status body) attempt n again c w ha h =
      if-calls (leb 500 status) _ _ (if-calls _ again _ ha h) h

  attempts-calls :
      ((req : Request J) (w : W) → calls (net.send req w).1 ≡ calls w + 1)
      → ((d : ℕ) (w : W) → calls (net.sleep d w) ≡ calls w)
      → (left attempt : ℕ) (req : Request J) (c : HttpAccountClient) (w : W)
      → calls (attempts net left attempt req c w).2 ≤ calls w + left
  unfolding attempts
  attempts-calls sent slept zero attempt req c w = omega arith
  attempts-calls sent slept (suc left) attempt req c w =
      let w' = (net.send req w).1 in
      let w'' = net.sleep (backoff c attempt) w' in
      after_attempt-calls (net.send req w).0 attempt (calls w + suc left) _ c w'
        (omega (
          arith,
          attempts-calls sent slept left (attempt + 1) req c w'',
          sent req w,
          slept (backoff c attempt) w',
        ))
        (omega (arith, sent req w))

  -- For any count of calls that each `send` raises by one and no pause changes, a request makes at
  -- most `max_attempts` calls, whatever the network answers.
  pub request_calls_bound :
      ((req : Request J) (w : W) → calls (net.send req w).1 ≡ calls w + 1)
      → ((d : ℕ) (w : W) → calls (net.sleep d w) ≡ calls w)
      → (req : Request J) (c : HttpAccountClient) (w : W)
      → calls (request net req c w).2 ≤ calls w + c.max_attempts
  unfolding request
  request_calls_bound sent slept req c w =
      if-calls (circuit_allows (net.clock w) c) _ _
        (attempts-calls sent slept c.max_attempts 1 req c w) (omega arith)

module _ {W J : Type 0} (net : Network W J) where
  failure_opens :
      (now later : ℕ) (c : HttpAccountClient)
      → c.circuit_failure_threshold ≤ c.consecutive_failures + 1
      → later < now + c.circuit_reset_seconds
      → circuit_allows later (record_downstream_failure now c) ≡ false
  unfolding record_downstream_failure circuit_allows
  failure_opens now later c h lt = ground arith

  -- An exhausted request that brings the failures in a row to the threshold (or finds them there, as
  -- the probe of an open circuit does) opens the circuit: any later request, for as long as the reset
  -- time has not passed since that failure, is refused without a call, and changes neither the client
  -- nor the world.
  pub request_blocked_after_failures :
      (req : Request J) (c : HttpAccountClient) (k : ℕ) (w : W)
      → circuit_allows (net.clock w) c ≡ true
      → c.max_attempts ≡ suc k
      → AllRetryable net req c k 1 w
      → IsRetryable (net.send req (retried net req c k 1 w)).0
      → c.circuit_failure_threshold ≤ c.consecutive_failures + 1
      → (later : Request J) (w' : W)
      → net.clock w'
        < net.clock (net.send req (retried net req c k 1 w)).1 + c.circuit_reset_seconds
      → request net later (request net req c w).1 w' ≡ (circuit_open, (request net req c w).1, w')
  request_blocked_after_failures req c k w allowed e r last full later w' lt =
      rw (request_gives_up net req c k w allowed e r last)
        (unfold request in rw (failure_opens _ (net.clock w') c full lt))
