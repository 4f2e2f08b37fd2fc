-- ===== src/Gateway/Client/Retry.antt =====
-- The retry loop of account_client.py against a description of it: the rounds that fail for
-- availability, the world after them, and the answer that ends the loop.
use Prim.Native.Nat.add
use native.Mathlib.Nat.{add-zero}
use distr_sys_itrvw.Base.{
  ℕ, zero, suc, ◌+◌, ◌-◌, ◌≤◌, ◌<◌, ◌≡◌, sym, ap, ◌∙◌, true, inl, inr, arith, leb, Bool-cases,
  if◌then◌else◌,
}
use distr_sys_itrvw.Gateway.Client.{
  HttpAccountClient, Request, Network, Answer, Outcome, timed_out, crashed, response, Body,
  unavailable, reject, parse_body, response_detail, settle, give_up, after_attempt, backoff,
  attempts, request, circuit_allows, record_downstream_success, record_downstream_failure,
  unreachable, server_error, Reason,
}

-- An outcome that is a failure of availability: one of the named exceptions, or a 5xx.
abbrev pub IsRetryable : {J : Type 0} → Outcome J → Type 0
IsRetryable timed_out = Unit {0}
IsRetryable crashed = ⊥
IsRetryable (response status body) = 500 ≤ status

-- What the exhausted loop reports for its last outcome.
abbrev pub reason_of : {J : Type 0} → Outcome J → Reason
reason_of timed_out = unreachable
reason_of crashed = unreachable
reason_of (response status body) = server_error

one_more : (a k : ℕ) → a + 1 + k ≡ a + suc k
one_more a k = omega arith

split_one : (k : ℕ) → k + 1 ≡ suc k
split_one k = omega arith

split_at : (k n : ℕ) → k < n → n ≡ k + suc (n - k - 1)
split_at k n h = omega arith

module _ {W J : Type 0} (net : Network W J) (req : Request J) (c : HttpAccountClient) where
  -- The world after `k` failed attempts, the first of them numbered `attempt`, each with its pause.
  abbrev pub retried : ℕ → ℕ → W → W
  retried zero attempt w = w
  retried (suc k) attempt w =
      retried k (attempt + 1) (net.sleep (backoff c attempt) (net.send req w).1)

  -- Each of these attempts failed for availability.
  abbrev pub AllRetryable : ℕ → ℕ → W → Type 0
  AllRetryable zero attempt w = Unit {0}
  AllRetryable (suc k) attempt w =
      IsRetryable (net.send req w).0
      × AllRetryable k (attempt + 1) (net.sleep (backoff c attempt) (net.send req w).1)

  after_attempt_retries :
      (o : Outcome J) (attempt : ℕ) (again : Answer J × HttpAccountClient × W) (w : W)
      → IsRetryable o
      → attempt < c.max_attempts
      → after_attempt net o attempt again c w ≡ again
  unfolding after_attempt
  after_attempt_retries timed_out attempt again w r h = ground arith
  after_attempt_retries crashed attempt again w r h = absurd r
  after_attempt_retries (response status body) attempt again w r h = ground arith

  after_attempt_gives_up :
      (o : Outcome J) (attempt : ℕ) (again : Answer J × HttpAccountClient × W) (w : W)
      → IsRetryable o
      → c.max_attempts ≤ attempt
      → after_attempt net o attempt again c w ≡ give_up net (reason_of o) c w
  unfolding after_attempt
  after_attempt_gives_up timed_out attempt again w r h = ground arith
  after_attempt_gives_up crashed attempt again w r h = absurd r
  after_attempt_gives_up (response status body) attempt again w r h = ground arith

  after_attempt_settles :
      (status : ℕ) (body : Body J) (attempt : ℕ) (again : Answer J × HttpAccountClient × W) (w : W)
      → status < 500
      → after_attempt net (response status body) attempt again c w
        ≡ ((settle status body c).0, (settle status body c).1, w)
  unfolding after_attempt
  after_attempt_settles status body attempt again w h = ground arith

  -- Failed attempts below the bound are passed over.
  attempts_retry :
      (k left attempt : ℕ) (w : W)
      → AllRetryable k attempt w
      → attempt + k ≤ c.max_attempts
      → attempts net (k + left) attempt req c w
        ≡ attempts net left (attempt + k) req c (retried k attempt w)
  unfolding attempts
  attempts_retry zero left attempt w r h =
      ap (λ n. attempts net n attempt req c w) (add.zero left)
      ∙ ap (λ n. attempts net left n req c w) (sym (add-zero attempt))
  attempts_retry (suc k) left attempt w r h = rw add.suc (
      after_attempt_retries (net.send req w).0 attempt _ (net.send req w).1 r.0 (omega arith)
      ∙ attempts_retry k left (attempt + 1) (net.sleep (backoff c attempt) (net.send req w).1) r.1
          (omega arith)
      ∙ ap (λ n. attempts net left n req c (retried (suc k) attempt w)) (one_more attempt k))

  -- A loop that fails in all its rounds gives up, with the world that its last attempt left.
  attempts_exhausted :
      (k : ℕ) (w : W)
      → c.max_attempts ≡ suc k
      → AllRetryable k 1 w
      → IsRetryable (net.send req (retried k 1 w)).0
      → attempts net c.max_attempts 1 req c w
        ≡ give_up net
            (reason_of (net.send req (retried k 1 w)).0)
            c
            (net.send req (retried k 1 w)).1
  attempts_exhausted k w e r last =
      ap (λ n. attempts net n 1 req c w) (e ∙ sym (split_one k))
      ∙ attempts_retry k 1 1 w r (omega arith)
      ∙ unfold attempts in after_attempt_gives_up _ (1 + k) _ _ last (omega arith)

  attempts_settled :
      (k : ℕ) {status : ℕ} {body : Body J} (w : W)
      → k < c.max_attempts
      → AllRetryable k 1 w
      → (net.send req (retried k 1 w)).0 ≡ response status body
      → status < 500
      → attempts net c.max_attempts 1 req c w
        ≡ ((settle status body c).0, (settle status body c).1, (net.send req (retried k 1 w)).1)
  attempts_settled k {status} {body} w lt r e fine =
      ap (λ n. attempts net n 1 req c w) (split_at k c.max_attempts lt)
      ∙ attempts_retry k (suc (c.max_attempts - k - 1)) 1 w r (omega arith)
      ∙ unfold attempts in rw e (after_attempt_settles status body (1 + k) _ _ fine)

  settle-closes :
      (status : ℕ) (body : Body J)
      → settle status body c ≡ (
        if leb 400 status then reject status (response_detail body) else parse_body body,
        record_downstream_success c,
      )
  unfolding settle
  settle-closes status body = elim (Bool-cases (leb 400 status)) [ inl e ↦ rw e | inr e ↦ rw e ]

  -- A request that the circuit lets through, and whose first `k` attempts, fewer than the configured
  -- number, fail for availability while the next gets a response below 500, ends with that response:
  -- from 400 on it is a rejection with the response's detail and below that it is the parsed body;
  -- the failures are cleared and the circuit closed; and the world is the one after exactly `k` failed
  -- attempts with their pauses and one more attempt.
  pub request_settles :
      (k : ℕ) {status : ℕ} {body : Body J} (w : W)
      → circuit_allows (net.clock w) c ≡ true
      → k < c.max_attempts
      → AllRetryable k 1 w
      → (net.send req (retried k 1 w)).0 ≡ response status body
      → status < 500
      → request net req c w ≡ (
        if leb 400 status then reject status (response_detail body) else parse_body body,
        record_downstream_success c,
        (net.send req (retried k 1 w)).1,
      )
  unfolding request
  request_settles k {status} {body} w allowed lt r e fine = rw allowed (
      attempts_settled k w lt r e fine
      ∙ ap (λ (s : Answer J × HttpAccountClient). (s.0, s.1, (net.send req (retried k 1 w)).1))
          (settle-closes status body))

  -- A request that the circuit lets through, and all of whose attempts fail for availability, is
  -- reported as unavailable for the reason of the last attempt, and is recorded as one failure, at
  -- the time after the last attempt.
  pub request_gives_up :
      (k : ℕ) (w : W)
      → circuit_allows (net.clock w) c ≡ true
      → c.max_attempts ≡ suc k
      → AllRetryable k 1 w
      → IsRetryable (net.send req (retried k 1 w)).0
      → (request net req c w ≡ (
        unavailable (reason_of (net.send req (retried k 1 w)).0),
        record_downstream_failure (net.clock (net.send req (retried k 1 w)).1) c,
        (net.send req (retried k 1 w)).1,
      ))
  unfolding request give_up
  request_gives_up k w allowed e r last = rw allowed (attempts_exhausted k w e r last)
