-- ===== src/Gateway/Client/Deadline.antt =====
-- How long a request can take.
use distr_sys_itrvw.Base.{
  ℕ, zero, suc, ◌+◌, ◌-◌, ◌*◌, ◌^◌, ◌<◌, ◌≤◌, ◌≡◌, refl, sym, ◌∙◌, inl, inr, arith, leb, ltb,
  Bool-cases,
}
use mathlib.Core.Path.{subst}
use native.Mathlib.Nat.{add-zero}
use distr_sys_itrvw.Gateway.Client.{
  HttpAccountClient, Request, Network, Answer, Outcome, timed_out, crashed, response, give_up,
  after_attempt, backoff, attempts, request, circuit_allows,
}

zero_plus : (n : ℕ) → 0 + n ≡ n
zero_plus n = omega arith

plus_one : (a : ℕ) → a + 1 ≡ suc a
plus_one a = omega arith

doubled_suc : (b a : ℕ) → b * 2 ^ suc a ≡ b * 2 ^ a + b * 2 ^ a
doubled_suc b a = grind arith

doubled : (b a : ℕ) → b * 2 ^ (a + 1) ≡ b * 2 ^ a + b * 2 ^ a
doubled b a = rw (plus_one a) (doubled_suc b a)

minus_one : (a : ℕ) → a + 1 - 1 ≡ a
minus_one a = omega arith

backoff-pause : (c : HttpAccountClient) (a : ℕ) → backoff c (a + 1) ≡ c.backoff_seconds * 2 ^ a
backoff-pause c a = unfold backoff in rw (minus_one a) refl

next_exponent : (a n : ℕ) → a + suc n ≡ a + 1 + n
next_exponent a n = omega arith

grown : (b a n : ℕ) → b * 2 ^ a ≤ b * 2 ^ (a + n)
grown b a zero = rw (add-zero a) (omega arith)
grown b a (suc n) = rw (next_exponent a n) (omega (arith, doubled b a, grown b (a + 1) n))

module _ {W J : Type 0} (net : Network W J) where
  -- The clock at the end of what ends a request.
  abbrev ended : Answer J × HttpAccountClient × W → ℕ
  ended r = net.clock r.2

  after_attempt-clock :
      (o : Outcome J) (attempt x n : ℕ) (again : Answer J × HttpAccountClient × W)
      (c : HttpAccountClient) (w : W)
      → (attempt < c.max_attempts → ended again + x ≤ n)
      → net.clock w + x ≤ n
      → ended (after_attempt net o attempt again c w) + x ≤ n
  unfolding after_attempt give_up
  after_attempt-clock timed_out attempt x n again c w h k =
      elim (Bool-cases (ltb attempt c.max_attempts)) [
        | inl more ↦ rw more (h (ground arith))
        | inr last ↦ rw last k
      ]
  after_attempt-clock crashed attempt x n again c w h k = k
  after_attempt-clock (response status body) attempt x n again c w h k =
      elim (Bool-cases (leb 500 status)) [
        | inr fine ↦ rw fine k
        | inl wrong ↦ rw wrong (elim (Bool-cases (ltb attempt c.max_attempts)) [
          | inl more ↦ rw more (h (ground arith))
          | inr last ↦ rw last k
        ])
      ]

  module _ (longest : ℕ)
      (sent : (req : Request J) (w : W) → net.clock (net.send req w).1 ≤ net.clock w + longest)
      (slept : (d : ℕ) (w : W) → net.clock (net.sleep d w) ≡ net.clock w + d) where
    attempts-clock :
        (left a : ℕ) (req : Request J) (c : HttpAccountClient) (w : W)
        → c.max_attempts ≡ a + suc left
        → ended (attempts net (suc left) (a + 1) req c w) + c.backoff_seconds * 2 ^ a
          ≤ net.clock w + suc left * longest + c.backoff_seconds * 2 ^ (a + left)
    unfolding attempts
    attempts-clock zero a req c w e =
        after_attempt-clock (net.send req w).0 (a + 1) (c.backoff_seconds * 2 ^ a)
          (net.clock w + 1 * longest + c.backoff_seconds * 2 ^ (a + 0)) _ c (net.send req w).1
          (λ more. absurd (omega (arith, more, e)))
          (omega (arith, sent req w, grown c.backoff_seconds a 0))
    attempts-clock (suc left) a req c w e =
        let b = c.backoff_seconds in
        let w' = (net.send req w).1 in
        let w'' = net.sleep (backoff c (a + 1)) w' in
        after_attempt-clock (net.send req w).0 (a + 1) (b * 2 ^ a)
          (net.clock w + suc (suc left) * longest + b * 2 ^ (a + suc left)) _ c w'
          (λ more. rw (next_exponent a left) (
            omega (
              arith,
              attempts-clock left (a + 1) req c w'' (e ∙ next_exponent a (suc left)),
              doubled b a,
              sent req w,
              slept (backoff c (a + 1)) w',
              backoff-pause c a,
            )))
          (omega (arith, sent req w, grown b a (suc left)))

    attempts-deadline :
        (n : ℕ) (req : Request J) (c : HttpAccountClient) (w : W)
        → c.max_attempts ≡ suc n
        → ended (attempts net (suc n) 1 req c w) + c.backoff_seconds
          ≤ net.clock w + suc n * longest + c.backoff_seconds * 2 ^ n
    attempts-deadline n req c w e =
        omega
          (arith, rw (zero_plus n) at (attempts-clock n 0 req c w (e ∙ sym (zero_plus (suc n)))))

    request-attempts :
        (n : ℕ) (req : Request J) (c : HttpAccountClient) (w : W)
        → c.max_attempts ≡ suc n
        → net.clock (request net req c w).2 + c.backoff_seconds
          ≤ net.clock w + suc n * longest + c.backoff_seconds * 2 ^ n
    unfolding request
    request-attempts n req c w e = elim (Bool-cases (circuit_allows (net.clock w) c)) [
      | inl allowed ↦ rw allowed (
          subst
            (λ m.
              ended (attempts net m 1 req c w) + c.backoff_seconds
              ≤ net.clock w + suc n * longest + c.backoff_seconds * 2 ^ n)
            (sym e) (attempts-deadline n req c w e))
      | inr refused ↦ rw refused (omega (arith, rw (zero_plus n) at (grown c.backoff_seconds 0 n)))
    ]

    predecessor : (n : ℕ) → 1 ≤ n → n ≡ suc (n - 1)
    predecessor n h = omega arith

    -- If no call takes longer than some time, and a pause lasts as long as it is asked to, then a request
    -- of a client with at least one attempt ends, whatever the network answers, within that time for each
    -- attempt and the pauses of a full backoff: `backoff_seconds * (2 ** (max_attempts - 1) - 1)`, here
    -- with the subtraction moved to the other side.
    pub request-deadline :
        (req : Request J) (c : HttpAccountClient) (w : W)
        → 1 ≤ c.max_attempts
        → net.clock (request net req c w).2 + c.backoff_seconds
          ≤ net.clock w + c.max_attempts * longest + c.backoff_seconds * 2 ^ (c.max_attempts - 1)
    request-deadline req c w some_try =
        let e = predecessor c.max_attempts some_try in
        subst
          (λ m.
            net.clock (request net req c w).2 + c.backoff_seconds
            ≤ net.clock w + m * longest + c.backoff_seconds * 2 ^ (c.max_attempts - 1))
          (sym e) (request-attempts (c.max_attempts - 1) req c w e)
