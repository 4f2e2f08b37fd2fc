-- ===== src/Gateway/Client/Inflight/Alone.antt =====
-- A request that is alone on its client, as src/gateway_service/account_client.py runs it.
use distr_sys_itrvw.Base.{
  ℕ, zero, suc, ◌+◌, ◌<◌, ◌≡◌, refl, sym, ap, ◌∙◌, Bool, true, false, inl, inr, ◌⊎◌, arith, leb,
  ltb, Bool-cases, if◌then◌else◌,
}
use distr_sys_itrvw.Gateway.Client.{
  HttpAccountClient, Answer, Request, Network, after_attempt, attempts, request, backoff, give_up,
  Outcome, timed_out, crashed, response, circuit_open, circuit_allows,
}
use distr_sys_itrvw.Gateway.Client.Inflight.{
  Phase, created, sending, pausing, finished, received, advance,
}

abbrev twice : ℕ → ℕ
twice zero = 0
twice (suc n) = suc (suc (twice n))

module _ {W J : Type 0} (net : Network W J) (req : Request J) where
  -- What the event loop does for a request that is alone: it makes the call, or waits for the end of the
  -- pause, and lets the request go on.
  unfoldable pub drive : Phase J → HttpAccountClient → W → Phase J × HttpAccountClient × W
  unfolding advance
  drive created c w = (
    (advance {J = J} (net.clock w) crashed created c).0,
    (advance {J = J} (net.clock w) crashed created c).1,
    w,
  )
  drive (sending attempt) c w =
      let (o, w') = net.send req w in
      let (q, c') = advance (net.clock w') o (sending attempt) c in (q, c', w')
  drive (pausing attempt) c w = (
    (advance {J = J} (net.clock w) crashed (pausing attempt) c).0,
    (advance {J = J} (net.clock w) crashed (pausing attempt) c).1,
    net.sleep (backoff c attempt) w,
  )
  drive (finished answer) c w = (finished answer, c, w)

  unfoldable pub alone : ℕ → Phase J → HttpAccountClient → W → Phase J × HttpAccountClient × W
  unfolding drive
  alone zero q c w = (q, c, w)
  alone (suc n) q c w = let (q', c', w') = drive q c w in alone n q' c' w'

  abbrev ends : Answer J × HttpAccountClient × W → Phase J × HttpAccountClient × W
  ends r = (finished r.0, r.1, r.2)

  alone-finished :
      (n : ℕ) (a : Answer J) (c : HttpAccountClient) (w : W)
      → alone n (finished a) c w ≡ (finished a, c, w)
  unfolding alone
  alone-finished zero a c w = refl
  alone-finished (suc n) a c w = alone-finished n a c w

  -- An outcome leads to another attempt, or to an end, in the loop and in the pieces alike.
  abbrev Agrees : Outcome J → ℕ → HttpAccountClient → W → Type 0
  Agrees o attempt c w =
      ((attempt < c.max_attempts)
        × (received (net.clock w) o attempt c ≡ (pausing attempt, c))
        × ((again : Answer J × HttpAccountClient × W)
            → after_attempt net o attempt again c w ≡ again))
      ⊎ ((a : Answer J) × (c' : HttpAccountClient) × (received (net.clock w) o attempt c
            ≡ (finished a, c'))
          × ((again : Answer J × HttpAccountClient × W)
              → after_attempt net o attempt again c w ≡ (a, c', w)))

  outcome-Agrees :
      (o : Outcome J) (attempt : ℕ) (c : HttpAccountClient) (w : W) → Agrees o attempt c w
  unfolding received after_attempt give_up
  outcome-Agrees timed_out attempt c w = elim (Bool-cases (ltb attempt c.max_attempts)) [
    | inl more ↦ rw more (inl (ground arith, refl, λ again. refl))
    | inr last ↦ rw last (inr (_, _, refl, λ again. refl))
  ]
  outcome-Agrees crashed attempt c w = inr (_, _, refl, λ again. refl)
  outcome-Agrees (response status body) attempt c w = elim (Bool-cases (leb 500 status)) [
    | inr fine ↦ rw fine (inr (_, _, refl, λ again. refl))
    | inl wrong ↦ rw wrong (elim (Bool-cases (ltb attempt c.max_attempts)) [
      | inl more ↦ rw more (inl (ground arith, refl, λ again. refl))
      | inr last ↦ rw last (inr (_, _, refl, λ again. refl))
    ])
  ]

  -- The rest of a request after one of its pieces.
  abbrev resumed : ℕ → W → Phase J × HttpAccountClient → Phase J × HttpAccountClient × W
  resumed n w r = alone n r.0 r.1 w

  alone-attempts :
      (left attempt : ℕ) (c : HttpAccountClient) (w : W)
      → c.max_attempts ≡ attempt + left
      → alone (suc (twice left)) (sending attempt) c w
        ≡ ends (attempts net (suc left) attempt req c w)
  unfolding alone attempts
  alone-attempts zero attempt c w e =
      let w' = (net.send req w).1 in
      elim (outcome-Agrees (net.send req w).0 attempt c w') [
        | inl (more, _, _) ↦ absurd (omega (arith, more, e))
        | inr (a, c', got, done) ↦ ap (resumed zero w') got ∙ sym (ap ends (done _))
      ]
  alone-attempts (suc left) attempt c w e =
      let w' = (net.send req w).1 in
      elim (outcome-Agrees (net.send req w).0 attempt c w') [
        | inl (more, got, again) ↦
            ap (resumed (twice (suc left)) w') got
            ∙ alone-attempts left (attempt + 1) c (net.sleep (backoff c attempt) w')
                (omega (arith, e))
            ∙ sym (ap ends (again _))
        | inr (a, c', got, done) ↦
            ap (resumed (twice (suc left)) w') got
            ∙ alone-finished (twice (suc left)) a c' w'
            ∙ sym (ap ends (done _))
      ]

  started :
      (b : Bool) (n : ℕ) (c : HttpAccountClient) (w : W)
      → c.max_attempts ≡ suc n
      → resumed (suc (twice n)) w (if b then (sending 1, c) else (finished circuit_open, c))
        ≡ ends (if b then attempts net c.max_attempts 1 req c w else (circuit_open, c, w))
  started true n c w e =
      alone-attempts n 1 c w (omega (arith, e)) ∙ ap (λ m. ends (attempts net m 1 req c w)) (sym e)
  started false n c w e = alone-finished (suc (twice n)) circuit_open c w

  -- A request that is alone on its client, which makes at least one attempt, is at its end after two
  -- pieces for each attempt, and then the answer, the client and the world are those of `request`.
  pub alone-request :
      (n : ℕ) (c : HttpAccountClient) (w : W)
      → c.max_attempts ≡ suc n
      → alone (suc (suc (twice n))) created c w
        ≡ (finished (request net req c w).0, (request net req c w).1, (request net req c w).2)
  unfolding alone drive advance request
  alone-request n c w e = started (circuit_allows (net.clock w) c) n c w e
