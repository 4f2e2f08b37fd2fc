-- ===== src/Gateway/Client/Rule.antt =====
-- A rule for what a request does to the world: what every attempt and every pause keeps holds after it,
-- and what an accepted attempt brings about holds after it returned.
use distr_sys_itrvw.Base.{
  ℕ, zero, suc, ◌+◌, ◌<◌, ◌≡◌, refl, Bool, true, false, inl, inr, arith, leb, ltb, Bool-cases,
}
use distr_sys_itrvw.Gateway.Client.{
  HttpAccountClient, Request, Body, Network, Answer, Outcome, timed_out, crashed, response,
  returned, settle, give_up, after_attempt, backoff, attempts, request, circuit_allows, reject,
  response_detail, Detail,
}
use distr_sys_itrvw.Base.{Option, none, some}

-- A response that the client takes for success.
abbrev pub IsAccepted : {J : Type 0} → Outcome J → Type 0
IsAccepted timed_out = ⊥
IsAccepted crashed = ⊥
IsAccepted (response status body) = status < 400

module _ {W J : Type 0} (P Q : W → Type 0) where
  -- What the rule concludes of an answer, with the client and the world.
  abbrev pub Ends : Answer J × HttpAccountClient × W → Type 0
  Ends (answer, c, v) = P v × ((body : Body J) → answer ≡ returned body → Q v)

  rejected_not :
      (status : ℕ) (d : Option (Detail J)) (body : Body J) → reject status d ≡ returned body → ⊥
  rejected_not status none body e = cc
  rejected_not status (some d) body e = cc

  settled-Ends :
      (b : Bool) (status : ℕ) (body : Body J) (c : HttpAccountClient) (v : W)
      → leb 400 status ≡ b
      → P v
      → (status < 400 → Q v)
      → Ends ((settle status body c).0, (settle status body c).1, v)
  unfolding settle
  settled-Ends true status body c v e h k =
      rw e (h, λ body' eq. absurd (rejected_not status (response_detail body) body' eq))
  settled-Ends false status body c v e h k = rw e (h, λ body' eq. k (ground arith))

  module _ (net : Network W J) (req : Request J) where
    after_attempt-Ends :
        (o : Outcome J) (attempt : ℕ) (again : Answer J × HttpAccountClient × W)
        (c : HttpAccountClient) (v : W)
        → P v
        → (IsAccepted o → Q v)
        → Ends again
        → Ends (after_attempt net o attempt again c v)
    unfolding after_attempt give_up
    after_attempt-Ends timed_out attempt again c v h k rest =
        elim (Bool-cases (ltb attempt c.max_attempts)) [
          | inl more ↦ rw more rest
          | inr last ↦ rw last (h, λ body e. cc)
        ]
    after_attempt-Ends crashed attempt again c v h k rest = (h, λ body e. cc)
    after_attempt-Ends (response status body) attempt again c v h k rest =
        elim (Bool-cases (leb 500 status)) [
          | inr fine ↦ rw fine (settled-Ends (leb 400 status) status body c v refl h k)
          | inl wrong ↦ rw wrong (elim (Bool-cases (ltb attempt c.max_attempts)) [
            | inl more ↦ rw more rest
            | inr last ↦ rw last (h, λ body e. cc)
          ])
        ]

    module _ (kept : (v : W) → P v → P (net.send req v).1)
        (accepted : (v : W) → P v → IsAccepted (net.send req v).0 → Q (net.send req v).1)
        (slept : (d : ℕ) (v : W) → P v → P (net.sleep d v)) where
      attempts-Ends :
          (left attempt : ℕ) (c : HttpAccountClient) (v : W)
          → P v
          → Ends (attempts net left attempt req c v)
      unfolding attempts give_up
      attempts-Ends zero attempt c v h = (h, λ body e. cc)
      attempts-Ends (suc left) attempt c v h =
          let h' = kept v h in
          after_attempt-Ends (net.send req v).0 attempt _ c (net.send req v).1 h' (accepted v h) (
            attempts-Ends left (attempt + 1) c (net.sleep (backoff c attempt) (net.send req v).1)
              (slept (backoff c attempt) (net.send req v).1 h'))

      pub request-Ends : (c : HttpAccountClient) (v : W) → P v → Ends (request net req c v)
      unfolding request
      request-Ends c v h = elim (Bool-cases (circuit_allows (net.clock v) c)) [
        | inl allowed ↦ rw allowed (attempts-Ends c.max_attempts 1 c v h)
        | inr refused ↦ rw refused (h, λ body e. cc)
      ]
