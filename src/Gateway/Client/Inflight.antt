-- ===== src/Gateway/Client/Inflight.antt =====
-- Several requests in flight on one client: `_request` gives up control where it awaits the response and
-- where it awaits the end of a pause, and between these points it runs in one piece.
pub mod Bounded
pub mod HalfOpen
pub mod Alone
use mathlib.Core.Path.{subst}
use distr_sys_itrvw.Base.{
  ℕ, zero, suc, ◌+◌, ◌<◌, ◌≤◌, ◌≡◌, refl, sym, ap, ◌∙◌, Bool, true, false, inl, inr, List, [], ◌∷◌,
  ◌++◌, arith, leb, ltb, Bool-cases, if◌then◌else◌,
}
use distr_sys_itrvw.Gateway.Client.{
  HttpAccountClient, Answer, Body, Outcome, timed_out, crashed, response, Reason, unreachable,
  server_error, circuit_open, unavailable, raised, transport_error, settle, circuit_allows,
  record_downstream_failure, record_downstream_success,
}
use distr_sys_itrvw.Gateway.Client.Breaker.{IsConsistent, failure-IsConsistent, settle-IsConsistent}

-- Where a request stands: before it started, waiting for the response of an attempt, in the pause after
-- one, or at its end.
pub data Phase (J : Type 0) : Type 0 where
  created : Phase J
  sending pausing : ℕ → Phase J
  finished : Answer J → Phase J

-- The client, and the requests on it.
pub record Inflight (J : Type 0) : Type 0 where
  pub client : HttpAccountClient
  pub requests : List (Phase J)

module _ {J : Type 0} where
  abbrev pub gave_up : ℕ → Reason → HttpAccountClient → Phase J × HttpAccountClient
  gave_up now reason c = (finished (unavailable reason), record_downstream_failure now c)

  -- What the loop does when an attempt has its outcome.
  unfoldable pub received : ℕ → Outcome J → ℕ → HttpAccountClient → Phase J × HttpAccountClient
  received now timed_out attempt c =
      if ltb attempt c.max_attempts then (pausing attempt, c) else gave_up now unreachable c
  received now crashed attempt c = (finished (raised transport_error), c)
  received now (response status body) attempt c =
      if leb 500 status
      then (if ltb attempt c.max_attempts then (pausing attempt, c) else gave_up now server_error c)
      else (finished (settle status body c).0, (settle status body c).1)

  -- One piece of a request, at a time of the clock and with the outcome that it waited for, if it did.
  unfoldable pub advance : ℕ → Outcome J → Phase J → HttpAccountClient → Phase J × HttpAccountClient
  unfolding received
  advance now o created c =
      if circuit_allows now c then (sending 1, c) else (finished circuit_open, c)
  advance now o (sending attempt) c = received now o attempt c
  advance now o (pausing attempt) c = (sending (attempt + 1), c)
  advance now o (finished answer) c = (finished answer, c)

  -- One of the requests goes on, or another one comes in.
  pub data Moves (s t : Inflight J) : Type 0 where
    goes_on :
        (now : ℕ) (o : Outcome J) (before : List (Phase J)) (q : Phase J) (after : List (Phase J))
        → s.requests ≡ before ++ q ∷ after
        → t ≡ record {
          client = (advance now o q s.client).1;
          requests = before ++ (advance now o q s.client).0 ∷ after;
        }
        → Moves s t
    comes_in : t ≡ record s { requests = s.requests ++ created ∷ [] } → Moves s t

  pub data Interleaving (s : Inflight J) : Inflight J → Type 0 where
    none_yet : Interleaving s s
    and_then : {t u : Inflight J} → Interleaving s t → Moves t u → Interleaving s u
