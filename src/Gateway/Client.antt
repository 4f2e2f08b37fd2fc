-- ===== src/Gateway/Client.antt =====
-- src/gateway_service/account_client.py: the HTTP client with its retries and its circuit breaker.
-- HTTPX, the clock and `asyncio.sleep` are a `Network` over a world that they change. Times are
-- counted in whole units of a clock that starts at 0; the source has floats of seconds.
pub mod Breaker
pub mod Retry
pub mod Calls
pub mod Deadline
pub mod Inflight
pub mod Rule
pub mod Tests
pub mod InflightTests
use distr_sys_itrvw.Base.{
  ℕ, zero, suc, ◌+◌, ◌-◌, ◌*◌, ◌^◌, Bool, true, false, Option, none, some, List, [], ◌∷◌, ◌++◌, ltb,
  leb, ◌==◌, if◌then◌else◌,
}
use distr_sys_itrvw.Base.Int.{ℤ, pos_part}
use Prim.Native.Nat.{max}
use distr_sys_itrvw.Shared.Text.{Text, codes, text_eq, rstrip}
use distr_sys_itrvw.Shared.Trace.{trace_header, traceparent_header, traceparent_from_trace_id}

-- `max(1, n)`, `max(0.0, x)` of the constructor's arguments are applied in `init_client`.
pub record HttpAccountClient : Type 0 where
  pub base_url : Text
  pub timeout_seconds : ℕ
  pub max_attempts : ℕ
  pub backoff_seconds : ℕ
  pub circuit_failure_threshold : ℕ
  pub circuit_reset_seconds : ℕ
  pub consecutive_failures : ℕ
  pub circuit_opened_at : Option ℕ

-- `base_url.rstrip("/")`
unfoldable pub rstrip_slash : Text → Text
unfolding rstrip
rstrip_slash = rstrip (λ c. c == b'/')

-- `__init__`. A negative argument has positive part 0.
unfoldable pub init_client : Text → ℕ → ℤ → ℤ → ℤ → ℤ → HttpAccountClient
unfolding rstrip_slash
init_client base_url timeout max_attempts backoff threshold reset = record {
  base_url = rstrip_slash base_url;
  timeout_seconds = timeout;
  max_attempts = max 1 (pos_part max_attempts);
  backoff_seconds = pos_part backoff;
  circuit_failure_threshold = max 1 (pos_part threshold);
  circuit_reset_seconds = pos_part reset;
  consecutive_failures = 0;
  circuit_opened_at = none;
}

pub data Method : Type 0 where
  get post : Method

pub record Request (J : Type 0) : Type 0 where
  pub method : Method
  pub path : Text
  pub payload : Option J
  pub headers : List (Text × Text)

-- What `response.json()` finds: a text that is no JSON, an object, another JSON value.
pub data Body (J : Type 0) : Type 0 where
  malformed : Text → Body J
  fields : List (Text × J) → Body J
  other : J → Body J

-- What `client.request` does: it raises one of the four exceptions that the source catches, raises
-- another one, or returns a response.
pub data Outcome (J : Type 0) : Type 0 where
  timed_out : Outcome J
  crashed : Outcome J
  response : ℕ → Body J → Outcome J

pub data Detail (J : Type 0) : Type 0 where
  text : Text → Detail J
  value : J → Detail J
  whole : List (Text × J) → Detail J

pub data Reason : Type 0 where
  unreachable server_error : Reason

-- The exceptions that no handler of the Gateway catches: those of HTTPX that the source does not
-- name, `ValueError` of `response.json()`, `AttributeError` of `body.get`.
pub data Fault : Type 0 where
  transport_error bad_json no_get : Fault

pub data Answer (J : Type 0) : Type 0 where
  returned : Body J → Answer J
  circuit_open : Answer J
  unavailable : Reason → Answer J
  rejected : ℕ → Detail J → Answer J
  raised : Fault → Answer J

pub record Network (W J : Type 0) : Type 0 where
  pub send : Request J → W → Outcome J × W
  pub clock : W → ℕ
  pub sleep : ℕ → W → W

unfoldable pub find_detail {ℓ} : {J : Type ℓ} → List (Text × J) → Option J
unfolding text_eq
find_detail [] = none
find_detail ((k, v) ∷ m) = if text_eq k (codes "detail") then some v else find_detail m

module _ {J : Type 0} where
  -- `_response_detail`: `none` is the `AttributeError` of a body with no `get`.
  unfoldable pub response_detail : Body J → Option (Detail J)
  unfolding find_detail
  response_detail (malformed t) = some (text t)
  response_detail (fields m) = elim (find_detail m) [
    | none ↦ some (whole m)
    | some v ↦ some (value v)
  ]
  response_detail (other v) = none

  abbrev pub reject : ℕ → Option (Detail J) → Answer J
  reject status none = raised no_get
  reject status (some d) = rejected status d

  abbrev pub parse_body : Body J → Answer J
  parse_body (malformed t) = raised bad_json
  parse_body b = returned b

unfoldable pub record_downstream_success : HttpAccountClient → HttpAccountClient
record_downstream_success c = record c { consecutive_failures = 0; circuit_opened_at = none }

unfoldable pub record_downstream_failure : ℕ → HttpAccountClient → HttpAccountClient
record_downstream_failure now c =
    let failures = c.consecutive_failures + 1 in
    record c {
      consecutive_failures = failures;
      circuit_opened_at =
          if leb c.circuit_failure_threshold failures then some now else c.circuit_opened_at;
    }

-- `_ensure_circuit_allows_request`: false where it raises. `clock - opened_at >= reset`, with no
-- subtraction.
unfoldable pub circuit_allows : ℕ → HttpAccountClient → Bool
circuit_allows now c = elim c.circuit_opened_at [
  | none ↦ true
  | some opened_at ↦ leb (opened_at + c.circuit_reset_seconds) now
]

-- `backoff_seconds * (2 ** (attempt - 1))`
unfoldable pub backoff : HttpAccountClient → ℕ → ℕ
backoff c attempt = c.backoff_seconds * 2 ^ (attempt - 1)

-- `fresh` is the text that `uuid4().hex` draws.
unfoldable pub request_headers : Text → Text → List (Text × Text)
request_headers fresh trace_id =
    (trace_header, trace_id) ∷ elim (traceparent_from_trace_id fresh trace_id) [
      | none ↦ []
      | some traceparent ↦ (traceparent_header, traceparent) ∷ []
    ]

-- What the body of the loop does with a response that it does not retry.
unfoldable pub settle : {J : Type 0} → ℕ → Body J → HttpAccountClient → Answer J × HttpAccountClient
unfolding record_downstream_success response_detail
settle status body c =
    if leb 400 status
    then (reject status (response_detail body), record_downstream_success c)
    else (parse_body body, record_downstream_success c)

module _ {W J : Type 0} (net : Network W J) where
  unfoldable pub give_up : Reason → HttpAccountClient → W → Answer J × HttpAccountClient × W
  unfolding record_downstream_failure
  give_up reason c w = (unavailable reason, record_downstream_failure (net.clock w) c, w)

  -- The body of the `for` loop of `_request` after `client.request`: `again` is what the rest of the
  -- loop does after the pause.
  unfoldable pub after_attempt :
      Outcome J
      → ℕ
      → Answer J × HttpAccountClient × W
      → HttpAccountClient
      → W
      → Answer J × HttpAccountClient × W
  unfolding settle give_up
  after_attempt timed_out attempt again c w =
      if ltb attempt c.max_attempts then again else give_up unreachable c w
  after_attempt crashed attempt again c w = (raised transport_error, c, w)
  after_attempt (response status body) attempt again c w =
      if leb 500 status
      then (if ltb attempt c.max_attempts then again else give_up server_error c w)
      else ((settle status body c).0, (settle status body c).1, w)

  -- The `for` loop, with the rounds left and the number of this attempt.
  unfoldable pub attempts :
      ℕ → ℕ → Request J → HttpAccountClient → W → Answer J × HttpAccountClient × W
  unfolding after_attempt backoff
  attempts zero attempt req c w = give_up unreachable c w
  attempts (suc left) attempt req c w =
      let (outcome, w') = net.send req w in
      after_attempt outcome attempt
        (attempts left (attempt + 1) req c (net.sleep (backoff c attempt) w')) c w'

  -- `_request`
  unfoldable pub request : Request J → HttpAccountClient → W → Answer J × HttpAccountClient × W
  unfolding circuit_allows attempts
  request req c w =
      if circuit_allows (net.clock w) c
      then attempts c.max_attempts 1 req c w
      else (circuit_open, c, w)
