-- ===== src/System.antt =====
-- The Gateway and the Account Service together: src/gateway_service/main.py over
-- src/gateway_service/account_client.py, calling src/account_service/main.py over a network that may
-- lose requests and responses.
pub mod Steps
pub mod Invariant
pub mod Served
pub mod Runs
pub mod Submissions
pub mod Lost
pub mod Delivered
pub mod Reads
pub mod Listings
pub mod Balances
pub mod Tests
pub mod BalanceTests
pub mod DatabaseTests
pub mod ListingTests
use distr_sys_itrvw.Base.{
  ℕ, zero, suc, ◌+◌, Bool, true, false, Option, none, some, List, [], ◌∷◌, ◌++◌,
}
use distr_sys_itrvw.Shared.Text.{Text, codes}
use distr_sys_itrvw.Shared.Time.{DateTime}
use distr_sys_itrvw.Shared.Time.Utc.{IsUtc}
use distr_sys_itrvw.Gateway.Client.Rule.{IsAccepted}
use distr_sys_itrvw.Base.{◌≡◌}
use distr_sys_itrvw.Shared.Contracts.{
  Platform, EventPayload, TransactionRecord, Result, ok, err, validation_error,
}
use distr_sys_itrvw.Shared.Contracts.Wire.{Encoding, PayloadJson, sent, model_validate}
use distr_sys_itrvw.Shared.Rows.{Engine}
use distr_sys_itrvw.Account
use distr_sys_itrvw.Account.Repository.{Row}
use distr_sys_itrvw.Gateway.Client.{
  Method, Request, Body, Outcome, timed_out, crashed, response, fields, malformed, Network,
}

-- The JSON values that the services exchange.
pub data Json (M F : Type 0) : Type 0 where
  payload : PayloadJson M F → Json M F
  string : Text → Json M F
  number : F → Json M F
  object : M → Json M F

-- How a delivery fails: by a timeout or a connection error, by another exception of HTTPX, or by the
-- server error of something in between.
pub data Failed : Type 0 where
  timeout broken : Failed
  server_error : ℕ → Failed

-- What becomes of one request: the Account Service handles it and answers, it handles it and the answer
-- is lost, or the request is lost on its way.
pub data Delivery : Type 0 where
  served : Delivery
  lost_response lost_request : Failed → Delivery

-- The world of the Gateway's client: the Account Service's state, the clock, and what becomes of the
-- requests to come. Past the end of the list every request is served.
pub record World : Type 0 where
  pub account : Account.Main.State
  pub clock : ℕ
  pub deliveries : List Delivery

abbrev pub first_delivery : List Delivery → Delivery
first_delivery [] = served
first_delivery (d ∷ ds) = d

abbrev pub later_deliveries : List Delivery → List Delivery
later_deliveries [] = []
later_deliveries (d ∷ ds) = ds

abbrev pub failed_outcome : {J : Type 0} → Failed → Outcome J
failed_outcome timeout = timed_out
failed_outcome broken = crashed
failed_outcome (server_error n) = response (500 + n) (malformed (codes "server error"))

-- What is left to the frameworks: the account that the router reads from a path of a transaction
-- request, the fields of a rendered record, the other routes, which only read, and the time that the
-- clock of the machine shows.
pub record Frame (p : Platform) (w : Encoding) : Type 0 where
  pub route : Text → Option Text
  pub render : TransactionRecord p.Metadata → List (Text × Json p.Metadata w.Float)
  pub read :
      Request (Json p.Metadata w.Float) → Account.Main.State → Outcome (Json p.Metadata w.Float)
  pub utc_at : ℕ → DateTime

-- The documented behaviour of the frameworks: the clock shows UTC, and no other route accepts a `POST`.
pub record IsFrame (p : Platform) (w : Encoding) (f : Frame p w) : Type 0 where
  pub utc_at : (n : ℕ) → IsUtc (f.utc_at n)
  pub refused :
      (req : Request (Json p.Metadata w.Float)) (s : Account.Main.State)
      → req.method ≡ Method.post
      → f.route req.path ≡ none
      → IsAccepted (f.read req s)
      → ⊥

module _ (p : Platform) (w : Encoding) (f : Frame p w) (engine : Engine Row) where
  open p use {Metadata}
  open w use {Float}

  -- The HTTP response of a handler's reply.
  abbrev pub respond :
      Account.Main.Reply (TransactionRecord Metadata) → Outcome (Json Metadata Float)
  respond (Account.Main.answered status r) = response status (fields (f.render r))
  respond (Account.Main.http_error status detail) =
      response status (fields ((codes "detail", string detail) ∷ []))
  respond (Account.Main.failed x) = response 500 (malformed (codes "Internal Server Error"))

  -- `POST /accounts/{account_id}/transactions`: FastAPI refuses a payload that is not valid with 422,
  -- and what a validator raises besides is not caught.
  unfoldable pub post :
      Text
      → DateTime
      → Result (EventPayload Metadata)
      → Account.Main.State
      → Outcome (Json Metadata Float) × Account.Main.State
  post account_id now (err validation_error) s =
      (response 422 (fields ((codes "detail", string (codes "validation error")) ∷ [])), s)
  post account_id now (err x) s = (respond (Account.Main.failed x), s)
  post account_id now (ok event) s =
      let (reply, s') = Account.Main.apply_transaction p engine account_id now event s in
      (respond reply, s')

  -- The Account Service on a request: a transaction, or a route that only reads.
  abbrev pub at_route :
      Option Text
      → Option (Json Metadata Float)
      → DateTime
      → Request (Json Metadata Float)
      → Account.Main.State
      → Outcome (Json Metadata Float) × Account.Main.State
  at_route (some account_id) (some (payload j)) now req s =
      post account_id now (model_validate p w j) s
  at_route _ _ now req s = (f.read req s, s)

  unfoldable pub serve :
      DateTime
      → Request (Json Metadata Float)
      → Account.Main.State
      → Outcome (Json Metadata Float) × Account.Main.State
  serve now req s = at_route (f.route req.path) req.payload now req s

  -- A delivery of a request to the Account Service.
  unfoldable pub deliver :
      Delivery
      → DateTime
      → Request (Json Metadata Float)
      → Account.Main.State
      → Outcome (Json Metadata Float) × Account.Main.State
  unfolding serve
  deliver served now req s = serve now req s
  deliver (lost_response how) now req s = (failed_outcome how, (serve now req s).1)
  deliver (lost_request how) now req s = (failed_outcome how, s)

  abbrev pub cloud : Network World (Json Metadata Float)
  cloud = record {
    send = λ req v.
        let (outcome, account) =
          deliver (first_delivery v.deliveries) (f.utc_at v.clock) req v.account in
        (outcome, record v { account = account; deliveries = later_deliveries v.deliveries });
    clock = λ v. v.clock;
    sleep = λ d v. record v { clock = v.clock + d };
  }

  -- The JSON of a transaction request.
  abbrev pub dump : EventPayload Metadata → Json Metadata Float
  dump e = payload (sent p w e)
