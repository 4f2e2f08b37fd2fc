-- ===== src/Gateway/Main.antt =====
-- src/gateway_service/main.py: the handlers of the public API. The state is what the application keeps:
-- the events table, the counters, the client of the Account Service, and the world it calls into.
-- The middleware around them is Shared/Middleware; FastAPI's routing and rendering are left out.
pub mod Reads
pub mod Submit
pub mod SameEvent
pub mod App
pub mod Started
pub mod Tests
use distr_sys_itrvw.Base.{
  ℕ, Bool, true, false, ◌&&◌, Option, none, some, List, [], ◌∷◌, ◌++◌, ◌+◌, ◌==◌, if◌then◌else◌,
}
use distr_sys_itrvw.Shared.Text.{Text, codes, text_eq}
use distr_sys_itrvw.Shared.Time.{DateTime, Zone}
use distr_sys_itrvw.Shared.Time.Utc.{wall_clock, east_part, west_part}
use distr_sys_itrvw.Shared.Decimal.{decimal_eq}
use distr_sys_itrvw.Shared.Contracts.{
  Platform, type_value, EventPayload, EventRecord, Failure, duplicate_conflict, Result, ok, err,
  BalanceResponse, AccountDetailsResponse,
}
use distr_sys_itrvw.Shared.Rows.{Engine}
use distr_sys_itrvw.Shared.Metrics.{MetricsRegistry, count_event}
use distr_sys_itrvw.Gateway.Repository.{
  Row, Table, get_event, insert_applied_event, list_events_for_account,
}
use distr_sys_itrvw.Gateway.Client.{
  HttpAccountClient, Method, Request, Body, Network, Detail, Fault, Answer, text, returned,
  circuit_open, unavailable, rejected, raised, request, request_headers,
}

-- `==` of two aware datetimes: by their fields where the offsets agree, and else by their instants.
unfoldable pub datetime_eq : DateTime → DateTime → Bool
datetime_eq a b =
    if (east_part a.zone == east_part b.zone) && (west_part a.zone == west_part b.zone)
    then (a.date.year == b.date.year)
      && ((a.date.month == b.date.month) && ((a.date.day == b.date.day) && (a.time == b.time)))
    else wall_clock a + west_part a.zone + east_part b.zone
      == wall_clock b + west_part b.zone + east_part a.zone

pub record State (W : Type 0) : Type 0 where
  pub repository : Table
  pub metrics : MetricsRegistry
  pub account_client : HttpAccountClient
  pub world : W

-- A response: a status with a body, or a status with the detail of an `HTTPException`. What no handler
-- catches ends as the server's own 500.
pub data Reply (J A : Type 0) : Type 0 where
  answered : ℕ → A → Reply J A
  http_error : ℕ → Detail J → Reply J A
  failed : Failure → Reply J A
  faulted : Fault → Reply J A

abbrev pub conflict_detail : Text
conflict_detail = codes "eventId already exists with different event details"

module _ {W : Type 0} where
  abbrev pub count : Text → State W → State W
  count name s = record s { metrics = count_event name s.metrics }

  -- The two counters of an open circuit.
  abbrev pub count_open : State W → State W
  count_open s =
      count (codes "gateway.account_service.unavailable")
        (count (codes "gateway.account_service.circuit_open") s)

-- A call of the client, which changes the client and the world.
unfoldable pub call : {W J : Type 0} → Network W J → Request J → State W → Answer J × State W
call net req s =
    let (answer, client, world) = request net req s.account_client s.world in
    (answer, record s { account_client = client; world = world })

module _ (p : Platform) where
  open p use {Metadata}

  -- `HttpAccountClient.apply_transaction`; `dump` is the JSON of `event.model_dump`.
  abbrev pub transaction_request :
      {J : Type 0} → (EventPayload Metadata → J) → Text → Text → EventPayload Metadata → Request J
  transaction_request dump fresh trace_id event = record {
    method = Method.post;
    path = codes "/accounts/" ++ (event.account_id ++ codes "/transactions");
    payload = some (dump event);
    headers = request_headers fresh trace_id;
  }

  -- `_same_event` of the handlers.
  unfoldable pub same_event : EventPayload Metadata → EventPayload Metadata → Bool
  unfolding datetime_eq
  same_event existing incoming =
      text_eq existing.event_id incoming.event_id
      && (text_eq existing.account_id incoming.account_id
          && (text_eq (type_value existing.type) (type_value incoming.type)
              && (decimal_eq existing.amount incoming.amount
                  && (text_eq existing.currency incoming.currency
                      && (datetime_eq existing.event_timestamp incoming.event_timestamp
                          && p.metadata_eq existing.metadata incoming.metadata)))))

  module _ {W J : Type 0} (net : Network W J) (dump : EventPayload Metadata → J) where
    abbrev pub Step : Type 0 → Type 0
    Step A = Reply J A × State W

    -- What follows the insertion.
    abbrev pub stored : Result (EventRecord Metadata × Bool) → State W → Step (EventRecord Metadata)
    stored (ok (event, true)) s = (answered 201 event, count (codes "gateway.events.accepted") s)
    stored (ok (event, false)) s =
        (answered 200 event, count (codes "gateway.events.duplicate_replay") s)
    stored (err (duplicate_conflict id)) s = (
      http_error 409 (text conflict_detail),
      count (codes "gateway.events.idempotency_conflict") s,
    )
    stored (err x) s = (failed x, s)

    unfoldable pub store : DateTime → EventPayload Metadata → State W → Step (EventRecord Metadata)
    store now event s =
        let (outcome, table) = insert_applied_event p now event s.repository in
        stored outcome (record s { repository = table })

    -- The `except` clauses around `apply_transaction`, and what follows them.
    unfoldable pub after_account :
        DateTime → EventPayload Metadata → Answer J × State W → Step (EventRecord Metadata)
    after_account now event (returned body, s) = store now event s
    after_account now event (circuit_open, s) = (
      http_error 503
          (text (codes "Account Service circuit breaker is open; transaction was not accepted")),
      count_open s,
    )
    after_account now event (unavailable reason, s) = (
      http_error 503 (text (codes "Account Service is unavailable; transaction was not accepted")),
      count (codes "gateway.account_service.unavailable") s,
    )
    after_account now event (rejected status detail, s) =
        (http_error status detail, count (codes "gateway.account_service.rejected") s)
    after_account now event (raised fault, s) = (faulted fault, s)

    abbrev pub replayed : Bool → EventRecord Metadata → State W → Step (EventRecord Metadata)
    replayed true existing s =
        (answered 200 existing, count (codes "gateway.events.duplicate_replay") s)
    replayed false existing s = (
      http_error 409 (text conflict_detail),
      count (codes "gateway.events.idempotency_conflict") s,
    )

    abbrev pub after_lookup :
        Result (Option (EventRecord Metadata))
        → Text
        → Text
        → DateTime
        → EventPayload Metadata
        → State W
        → Step (EventRecord Metadata)
    after_lookup (err x) fresh trace_id now event s = (failed x, s)
    after_lookup (ok (some existing)) fresh trace_id now event s =
        replayed (same_event existing.event event) existing s
    after_lookup (ok none) fresh trace_id now event s =
        after_account now event (call net (transaction_request dump fresh trace_id event) s)

    -- `POST /events`, for a payload that validation let through.
    unfoldable pub submit_event :
        Text → Text → DateTime → EventPayload Metadata → State W → Step (EventRecord Metadata)
    submit_event fresh trace_id now event s =
        after_lookup (get_event p event.event_id s.repository) fresh trace_id now event s
