-- ===== src/Gateway/Main/Reads.antt =====
-- src/gateway_service/main.py: the handlers that only read.
use distr_sys_itrvw.Base.{Option, none, some, List, [], ◌++◌}
use distr_sys_itrvw.Shared.Text.{Text, codes}
use distr_sys_itrvw.Shared.Contracts.{
  Platform, EventRecord, validation_error, Result, ok, err, BalanceResponse, AccountDetailsResponse,
}
use distr_sys_itrvw.Shared.Rows.{Engine}
use distr_sys_itrvw.Gateway.Repository.{Row, get_event, list_events_for_account}
use distr_sys_itrvw.Gateway.Client.{
  Method, Request, Body, Network, Answer, text, returned, circuit_open, unavailable, rejected,
  raised, request_headers,
}
use distr_sys_itrvw.Gateway.Main.{
  State, Reply, answered, http_error, failed, faulted, count, count_open, call,
}

module _ (p : Platform) (J W : Type 0) where
  open p use {Metadata}

  abbrev pub found : Result (Option (EventRecord Metadata)) → Reply J (EventRecord Metadata)
  found (err x) = failed x
  found (ok none) = http_error 404 (text (codes "event not found"))
  found (ok (some event)) = answered 200 event

  -- `GET /events/{event_id}`
  unfoldable pub read_event : Text → State W → Reply J (EventRecord Metadata)
  read_event event_id s = found (get_event p event_id s.repository)

  abbrev pub listed : Result (List (EventRecord Metadata)) → Reply J (List (EventRecord Metadata))
  listed (err x) = failed x
  listed (ok events) = answered 200 events

  -- `GET /events`
  unfoldable pub list_events : Engine Row → Text → State W → Reply J (List (EventRecord Metadata))
  list_events engine account s = listed (list_events_for_account p engine account s.repository)

module _ (p : Platform) {W J : Type 0} (net : Network W J) where
  abbrev pub account_request : Text → Text → Text → Text → Request J
  account_request fresh trace_id account_id end = record {
    method = Method.get;
    path = codes "/accounts/" ++ (account_id ++ end);
    payload = none;
    headers = request_headers fresh trace_id;
  }

  module _ {A : Type 0} (model_validate : Body J → Option A) (noun : Text) where
    abbrev validated : Option A → Reply J A
    validated none = failed validation_error
    validated (some a) = answered 200 a

    -- The `except` clauses of both handlers; `noun` is what their messages say cannot be retrieved.
    unfoldable pub after_read : Answer J × State W → Reply J A × State W
    after_read (returned body, s) = (validated (model_validate body), s)
    after_read (circuit_open, s) = (
      http_error 503 (
          text (
            codes "Account Service circuit breaker is open; "
            ++ (noun ++ codes " cannot be retrieved"))),
      count_open s,
    )
    after_read (unavailable reason, s) = (
      http_error 503 (
          text
            (codes "Account Service is unavailable; " ++ (noun ++ codes " cannot be retrieved"))),
      count (codes "gateway.account_service.unavailable") s,
    )
    after_read (rejected status detail, s) = (http_error status detail, s)
    after_read (raised fault, s) = (faulted fault, s)

  -- `GET /accounts/{account_id}/balance`, with `HttpAccountClient.get_balance`.
  unfoldable pub get_balance :
      (Body J → Option BalanceResponse)
      → Text
      → Text
      → Text
      → State W
      → Reply J BalanceResponse × State W
  unfolding after_read
  get_balance model_validate fresh trace_id account_id s =
      after_read model_validate (codes "balance")
        (call net (account_request fresh trace_id account_id (codes "/balance")) s)

  -- `GET /accounts/{account_id}`, with `HttpAccountClient.get_account`.
  unfoldable pub get_account :
      (Body J → Option (AccountDetailsResponse p.Metadata))
      → Text
      → Text
      → Text
      → State W
      → Reply J (AccountDetailsResponse p.Metadata) × State W
  unfolding after_read
  get_account model_validate fresh trace_id account_id s =
      after_read model_validate (codes "account details")
        (call net (account_request fresh trace_id account_id []) s)
