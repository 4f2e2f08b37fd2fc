-- ===== src/Gateway/Main/Submit.antt =====
-- `POST /events`: when the events table changes, what a repeated submission does, and what becomes of
-- an event when the Account Service cannot be reached.
use distr_sys_itrvw.Base.{
  ℕ, suc, ◌≡◌, refl, Bool, true, false, ◌⊎◌, inl, inr, Option, none, some, if◌then◌else◌,
}
use distr_sys_itrvw.Shared.Text.{Text, codes}
use distr_sys_itrvw.Shared.Time.{DateTime}
use distr_sys_itrvw.Shared.Contracts.{
  Platform, EventPayload, EventRecord, duplicate_conflict, currency_mismatch, validation_error,
  value_error, overflow_error, integrity_error, runtime_error, Result, ok, err,
}
use distr_sys_itrvw.Gateway.Repository.{get_event, insert_applied_event}
use distr_sys_itrvw.Gateway.Repository.ReadBack.{insert_applied_event-get_event}
use distr_sys_itrvw.Gateway.Client.{
  Body, Network, Answer, text, returned, circuit_open, unavailable, rejected, raised,
  circuit_allows, record_downstream_failure,
}
use distr_sys_itrvw.Gateway.Client.Retry.{request_gives_up, AllRetryable, IsRetryable, retried}
use distr_sys_itrvw.Gateway.Main.{
  State, answered, http_error, count, call, store, stored, replayed, after_account, after_lookup,
  transaction_request, same_event, submit_event, conflict_detail,
}
use distr_sys_itrvw.Gateway.Main.Reads.{read_event}

abbrev pub IsAccepted : {J : Type 0} → Answer J → Type 0
IsAccepted {J} answer = (body : Body J) × (answer ≡ returned body)

module _ (p : Platform) {W J : Type 0} (net : Network W J)
    (dump : EventPayload p.Metadata → J) where
  open p use {Metadata}

  after_account_keeps :
      (now : DateTime) (e : EventPayload Metadata) (answer : Answer J) (s : State W)
      → ((after_account p net dump now e (answer, s)).1.repository ≡ s.repository)
        ⊎ IsAccepted answer
  unfolding after_account
  after_account_keeps now e (returned body) s = inr (body, refl)
  after_account_keeps now e circuit_open s = inl refl
  after_account_keeps now e (unavailable reason) s = inl refl
  after_account_keeps now e (rejected status detail) s = inl refl
  after_account_keeps now e (raised fault) s = inl refl

  replayed_keeps :
      (b : Bool) (existing : EventRecord Metadata) (s : State W)
      → (replayed p net dump b existing s).1.repository ≡ s.repository
  replayed_keeps true existing s = refl
  replayed_keeps false existing s = refl

  replayed_if :
      (b : Bool) (existing : EventRecord Metadata) (s : State W)
      → replayed p net dump b existing s ≡ (
          if b
          then (answered 200 existing, count (codes "gateway.events.duplicate_replay") s)
          else (
            http_error 409 (text conflict_detail),
            count (codes "gateway.events.idempotency_conflict") s,
          ))
  replayed_if true existing s = refl
  replayed_if false existing s = refl

  lookup_keeps :
      (fresh trace_id : Text) (now : DateTime) (e : EventPayload Metadata) (s : State W)
      (r : Result (Option (EventRecord Metadata)))
      → ((after_lookup p net dump r fresh trace_id now e s).1.repository ≡ s.repository)
        ⊎ ((r ≡ ok none) × IsAccepted (call net (transaction_request p dump fresh trace_id e) s).0)
  unfolding call
  lookup_keeps fresh trace_id now e s (err x) = inl refl
  lookup_keeps fresh trace_id now e s (ok (some existing)) =
      inl (replayed_keeps (same_event p existing.event e) existing s)
  lookup_keeps fresh trace_id now e s (ok none) =
      let (answer, s') = call net (transaction_request p dump fresh trace_id e) s in
      elim (after_account_keeps now e answer s') [
        | inl kept ↦ inl kept
        | inr accepted ↦ inr (refl, accepted)
      ]

  -- The events table stays as it is, unless it had no event under the identifier and the Account
  -- Service answered the transaction with a response that is no error.
  pub submit_event_stores_applied :
      (fresh trace_id : Text) (now : DateTime) (e : EventPayload Metadata) (s : State W)
      → ((submit_event p net dump fresh trace_id now e s).1.repository ≡ s.repository)
        ⊎ ((get_event p e.event_id s.repository ≡ ok none)
            × IsAccepted (call net (transaction_request p dump fresh trace_id e) s).0)
  unfolding submit_event
  submit_event_stores_applied fresh trace_id now e s =
      lookup_keeps fresh trace_id now e s (get_event p e.event_id s.repository)

  -- A submission under an identifier that the table has makes no call.
  submit_event_replay :
      (fresh trace_id : Text) (now : DateTime) (e : EventPayload Metadata) (s : State W)
      (existing : EventRecord Metadata)
      → get_event p e.event_id s.repository ≡ ok (some existing)
      → submit_event p net dump fresh trace_id now e s ≡ (
          if same_event p existing.event e
          then (answered 200 existing, count (codes "gateway.events.duplicate_replay") s)
          else (
            http_error 409 (text conflict_detail),
            count (codes "gateway.events.idempotency_conflict") s,
          ))
  unfolding submit_event
  submit_event_replay fresh trace_id now e s existing h =
      rw h (replayed_if (same_event p existing.event e) existing s)

  stored_answer :
      (q : Result (EventRecord Metadata × Bool)) (s : State W) {status : ℕ}
      {r : EventRecord Metadata}
      → (stored p net dump q s).0 ≡ answered status r
      → (created : Bool) × (q ≡ ok (r, created))
        × ((stored p net dump q s).1.repository ≡ s.repository)
  stored_answer (ok (x, true)) s h = (true, cc, refl)
  stored_answer (ok (x, false)) s h = (false, cc, refl)
  stored_answer (err (duplicate_conflict id)) s h = cc
  stored_answer (err (currency_mismatch a b)) s h = cc
  stored_answer (err validation_error) s h = cc
  stored_answer (err value_error) s h = cc
  stored_answer (err overflow_error) s h = cc
  stored_answer (err integrity_error) s h = cc
  stored_answer (err runtime_error) s h = cc

  module _ (now : DateTime) (e : EventPayload Metadata) {status : ℕ}
      {r : EventRecord Metadata} where
    store_readable :
        (s : State W)
        → (store p net dump now e s).0 ≡ answered status r
        → get_event p e.event_id (store p net dump now e s).1.repository ≡ ok (some r)
    unfolding store
    store_readable s h =
        let (outcome, table) = insert_applied_event p now e s.repository in
        let (created, done, same) = stored_answer outcome (record s { repository = table }) h in
        rw same (insert_applied_event-get_event p e now s.repository done)

    after_account_readable :
        (answer : Answer J) (s : State W)
        → (after_account p net dump now e (answer, s)).0 ≡ answered status r
        → get_event p e.event_id (after_account p net dump now e (answer, s)).1.repository
          ≡ ok (some r)
    unfolding after_account
    after_account_readable (returned body) s h = store_readable s h
    after_account_readable circuit_open s h = cc
    after_account_readable (unavailable reason) s h = cc
    after_account_readable (rejected code detail) s h = cc
    after_account_readable (raised fault) s h = cc

    replayed_readable :
        (b : Bool) (existing : EventRecord Metadata) (s : State W)
        → get_event p e.event_id s.repository ≡ ok (some existing)
        → (replayed p net dump b existing s).0 ≡ answered status r
        → get_event p e.event_id (replayed p net dump b existing s).1.repository ≡ ok (some r)
    replayed_readable true existing s found h = cc
    replayed_readable false existing s found h = cc

    lookup_readable :
        (fresh trace_id : Text) (s : State W) (q : Result (Option (EventRecord Metadata)))
        → get_event p e.event_id s.repository ≡ q
        → (after_lookup p net dump q fresh trace_id now e s).0 ≡ answered status r
        → get_event p e.event_id (after_lookup p net dump q fresh trace_id now e s).1.repository
          ≡ ok (some r)
    lookup_readable fresh trace_id s (err x) found h = cc
    lookup_readable fresh trace_id s (ok (some existing)) found h =
        replayed_readable (same_event p existing.event e) existing s found h
    lookup_readable fresh trace_id s (ok none) found h =
        let (answer, s') = call net (transaction_request p dump fresh trace_id e) s in
        after_account_readable answer s' h

  submit_event_found :
      (fresh trace_id : Text) (now : DateTime) (e : EventPayload Metadata) (s : State W)
      {status : ℕ} {r : EventRecord Metadata}
      → (submit_event p net dump fresh trace_id now e s).0 ≡ answered status r
      → get_event p e.event_id (submit_event p net dump fresh trace_id now e s).1.repository
        ≡ ok (some r)
  unfolding submit_event
  submit_event_found fresh trace_id now e s h =
      lookup_readable now e fresh trace_id s (get_event p e.event_id s.repository) refl h

  -- An event that is answered with a record can be read at once under its identifier, as that record.
  pub submit_event_readable :
      (fresh trace_id : Text) (now : DateTime) (e : EventPayload Metadata) (s : State W)
      {status : ℕ} {r : EventRecord Metadata}
      → (submit_event p net dump fresh trace_id now e s).0 ≡ answered status r
      → read_event p J W e.event_id (submit_event p net dump fresh trace_id now e s).1
        ≡ answered 200 r
  submit_event_readable fresh trace_id now e s h =
      unfold read_event in rw (submit_event_found fresh trace_id now e s h) refl

  -- Once an event was answered with a record, any further submission under its identifier makes no call
  -- and changes only a counter: if its payload is the same event as the record, it is answered with 200
  -- and that record, and otherwise with 409.
  pub submit_event_again :
      (fresh fresh' trace_id trace_id' : Text) (now now' : DateTime) (e e' : EventPayload Metadata)
      (s : State W) {status : ℕ} {r : EventRecord Metadata}
      → (submit_event p net dump fresh trace_id now e s).0 ≡ answered status r
      → e'.event_id ≡ e.event_id
      → let s' = (submit_event p net dump fresh trace_id now e s).1 in
        submit_event p net dump fresh' trace_id' now' e' s' ≡ (
          if same_event p r.event e'
          then (answered 200 r, count (codes "gateway.events.duplicate_replay") s')
          else (
            http_error 409 (text conflict_detail),
            count (codes "gateway.events.idempotency_conflict") s',
          ))
  submit_event_again fresh fresh' trace_id trace_id' now now' e e' s {r = r} h same =
      submit_event_replay fresh' trace_id' now' e'
        (submit_event p net dump fresh trace_id now e s).1 r
        (rw same (submit_event_found fresh trace_id now e s h))

  -- An event under a fresh identifier, when the circuit lets the request through and every attempt
  -- fails for availability, is answered with 503; the events table stays as it is, and the breaker
  -- counts one failure.
  pub submit_event_unavailable :
      (fresh trace_id : Text) (now : DateTime) (e : EventPayload Metadata) (s : State W) (k : ℕ)
      → let req = transaction_request p dump fresh trace_id e in
        let c = s.account_client in
        let (last, w) = net.send req (retried net req c k 1 s.world) in
        get_event p e.event_id s.repository ≡ ok none
        → circuit_allows (net.clock s.world) c ≡ true
        → c.max_attempts ≡ suc k
        → AllRetryable net req c k 1 s.world
        → IsRetryable last
        → submit_event p net dump fresh trace_id now e s ≡ (
          http_error 503
              (text (codes "Account Service is unavailable; transaction was not accepted")),
          count
              (codes "gateway.account_service.unavailable")
              (record s { account_client = record_downstream_failure (net.clock w) c; world = w }),
        )
  unfolding submit_event call after_account
  submit_event_unavailable fresh trace_id now e s k unseen allowed tries all last = rw unseen (
      rw
        (request_gives_up net (transaction_request p dump fresh trace_id e) s.account_client k
          s.world allowed tries all last)
        refl)
