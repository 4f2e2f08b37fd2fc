-- ===== src/System/Submissions.antt =====
-- Submissions to the Gateway are runs of the steps of `Steps`.
use mathlib.Core.Path.{subst}
use distr_sys_itrvw.Base.{◌≡◌, refl, sym, ap, ◌∙◌, Bool, true, false, Option, none, some, List}
use distr_sys_itrvw.Shared.Text.{Text}
use distr_sys_itrvw.Shared.Time.{DateTime}
use distr_sys_itrvw.Shared.Time.Utc.{IsUtc}
use distr_sys_itrvw.Shared.Contracts.{
  Platform, EventPayload, EventRecord, Result, ok, err, duplicate_conflict, currency_mismatch,
  validation_error, value_error, overflow_error, integrity_error, runtime_error,
}
use distr_sys_itrvw.Shared.Contracts.Valid.{IsPayload}
use distr_sys_itrvw.Shared.Contracts.Wire.{Encoding, IsEncoding, rounded}
use distr_sys_itrvw.Shared.Rows.{Engine}
use distr_sys_itrvw.Account
use distr_sys_itrvw.Account.Repository.{Row, apply_transaction}
use distr_sys_itrvw.Base.Lists.{length}
use distr_sys_itrvw.Gateway
use distr_sys_itrvw.Gateway.Repository.{get_event, insert_applied_event}
use distr_sys_itrvw.Gateway.Client.{
  request, Body, Answer, returned, circuit_open, unavailable, rejected, raised, Network,
}
use distr_sys_itrvw.Gateway.Main.{
  State, stored, after_account, store as store_event, call, transaction_request, submit_event,
  same_event, replayed, after_lookup,
}
use distr_sys_itrvw.System.{Json, World, Frame, IsFrame, cloud, dump}
use distr_sys_itrvw.System.Runs.{view, Reached, Acknowledged, call-Ends}
use distr_sys_itrvw.System.Steps.{System, store, Reach, here, next}

module _ (p : Platform) (w : Encoding) (f : Frame p w) (engine : Engine Row) where
  open p use {Metadata}
  open w use {Float}

  abbrev Run : System p → System p → Type 0
  Run = Reach p w engine

  abbrev seen_as : State World → List (EventPayload Metadata) → System p
  seen_as = view p w f engine

  module _ (net : Network World (Json Metadata Float)) where
    stored_table :
        (q : Result (EventRecord Metadata × Bool)) (s : State World)
        (acks : List (EventPayload Metadata))
        → seen_as (stored p net (dump p w f engine) q s).1 acks ≡ seen_as s acks
    stored_table (ok (x, true)) s acks = refl
    stored_table (ok (x, false)) s acks = refl
    stored_table (err (duplicate_conflict id)) s acks = refl
    stored_table (err (currency_mismatch a b)) s acks = refl
    stored_table (err validation_error) s acks = refl
    stored_table (err value_error) s acks = refl
    stored_table (err overflow_error) s acks = refl
    stored_table (err integrity_error) s acks = refl
    stored_table (err runtime_error) s acks = refl

  seen :
      {s t : System p} {x : Account.Repository.Table} {y : Gateway.Repository.Table}
      → Run s t
      → t.transactions ≡ x
      → t.events ≡ y
      → Run s (record { events = y; transactions = x; acknowledged = t.acknowledged })
  seen {s} {t} {x} reach a b =
      subst (Run s)
        (ap (λ x. record t { transactions = x }) a
          ∙ ap (λ y. record { events = y; transactions = x; acknowledged = t.acknowledged }) b)
        reach

  -- A run from one state of the Gateway and its world to another.
  abbrev pub IsRun : State World → List (EventPayload Metadata) → State World → Type 0
  IsRun s acks s' = (acks' : List (EventPayload Metadata)) × Run (seen_as s acks) (seen_as s' acks')

  module _ (now : DateTime) (hn : IsUtc now) (e : EventPayload Metadata) (he : IsPayload p e)
      (three : length e.currency ≡ 3) (s0 : State World) (acks : List (EventPayload Metadata)) where
    after_account-IsRun :
        (answer : Answer (Json Metadata Float)) (s : State World)
        → s.repository ≡ s0.repository
        → Reached p w f engine (seen_as s0 acks) s.world
        → ((body : Body (Json Metadata Float))
            → answer ≡ returned body
            → Acknowledged p w f engine (seen_as s0 acks) (rounded p w e) s.world)
        → IsRun s0 acks
            (after_account p (cloud p w f engine) (dump p w f engine) now e (answer, s)).1
    unfolding after_account store_event
    after_account-IsRun (returned body) s same reached done =
        let (t, reach, table, events, acknowledged) = done body refl in
        let run = seen reach table (events ∙ sym same) in
        let (outcome, after) = insert_applied_event p now e s.repository in
        (
          t.acknowledged,
          subst (Run (seen_as s0 acks))
              (sym (
                stored_table (cloud p w f engine) outcome (record s { repository = after })
                  t.acknowledged))
              (next run (store now e (hn, he, three) acknowledged refl)),
        )
    after_account-IsRun circuit_open s same (t, reach, table, events) done =
        (t.acknowledged, seen reach table (events ∙ sym same))
    after_account-IsRun (unavailable reason) s same (t, reach, table, events) done =
        (t.acknowledged, seen reach table (events ∙ sym same))
    after_account-IsRun (rejected status detail) s same (t, reach, table, events) done =
        (t.acknowledged, seen reach table (events ∙ sym same))
    after_account-IsRun (raised fault) s same (t, reach, table, events) done =
        (t.acknowledged, seen reach table (events ∙ sym same))

    replayed-IsRun :
        (b : Bool) (existing : EventRecord Metadata)
        → IsRun s0 acks (replayed p (cloud p w f engine) (dump p w f engine) b existing s0).1
    replayed-IsRun true existing = (acks, here)
    replayed-IsRun false existing = (acks, here)

    module _ (frame : IsFrame p w f) (encoding : IsEncoding w) (fresh trace_id : Text) where
      lookup-IsRun :
          (q : Result (Option (EventRecord Metadata)))
          → IsRun s0 acks
              (after_lookup p (cloud p w f engine) (dump p w f engine) q fresh trace_id now e s0).1
      unfolding call
      lookup-IsRun (err x) = (acks, here)
      lookup-IsRun (ok (some existing)) = replayed-IsRun (same_event p existing.event e) existing
      lookup-IsRun (ok none) =
          let req = transaction_request p (dump p w f engine) fresh trace_id e in
          let (answer, client, world) =
            request (cloud p w f engine) req s0.account_client s0.world in
          let (reached, done) =
            call-Ends p w f engine frame encoding fresh trace_id e he three (seen_as s0 acks)
              s0.account_client s0.world (seen_as s0 acks, here, refl, refl) in
          after_account-IsRun answer (record s0 { account_client = client; world = world }) refl
            reached done

      -- Over frameworks and an encoding that behave as documented, a submission of a validated payload
      -- with a three-character currency, at a time in UTC, whatever the network does with its requests
      -- and however often they are retried, takes the two tables, from any state of them, through
      -- a sequence of the steps of `Step`.
      pub submit_event-IsRun :
          IsRun s0 acks
            (submit_event p (cloud p w f engine) (dump p w f engine) fresh trace_id now e s0).1
      unfolding submit_event
      submit_event-IsRun = lookup-IsRun (get_event p e.event_id s0.repository)
