-- ===== src/System/Lost.antt =====
-- What the requests that are lost leave behind: failures that the client tries again, and an Account
-- Service that still takes the payload.
use mathlib.Core.Path.{subst}
use distr_sys_itrvw.Base.{ℕ, zero, suc, ◌+◌, ◌≡◌, sym, ap, Bool, false, inl, inr, List, arith}
use distr_sys_itrvw.Base.Lists.{length}
use distr_sys_itrvw.Shared.Text.{Text}
use distr_sys_itrvw.Shared.Time.{DateTime}
use distr_sys_itrvw.Shared.Time.Utc.{IsUtc}
use distr_sys_itrvw.Shared.Contracts.{Platform, IsPlatform, EventPayload, TransactionRecord, ok}
use distr_sys_itrvw.Shared.Contracts.Valid.{IsPayload}
use distr_sys_itrvw.Shared.Contracts.Wire.{Encoding, IsEncoding, rounded}
use distr_sys_itrvw.Shared.Rows.{Engine}
use distr_sys_itrvw.Account
use distr_sys_itrvw.Account.Repository.{Row, apply_transaction}
use distr_sys_itrvw.Account.Deliveries.{
  IsTable, IsCall, apply_transaction-IsTable, apply_transaction-twice,
}
use distr_sys_itrvw.Gateway.Client.{HttpAccountClient, Request, backoff}
use distr_sys_itrvw.Gateway.Client.Retry.{IsRetryable, AllRetryable, retried}
use distr_sys_itrvw.Gateway.Main.{call, transaction_request}
use distr_sys_itrvw.System.{
  Json, World, Delivery, served, lost_response, lost_request, timeout, broken, server_error,
  first_delivery, later_deliveries, Frame, IsFrame, cloud, deliver, dump,
}
use distr_sys_itrvw.System.Runs.{cloud-IsServed}

-- A delivery that fails in a way that the client tries again.
abbrev pub IsLost : Delivery → Type 0
IsLost served = ⊥
IsLost (lost_response broken) = ⊥
IsLost (lost_response how) = Unit
IsLost (lost_request broken) = ⊥
IsLost (lost_request how) = Unit

-- The first `k` deliveries are lost, and the next is served.
abbrev pub AllLost : ℕ → List Delivery → Type 0
AllLost zero ds = first_delivery ds ≡ served
AllLost (suc k) ds = IsLost (first_delivery ds) × AllLost k (later_deliveries ds)

module _ (p : Platform) (laws : IsPlatform p) (w : Encoding) (f : Frame p w)
    (engine : Engine Row) where
  open p use {Metadata}
  open w use {Float}

  -- A well-formed table that would take the payload at any time in UTC.
  abbrev pub WouldAccept : EventPayload Metadata → Account.Repository.Table → Type 0
  WouldAccept e t =
      IsTable p t
      × ((now : DateTime)
          → IsUtc now
          → (r : TransactionRecord Metadata) × (created : Bool) × ((apply_transaction p engine now e
                t).0
              ≡ ok (r, created)))

  WouldAccept-apply :
      (now : DateTime) (e : EventPayload Metadata) (t : Account.Repository.Table)
      → IsCall p now e
      → WouldAccept e t
      → WouldAccept e (apply_transaction p engine now e t).1
  WouldAccept-apply now e t call (held, accepts) =
      let (r, created, done) = accepts now call.0 in
      (
        apply_transaction-IsTable p laws engine now e t call held,
        λ later hlater. (
          r,
          false,
          ap (λ o. o.0) (apply_transaction-twice p laws engine now later e t call hlater held done),
        ),
      )

  pub lost-IsRetryable :
      (d : Delivery) (now : DateTime) (req : Request (Json Metadata Float)) (s : Account.Main.State)
      → IsLost d
      → IsRetryable (deliver p w f engine d now req s).0
  unfolding deliver
  lost-IsRetryable served now req s h = absurd h
  lost-IsRetryable (lost_response timeout) now req s h = tt
  lost-IsRetryable (lost_response broken) now req s h = absurd h
  lost-IsRetryable (lost_response (server_error n)) now req s h = omega arith
  lost-IsRetryable (lost_request timeout) now req s h = tt
  lost-IsRetryable (lost_request broken) now req s h = absurd h
  lost-IsRetryable (lost_request (server_error n)) now req s h = omega arith

  module _ (frame : IsFrame p w f) (encoding : IsEncoding w) (fresh trace_id : Text)
      (e : EventPayload Metadata) (he : IsPayload p e) (three : length e.currency ≡ 3) where
    abbrev req : Request (Json Metadata Float)
    req = transaction_request p (dump p w f engine) fresh trace_id e

    sent-WouldAccept :
        (v : World)
        → WouldAccept (rounded p w e) v.account.repository
        → WouldAccept (rounded p w e) ((cloud p w f engine).send req v).1.account.repository
    sent-WouldAccept v h =
        elim (cloud-IsServed p w f engine frame encoding fresh trace_id e he three v) [
          | inl (same, _) ↦ subst (WouldAccept (rounded p w e)) (sym same) h
          | inr (sendable, changed, _) ↦
              subst (WouldAccept (rounded p w e)) (sym changed) (
                WouldAccept-apply (f.utc_at v.clock) (rounded p w e) v.account.repository sendable
                  h)
        ]

    -- What lost deliveries leave behind.
    abbrev pub Leaves : HttpAccountClient → ℕ → ℕ → World → Type 0
    Leaves c k attempt v =
        AllRetryable (cloud p w f engine) req c k attempt v
        × (first_delivery (retried (cloud p w f engine) req c k attempt v).deliveries ≡ served)
        × WouldAccept (rounded p w e)
            (retried (cloud p w f engine) req c k attempt v).account.repository

    pub lost-Leaves :
        (c : HttpAccountClient) (k attempt : ℕ) (v : World)
        → AllLost k v.deliveries
        → WouldAccept (rounded p w e) v.account.repository
        → Leaves c k attempt v
    lost-Leaves c zero attempt v lost h = (tt, lost, h)
    lost-Leaves c (suc k) attempt v (lost, more) h =
        let (o, v') = (cloud p w f engine).send req v in
        let (failed, next, held) =
          lost-Leaves c k (attempt + 1) ((cloud p w f engine).sleep (backoff c attempt) v') more
            (sent-WouldAccept v h) in
        (
          (
            lost-IsRetryable (first_delivery v.deliveries) (f.utc_at v.clock) req v.account lost,
            failed,
          ),
          next,
          held,
        )
