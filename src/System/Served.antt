-- ===== src/System/Served.antt =====
-- What one delivery of a transaction request does to the Account Service.
use distr_sys_itrvw.Base.{
  ◌≡◌, refl, Bool, true, false, ◌⊎◌, inl, inr, none, some, arith, Bool-cases, Option-cases,
}
use distr_sys_itrvw.Shared.Text.{Text, text_eq}
use distr_sys_itrvw.Shared.Time.{DateTime}
use distr_sys_itrvw.Shared.Contracts.{
  Platform, EventPayload, TransactionRecord, Result, ok, err, duplicate_conflict, currency_mismatch,
  validation_error, value_error, overflow_error, integrity_error, runtime_error,
}
use distr_sys_itrvw.Shared.Contracts.Wire.{
  Encoding, IsEncoding, rounded-IsPayload, PayloadJson, rounded, sent, model_validate,
  model_validate-sent, model_validate-sent_refused,
}
use distr_sys_itrvw.Shared.Decimal.{decimal_positive}
use distr_sys_itrvw.Shared.Rows.{Engine}
use distr_sys_itrvw.Account
use distr_sys_itrvw.Account.Repository.{Row, Table}
use distr_sys_itrvw.Account.Deliveries.{IsCall}
use distr_sys_itrvw.Gateway.Client.{Request, Outcome}
use distr_sys_itrvw.Gateway.Client.Rule.{IsAccepted}
use distr_sys_itrvw.Gateway.Main.{transaction_request}
use distr_sys_itrvw.System.{
  Json, payload, Delivery, served, lost_response, lost_request, Failed, timeout, broken,
  server_error, failed_outcome, Frame, IsFrame, respond, post, serve, deliver, dump,
}

module _ (p : Platform) (w : Encoding) (f : Frame p w) (engine : Engine Row) where
  open p use {Metadata}
  open w use {Float}

  -- The table stays and the response is no acceptance, or the payload was given to the repository, and
  -- the response is an acceptance only if the repository returned a record.
  abbrev pub IsServed :
      DateTime
      → EventPayload Metadata
      → Account.Main.State
      → Outcome (Json Metadata Float) × Account.Main.State
      → Type 0
  IsServed now e s (o, s') =
      ((s'.repository ≡ s.repository) × (IsAccepted o → ⊥))
      ⊎ (IsCall p now e
          × (s'.repository ≡ (Account.Repository.apply_transaction p engine now e s.repository).1)
          × (IsAccepted o
              → (r : TransactionRecord Metadata) × (created : Bool)
                × ((Account.Repository.apply_transaction p engine now e s.repository).0
                    ≡ ok (r, created))))

  applied_table :
      (q : Result (TransactionRecord Metadata × Bool)) (s : Account.Main.State)
      → (Account.Main.applied p q s).1.repository ≡ s.repository
  applied_table (ok (x, true)) s = refl
  applied_table (ok (x, false)) s = refl
  applied_table (err (duplicate_conflict id)) s = refl
  applied_table (err (currency_mismatch a b)) s = refl
  applied_table (err validation_error) s = refl
  applied_table (err value_error) s = refl
  applied_table (err overflow_error) s = refl
  applied_table (err integrity_error) s = refl
  applied_table (err runtime_error) s = refl

  applied_accepted :
      (q : Result (TransactionRecord Metadata × Bool)) (s : Account.Main.State)
      → IsAccepted (respond p w f engine (Account.Main.applied p q s).0)
      → (r : TransactionRecord Metadata) × (created : Bool) × (q ≡ ok (r, created))
  applied_accepted (ok (x, created)) s h = (x, created, refl)
  applied_accepted (err (duplicate_conflict id)) s h = absurd (omega arith)
  applied_accepted (err (currency_mismatch a b)) s h = absurd (omega arith)
  applied_accepted (err validation_error) s h = absurd (omega arith)
  applied_accepted (err value_error) s h = absurd (omega arith)
  applied_accepted (err overflow_error) s h = absurd (omega arith)
  applied_accepted (err integrity_error) s h = absurd (omega arith)
  applied_accepted (err runtime_error) s h = absurd (omega arith)

  post-IsServed :
      (account_id : Text) (now : DateTime) (e : EventPayload Metadata) (s : Account.Main.State)
      → IsCall p now e
      → IsServed now e s (post p w f engine account_id now (ok e) s)
  unfolding post Account.Main.apply_transaction
  post-IsServed account_id now e s call = elim (Bool-cases (text_eq e.account_id account_id)) [
    | inr other ↦ rw other (inl (refl, λ h. omega arith))
    | inl same ↦
        let (outcome, table) = Account.Repository.apply_transaction p engine now e s.repository in
        rw same (
          inr (
            call,
            applied_table outcome (record s { repository = table }),
            applied_accepted outcome (record s { repository = table }),
          ))
  ]

  failed_refused : (how : Failed) → IsAccepted (failed_outcome {J = Json Metadata Float} how) → ⊥
  failed_refused timeout h = h
  failed_refused broken h = h
  failed_refused (server_error n) h = omega arith

  serve_unknown :
      (now : DateTime) (req : Request (Json Metadata Float)) (s : Account.Main.State)
      → f.route req.path ≡ none
      → serve p w f engine now req s ≡ (f.read req s, s)
  unfolding serve
  serve_unknown now req s e = rw e refl

  pub serve_routed :
      (now : DateTime) (req : Request (Json Metadata Float)) (s : Account.Main.State)
      (account_id : Text) (j : PayloadJson Metadata Float)
      → f.route req.path ≡ some account_id
      → req.payload ≡ some (payload j)
      → serve p w f engine now req s ≡ post p w f engine account_id now (model_validate p w j) s
  unfolding serve
  serve_routed now req s account_id j e h = rw e (rw h refl)

  module _ (frame : IsFrame p w f) (encoding : IsEncoding w) where
    serve-IsServed :
        (fresh trace_id : Text) (now : DateTime) (e : EventPayload Metadata)
        (s : Account.Main.State)
        → IsCall p now e
        → IsServed now
            (rounded p w e)
            s
            (serve p w f engine now (transaction_request p (dump p w f engine) fresh trace_id e) s)
    serve-IsServed fresh trace_id now e s (hn, he, three) =
        let req = transaction_request p (dump p w f engine) fresh trace_id e in
        elim (Option-cases (f.route req.path)) [
          | inl unknown ↦
              rw (serve_unknown now req s unknown) (inl (refl, frame.refused req s refl unknown))
          | inr (account_id, routed) ↦
              rw (serve_routed now req s account_id (sent p w e) routed refl)
                (elim (Bool-cases (decimal_positive (rounded p w e).amount)) [
                  | inl positive ↦ rw (model_validate-sent p w encoding e he three positive) (
                      post-IsServed account_id now (rounded p w e) s
                        (hn, rounded-IsPayload p w e he positive, three))
                  | inr none_left ↦
                      rw (model_validate-sent_refused p w encoding e he.event_timestamp none_left)
                        (unfold post in inl (refl, λ h. omega arith))
                ])
        ]

    pub deliver-IsServed :
        (d : Delivery) (fresh trace_id : Text) (now : DateTime) (e : EventPayload Metadata)
        (s : Account.Main.State)
        → IsCall p now e
        → IsServed now (rounded p w e) s (
            deliver p w f engine d now
              (transaction_request p (dump p w f engine) fresh trace_id e)
              s)
    unfolding deliver
    deliver-IsServed served fresh trace_id now e s call = serve-IsServed fresh trace_id now e s call
    deliver-IsServed (lost_response how) fresh trace_id now e s call =
        elim (serve-IsServed fresh trace_id now e s call) [
          | inl (kept, refused) ↦ inl (kept, failed_refused how)
          | inr (sendable, table, accepted) ↦
              inr (sendable, table, λ h. absurd (failed_refused how h))
        ]
    deliver-IsServed (lost_request how) fresh trace_id now e s call = inl (refl, failed_refused how)
