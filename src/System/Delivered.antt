-- ===== src/System/Delivered.antt =====
-- A submission gets through: what the requests that fail leave behind does not stop the one that is
-- served.
use mathlib.Core.Path.{subst}
use distr_sys_itrvw.Base.{
  ℕ, ◌<◌, ◌≡◌, refl, sym, ap, ◌∙◌, Bool, true, false, some, none, List, [], ◌∷◌, ◌++◌, arith,
  if◌then◌else◌, leb,
}
use distr_sys_itrvw.Base.Lists.{length}
use distr_sys_itrvw.Shared.Text.{Text, text_eq_refl}
use distr_sys_itrvw.Shared.Time.{DateTime}
use distr_sys_itrvw.Shared.Time.Utc.{IsUtc}
use distr_sys_itrvw.Shared.Decimal.{decimal_positive}
use distr_sys_itrvw.Shared.Contracts.{
  Platform, IsPlatform, EventPayload, TransactionRecord, Result, ok,
}
use distr_sys_itrvw.Shared.Contracts.Valid.{IsPayload}
use distr_sys_itrvw.Shared.Contracts.Wire.{Encoding, IsEncoding, rounded, sent, model_validate-sent}
use distr_sys_itrvw.Shared.Rows.{Engine}
use distr_sys_itrvw.Account
use distr_sys_itrvw.Account.Repository.{Row, apply_transaction}
use distr_sys_itrvw.Gateway.Repository.{get_event}
use distr_sys_itrvw.Gateway.Repository.Fresh.{inserted, fresh_row, insert_applied_event_fresh}
use distr_sys_itrvw.Gateway.Client.{
  HttpAccountClient, Request, request, Outcome, fields, response, Answer, returned, circuit_allows,
  record_downstream_success,
}
use distr_sys_itrvw.Gateway.Client.Retry.{retried, request_settles}
use distr_sys_itrvw.Gateway.Main.{
  State, answered, call, after_account, store, submit_event, transaction_request,
}
use distr_sys_itrvw.System.{
  Json, World, served, first_delivery, Frame, IsFrame, respond, post, serve, cloud, deliver, dump,
}
use distr_sys_itrvw.System.Served.{serve_routed}
use distr_sys_itrvw.System.Lost.{AllLost, WouldAccept, lost-Leaves}

module _ (p : Platform) (laws : IsPlatform p) (w : Encoding) (f : Frame p w)
    (engine : Engine Row) where
  open p use {Metadata}
  open w use {Float}

  module _ (frame : IsFrame p w f) (encoding : IsEncoding w) (fresh trace_id : Text)
      (e : EventPayload Metadata) (he : IsPayload p e) (three : length e.currency ≡ 3) where
    abbrev req : Request (Json Metadata Float)
    req = transaction_request p (dump p w f engine) fresh trace_id e

    passed :
        (status : ℕ) (a b : Answer (Json Metadata Float))
        → status < 400
        → (if leb 400 status then a else b) ≡ b
    passed status a b h = ground arith

    abbrev Accepted : Outcome (Json Metadata Float) → Type 0
    Accepted o =
        (status : ℕ) × (body : List (Text × Json Metadata Float)) × (o
          ≡ response status (fields body))
        × (status < 400)

    applied_answers :
        (q : Result (TransactionRecord Metadata × Bool)) (s : Account.Main.State)
        (r : TransactionRecord Metadata) (created : Bool)
        → q ≡ ok (r, created)
        → Accepted (respond p w f engine (Account.Main.applied p q s).0)
    applied_answers q s r true done = rw done (201, f.render r, refl, omega arith)
    applied_answers q s r false done = rw done (200, f.render r, refl, omega arith)

    module _ (positive : decimal_positive (rounded p w e).amount ≡ true)
        (routed : f.route req.path ≡ some e.account_id) where
      serve-Accepted :
          (now : DateTime) (s : Account.Main.State)
          → IsUtc now
          → WouldAccept p laws w f engine (rounded p w e) s.repository
          → Accepted (serve p w f engine now req s).0
      serve-Accepted now s hn (held, accepts) =
          let (r, created, done) = accepts now hn in
          let (outcome, table) = apply_transaction p engine now (rounded p w e) s.repository in
          rw (serve_routed p w f engine now req s e.account_id (sent p w e) routed refl) (
            rw (model_validate-sent p w encoding e he three positive) (
              unfold post Account.Main.apply_transaction in
              rw (text_eq_refl e.account_id)
                (applied_answers outcome (record s { repository = table }) r created done)))

      served-Accepted :
          (v : World)
          → first_delivery v.deliveries ≡ served
          → WouldAccept p laws w f engine (rounded p w e) v.account.repository
          → Accepted ((cloud p w f engine).send req v).0
      served-Accepted v e h =
          subst (λ d. Accepted (deliver p w f engine d (f.utc_at v.clock) req v.account).0) (sym e)
            (unfold deliver in serve-Accepted (f.utc_at v.clock) v.account (frame.utc_at v.clock) h)

      -- The answer of a request whose first `k` attempts are lost.
      request_delivered :
          (c : HttpAccountClient) (k : ℕ) (v : World)
          → circuit_allows v.clock c ≡ true
          → k < c.max_attempts
          → AllLost k v.deliveries
          → WouldAccept p laws w f engine (rounded p w e) v.account.repository
          → (body : List (Text × Json Metadata Float)) × (v' : World) × (request
                (cloud p w f engine)
                req
                c
                v
              ≡ (returned (fields body), record_downstream_success c, v'))
      request_delivered c k v allowed few lost h =
          let (failed, next, held) =
            lost-Leaves p laws w f engine frame encoding fresh trace_id e he three c k 1 v lost h in
          let v' = retried (cloud p w f engine) req c k 1 v in
          let (status, body, answer, fine) = served-Accepted v' next held in
          (
            body,
            ((cloud p w f engine).send req v').1,
            request_settles (cloud p w f engine) req c k v allowed few failed answer (omega arith)
                ∙ ap
                    (λ (a : Answer (Json Metadata Float)).
                      (a, record_downstream_success c, ((cloud p w f engine).send req v').1))
                    (passed status _ (returned (fields body)) fine),
          )

      -- Over a platform, frameworks and an encoding that behave as documented, a validated payload with
      -- a three-character currency and an amount that a float keeps positive is submitted under an
      -- identifier that the Gateway does not have, at a time in UTC: if the account's
      -- path is routed to the account, the Account Service's table is well-formed and would take the
      -- payload at any time in UTC, the circuit lets the request through, and fewer requests are lost
      -- than there are attempts, whether before the Account Service handled them or after, by timeouts or
      -- server errors, and the next one is served, then the answer is 201 with the payload as a new
      -- record, its row is appended to the events table, and the circuit is closed.
      pub submit_event_delivered :
          (now : DateTime) (s : State World) (k : ℕ)
          → IsUtc now
          → get_event p e.event_id s.repository ≡ ok none
          → circuit_allows s.world.clock s.account_client ≡ true
          → k < s.account_client.max_attempts
          → AllLost k s.world.deliveries
          → WouldAccept p laws w f engine (rounded p w e) s.world.account.repository
          → let (answer, s') =
              submit_event p (cloud p w f engine) (dump p w f engine) fresh trace_id now e s in
            (answer ≡ answered 201 (inserted p now e))
            × (s'.repository ≡ s.repository ++ fresh_row p now e ∷ [])
            × (s'.account_client ≡ record_downstream_success s.account_client)
      submit_event_delivered now s k hn unseen allowed few lost h =
          let (body, v', done) = request_delivered s.account_client k s.world allowed few lost h in
          unfold submit_event call after_account store in
          rw unseen (
            rw done (
              rw (insert_applied_event_fresh p laws now e s.repository (hn, he, three) unseen)
                (refl, refl, refl)))
