-- ===== src/System/Balances/Requests.antt =====
-- A request that only reads, over a network that loses requests and responses: it changes nothing, and
-- ends with the body of the route.
use distr_sys_itrvw.Base.{
  ℕ, zero, suc, ◌+◌, ◌<◌, ◌≡◌, refl, ap, ◌∙◌, true, none, inl, inr, Option-cases, List, arith, leb,
  if◌then◌else◌,
}
use distr_sys_itrvw.Shared.Text.{Text}
use distr_sys_itrvw.Shared.Time.{DateTime}
use distr_sys_itrvw.Shared.Rows.{Engine}
use distr_sys_itrvw.Shared.Contracts.{Platform, IsPlatform}
use distr_sys_itrvw.Shared.Contracts.Wire.{Encoding}
use distr_sys_itrvw.Account
use distr_sys_itrvw.Account.Repository.{Row}
use distr_sys_itrvw.Gateway.Client.{
  HttpAccountClient, Request, response, fields, returned, Answer, request, backoff, circuit_allows,
  record_downstream_success,
}
use distr_sys_itrvw.Gateway.Client.Retry.{AllRetryable, retried, request_settles}
use distr_sys_itrvw.System.{
  Json, World, Delivery, served, lost_response, lost_request, first_delivery, Frame, cloud, serve,
  deliver,
}
use distr_sys_itrvw.System.Lost.{AllLost, lost-IsRetryable}

module _ (p : Platform) (laws : IsPlatform p) (w : Encoding) (f : Frame p w)
    (engine : Engine Row) where
  open p use {Metadata}
  open w use {Float}

  -- A request with no payload changes nothing in the Account Service.
  module _ (req : Request (Json Metadata Float)) (empty : req.payload ≡ none) where
    serve_read :
        (now : DateTime) (s : Account.Main.State) → serve p w f engine now req s ≡ (f.read req s, s)
    unfolding serve
    serve_read now s = elim (Option-cases (f.route req.path)) [
      | inl unrouted ↦ rw unrouted (rw empty refl)
      | inr (account, routed) ↦ rw routed (rw empty refl)
    ]

    deliver_read :
        (d : Delivery) (now : DateTime) (s : Account.Main.State)
        → (deliver p w f engine d now req s).1 ≡ s
    unfolding deliver
    deliver_read served now s = ap (λ o. o.1) (serve_read now s)
    deliver_read (lost_response how) now s = ap (λ o. o.1) (serve_read now s)
    deliver_read (lost_request how) now s = refl

    -- What lost deliveries of it leave behind.
    abbrev Leaves : HttpAccountClient → ℕ → ℕ → World → Type 0
    Leaves c k attempt v =
        AllRetryable (cloud p w f engine) req c k attempt v
        × (first_delivery (retried (cloud p w f engine) req c k attempt v).deliveries ≡ served)
        × ((retried (cloud p w f engine) req c k attempt v).account ≡ v.account)

    lost-Leaves :
        (c : HttpAccountClient) (k attempt : ℕ) (v : World)
        → AllLost k v.deliveries
        → Leaves c k attempt v
    lost-Leaves c zero attempt v lost = (tt, lost, refl)
    lost-Leaves c (suc k) attempt v (lost, more) =
        let v' = ((cloud p w f engine).send req v).1 in
        let (failed, next, same) =
          lost-Leaves c k (attempt + 1) ((cloud p w f engine).sleep (backoff c attempt) v') more in
        (
          (
            lost-IsRetryable p laws w f engine (first_delivery v.deliveries) (f.utc_at v.clock) req
                v.account lost,
            failed,
          ),
          next,
          same ∙ deliver_read (first_delivery v.deliveries) (f.utc_at v.clock) v.account,
        )

    served_read :
        (v : World)
        → first_delivery v.deliveries ≡ served
        → ((cloud p w f engine).send req v).0 ≡ f.read req v.account
    served_read v next =
        ap (λ d. (deliver p w f engine d (f.utc_at v.clock) req v.account).0) next
        ∙ (unfold deliver in ap (λ o. o.0) (serve_read (f.utc_at v.clock) v.account))

    passed :
        (status : ℕ) (a b : Answer (Json Metadata Float))
        → status < 400
        → (if leb 400 status then a else b) ≡ b
    passed status a b h = ground arith

    -- A request whose first `k` attempts are lost ends with the body of the route.
    pub request_reads :
        (c : HttpAccountClient) (k : ℕ) (v : World) {status : ℕ}
        {m : List (Text × Json Metadata Float)}
        → circuit_allows v.clock c ≡ true
        → k < c.max_attempts
        → AllLost k v.deliveries
        → f.read req v.account ≡ response status (fields m)
        → status < 400
        → (v' : World) × (request (cloud p w f engine) req c v
            ≡ (returned (fields m), record_downstream_success c, v'))
          × (v'.account ≡ v.account)
    request_reads c k v {status} {m} allowed few lost answer fine =
        let (failed, next, same) = lost-Leaves c k 1 v lost in
        let v' = retried (cloud p w f engine) req c k 1 v in
        let v'' = ((cloud p w f engine).send req v').1 in
        (
          v'',
          request_settles (cloud p w f engine) req c k v allowed few failed
                (served_read v' next ∙ ap (f.read req) same ∙ answer) (omega arith)
              ∙ ap (λ (a : Answer (Json Metadata Float)). (a, record_downstream_success c, v''))
                  (passed status _ (returned (fields m)) fine),
          deliver_read (first_delivery v'.deliveries) (f.utc_at v'.clock) v'.account ∙ same,
        )
