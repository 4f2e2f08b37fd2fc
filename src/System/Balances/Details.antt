-- ===== src/System/Balances/Details.antt =====
-- What a client of the Gateway reads as the details of an account.
use distr_sys_itrvw.Base.{ℕ, ◌<◌, ◌≡◌, refl, ap, true, none, some, [], ◌++◌, arith}
use mathlib.Core.Path.{subst}
use distr_sys_itrvw.Shared.Text.{Text, codes}
use distr_sys_itrvw.Shared.Rows.{Engine}
use distr_sys_itrvw.Shared.Contracts.{
  Platform, IsPlatform, AccountDetailsResponse, Result, ok, err, ◌>>=◌,
}
use distr_sys_itrvw.Shared.Contracts.Wire.{Encoding, IsEncoding}
use distr_sys_itrvw.Shared.Contracts.Details.{
  AccountDetailsJson, IsStripped, AllSendable, rounded_details, details_dump, details_validate,
  details_validate-details_dump,
}
use distr_sys_itrvw.Account
use distr_sys_itrvw.Account.Repository.{
  Row, Table, read_rows, detail_rows, get_balance, get_account_details,
}
use distr_sys_itrvw.Gateway
use distr_sys_itrvw.Gateway.Client.{
  Method, Request, response, fields, circuit_allows, record_downstream_success,
}
use distr_sys_itrvw.Gateway.Main.{State, answered, call}
use distr_sys_itrvw.Gateway.Main.Reads.{account_request, after_read}
use distr_sys_itrvw.System.{Json, World, Frame, cloud}
use distr_sys_itrvw.System.Lost.{AllLost}
use distr_sys_itrvw.System.Balances.{Reads, IsReads, details_of_body, with_reads, read_routes}
use distr_sys_itrvw.System.Balances.Requests.{request_reads}
use distr_sys_itrvw.System.Balances.Arrives.{get_balance-IsStripped}

-- A chain that ends well went through its first step.
first_step :
    {A B : Type 0} {b : B} (q : Result A) (next : A → Result B)
    → (q >>= next) ≡ ok b
    → (a : A) × (q ≡ ok a) × (next a ≡ ok b)
first_step (ok a) next h = (a, refl, h)
first_step (err x) next h = absurd cc

ok-injective : {A : Type 0} {a b : A} → ok a ≡ ok b → a ≡ b
ok-injective e = cc

module _ (p : Platform) (engine : Engine Row) where
  open p use {Metadata}

  -- The balance among the details is that of `get_balance`.
  balance_response_lem :
      (account : Text) (limit : ℕ) (t : Table) {d : AccountDetailsResponse Metadata}
      → get_account_details p engine account limit t ≡ ok d
      → get_balance p engine account t ≡ d.balance_response
  unfolding get_account_details
  balance_response_lem account limit t h =
      let (rs, _, made) = first_step (read_rows p (detail_rows p engine account limit t)) _ h in
      ap (λ (d : AccountDetailsResponse Metadata). d.balance_response) (ok-injective made)

module _ (p : Platform) (laws : IsPlatform p) (w : Encoding) (encoding : IsEncoding w)
    (f : Frame p w) (reads : Reads p w) (frameworks : IsReads p w reads) (engine : Engine Row) where
  open p use {Metadata}
  open w use {Float}

  abbrev frame : Frame p w
  frame = with_reads p w reads f engine

  abbrev details_request : Text → Text → Text → Request (Json Metadata Float)
  details_request fresh trace_id account =
      account_request p (cloud p w frame engine) fresh trace_id account []

  -- What the route answers.
  read_details :
      (req : Request (Json Metadata Float)) (account : Text) (s : Account.Main.State)
      {d : AccountDetailsResponse Metadata} {j : AccountDetailsJson Metadata Float}
      → req.method ≡ Method.get
      → reads.balance_route req.path ≡ none
      → reads.details_route req.path ≡ some account
      → get_account_details p engine account 25 s.repository ≡ ok d
      → details_dump p w d ≡ ok j
      → frame.read req s ≡ response 200 (fields (reads.render_details j))
  unfolding read_routes Account.Main.get_account
  read_details req account s get other_route routed found written =
      rw get (rw other_route (rw routed (rw found (rw written refl))))

  body_read :
      (j : AccountDetailsJson Metadata Float) {d : AccountDetailsResponse Metadata}
      → details_validate p w j ≡ ok d
      → details_of_body p w reads (fields (reads.render_details j)) ≡ some d
  unfolding details_of_body
  body_read j valid = rw (frameworks.read_details-render j) (rw valid refl)

  -- On a platform, frameworks and an encoding that behave as documented, if the path of the account is
  -- routed to its details, the Account Service finds the details `d`, of which every transaction is
  -- validated, in a currency of three characters, applied at a time in UTC and with an amount that
  -- stays positive as a float, the circuit lets the request through, and fewer requests are lost than
  -- there are attempts, whether before the Account Service handled them or after, by timeouts or server
  -- errors, and the next one is served, then the Gateway answers a request for the details with 200 and
  -- `d`, of which only the balance and the amounts are rounded to floats; the circuit is closed, and
  -- neither the events nor the Account Service change.
  pub get_account_arrives :
      (fresh trace_id account : Text) (k : ℕ) (d : AccountDetailsResponse Metadata)
      (s : State World)
      → reads.balance_route (codes "/accounts/" ++ (account ++ [])) ≡ none
      → reads.details_route (codes "/accounts/" ++ (account ++ [])) ≡ some account
      → get_account_details p engine account 25 s.world.account.repository ≡ ok d
      → AllSendable p w d.recent_transactions
      → circuit_allows s.world.clock s.account_client ≡ true
      → k < s.account_client.max_attempts
      → AllLost k s.world.deliveries
      → let (answer, s') =
          Gateway.Main.Reads.get_account p
            (cloud p w frame engine)
            (details_of_body p w reads)
            fresh
            trace_id
            account
            s in
        (answer ≡ answered 200 (rounded_details p w d))
        × (s'.repository ≡ s.repository)
        × (s'.world.account ≡ s.world.account)
        × (s'.account_client ≡ record_downstream_success s.account_client)
  get_account_arrives fresh trace_id account k d s other_route routed found sendable allowed few
        lost =
      let t = s.world.account.repository in
      let stripped : IsStripped p w d.balance_response =
        subst (IsStripped p w) (balance_response_lem p engine account 25 t found)
          (get_balance-IsStripped p w engine account t) in
      let (j, written, valid) =
        first_step (details_dump p w d) (details_validate p w)
          (details_validate-details_dump p w encoding d stripped sendable) in
      let req = details_request fresh trace_id account in
      let (v', done, same) =
        request_reads p laws w frame engine req refl s.account_client k s.world allowed few lost
          (read_details req account s.world.account refl other_route routed found written)
          (omega arith) in
      unfold Gateway.Main.Reads.get_account call after_read in
      rw done (rw (body_read j valid) refl, refl, same, refl)
