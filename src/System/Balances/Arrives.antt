-- ===== src/System/Balances/Arrives.antt =====
-- What a client of the Gateway reads as the balance of an account.
use distr_sys_itrvw.Base.{
  ℕ, ◌*◌, ◌^◌, ◌<◌, ◌≤◌, ◌≡◌, refl, ap, ◌∙◌, true, Option, none, some, ◌++◌, arith,
}
use distr_sys_itrvw.Shared.Text.{Text, codes, strip-strip}
use distr_sys_itrvw.Shared.Rows.{Engine}
use distr_sys_itrvw.Shared.Decimal.{precision_limit}
use distr_sys_itrvw.Shared.Decimal.Exact.{units}
use distr_sys_itrvw.Shared.Contracts.{Platform, IsPlatform, BalanceResponse}
use distr_sys_itrvw.Shared.Contracts.Wire.{Encoding}
use distr_sys_itrvw.Shared.Contracts.Records.{balance_dump}
use distr_sys_itrvw.Shared.Contracts.Details.{
  IsStripped, rounded_balance, strip_option, balance_validate-balance_dump,
}
use distr_sys_itrvw.Account
use distr_sys_itrvw.Account.Repository.{Row, Table, add_rows, get_balance}
use distr_sys_itrvw.Account.Ledger.{Ledger}
use distr_sys_itrvw.Account.Ledger.Encode.{encode_all}
use distr_sys_itrvw.Account.Balance.{ledger_balance, ledger_volume, AmountsAbove, get_balance_exact}
use distr_sys_itrvw.Gateway
use distr_sys_itrvw.Gateway.Client.{
  Method, Request, response, fields, circuit_allows, record_downstream_success,
}
use distr_sys_itrvw.Gateway.Main.{State, answered, call}
use distr_sys_itrvw.Gateway.Main.Reads.{account_request, after_read}
use distr_sys_itrvw.System.{Json, World, Frame, cloud}
use distr_sys_itrvw.System.Lost.{AllLost}
use distr_sys_itrvw.System.Balances.{Reads, IsReads, balance_of_body, with_reads, read_routes}
use distr_sys_itrvw.System.Balances.Requests.{request_reads}

module _ (p : Platform) (w : Encoding) where
  option_stripped :
      (o : Option Text)
      → strip_option p w (Account.Repository.strip_option p o) ≡ Account.Repository.strip_option p o
  option_stripped none = refl
  option_stripped (some c) = ap some (strip-strip p.blank c)

  -- What `get_balance` returns has stripped texts.
  pub get_balance-IsStripped :
      (engine : Engine Row) (account : Text) (t : Table)
      → IsStripped p w (get_balance p engine account t)
  unfolding get_balance
  get_balance-IsStripped engine account t = (strip-strip p.blank account, option_stripped _)

-- The world's Account Service, with its routes for reads.
module _ (p : Platform) (laws : IsPlatform p) (w : Encoding) (f : Frame p w) (reads : Reads p w)
    (frameworks : IsReads p w reads) (engine : Engine Row) where
  open p use {Metadata}
  open w use {Float}

  abbrev frame : Frame p w
  frame = with_reads p w reads f engine

  abbrev balance_request : Text → Text → Text → Request (Json Metadata Float)
  balance_request fresh trace_id account =
      account_request p (cloud p w frame engine) fresh trace_id account (codes "/balance")

  -- What the route answers.
  read_balance :
      (req : Request (Json Metadata Float)) (account : Text) (s : Account.Main.State)
      → req.method ≡ Method.get
      → reads.balance_route req.path ≡ some account
      → frame.read req s
        ≡ response 200 (
            fields
              (reads.render_balance (balance_dump p w (get_balance p engine account s.repository))))
  unfolding read_routes Account.Main.get_balance
  read_balance req account s get routed = rw get (rw routed refl)

  body_read :
      (engine : Engine Row) (account : Text) (t : Table)
      → balance_of_body p w reads
          (fields (reads.render_balance (balance_dump p w (get_balance p engine account t))))
        ≡ some (rounded_balance p w (get_balance p engine account t))
  unfolding balance_of_body
  body_read engine account t =
      rw (frameworks.read_balance-render (balance_dump p w (get_balance p engine account t))) (
        ap some (
          balance_validate-balance_dump p w (get_balance p engine account t)
            (get_balance-IsStripped p w engine account t)))

  -- On a platform and frameworks that behave as documented, if the path of the balance is routed to the
  -- account, the circuit lets the request through, and fewer requests are lost than there are attempts,
  -- whether before the Account Service handled them or after, by timeouts or server errors, and the
  -- next one is served, then the Gateway answers a request for the balance with 200 and what a float
  -- makes of the account's credits minus its debits, exactly, whatever the order in which the engine
  -- visits the rows; the circuit is closed, and neither the events nor the Account Service change. The
  -- transactions are those of the ledger `l`, the exponent `m` is at most that of the number 0 at which
  -- the sum starts, no amount of the account has digits below `m`, and its amounts together are below
  -- 10 to the 28 in units of `m`.
  pub get_balance_arrives :
      (fresh trace_id account : Text) (k m : ℕ) (l : Ledger p) (s : State World)
      → reads.balance_route (codes "/accounts/" ++ (account ++ codes "/balance")) ≡ some account
      → circuit_allows s.world.clock s.account_client ≡ true
      → k < s.account_client.max_attempts
      → AllLost k s.world.deliveries
      → s.world.account.repository ≡ encode_all p l
      → m ≤ p.places
      → AmountsAbove p m account l
      → ledger_volume p account l < precision_limit * 10 ^ m
      → let (answer, s') =
          Gateway.Main.Reads.get_balance p
            (cloud p w frame engine)
            (balance_of_body p w reads)
            fresh
            trace_id
            account
            s in
        (b : BalanceResponse) × (answer ≡ answered 200 (rounded_balance p w b))
        × (units b.balance ≡ ledger_balance p account l)
        × (s'.repository ≡ s.repository)
        × (s'.world.account ≡ s.world.account)
        × (s'.account_client ≡ record_downstream_success s.account_client)
  get_balance_arrives fresh trace_id account k m l s routed allowed few lost held hm above fits =
      let t = s.world.account.repository in
      let b = get_balance p engine account t in
      let req = balance_request fresh trace_id account in
      let (v', done, same) =
        request_reads p laws w frame engine req refl s.account_client k s.world allowed few lost
          (read_balance req account s.world.account refl routed) (omega arith) in
      (
        b,
        (unfold Gateway.Main.Reads.get_balance call after_read in
            rw done (rw (body_read engine account t) refl)),
        ap (λ u. units (get_balance p engine account u).balance) held
            ∙ get_balance_exact p laws engine m account l hm above fits,
        (unfold Gateway.Main.Reads.get_balance call after_read in rw done refl),
        (unfold Gateway.Main.Reads.get_balance call after_read in rw done same),
        (unfold Gateway.Main.Reads.get_balance call after_read in rw done refl),
      )
