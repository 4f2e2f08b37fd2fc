-- ===== src/Account/Deliveries.antt =====
-- What callers of `apply_transaction` may rely on across several deliveries, on the table itself.
use distr_sys_itrvw.Base.{◌≡◌, sym, ap, ◌∙◌, Bool, false, List, [], ◌∷◌}
use distr_sys_itrvw.Base.Lists.{length}
use distr_sys_itrvw.Shared.Time.{DateTime}
use distr_sys_itrvw.Shared.Time.Utc.{IsUtc}
use distr_sys_itrvw.Shared.Contracts.{Platform, IsPlatform, EventPayload, TransactionRecord, ok}
use distr_sys_itrvw.Shared.Contracts.Valid.{IsPayload}
use distr_sys_itrvw.Shared.Rows.{Engine}
use distr_sys_itrvw.Account.Repository.{Row, Table, apply_transaction}
use distr_sys_itrvw.Account.Ledger.{Ledger, apply_event, IsLedger}
use distr_sys_itrvw.Account.Ledger.Encode.{encode_all}
use distr_sys_itrvw.Account.Ledger.Invariant.{apply_event-IsLedger, apply_event-twice}
use distr_sys_itrvw.Account.Ledger.Refinement.{apply_transaction-apply_event, encoded}

module _ (p : Platform) where
  open p use {Metadata}

  -- The table holds a well-formed ledger: its rows can be read, no identifier occurs twice, and no
  -- account has two currencies.
  abbrev pub IsTable : Table → Type 0
  IsTable t = (l : Ledger p) × IsLedger p l × (t ≡ encode_all p l)

  module _ (engine : Engine Row) where
    -- The table after a sequence of calls, each with the time that it reads.
    unfoldable pub deliver_all : List (DateTime × EventPayload Metadata) → Table → Table
    deliver_all [] t = t
    deliver_all ((now, e) ∷ rest) t = deliver_all rest (apply_transaction p engine now e t).1

  -- A call that the theorems speak of: a clock in UTC, and a validated payload whose currency has three
  -- characters.
  abbrev pub IsCall : DateTime → EventPayload Metadata → Type 0
  IsCall now e = IsUtc now × IsPayload p e × (length e.currency ≡ 3)

  abbrev pub AllCalls : List (DateTime × EventPayload Metadata) → Type 0
  AllCalls [] = Unit {0}
  AllCalls ((now, e) ∷ rest) = IsCall now e × AllCalls rest

module _ (p : Platform) (laws : IsPlatform p) (engine : Engine Row) where
  open p use {Metadata}

  pub apply_transaction-IsTable :
      (now : DateTime) (e : EventPayload Metadata) (t : Table)
      → IsCall p now e
      → IsTable p t
      → IsTable p (apply_transaction p engine now e t).1
  apply_transaction-IsTable now e t (hn, he, three) (l, hl, held) = (
    (apply_event p now e l).1,
    apply_event-IsLedger p now e l hn he three hl,
    ap (λ u. (apply_transaction p engine now e u).1) held
        ∙ ap (λ o. o.1) (apply_transaction-apply_event p laws engine now e l hn he three hl),
  )

  -- Whatever validated payloads with a currency of three characters are delivered, at readings of
  -- a clock in UTC, in whatever order and however often, a well-formed table stays one: its rows
  -- can be read, no identifier occurs twice, and no account has two currencies.
  pub deliver_all-IsTable :
      (calls : List (DateTime × EventPayload Metadata)) (t : Table)
      → AllCalls p calls
      → IsTable p t
      → IsTable p (deliver_all p engine calls t)
  unfolding deliver_all
  deliver_all-IsTable [] t hc h = h
  deliver_all-IsTable ((now, e) ∷ rest) t hc h =
      deliver_all-IsTable rest (apply_transaction p engine now e t).1 hc.1
        (apply_transaction-IsTable now e t hc.0 h)

  -- Once a validated payload whose currency has three characters was accepted by a well-formed
  -- table, delivering it again, at any reading of a clock in UTC, returns the same record, says
  -- that it inserted nothing, and leaves the table as it is.
  pub apply_transaction-twice :
      (now later : DateTime) (e : EventPayload Metadata) (t : Table)
      {r : TransactionRecord Metadata} {created : Bool}
      → IsCall p now e
      → IsUtc later
      → IsTable p t
      → (apply_transaction p engine now e t).0 ≡ ok (r, created)
      → apply_transaction p engine later e (apply_transaction p engine now e t).1
        ≡ (ok (r, false), (apply_transaction p engine now e t).1)
  apply_transaction-twice now later e t (hn, he, three) hlater (l, hl, held) done =
      let first = apply_transaction-apply_event p laws engine now e l hn he three hl in
      let table : (apply_transaction p engine now e t).1 ≡ encode_all p (apply_event p now e l).1 =
        ap (λ u. (apply_transaction p engine now e u).1) held ∙ ap (λ o. o.1) first in
      let accepted : (apply_event p now e l).0 ≡ ok (_, _) =
        sym (ap (λ u. (apply_transaction p engine now e u).0) held ∙ ap (λ o. o.0) first) ∙ done in
      rw table (
        apply_transaction-apply_event p laws engine later e (apply_event p now e l).1 hlater he
          three (apply_event-IsLedger p now e l hn he three hl)
        ∙ ap (encoded p) (apply_event-twice p laws now later e l accepted))
