-- ===== src/Account/Ledger.antt =====
-- What the Account Service promises, with no rows and no texts: a list of the transactions applied, in
-- the order of their arrival. `Encode` relates it to the table, and `Refinement` shows that the methods
-- of the repository keep the promise.
pub mod Encode
pub mod Invariant
pub mod Growth
pub mod Refinement
use distr_sys_itrvw.Base.{
  ℕ, ◌≡◌, Bool, true, false, ◌&&◌, not, Option, none, some, List, [], ◌∷◌, ◌++◌, if◌then◌else◌,
}
use distr_sys_itrvw.Base.Lists.{length}
use distr_sys_itrvw.Shared.Text.{Text, text_eq}
use distr_sys_itrvw.Shared.Time.{DateTime}
use distr_sys_itrvw.Shared.Time.Utc.{IsUtc}
use distr_sys_itrvw.Shared.Time.Print.{utc_text}
use distr_sys_itrvw.Shared.Decimal.{decimal_eq}
use distr_sys_itrvw.Shared.Contracts.{
  Platform, type_value, EventPayload, TransactionRecord, duplicate_conflict, currency_mismatch,
  Result, ok, err,
}
use distr_sys_itrvw.Shared.Contracts.Valid.{IsPayload}

module _ (p : Platform) where
  open p use {Metadata}

  abbrev pub Ledger : Type 0
  Ledger = List (TransactionRecord Metadata)

  -- The transaction with this identifier.
  unfoldable pub find : Text → Ledger → Option (TransactionRecord Metadata)
  find id [] = none
  find id (r ∷ l) = if text_eq r.event_id id then some r else find id l

  -- The currency of the account's first transaction.
  unfoldable pub ledger_currency : Text → Ledger → Option Text
  ledger_currency account [] = none
  ledger_currency account (r ∷ l) =
      if text_eq r.account_id account then some r.currency else ledger_currency account l

  -- The same business event: every field agrees, amounts by value and times by instant.
  unfoldable pub agrees : EventPayload Metadata → EventPayload Metadata → Bool
  agrees a b =
      text_eq a.event_id b.event_id
      && (text_eq a.account_id b.account_id
          && (text_eq (type_value a.type) (type_value b.type)
              && (decimal_eq a.amount b.amount
                  && (text_eq a.currency b.currency
                      && (text_eq (utc_text a.event_timestamp) (utc_text b.event_timestamp)
                          && p.metadata_eq a.metadata b.metadata)))))

  abbrev pub LedgerOutcome : Type 0
  LedgerOutcome = Result (TransactionRecord Metadata × Bool) × Ledger

  abbrev pub append_event : DateTime → EventPayload Metadata → Ledger → LedgerOutcome
  append_event now e l = (
    ok (record { event = e; applied_at = now }, true),
    l ++ record { event = e; applied_at = now } ∷ [],
  )

  abbrev pub apply_unseen : Option Text → DateTime → EventPayload Metadata → Ledger → LedgerOutcome
  apply_unseen none now e l = append_event now e l
  apply_unseen (some currency) now e l =
      if text_eq currency e.currency
      then append_event now e l
      else (err (currency_mismatch e.account_id currency), l)

  abbrev pub apply_found :
      Option (TransactionRecord Metadata)
      → DateTime
      → EventPayload Metadata
      → Ledger
      → LedgerOutcome
  apply_found (some r) now e l =
      if agrees r.event e then (ok (r, false), l) else (err (duplicate_conflict e.event_id), l)
  apply_found none now e l = apply_unseen (ledger_currency e.account_id l) now e l

  -- The specification of `apply_transaction`.
  unfoldable pub apply_event : DateTime → EventPayload Metadata → Ledger → LedgerOutcome
  apply_event now e l = apply_found (find e.event_id l) now e l

  -- A record that the service can have stored and can read.
  pub record IsRecord (r : TransactionRecord Metadata) : Type 0 where
    pub payload : IsPayload p r.event
    pub three : length r.currency ≡ 3
    pub applied : IsUtc r.applied_at

  abbrev pub AllRecords : Ledger → Type 0
  AllRecords [] = Unit {0}
  AllRecords (r ∷ l) = IsRecord r × AllRecords l

  -- Every transaction of the account has this currency.
  abbrev pub AllIn : Text → Text → Ledger → Type 0
  AllIn account currency [] = Unit {0}
  AllIn account currency (r ∷ l) =
      (text_eq r.account_id account ≡ true → r.currency ≡ currency) × AllIn account currency l

  -- The identifier is not in use.
  abbrev pub IsFresh : Text → Ledger → Type 0
  IsFresh id l = find id l ≡ none

  -- No identifier occurs twice, and no account has two currencies.
  abbrev pub IsLedger : Ledger → Type 0
  IsLedger [] = Unit {0}
  IsLedger (r ∷ l) =
      IsRecord r × IsFresh r.event_id l × AllIn r.account_id r.currency l × IsLedger l
