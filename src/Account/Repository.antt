-- ===== src/Account/Repository.antt =====
-- src/account_service/db.py: the transactions table and the methods of `AccountRepository`. A method
-- takes the table and returns what it returns or raises, with the table it leaves. The lock makes each
-- method one step; `now` is the reading of the clock that the method makes.
use distr_sys_itrvw.Base.{
  ℕ, Bool, true, false, ◌&&◌, not, Option, none, some, List, [], ◌∷◌, ◌++◌, if◌then◌else◌,
}
use distr_sys_itrvw.Base.Lists.{take}
use distr_sys_itrvw.Shared.Text.{Text, codes, text_eq, strip}
use distr_sys_itrvw.Shared.Time.{DateTime, format_timestamp}
use distr_sys_itrvw.Shared.Time.Parse.{parse_timestamp}
use distr_sys_itrvw.Shared.Decimal.{Decimal, decimal_zero, decimal_add, decimal_neg, decimal_eq}
use distr_sys_itrvw.Shared.Contracts.{
  Platform, type_value, type_of_value, EventPayload, TransactionRecord, BalanceResponse,
  AccountDetailsResponse, duplicate_conflict, currency_mismatch, integrity_error, runtime_error,
  Result, ok, err, timed, ◌>>=◌, validate, checked,
}
use distr_sys_itrvw.Shared.Rows.{select, fetchone, exists_row, order_by, key_le, Engine}

-- A row of the table `transactions`: every column is TEXT.
pub record Row : Type 0 where
  pub event_id : Text
  pub account_id : Text
  pub event_type : Text
  pub amount : Text
  pub currency : Text
  pub event_timestamp : Text
  pub metadata_json : Text
  pub applied_at : Text

abbrev pub Table : Type 0
Table = List Row

abbrev pub has_id : Text → Row → Bool
has_id id row = text_eq row.event_id id

abbrev pub of_account : Text → Row → Bool
of_account id row = text_eq row.account_id id

-- `INSERT`, with the constraint of the primary key.
unfoldable pub insert : Row → Table → Result Table
unfolding exists_row
insert row t =
    if exists_row (has_id row.event_id) t then err integrity_error else ok (t ++ row ∷ [])

-- `event_timestamp ASC, event_id ASC`
abbrev pub row_le : Row → Row → Bool
row_le a b = key_le (a.event_timestamp, a.event_id) (b.event_timestamp, b.event_id)

abbrev pub currency_of : Option Row → Option Text
currency_of none = none
currency_of (some row) = some row.currency

module _ (p : Platform) where
  open p use {Metadata}

  -- `_transaction_from_row`: the model validates what it is given.
  unfoldable pub transaction_from_row : Row → Result (TransactionRecord Metadata)
  transaction_from_row row = do
    at ← timed (parse_timestamp row.event_timestamp)
    applied_at ← timed (parse_timestamp row.applied_at)
    type ← checked (type_of_value row.event_type)
    event ← validate p (record {
      event_id = row.event_id;
      account_id = row.account_id;
      type = type;
      amount = p.decimal_of row.amount;
      currency = row.currency;
      event_timestamp = at;
      metadata = p.loads row.metadata_json;
    })
    ok (record { event = event; applied_at = applied_at })

  abbrev pub read_row : Option Row → Result (Option (TransactionRecord Metadata))
  read_row none = ok none
  read_row (some row) = do transaction ← transaction_from_row row; ok (some transaction)

  unfoldable pub get_transaction : Text → Table → Result (Option (TransactionRecord Metadata))
  unfolding fetchone select
  get_transaction id t = read_row (fetchone (select (has_id id) t))

  -- `_same_event`: the timestamps are formatted only when what stands before them agrees.
  unfoldable pub same_event : EventPayload Metadata → EventPayload Metadata → Result Bool
  same_event existing incoming =
      if text_eq existing.event_id incoming.event_id
        && (text_eq existing.account_id incoming.account_id
            && (text_eq (type_value existing.type) (type_value incoming.type)
                && (decimal_eq existing.amount incoming.amount
                    && text_eq existing.currency incoming.currency)))
      then (do
        a ← timed (format_timestamp existing.event_timestamp)
        b ← timed (format_timestamp incoming.event_timestamp)
        ok (text_eq a b && p.metadata_eq existing.metadata incoming.metadata))
      else ok false

  -- `_metadata_json`; `value or {}` is `value`, since an empty dictionary is `{}`.
  abbrev pub metadata_json : Metadata → Text
  metadata_json value = p.dumps value

  unfoldable pub row_of : EventPayload Metadata → Text → Text → Row
  row_of event at now = record {
    event_id = event.event_id;
    account_id = event.account_id;
    event_type = type_value event.type;
    amount = p.decimal_text event.amount;
    currency = event.currency;
    event_timestamp = at;
    metadata_json = metadata_json event.metadata;
    applied_at = now;
  }

  -- The row to insert; `now` is formatted first.
  unfoldable pub new_row : DateTime → EventPayload Metadata → Result Row
  unfolding row_of
  new_row now event = do
    stamp ← timed (format_timestamp now)
    at ← timed (format_timestamp event.event_timestamp)
    ok (row_of event at stamp)

  abbrev pub Outcome : Type 0
  Outcome = Result (TransactionRecord Metadata × Bool) × Table

  -- The read after the insertion: what it raises leaves the row in the table.
  abbrev pub read_back : Result (Option (TransactionRecord Metadata)) → Table → Outcome
  read_back (err x) t = (err x, t)
  read_back (ok none) t = (err runtime_error, t)
  read_back (ok (some inserted)) t = (ok (inserted, true), t)

  abbrev pub after_insert : Result Table → EventPayload Metadata → Table → Outcome
  after_insert (err x) event t = (err x, t)
  after_insert (ok t') event t = read_back (get_transaction event.event_id t') t'

  unfoldable pub insert_new : Result Row → EventPayload Metadata → Table → Outcome
  insert_new (err x) event t = (err x, t)
  insert_new (ok row) event t = after_insert (insert row t) event t

  abbrev pub replay :
      Result Bool → TransactionRecord Metadata → EventPayload Metadata → Table → Outcome
  replay (err x) existing event t = (err x, t)
  replay (ok false) existing event t = (err (duplicate_conflict event.event_id), t)
  replay (ok true) existing event t = (ok (existing, false), t)

  abbrev pub apply_new : Option Text → DateTime → EventPayload Metadata → Table → Outcome
  apply_new none now event t = insert_new (new_row now event) event t
  apply_new (some currency) now event t =
      if not (text_eq currency event.currency)
      then (err (currency_mismatch event.account_id currency), t)
      else insert_new (new_row now event) event t

  -- One round of the loop of `get_balance`. `currency or row["currency"]` passes over an empty text.
  abbrev pub or_currency : Option Text → Text → Option Text
  or_currency none c = some c
  or_currency (some []) c = some c
  or_currency (some (x ∷ s)) c = some (x ∷ s)

  unfoldable pub row_amount : Row → Decimal
  row_amount row =
      if text_eq row.event_type (codes "CREDIT")
      then p.decimal_of row.amount
      else decimal_neg (p.decimal_of row.amount)

  unfoldable pub add_rows : List Row → Decimal → Option Text → Decimal × Option Text
  unfolding row_amount
  add_rows [] balance currency = (balance, currency)
  add_rows (row ∷ rows) balance currency =
      add_rows rows (decimal_add balance (row_amount row)) (or_currency currency row.currency)

  abbrev pub strip_option : Option Text → Option Text
  strip_option none = none
  strip_option (some c) = some (strip p.blank c)

  unfoldable pub read_rows : List Row → Result (List (TransactionRecord Metadata))
  read_rows [] = ok []
  read_rows (row ∷ rows) = do
    transaction ← transaction_from_row row
    rest ← read_rows rows
    ok (transaction ∷ rest)

  module _ (engine : Engine Row) where
    -- `_account_currency`: `LIMIT 1` with no `ORDER BY`.
    unfoldable pub account_currency : Text → Table → Option Text
    account_currency account_id t =
        currency_of (fetchone (select (of_account account_id) (engine.scan t)))

    abbrev pub after_lookup :
        Result (Option (TransactionRecord Metadata))
        → DateTime
        → EventPayload Metadata
        → Table
        → Outcome
    after_lookup (err x) now event t = (err x, t)
    after_lookup (ok (some existing)) now event t =
        replay (same_event existing.event event) existing event t
    after_lookup (ok none) now event t = apply_new (account_currency event.account_id t) now event t

    unfoldable pub apply_transaction : DateTime → EventPayload Metadata → Table → Outcome
    apply_transaction now event t = after_lookup (get_transaction event.event_id t) now event t

    unfoldable pub get_balance : Text → Table → BalanceResponse
    get_balance account_id t =
        let (balance, currency) =
          add_rows (select (of_account account_id) (engine.scan t)) (decimal_zero p.places) none in
        record {
          account_id = strip p.blank account_id;
          balance = balance;
          currency = strip_option currency;
        }

    -- The rows of `get_account_details`: `ORDER BY ... LIMIT`.
    unfoldable pub detail_rows : Text → ℕ → Table → List Row
    unfolding order_by select
    detail_rows account_id limit t =
        take limit (order_by row_le (select (of_account account_id) (engine.scan t)))

    unfoldable pub get_account_details : Text → ℕ → Table → Result (AccountDetailsResponse Metadata)
    get_account_details account_id limit t = do
      transactions ← read_rows (detail_rows account_id limit t)
      ok (record {
        balance_response = get_balance account_id t;
        recent_transactions = transactions;
      })
