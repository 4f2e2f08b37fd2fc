-- ===== src/Gateway/Repository.antt =====
-- src/gateway_service/db.py: the events table and the methods of `GatewayRepository`. As in the account
-- repository, a method takes the table and returns what it returns or raises, with the table it leaves.
pub mod ReadBack
pub mod Listing
pub mod Growth
pub mod Fresh
use distr_sys_itrvw.Base.{
  ℕ, Bool, true, false, ◌&&◌, Option, none, some, List, [], ◌∷◌, ◌++◌, if◌then◌else◌,
}
use distr_sys_itrvw.Shared.Text.{Text, codes, text_eq}
use distr_sys_itrvw.Shared.Time.{DateTime, format_timestamp}
use distr_sys_itrvw.Shared.Time.Parse.{parse_timestamp}
use distr_sys_itrvw.Shared.Decimal.{decimal_eq}
use distr_sys_itrvw.Shared.Contracts.{
  Platform, TransactionType, type_value, type_of_value, EventPayload, EventStatus, applied,
  EventRecord, duplicate_conflict, validation_error, integrity_error, runtime_error, Result, ok,
  err, timed, ◌>>=◌, validate, checked,
}
use distr_sys_itrvw.Shared.Rows.{select, fetchone, exists_row, order_by, key_le, Engine}

-- A row of the table `events`: every column is TEXT.
pub record Row : Type 0 where
  pub event_id : Text
  pub account_id : Text
  pub event_type : Text
  pub amount : Text
  pub currency : Text
  pub event_timestamp : Text
  pub metadata_json : Text
  pub status : Text
  pub created_at : Text
  pub updated_at : Text

abbrev pub Table : Type 0
Table = List Row

abbrev pub has_id : Text → Row → Bool
has_id id row = text_eq row.event_id id

abbrev pub of_account : Text → Row → Bool
of_account id row = text_eq row.account_id id

-- `event_timestamp ASC, event_id ASC`
abbrev pub row_le : Row → Row → Bool
row_le a b = key_le (a.event_timestamp, a.event_id) (b.event_timestamp, b.event_id)

-- `INSERT`, with the constraint of the primary key.
unfoldable pub insert : Row → Table → Result Table
unfolding exists_row
insert row t =
    if exists_row (has_id row.event_id) t then err integrity_error else ok (t ++ row ∷ [])

-- `EventStatus.APPLIED.value`
abbrev pub status_value : EventStatus → Text
status_value applied = codes "APPLIED"

abbrev pub checked_status : Text → Result EventStatus
checked_status s = if text_eq s (codes "APPLIED") then ok applied else err validation_error

module _ (p : Platform) where
  open p use {Metadata}

  -- `_event_from_row`: the model validates what it is given.
  unfoldable pub event_from_row : Row → Result (EventRecord Metadata)
  event_from_row row = do
    at ← timed (parse_timestamp row.event_timestamp)
    created_at ← timed (parse_timestamp row.created_at)
    updated_at ← timed (parse_timestamp row.updated_at)
    type ← checked (type_of_value row.event_type)
    status ← checked_status row.status
    event ← validate p (record {
      event_id = row.event_id;
      account_id = row.account_id;
      type = type;
      amount = p.decimal_of row.amount;
      currency = row.currency;
      event_timestamp = at;
      metadata = p.loads row.metadata_json;
    })
    ok (record { event = event; status = status; created_at = created_at; updated_at = updated_at })

  abbrev pub read_row : Option Row → Result (Option (EventRecord Metadata))
  read_row none = ok none
  read_row (some row) = do event ← event_from_row row; ok (some event)

  unfoldable pub get_event : Text → Table → Result (Option (EventRecord Metadata))
  unfolding fetchone select
  get_event id t = read_row (fetchone (select (has_id id) t))

  -- `_same_event`: the timestamps are formatted only when what stands before them agrees.
  unfoldable pub same_event : EventPayload Metadata → EventPayload Metadata → Result Bool
  same_event existing incoming =
      if text_eq existing.event_id incoming.event_id
        && (text_eq existing.account_id incoming.account_id
            && (text_eq (type_value existing.type) (type_value incoming.type)
                && (decimal_eq existing.amount incoming.amount
                    && text_eq existing.currency incoming.currency)))
      then (do
        a ← timed (format_timestamp existing.event_timestamp)
        b ← timed (format_timestamp incoming.event_timestamp)
        ok (text_eq a b && p.metadata_eq existing.metadata incoming.metadata))
      else ok false

  -- `_metadata_json`; `value or {}` is `value`, since an empty dictionary is `{}`.
  abbrev pub metadata_json : Metadata → Text
  metadata_json value = p.dumps value

  -- The row to insert; `now` is formatted first.
  unfoldable pub new_row : DateTime → EventPayload Metadata → Result Row
  new_row now event = do
    stamp ← timed (format_timestamp now)
    at ← timed (format_timestamp event.event_timestamp)
    ok (record {
      event_id = event.event_id;
      account_id = event.account_id;
      event_type = type_value event.type;
      amount = p.decimal_text event.amount;
      currency = event.currency;
      event_timestamp = at;
      metadata_json = metadata_json event.metadata;
      status = status_value applied;
      created_at = stamp;
      updated_at = stamp;
    })

  abbrev pub Outcome : Type 0
  Outcome = Result (EventRecord Metadata × Bool) × Table

  -- The read after the insertion: what it raises leaves the row in the table.
  abbrev pub read_back : Result (Option (EventRecord Metadata)) → Table → Outcome
  read_back (err x) t = (err x, t)
  read_back (ok none) t = (err runtime_error, t)
  read_back (ok (some inserted)) t = (ok (inserted, true), t)

  abbrev pub after_insert : Result Table → EventPayload Metadata → Table → Outcome
  after_insert (err x) event t = (err x, t)
  after_insert (ok t') event t = read_back (get_event event.event_id t') t'

  unfoldable pub insert_new : Result Row → EventPayload Metadata → Table → Outcome
  insert_new (err x) event t = (err x, t)
  insert_new (ok row) event t = after_insert (insert row t) event t

  abbrev pub replay : Result Bool → EventRecord Metadata → EventPayload Metadata → Table → Outcome
  replay (err x) existing event t = (err x, t)
  replay (ok false) existing event t = (err (duplicate_conflict event.event_id), t)
  replay (ok true) existing event t = (ok (existing, false), t)

  abbrev pub after_lookup :
      Result (Option (EventRecord Metadata)) → DateTime → EventPayload Metadata → Table → Outcome
  after_lookup (err x) now event t = (err x, t)
  after_lookup (ok (some existing)) now event t =
      replay (same_event existing.event event) existing event t
  after_lookup (ok none) now event t = insert_new (new_row now event) event t

  unfoldable pub insert_applied_event : DateTime → EventPayload Metadata → Table → Outcome
  insert_applied_event now event t = after_lookup (get_event event.event_id t) now event t

  unfoldable pub read_rows : List Row → Result (List (EventRecord Metadata))
  read_rows [] = ok []
  read_rows (row ∷ rows) = do event ← event_from_row row; rest ← read_rows rows; ok (event ∷ rest)

  unfoldable pub list_events_for_account :
      Engine Row → Text → Table → Result (List (EventRecord Metadata))
  unfolding read_rows order_by select
  list_events_for_account engine account_id t =
      read_rows (order_by row_le (select (of_account account_id) (engine.scan t)))
