-- ===== src/Gateway/Log.antt =====
-- What the Gateway's repository promises, with no rows and no texts: a list of the events accepted, in
-- the order of their insertion. `Refinement` shows that `insert_applied_event` keeps the promise, and
-- `Listing` what `list_events_for_account` reads from it.
pub mod Encode
pub mod Refinement
pub mod Listing
use distr_sys_itrvw.Base.{
  ◌≡◌, refl, ◌∙◌, Bool, true, false, Option, none, some, List, [], ◌∷◌, ◌++◌, map, arith,
  if◌then◌else◌,
}
use distr_sys_itrvw.Base.Lists.{length}
use distr_sys_itrvw.Shared.Text.{Text, text_eq, text_eq_comm}
use distr_sys_itrvw.Shared.Time.{DateTime}
use distr_sys_itrvw.Shared.Time.Utc.{IsUtc}
use distr_sys_itrvw.Shared.Time.Print.{utc_text}
use distr_sys_itrvw.Shared.Contracts.{
  Platform, type_value, EventPayload, EventRecord, duplicate_conflict, Result, ok, err,
}
use distr_sys_itrvw.Shared.Contracts.Valid.{IsPayload}
use distr_sys_itrvw.Account.Ledger.{agrees}
use distr_sys_itrvw.Gateway.Repository.{Row, Table, status_value}
use distr_sys_itrvw.Gateway.Repository.Fresh.{inserted}

module _ (p : Platform) where
  open p use {Metadata}

  abbrev pub Log : Type 0
  Log = List (EventRecord Metadata)

  -- The event with this identifier.
  unfoldable pub find : Text → Log → Option (EventRecord Metadata)
  find id [] = none
  find id (r ∷ l) = if text_eq r.event_id id then some r else find id l

  abbrev pub LogOutcome : Type 0
  LogOutcome = Result (EventRecord Metadata × Bool) × Log

  abbrev pub insert_found :
      Option (EventRecord Metadata) → DateTime → EventPayload Metadata → Log → LogOutcome
  insert_found none now e l = (ok (inserted p now e, true), l ++ inserted p now e ∷ [])
  insert_found (some r) now e l =
      if agrees p r.event e then (ok (r, false), l) else (err (duplicate_conflict e.event_id), l)

  -- The specification of `insert_applied_event`.
  unfoldable pub insert_event : DateTime → EventPayload Metadata → Log → LogOutcome
  insert_event now e l = insert_found (find e.event_id l) now e l

  -- A record that the Gateway can have stored and can read.
  pub record IsStored (r : EventRecord Metadata) : Type 0 where
    pub payload : IsPayload p r.event
    pub three : length r.currency ≡ 3
    pub created : IsUtc r.created_at
    pub updated : IsUtc r.updated_at

  -- Every record can be read, and no identifier occurs twice.
  abbrev pub IsLog : Log → Type 0
  IsLog [] = Unit {0}
  IsLog (r ∷ l) = IsStored r × (find r.event_id l ≡ none) × IsLog l

  -- The row of a record.
  unfoldable pub encode : EventRecord Metadata → Row
  encode r = record {
    event_id = r.event_id;
    account_id = r.account_id;
    event_type = type_value r.type;
    amount = p.decimal_text r.amount;
    currency = r.currency;
    event_timestamp = utc_text r.event_timestamp;
    metadata_json = p.dumps r.metadata;
    status = status_value r.status;
    created_at = utc_text r.created_at;
    updated_at = utc_text r.updated_at;
  }

  abbrev pub encode_all : Log → Table
  encode_all = map encode

  -- The table holds a well-formed log.
  abbrev pub IsTable : Table → Type 0
  IsTable t = (l : Log) × IsLog l × (t ≡ encode_all l)

  find-append_other :
      (id : Text) (l : Log) (r : EventRecord Metadata)
      → find id l ≡ none
      → text_eq r.event_id id ≡ false
      → find id (l ++ r ∷ []) ≡ none
  unfolding find
  find-append_other id [] r h e = rw e refl
  find-append_other id (s ∷ l) r h e = ground (arith, find-append_other id l r)

  -- A record under a new identifier may be appended.
  pub IsLog-append :
      (l : Log) (r : EventRecord Metadata)
      → IsLog l
      → IsStored r
      → find r.event_id l ≡ none
      → IsLog (l ++ r ∷ [])
  unfolding find
  IsLog-append [] r h hr fresh = (hr, refl, tt)
  IsLog-append (s ∷ l) r h hr fresh =
      let distinct : text_eq s.event_id r.event_id ≡ false = ground arith in
      let later : find r.event_id l ≡ none = ground arith in
      (
        h.0,
        find-append_other s.event_id l r h.1 (text_eq_comm r.event_id s.event_id ∙ distinct),
        IsLog-append l r h.2 hr later,
      )
