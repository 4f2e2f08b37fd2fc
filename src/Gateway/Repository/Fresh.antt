-- ===== src/Gateway/Repository/Fresh.antt =====
-- The insertion of an event under an identifier that the table does not have.
use distr_sys_itrvw.Base.{
  ◌≡◌, refl, Bool, true, false, Option, none, some, List, [], ◌∷◌, ◌++◌, arith,
}
use distr_sys_itrvw.Shared.Text.{text_eq, text_eq_refl}
use distr_sys_itrvw.Shared.Time.{DateTime}
use distr_sys_itrvw.Shared.Time.Print.{utc_text, format_timestamp-utc_text}
use distr_sys_itrvw.Shared.Time.Parse.RoundTrip.{parse_timestamp-utc_text}
use distr_sys_itrvw.Shared.Rows.{select, fetchone, exists_row}
use distr_sys_itrvw.Shared.Contracts.{
  Platform, IsPlatform, type_value, EventPayload, EventRecord, applied, Result, ok, err, ◌>>=◌,
}
use distr_sys_itrvw.Shared.Contracts.Valid.{validate_self, type_of_value-type_value}
use distr_sys_itrvw.Account.Ledger.Encode.{loaded}
use distr_sys_itrvw.Account.Deliveries.{IsCall}
use distr_sys_itrvw.Gateway.Repository.{
  Row, Table, has_id, event_from_row, get_event, read_row, new_row, insert, insert_new,
  insert_applied_event, status_value,
}

module _ {R : Type 0} where
  -- A list with no first row that passes has none at all, and what is added to it comes first.
  unselected :
      (test : R → Bool) (t : List R) → fetchone (select test t) ≡ none → exists_row test t ≡ false
  unfolding select fetchone exists_row
  unselected test [] h = refl
  unselected test (r ∷ t) h = ground (arith, unselected test t)

  select_added :
      (test : R → Bool) (t : List R) (r : R)
      → fetchone (select test t) ≡ none
      → test r ≡ true
      → fetchone (select test (t ++ r ∷ [])) ≡ some r
  unfolding select fetchone
  select_added test [] r h e = rw e refl
  select_added test (s ∷ t) r h e = ground (arith, select_added test t r)

module _ (p : Platform) where
  open p use {Metadata}

  read_some : (q : Result (EventRecord Metadata)) → (do event ← q; ok (some event)) ≡ ok none → ⊥
  read_some (ok event) h = cc
  read_some (err x) h = cc

  read_none : (q : Option Row) → read_row p q ≡ ok none → q ≡ none
  read_none none h = refl
  read_none (some row) h = absurd (read_some (event_from_row p row) h)

  -- The record of a new event.
  abbrev pub inserted : DateTime → EventPayload Metadata → EventRecord Metadata
  inserted now e = record { event = e; status = applied; created_at = now; updated_at = now }

  abbrev pub fresh_row : DateTime → EventPayload Metadata → Row
  fresh_row now e = record {
    event_id = e.event_id;
    account_id = e.account_id;
    event_type = type_value e.type;
    amount = p.decimal_text e.amount;
    currency = e.currency;
    event_timestamp = utc_text e.event_timestamp;
    metadata_json = p.dumps e.metadata;
    status = status_value applied;
    created_at = utc_text now;
    updated_at = utc_text now;
  }

  pub new_row-fresh_row :
      (now : DateTime) (e : EventPayload Metadata)
      → IsCall p now e
      → new_row p now e ≡ ok (fresh_row now e)
  unfolding new_row
  new_row-fresh_row now e (hn, he, three) =
      rw (format_timestamp-utc_text now hn)
        (rw (format_timestamp-utc_text e.event_timestamp he.event_timestamp) refl)

  module _ (laws : IsPlatform p) where
    pub event_from_row-fresh_row :
        (now : DateTime) (e : EventPayload Metadata)
        → IsCall p now e
        → event_from_row p (fresh_row now e) ≡ ok (inserted now e)
    unfolding text_eq
    event_from_row-fresh_row now e (hn, he, three) =
        unfold event_from_row in
        rw (parse_timestamp-utc_text e.event_timestamp he.event_timestamp) (
          rw (parse_timestamp-utc_text now hn) (
            rw (type_of_value-type_value e.type)
              (rw (loaded p laws e) (rw (validate_self p e he three) refl))))

    fresh_read :
        (now : DateTime) (e : EventPayload Metadata) (t : Table)
        → IsCall p now e
        → fetchone (select (has_id e.event_id) t) ≡ none
        → get_event p e.event_id (t ++ fresh_row now e ∷ []) ≡ ok (some (inserted now e))
    unfolding get_event
    fresh_read now e t call free =
        rw (select_added (has_id e.event_id) t (fresh_row now e) free (text_eq_refl e.event_id))
          (rw (event_from_row-fresh_row now e call) refl)

    -- On a platform that behaves as documented, under an identifier that the table does not have,
    -- a validated payload whose currency has three
    -- characters is inserted at a time in UTC: its row is appended, and the record that is read back
    -- from it is the payload itself, with that time as its creation and its update.
    pub insert_applied_event_fresh :
        (now : DateTime) (e : EventPayload Metadata) (t : Table)
        → IsCall p now e
        → get_event p e.event_id t ≡ ok none
        → insert_applied_event p now e t ≡ (ok (inserted now e, true), t ++ fresh_row now e ∷ [])
    insert_applied_event_fresh now e t call unseen =
        let free : fetchone (select (has_id e.event_id) t) ≡ none =
          read_none (fetchone (select (has_id e.event_id) t)) (unfold get_event in unseen) in
        unfold insert_applied_event insert_new insert in
        rw unseen (
          rw (new_row-fresh_row now e call)
            (rw (unselected (has_id e.event_id) t free) (rw (fresh_read now e t call free) refl)))
