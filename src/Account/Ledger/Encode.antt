-- ===== src/Account/Ledger/Encode.antt =====
-- The table that holds a ledger, and what the reading methods of the repository find in it.
use mathlib.Core.List.{map-append}
use distr_sys_itrvw.Base.{
  ◌≡◌, refl, sym, ap, ◌∙◌, true, false, inl, inr, none, some, [], ◌∷◌, ◌++◌, map, arith, Bool-cases,
}
use distr_sys_itrvw.Base.Lists.{length}
use distr_sys_itrvw.Shared.Text.{Text, text_eq, text_eq_refl}
use distr_sys_itrvw.Shared.Time.{DateTime}
use distr_sys_itrvw.Shared.Time.Utc.{IsUtc}
use distr_sys_itrvw.Shared.Time.Print.{utc_text, format_timestamp-utc_text}
use distr_sys_itrvw.Shared.Time.Parse.RoundTrip.{parse_timestamp-utc_text}
use distr_sys_itrvw.Shared.Contracts.{Platform, IsPlatform, EventPayload, TransactionRecord, ok}
use distr_sys_itrvw.Shared.Contracts.Valid.{IsPayload, validate_self, type_of_value-type_value}
use distr_sys_itrvw.Shared.Rows.{exists_row}
use distr_sys_itrvw.Account.Repository.{
  Row, Table, has_id, insert, row_of, new_row, transaction_from_row, get_transaction, read_row,
  same_event, insert_new,
}
use distr_sys_itrvw.Account.Ledger.{Ledger, find, agrees, IsRecord, AllRecords}

module _ (p : Platform) where
  open p use {Metadata}

  -- The row of a record.
  unfoldable pub encode : TransactionRecord Metadata → Row
  unfolding row_of
  encode r = row_of p r.event (utc_text r.event_timestamp) (utc_text r.applied_at)

  abbrev pub encode_all : Ledger p → Table
  encode_all = map (encode)

  pub event_id-encode : (r : TransactionRecord Metadata) → (encode r).event_id ≡ r.event_id
  unfolding encode
  event_id-encode r = refl

  pub account_id-encode : (r : TransactionRecord Metadata) → (encode r).account_id ≡ r.account_id
  unfolding encode
  account_id-encode r = refl

  pub currency-encode : (r : TransactionRecord Metadata) → (encode r).currency ≡ r.currency
  unfolding encode
  currency-encode r = refl

module _ (p : Platform) (id : Text) (row : Row) (t : Table) where
  pub get_transaction-found :
      text_eq row.event_id id ≡ true → get_transaction p id (row ∷ t) ≡ read_row p (some row)
  unfolding get_transaction
  get_transaction-found e = rw e refl

  pub get_transaction-other :
      text_eq row.event_id id ≡ false → get_transaction p id (row ∷ t) ≡ get_transaction p id t
  unfolding get_transaction
  get_transaction-other e = rw e refl

module _ (p : Platform) (laws : IsPlatform p) where
  open p use {Metadata}

  pub loaded :
      (e : EventPayload Metadata)
      → record e {
        amount = p.decimal_of (p.decimal_text e.amount);
        metadata = p.loads (p.dumps e.metadata);
      }
        ≡ e
  loaded e = λ i. record e {
    amount = laws.decimal_of-text e.amount i;
    metadata = laws.loads-dumps e.metadata i;
  }

  -- A stored record is read back as it was.
  pub transaction_from_row-encode :
      (r : TransactionRecord Metadata) → IsRecord p r → transaction_from_row p (encode p r) ≡ ok r
  unfolding encode
  transaction_from_row-encode r h =
      unfold transaction_from_row in
      rw (parse_timestamp-utc_text r.event_timestamp h.payload.event_timestamp) (
        rw (parse_timestamp-utc_text r.applied_at h.applied) (
          rw (type_of_value-type_value r.type)
            (rw (loaded r.event) (rw (validate_self p r.event h.payload h.three) refl))))

  pub get_transaction-encode :
      (id : Text) (l : Ledger p)
      → AllRecords p l
      → get_transaction p id (encode_all p l) ≡ ok (find p id l)
  unfolding get_transaction find
  get_transaction-encode id [] h = refl
  get_transaction-encode id (r ∷ l) h = elim (Bool-cases (text_eq r.event_id id)) [
    | inl found ↦
        get_transaction-found p id (encode p r) (encode_all p l)
          (ap (λ s. text_eq s id) (event_id-encode p r) ∙ found)
        ∙ rw found (rw (transaction_from_row-encode r h.0) refl)
    | inr other ↦
        get_transaction-other p id (encode p r) (encode_all p l)
          (ap (λ s. text_eq s id) (event_id-encode p r) ∙ other)
        ∙ rw other (get_transaction-encode id l h.1)
  ]

  pub same_event-agrees :
      (a b : EventPayload Metadata)
      → IsPayload p a
      → IsPayload p b
      → same_event p a b ≡ ok (agrees p a b)
  unfolding agrees
  same_event-agrees a b ha hb =
      unfold same_event in
      rw (format_timestamp-utc_text a.event_timestamp ha.event_timestamp)
        (rw (format_timestamp-utc_text b.event_timestamp hb.event_timestamp) (ground arith))

insert-fresh :
    (row : Row) (t : Table)
    → exists_row (has_id row.event_id) t ≡ false
    → insert row t ≡ ok (t ++ row ∷ [])
insert-fresh row t e = unfold insert in rw e refl

module _ (p : Platform) where
  open p use {Metadata}

  pub find-append :
      (id : Text) (l : Ledger p) (r : TransactionRecord Metadata)
      → find p id l ≡ none
      → text_eq r.event_id id ≡ true
      → find p id (l ++ r ∷ []) ≡ some r
  unfolding find
  find-append id [] r fresh same = rw same refl
  find-append id (s ∷ l) r fresh same = ground (arith, find-append id l r)

  pub exists_row-encode :
      (id : Text) (l : Ledger p)
      → find p id l ≡ none
      → exists_row (has_id id) (encode_all p l) ≡ false
  unfolding find exists_row
  exists_row-encode id [] fresh = refl
  exists_row-encode id (r ∷ l) fresh =
      ground (arith, exists_row-encode id l, ap (λ s. text_eq s id) (event_id-encode p r))

  pub insert-encode :
      (r : TransactionRecord Metadata) (l : Ledger p)
      → find p r.event_id l ≡ none
      → insert (encode p r) (encode_all p l) ≡ ok (encode_all p (l ++ r ∷ []))
  insert-encode r l fresh =
      insert-fresh (encode p r) (encode_all p l) (
        ap (λ s. exists_row (has_id s) (encode_all p l)) (event_id-encode p r)
        ∙ exists_row-encode r.event_id l fresh)
      ∙ ap ok (sym (map-append (encode p) l (r ∷ [])))

  pub AllRecords-append :
      (l : Ledger p) (r : TransactionRecord Metadata)
      → AllRecords p l
      → IsRecord p r
      → AllRecords p (l ++ r ∷ [])
  AllRecords-append [] r h hr = (hr, tt)
  AllRecords-append (s ∷ l) r h hr = (h.0, AllRecords-append l r h.1 hr)

  pub new_row-encode :
      (now : DateTime) (e : EventPayload Metadata)
      → IsUtc now
      → IsPayload p e
      → new_row p now e ≡ ok (encode p (record { event = e; applied_at = now }))
  unfolding encode
  new_row-encode now e hn he =
      unfold new_row in
      rw (format_timestamp-utc_text now hn)
        (rw (format_timestamp-utc_text e.event_timestamp he.event_timestamp) refl)

module _ (p : Platform) (laws : IsPlatform p) where
  open p use {Metadata}

  -- A transaction with a fresh identifier is inserted and read back.
  pub insert_new-encode :
      (now : DateTime) (e : EventPayload Metadata) (l : Ledger p)
      → IsUtc now
      → IsPayload p e
      → length e.currency ≡ 3
      → AllRecords p l
      → find p e.event_id l ≡ none
      → insert_new p (new_row p now e) e (encode_all p l) ≡ (
        ok (record { event = e; applied_at = now }, true),
        encode_all p (l ++ record { event = e; applied_at = now } ∷ []),
      )
  insert_new-encode now e l hn he three hl fresh =
      let r : TransactionRecord Metadata = record { event = e; applied_at = now } in
      let stored : IsRecord p r = record { payload = he; three = three; applied = hn } in
      unfold insert_new in
      rw (new_row-encode p now e hn he) (
        rw (insert-encode p r l fresh) (
          rw
            (get_transaction-encode p laws e.event_id (l ++ r ∷ [])
              (AllRecords-append p l r hl stored))
            (rw (find-append p e.event_id l r fresh (text_eq_refl e.event_id)) refl)))
