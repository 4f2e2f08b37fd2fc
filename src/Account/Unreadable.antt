-- ===== src/Account/Unreadable.antt =====
-- A currency whose upper-case form has not three characters: the payload is valid, its row is inserted,
-- and no method can read the row.
use distr_sys_itrvw.Base.{◌≡◌, refl, ap, ◌∙◌, false, none, [], ◌∷◌, ◌++◌, ◌==◌, arith}
use distr_sys_itrvw.Base.Lists.{length}
use distr_sys_itrvw.Shared.Text.{text_eq, text_eq_refl}
use distr_sys_itrvw.Shared.Time.{DateTime}
use distr_sys_itrvw.Shared.Time.Utc.{IsUtc}
use distr_sys_itrvw.Shared.Time.Parse.RoundTrip.{parse_timestamp-utc_text}
use distr_sys_itrvw.Shared.Contracts.{
  Platform, IsPlatform, EventPayload, TransactionRecord, err, validation_error,
}
use distr_sys_itrvw.Shared.Contracts.Valid.{IsPayload, validate_refuses, type_of_value-type_value}
use distr_sys_itrvw.Shared.Rows.{Engine}
use distr_sys_itrvw.Account.Repository.{
  Row, transaction_from_row, get_transaction, insert_new, apply_transaction,
}
use distr_sys_itrvw.Account.Ledger.{Ledger, find, ledger_currency, IsLedger}
use distr_sys_itrvw.Account.Ledger.Encode.{
  encode, encode_all, loaded, event_id-encode, get_transaction-found, get_transaction-other,
  get_transaction-encode, insert-encode, new_row-encode,
}
use distr_sys_itrvw.Account.Ledger.Refinement.{account_currency-encode, AllRecords-of}

module _ (p : Platform) (laws : IsPlatform p) where
  open p use {Metadata}

  transaction_from_row_refuses :
      (r : TransactionRecord Metadata)
      → IsPayload p r.event
      → IsUtc r.applied_at
      → (length r.currency == 3) ≡ false
      → transaction_from_row p (encode p r) ≡ err validation_error
  unfolding encode
  transaction_from_row_refuses r h applied other =
      unfold transaction_from_row in
      rw (parse_timestamp-utc_text r.event_timestamp h.event_timestamp) (
        rw (parse_timestamp-utc_text r.applied_at applied) (
          rw (type_of_value-type_value r.type)
            (rw (loaded p laws r.event) (rw (validate_refuses p r.event h other) refl))))

  get_transaction_refuses :
      (l : Ledger p) (r : TransactionRecord Metadata)
      → IsPayload p r.event
      → IsUtc r.applied_at
      → (length r.currency == 3) ≡ false
      → find p r.event_id l ≡ none
      → get_transaction p r.event_id (encode_all p (l ++ r ∷ [])) ≡ err validation_error
  unfolding find
  get_transaction_refuses [] r h applied other fresh =
      get_transaction-found p r.event_id (encode p r) []
        (ap (λ s. text_eq s r.event_id) (event_id-encode p r) ∙ text_eq_refl r.event_id)
      ∙ rw (transaction_from_row_refuses r h applied other) refl
  get_transaction_refuses (s ∷ l) r h applied other fresh =
      get_transaction-other p r.event_id (encode p s) (encode_all p (l ++ r ∷ []))
        (ap (λ t. text_eq t r.event_id) (event_id-encode p s) ∙ (ground arith))
      ∙ get_transaction_refuses l r h applied other (ground arith)

module _ (p : Platform) (laws : IsPlatform p) (engine : Engine Row) where
  open p use {Metadata}

  -- A validated payload whose folded currency has another length than three, on the table of a
  -- well-formed ledger, under a fresh identifier, on an account without transactions, and at a
  -- clock in UTC: the call fails with a validation error although its row stays in the table, and
  -- so does the next delivery of it, which changes nothing more.
  pub apply_transaction_unreadable :
      (now later : DateTime) (e : EventPayload Metadata) (l : Ledger p)
      → IsUtc now
      → IsPayload p e
      → (length e.currency == 3) ≡ false
      → IsLedger p l
      → find p e.event_id l ≡ none
      → ledger_currency p e.account_id l ≡ none
      → let t = encode_all p (l ++ record { event = e; applied_at = now } ∷ []) in
        (apply_transaction p engine now e (encode_all p l) ≡ (err validation_error, t))
        × (apply_transaction p engine later e t ≡ (err validation_error, t))
  apply_transaction_unreadable now later e l hn he other hl fresh unused =
      let r : TransactionRecord Metadata = record { event = e; applied_at = now } in
      let refused = get_transaction_refuses p laws l r he hn other fresh in
      (
        unfold apply_transaction insert_new in
            rw (get_transaction-encode p laws e.event_id l (AllRecords-of p l hl)) (
              rw fresh (
                rw (account_currency-encode p engine e.account_id l hl) (
                  rw unused (
                    rw (new_row-encode p now e hn he)
                      (rw (insert-encode p r l fresh) (rw refused refl)))))),
        unfold apply_transaction in rw refused refl,
      )
