-- ===== src/Account/Details.antt =====
-- `get_account_details` on the table of a ledger: the account's records in order, up to the limit.
use Prim.Native.Nat.{min}
use mathlib.Core.Path.{subst}
use mathlib.Core.Logic.{∥∥₁_elim, ∥∥₁_map}
use mathlib.Core.List.{Permᴰ, Perm}
use distr_sys_itrvw.Base.{ℕ, ◌≡◌, refl, sym, ap, ◌∙◌, Bool, List, [], ◌∷◌, ◌++◌}
use distr_sys_itrvw.Base.Lists.{length, take, length-take, length-perm}
use distr_sys_itrvw.Shared.Text.{Text, text_eq}
use distr_sys_itrvw.Shared.Time.Print.{utc_text}
use distr_sys_itrvw.Shared.Rows.{select, order_by, Engine, key_le}
use distr_sys_itrvw.Shared.Rows.Sorted.{
  IsSorted, drop, take-drop, order_by-IsSorted, order_by-perm, key_le_total, key_le_trans,
}
use distr_sys_itrvw.Shared.Rows.Decoded.{
  AllGood, AllGood-take, decoded, query-IsFound, IsSorted-map, take-map,
}
use distr_sys_itrvw.Shared.Contracts.{Platform, IsPlatform, TransactionRecord, Result, ok}
use distr_sys_itrvw.Shared.Contracts.Valid.{Metadata-set}
use distr_sys_itrvw.Account.Repository.{
  Row, of_account, row_le, transaction_from_row, read_rows, detail_rows, get_balance,
  get_account_details,
}
use distr_sys_itrvw.Account.Ledger.{Ledger, IsRecord, AllRecords, IsLedger}
use distr_sys_itrvw.Account.Ledger.Encode.{encode, encode_all, transaction_from_row-encode}
use distr_sys_itrvw.Account.Ledger.Refinement.{AllRecords-of}

module _ (p : Platform) where
  open p use {Metadata}

  -- The records of an account.
  abbrev pub of_owner : Text → Ledger p → Ledger p
  of_owner account l = select (λ r. text_eq r.account_id account) l

  -- Not above: by the text of the time, and then by the identifier.
  abbrev pub record_le : TransactionRecord Metadata → TransactionRecord Metadata → Bool
  record_le r s =
      key_le (utc_text r.event_timestamp, r.event_id) (utc_text s.event_timestamp, s.event_id)

  in_order :
      (l : Ledger p) → IsSorted (λ r s. row_le (encode p r) (encode p s)) l → IsSorted record_le l
  unfolding encode
  in_order l h = h

  ledgers_set : IsSet Metadata → IsSet (Result (Ledger p))
  ledgers_set h = hlevel

ℕ_set : IsSet ℕ
ℕ_set = hlevel

rows_set : IsSet (List Row)
rows_set = hlevel

ordered : (rows : List Row) → IsSorted row_le (order_by row_le rows)
ordered rows =
    order_by-IsSorted row_le
      (λ r s. key_le_total (r.event_timestamp, r.event_id) (s.event_timestamp, s.event_id))
      (λ r s u.
        key_le_trans (r.event_timestamp, r.event_id) (s.event_timestamp, s.event_id)
          (u.event_timestamp, u.event_id))
      rows

module _ (p : Platform) (laws : IsPlatform p) where
  open p use {Metadata}

  abbrev pub AllReadable : Ledger p → Type 0
  AllReadable =
      AllGood (encode p) (IsRecord p) (transaction_from_row p) (transaction_from_row-encode p laws)

  AllRecords-AllReadable : (l : Ledger p) → AllRecords p l → AllReadable l
  AllRecords-AllReadable [] h = tt
  AllRecords-AllReadable (r ∷ l) h = (h.0, AllRecords-AllReadable l h.1)

  pub read_rows-encode_all : (l : Ledger p) → AllReadable l → read_rows p (encode_all p l) ≡ ok l
  unfolding read_rows
  read_rows-encode_all [] h = refl
  read_rows-encode_all (r ∷ l) h =
      rw (transaction_from_row-encode p laws r h.0) (rw (read_rows-encode_all l h.1) refl)

  module _ (engine : Engine Row) (account : Text) (limit : ℕ) (l : Ledger p)
      (hl : IsLedger p l) where
    records : List Row → Ledger p
    records =
        decoded (encode p) (IsRecord p) (transaction_from_row p)
          (transaction_from_row-encode p laws)

    -- All rows of the account, in order.
    abbrev rows : List Row
    rows = order_by row_le (select (of_account account) (engine.scan (encode_all p l)))

    -- The rows, when the order of the visit is known.
    visited :
        Permᴰ (engine.scan (encode_all p l)) (encode_all p l)
        → (rows ≡ encode_all p (records rows))
          × (read_rows p (take limit rows) ≡ ok (take limit (records rows)))
          × Permᴰ (records rows) (of_owner p account l)
    unfolding records encode
    visited order =
        let (same, good, owned) =
          query-IsFound (encode p) (IsRecord p) (transaction_from_row p)
            (transaction_from_row-encode p laws) (of_account account) (engine.scan (encode_all p l))
            rows l (AllRecords-AllReadable l (AllRecords-of p l hl)) (order_by-perm row_le _)
            order in
        (
          same,
          ap (λ t. read_rows p (take limit t)) same
              ∙ ap (read_rows p) (take-map (encode p) limit (records rows))
              ∙ read_rows-encode_all (take limit (records rows)) (
                  AllGood-take (encode p) (IsRecord p) (transaction_from_row p)
                    (transaction_from_row-encode p laws) limit (records rows) good),
          owned,
        )

    -- On a platform that behaves as documented, on the table of a well-formed ledger, whatever the
    -- order in which the engine visits its rows, `get_account_details` raises nothing; with the balance
    -- it returns transactions, as many as the limit or, if the account has fewer, all of them. Followed
    -- by those that are left out, they are all transactions of the account as they were stored, each of
    -- them once, sorted by the text of their time and then by identifier.
    pub get_account_details-IsSorted :
        (shown hidden : Ledger p) × (get_account_details p engine account limit (encode_all p l)
          ≡ ok (record {
            balance_response = get_balance p engine account (encode_all p l);
            recent_transactions = shown;
          }))
        × (length shown ≡ min limit (length (of_owner p account l)))
        × Perm (shown ++ hidden) (of_owner p account l)
        × IsSorted (record_le p) (shown ++ hidden)
    get_account_details-IsSorted =
        let visit = engine.scan-perm (encode_all p l) in
        let same = ∥∥₁_elim visit (rows_set _ _) (λ d. (visited d).0) in
        let read = ∥∥₁_elim visit (ledgers_set p (Metadata-set p laws) _ _) (λ d. (visited d).1) in
        let whole = sym (take-drop (record_le p) limit (records rows)) in
        (
          take limit (records rows),
          drop (record_le p) limit (records rows),
          (unfold get_account_details detail_rows in rw read refl),
          length-take limit (records rows)
              ∙ ap (min limit) (∥∥₁_elim visit (ℕ_set _ _) (λ d. length-perm (visited d).2)),
          subst (λ k. Perm k (of_owner p account l)) whole (∥∥₁_map visit (λ d. (visited d).2)),
          subst (IsSorted (record_le p)) whole (
              in_order p (records rows) (
                IsSorted-map (encode p) row_le (records rows) (
                  subst (IsSorted row_le) same
                    (ordered (select (of_account account) (engine.scan (encode_all p l))))))),
        )
