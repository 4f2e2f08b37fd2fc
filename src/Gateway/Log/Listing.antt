-- ===== src/Gateway/Log/Listing.antt =====
-- `list_events_for_account` on the table of a log: the account's records, each of them once, in order.
use mathlib.Core.Path.{subst}
use mathlib.Core.Logic.{∥∥₁_elim, ∥∥₁_map}
use mathlib.Core.List.{Permᴰ, Perm}
use distr_sys_itrvw.Base.{◌≡◌, refl, ap, ◌∙◌, Bool, List, [], ◌∷◌}
use distr_sys_itrvw.Shared.Text.{Text, text_eq}
use distr_sys_itrvw.Shared.Time.Print.{utc_text}
use distr_sys_itrvw.Shared.Rows.{select, Engine, key_le}
use distr_sys_itrvw.Shared.Rows.Sorted.{IsSorted}
use distr_sys_itrvw.Shared.Rows.Decoded.{AllGood, decoded, query-IsFound, IsSorted-map}
use distr_sys_itrvw.Shared.Contracts.{Platform, IsPlatform, EventRecord, Result, ok}
use distr_sys_itrvw.Shared.Contracts.Valid.{Metadata-set}
use distr_sys_itrvw.Gateway.Repository.{
  Row, of_account, row_le, event_from_row, read_rows, list_events_for_account,
}
use distr_sys_itrvw.Gateway.Repository.Listing.{list_events_for_account-IsSorted}
use distr_sys_itrvw.Gateway.Log.{Log, IsStored, IsLog, encode, encode_all}
use distr_sys_itrvw.Gateway.Log.Encode.{event_from_row-encode}

module _ (p : Platform) where
  open p use {Metadata}

  -- The records of an account.
  abbrev pub of_owner : Text → Log p → Log p
  of_owner account l = select (λ r. text_eq r.account_id account) l

  -- Not above: by the text of the time, and then by the identifier.
  abbrev pub record_le : EventRecord Metadata → EventRecord Metadata → Bool
  record_le r s =
      key_le (utc_text r.event_timestamp, r.event_id) (utc_text s.event_timestamp, s.event_id)

  -- A list of the account's events: each of them once, no other, and in order.
  abbrev pub IsListing : Text → Log p → Log p → Type 0
  IsListing account l rs = Perm rs (of_owner account l) × IsSorted record_le rs

  in_order :
      (l : Log p) → IsSorted (λ r s. row_le (encode p r) (encode p s)) l → IsSorted record_le l
  unfolding encode
  in_order l h = h

  logs_set : IsSet Metadata → IsSet (Result (Log p))
  logs_set h = hlevel

rows_set : IsSet (List Row)
rows_set = hlevel

module _ (p : Platform) (laws : IsPlatform p) where
  open p use {Metadata}

  abbrev AllReadable : Log p → Type 0
  AllReadable = AllGood (encode p) (IsStored p) (event_from_row p) (event_from_row-encode p laws)

  IsLog-AllReadable : (l : Log p) → IsLog p l → AllReadable l
  IsLog-AllReadable [] h = tt
  IsLog-AllReadable (r ∷ l) h = (h.0, IsLog-AllReadable l h.2)

  read_rows-encode_all : (l : Log p) → AllReadable l → read_rows p (encode_all p l) ≡ ok l
  unfolding read_rows
  read_rows-encode_all [] h = refl
  read_rows-encode_all (r ∷ l) h =
      rw (event_from_row-encode p laws r h.0) (rw (read_rows-encode_all l h.1) refl)

  module _ (engine : Engine Row) (account : Text) (l : Log p) (hl : IsLog p l) where
    records : List Row → Log p
    records = decoded (encode p) (IsStored p) (event_from_row p) (event_from_row-encode p laws)

    -- The listed rows, when the order of the visit is known.
    listed :
        (rows : List Row)
        → Permᴰ rows (select (of_account account) (engine.scan (encode_all p l)))
        → Permᴰ (engine.scan (encode_all p l)) (encode_all p l)
        → (rows ≡ encode_all p (records rows))
          × (read_rows p rows ≡ ok (records rows))
          × Permᴰ (records rows) (of_owner p account l)
    unfolding records encode
    listed rows found visit =
        let (same, good, owned) =
          query-IsFound (encode p) (IsStored p) (event_from_row p) (event_from_row-encode p laws)
            (of_account account) (engine.scan (encode_all p l)) rows l (IsLog-AllReadable l hl)
            found visit in
        (same, ap (read_rows p) same ∙ read_rows-encode_all (records rows) good, owned)

    -- On a platform that behaves as documented, on the table of a well-formed log, whatever the order
    -- in which the engine visits its rows, `list_events_for_account` raises nothing, and returns every
    -- event of the account as it was stored, each of them once, and no other, sorted by the text of its
    -- time and then by its identifier.
    pub list_events_for_account-IsListing :
        (rs : Log p) × (list_events_for_account p engine account (encode_all p l) ≡ ok rs)
        × IsListing p account l rs
    list_events_for_account-IsListing =
        let (rows, read, found, sorted) =
          list_events_for_account-IsSorted p engine account (encode_all p l) in
        let visit = engine.scan-perm (encode_all p l) in
        let same = ∥∥₁_elim visit (rows_set _ _) (λ d. (listed rows found d).0) in
        (
          records rows,
          read
              ∙ ∥∥₁_elim visit (logs_set p (Metadata-set p laws) _ _)
                  (λ d. (listed rows found d).1),
          (
            ∥∥₁_map visit (λ d. (listed rows found d).2),
            in_order p (records rows) (
                IsSorted-map (encode p) row_le (records rows)
                  (subst (IsSorted row_le) same sorted)),
          ),
        )
