-- ===== src/Account/Ledger/Refinement.antt =====
-- `apply_transaction` of the repository does to the table what `apply_event` does to the ledger.
use mathlib.Core.List.Perm
use mathlib.Core.Bool.{false≢true}
use mathlib.Core.Logic.{∥∥₁_elim}
use mathlib.Core.Path.{subst, subst₂}
use mathlib.Core.List.{Permᴰ, Perm}
use distr_sys_itrvw.Base.{
  ◌≡◌, refl, sym, ap, ◌∙◌, Bool, true, false, inl, inr, Option, none, some, [], ◌∷◌, arith,
  Bool-cases, if◌then◌else◌, Option-cases, some_inj,
}
use distr_sys_itrvw.Base.Lists.{length}
use distr_sys_itrvw.Shared.Text.{Text, text_eq, text_eq→eq}
use distr_sys_itrvw.Shared.Time.{DateTime}
use distr_sys_itrvw.Shared.Time.Utc.{IsUtc}
use distr_sys_itrvw.Shared.Contracts.{Platform, IsPlatform, EventPayload, TransactionRecord, ok}
use distr_sys_itrvw.Shared.Contracts.Valid.{IsPayload}
use distr_sys_itrvw.Shared.Rows.{select, fetchone, Engine}
use distr_sys_itrvw.Account.Repository.{
  Row, Table, of_account, currency_of, account_currency, apply_transaction, Outcome, after_lookup,
  apply_new,
}
use distr_sys_itrvw.Account.Ledger.{
  Ledger, LedgerOutcome, find, ledger_currency, agrees, apply_event, IsRecord, AllRecords, AllIn,
  IsLedger, apply_found, apply_unseen,
}
use distr_sys_itrvw.Account.Ledger.Encode.{
  encode, encode_all, get_transaction-encode, same_event-agrees, insert_new-encode,
}

-- Every selected row has this currency.
abbrev RowsIn : Text → Text → Table → Type 0
RowsIn account currency [] = Unit {0}
RowsIn account currency (row ∷ t) =
    (text_eq row.account_id account ≡ true → row.currency ≡ currency) × RowsIn account currency t

-- The currency of the first row of an account.
first_currency : Text → Table → Option Text
first_currency account [] = none
first_currency account (row ∷ t) =
    if text_eq row.account_id account then some row.currency else first_currency account t

first_currency-select :
    (account : Text) (t : Table)
    → currency_of (fetchone (select (of_account account) t)) ≡ first_currency account t
unfolding select fetchone first_currency
first_currency-select account [] = refl
first_currency-select account (row ∷ t) = ground (arith, first_currency-select account t)

-- Where an account has one currency, it does not matter in which order the rows are visited.
first_currency-permᴰ :
    (account currency : Text) {t u : Table}
    → Permᴰ t u
    → RowsIn account currency t
    → RowsIn account currency u × (first_currency account t ≡ first_currency account u)
unfolding first_currency
first_currency-permᴰ account currency Permᴰ.nil h = (tt, refl)
first_currency-permᴰ account currency (Permᴰ.cons {a = a} {l₁ = t} {l₂ = u} e d) h =
    let (hu, eq) = first_currency-permᴰ account currency d h.1 in
    subst
      (λ x.
        RowsIn account currency (x ∷ u)
        × (first_currency account (a ∷ t) ≡ first_currency account (x ∷ u)))
      e ((h.0, hu), ground arith)
first_currency-permᴰ account currency (Permᴰ.swap {a = a} {b = b} {l = l} e f) h =
    subst₂
      (λ x y.
        RowsIn account currency (y ∷ x ∷ l)
        × (first_currency account (a ∷ b ∷ l) ≡ first_currency account (y ∷ x ∷ l)))
      e f
      (
        (h.1.0, (h.0, h.1.1)),
        swapped (text_eq a.account_id account) (text_eq b.account_id account) h.0 h.1.0,
      )
  where
    swapped :
        (p q : Bool)
        → (p ≡ true → a.currency ≡ currency)
        → (q ≡ true → b.currency ≡ currency)
        → (if p then some a.currency else if q then some b.currency else first_currency account l)
          ≡ (if q then some b.currency else if p then some a.currency else first_currency account l)
    swapped true true ha hb = ap some (ha refl ∙ sym (hb refl))
    swapped true false ha hb = refl
    swapped false true ha hb = refl
    swapped false false ha hb = refl
first_currency-permᴰ account currency (Permᴰ.trans d d') h =
    let (hu, eq) = first_currency-permᴰ account currency d h in
    let (hv, eq') = first_currency-permᴰ account currency d' hu in (hv, eq ∙ eq')

Text_option-set : IsSet (Option Text)
Text_option-set = hlevel

first_currency-perm :
    (account currency : Text) {t u : Table}
    → Perm t u
    → RowsIn account currency t
    → first_currency account t ≡ first_currency account u
first_currency-perm account currency d h =
    ∥∥₁_elim d (Text_option-set _ _) (λ e. (first_currency-permᴰ account currency e h).1)

module _ (p : Platform) where
  open p use {Metadata}

  first_currency-encode :
      (account : Text) (l : Ledger p)
      → first_currency account (encode_all p l) ≡ ledger_currency p account l
  unfolding first_currency ledger_currency encode
  first_currency-encode account [] = refl
  first_currency-encode account (r ∷ l) = ground (arith, first_currency-encode account l)

  AllIn-encode :
      (account currency : Text) (l : Ledger p)
      → AllIn p account currency l
      → RowsIn account currency (encode_all p l)
  unfolding encode
  AllIn-encode account currency [] h = tt
  AllIn-encode account currency (r ∷ l) h = (h.0, AllIn-encode account currency l h.1)

  -- In a well-formed ledger every account has one currency.
  one_currency :
      (account : Text) (l : Ledger p)
      → IsLedger p l
      → (currency : Text) × RowsIn account currency (encode_all p l)
  unfolding encode
  one_currency account [] h = ([], tt)
  one_currency account (r ∷ l) h = elim (Bool-cases (text_eq r.account_id account)) [
    | inl same ↦ (
      r.currency,
      (
        (λ _. refl),
        AllIn-encode account r.currency l
            (subst (λ a. AllIn p a r.currency l) (text_eq→eq r.account_id account same) h.2),
      ),
    )
    | inr other ↦
        let (currency, rest) = one_currency account l h.3 in
        (currency, ((λ e. absurd (false≢true (sym other ∙ e))), rest))
  ]

  pub AllRecords-of : (l : Ledger p) → IsLedger p l → AllRecords p l
  AllRecords-of [] h = tt
  AllRecords-of (r ∷ l) h = (h.0, AllRecords-of l h.3)

  find-IsRecord :
      (id : Text) (l : Ledger p) {r : TransactionRecord Metadata}
      → AllRecords p l
      → find p id l ≡ some r
      → IsRecord p r
  unfolding find
  find-IsRecord id [] h e = cc
  find-IsRecord id (s ∷ l) {r} h e = elim (Bool-cases (text_eq s.event_id id)) [
    | inl same ↦ subst (IsRecord p) (some_inj (rw same at e)) h.0
    | inr other ↦ find-IsRecord id l h.1 (rw other at e)
  ]

  abbrev pub encoded : LedgerOutcome p → Outcome p
  encoded (r, l) = (r, encode_all p l)

  module _ (engine : Engine Row) where
    pub account_currency-encode :
        (account : Text) (l : Ledger p)
        → IsLedger p l
        → account_currency p engine account (encode_all p l) ≡ ledger_currency p account l
    unfolding account_currency
    account_currency-encode account l h =
        let (currency, rows) = one_currency account l h in
        first_currency-select account (engine.scan (encode_all p l))
        ∙ sym (
            first_currency-perm account currency (Perm.symm (engine.scan-perm (encode_all p l)))
              rows)
        ∙ first_currency-encode account l

module _ (p : Platform) (laws : IsPlatform p) (engine : Engine Row) where
  open p use {Metadata}

  found-IsPayload :
      (id : Text) (l : Ledger p) (r : TransactionRecord Metadata)
      → IsLedger p l
      → find p id l ≡ some r
      → IsPayload p r.event
  found-IsPayload id l r hl found = (find-IsRecord p id l (AllRecords-of p l hl) found).payload

  replayed :
      (now : DateTime) (e : EventPayload Metadata) (r : TransactionRecord Metadata) (l : Ledger p)
      → IsPayload p e
      → IsPayload p r.event
      → after_lookup p engine (ok (some r)) now e (encode_all p l)
        ≡ encoded p (apply_found p (some r) now e l)
  replayed now e r l he hr =
      rw (same_event-agrees p laws r.event e hr he) (elim (Bool-cases (agrees p r.event e)) [
        | inl same ↦ rw same refl
        | inr other ↦ rw other refl
      ])

  applied :
      (now : DateTime) (e : EventPayload Metadata) (l : Ledger p)
      → IsUtc now
      → IsPayload p e
      → length e.currency ≡ 3
      → AllRecords p l
      → find p e.event_id l ≡ none
      → (currency : Option Text)
      → apply_new p currency now e (encode_all p l) ≡ encoded p (apply_unseen p currency now e l)
  applied now e l hn he three hl fresh none = insert_new-encode p laws now e l hn he three hl fresh
  applied now e l hn he three hl fresh (some currency) =
      elim (Bool-cases (text_eq currency e.currency)) [
        | inl same ↦ rw same (insert_new-encode p laws now e l hn he three hl fresh)
        | inr other ↦ rw other refl
      ]

  -- From the table of a well-formed ledger, whatever the order in which the engine visits its
  -- rows, and at a clock in UTC, `apply_transaction` of a validated payload whose currency has
  -- three characters returns or raises what `apply_event` does, and leaves the table of the ledger
  -- that `apply_event` leaves.
  pub apply_transaction-apply_event :
      (now : DateTime) (e : EventPayload Metadata) (l : Ledger p)
      → IsUtc now
      → IsPayload p e
      → length e.currency ≡ 3
      → IsLedger p l
      → apply_transaction p engine now e (encode_all p l) ≡ encoded p (apply_event p now e l)
  apply_transaction-apply_event now e l hn he three hl =
      unfold apply_transaction in
      rw (get_transaction-encode p laws e.event_id l (AllRecords-of p l hl))
        (elim (Option-cases (find p e.event_id l)) [
          | inr (r, found) ↦
              unfold apply_event in
              rw found (replayed now e r l he (found-IsPayload e.event_id l r hl found))
          | inl fresh ↦
              unfold apply_event in
              rw fresh (
                rw (account_currency-encode p engine e.account_id l hl) (
                  applied now e l hn he three (AllRecords-of p l hl) fresh
                    (ledger_currency p e.account_id l)))
        ])
