-- ===== src/Account/Balance.antt =====
-- What `get_balance` returns: credits minus debits of the account, exactly and whatever the order of
-- the rows, as long as the amounts together have fewer than 28 digits.
use native.Mathlib.Nat.{zero-mul}
use mathlib.Core.Path.{ap₂}
use mathlib.Core.Logic.{∥∥₁_elim}
use mathlib.Core.List.{Permᴰ}
use mathlib.Core.List.Permᴰ
use distr_sys_itrvw.Base.{
  ℕ, ◌+◌, ◌*◌, ◌^◌, ◌≤◌, ◌<◌, ◌≡◌, refl, sym, ap, ◌∙◌, true, inl, inr, Option, none, List, [], ◌∷◌,
  map, arith, Bool-cases, if◌then◌else◌,
}
use distr_sys_itrvw.Base.Int.{ℤ, pos, ◌+ℤ◌, ◌-ℤ◌, int_laws, pos_part, neg_part}
use distr_sys_itrvw.Shared.Text.{Text, codes, text_eq}
use distr_sys_itrvw.Shared.Decimal.{
  Decimal, decimal_zero, decimal_neg, precision_limit, magnitude, scale,
}
use distr_sys_itrvw.Shared.Decimal.Exact.{units, size, decimal_neg_exact}
use distr_sys_itrvw.Shared.Decimal.Sum.{
  decimal_sum, total, volume, AllAbove, units-decimal_sum, total-perm, AllAbove-perm,
}
use distr_sys_itrvw.Shared.Contracts.{
  Platform, IsPlatform, TransactionType, credit, debit, type_value, TransactionRecord,
}
use distr_sys_itrvw.Shared.Rows.{select, Engine}
use distr_sys_itrvw.Shared.Rows.Selected.{select-perm}
use distr_sys_itrvw.Account.Repository.{Row, of_account, row_amount, add_rows, get_balance}
use distr_sys_itrvw.Account.Ledger.{Ledger}
use distr_sys_itrvw.Account.Ledger.Encode.{encode, encode_all}

-- What one transaction adds to its account, in the smallest units.
abbrev pub movement : TransactionType → Decimal → ℤ
movement credit d = units d
movement debit d = pos 0 -ℤ units d

module _ (p : Platform) where
  open p use {Metadata}

  -- The sum of credits minus the sum of debits of an account.
  abbrev pub ledger_balance : Text → Ledger p → ℤ
  ledger_balance account [] = pos 0
  ledger_balance account (r ∷ l) =
      if text_eq r.account_id account
      then movement r.type r.amount +ℤ ledger_balance account l
      else ledger_balance account l

  -- The sum of the amounts of an account, credits and debits alike.
  abbrev pub ledger_volume : Text → Ledger p → ℕ
  ledger_volume account [] = 0
  ledger_volume account (r ∷ l) =
      if text_eq r.account_id account
      then size r.amount + ledger_volume account l
      else ledger_volume account l

  -- No amount of the account has digits below the exponent `m`.
  abbrev pub AmountsAbove : ℕ → Text → Ledger p → Type 0
  AmountsAbove m account [] = Unit {0}
  AmountsAbove m account (r ∷ l) =
      (text_eq r.account_id account ≡ true → m ≤ r.amount.exponent) × AmountsAbove m account l

  add_rows-decimal_sum :
      (rows : List Row) (acc : Decimal) (c : Option Text)
      → (add_rows p rows acc c).0 ≡ decimal_sum acc (map (row_amount p) rows)
  unfolding add_rows decimal_sum
  add_rows-decimal_sum [] acc c = refl
  add_rows-decimal_sum (row ∷ rows) acc c = add_rows-decimal_sum rows _ _

  -- What the loop of `get_balance` adds up, with the rows as they were inserted.
  summands : Text → Ledger p → List Decimal
  summands account l = map (row_amount p) (select (of_account account) (encode_all p l))

  summands-cons :
      (account : Text) (r : TransactionRecord Metadata) (l : Ledger p)
      → summands account (r ∷ l) ≡ (
          if text_eq r.account_id account
          then row_amount p (encode p r) ∷ summands account l
          else summands account l)
  unfolding summands select encode
  summands-cons account r l = elim (Bool-cases (text_eq r.account_id account)) [
    | inl same ↦ rw same refl
    | inr other ↦ rw other refl
  ]

opposite_eq : (a b : ℤ) → a +ℤ b ≡ pos 0 → a ≡ pos 0 -ℤ b
opposite_eq a b h = omega (int_laws, ap pos_part h, ap neg_part h)

magnitude_opposite : (a : ℤ) → magnitude (pos 0 -ℤ a) ≡ magnitude a
unfolding ◌-ℤ◌
magnitude_opposite a = ground arith

abbrev entry : TransactionType → Decimal → Decimal
entry credit d = d
entry debit d = decimal_neg d

entry-type_value :
    (t : TransactionType) (d : Decimal)
    → (if text_eq (type_value t) (codes "CREDIT") then d else decimal_neg d) ≡ entry t d
unfolding type_value text_eq
entry-type_value credit d = refl
entry-type_value debit d = refl

-- An amount that fits adds its movement, and is as large.
entry-fits :
    (t : TransactionType) (d : Decimal) (m : ℕ)
    → m ≤ d.exponent
    → size d < precision_limit * 10 ^ m
    → (units (entry t d) ≡ movement t d) × (size (entry t d) ≡ size d) × (m ≤ (entry t d).exponent)
entry-fits credit d m h fits = (refl, refl, h)
entry-fits debit d m h fits =
    let (opposite, same) = decimal_neg_exact d m h fits in
    let flipped : units (decimal_neg d) ≡ pos 0 -ℤ units d = opposite_eq _ _ opposite in
    (flipped, ap magnitude flipped ∙ magnitude_opposite (units d), rw same h)

module _ (p : Platform) (laws : IsPlatform p) where
  open p use {Metadata}

  row_amount-encode :
      (r : TransactionRecord Metadata) → row_amount p (encode p r) ≡ entry r.type r.amount
  unfolding row_amount encode
  row_amount-encode r = rw (laws.decimal_of-text r.amount) (entry-type_value r.type r.amount)

  -- The summands of an account whose amounts fit.
  summands_fit :
      (m : ℕ) (account : Text) (l : Ledger p)
      → AmountsAbove p m account l
      → ledger_volume p account l < precision_limit * 10 ^ m
      → (total (summands p account l) ≡ ledger_balance p account l)
        × (volume (summands p account l) ≡ ledger_volume p account l)
        × AllAbove m (summands p account l)
  summands_fit m account [] h fits = unfold summands select in (refl, refl, tt)
  summands_fit m account (r ∷ l) h fits = elim (Bool-cases (text_eq r.account_id account)) [
    | inl same ↦
        let above : m ≤ r.amount.exponent = h.0 same in
        let bound : size r.amount + ledger_volume p account l < precision_limit * 10 ^ m =
          rw same at fits in
        let (u, v, e) = entry-fits r.type r.amount m above (omega arith) in
        let (t, w, a) = summands_fit m account l h.1 (omega arith) in
        rw (summands-cons p account r l)
          (rw same (rw (row_amount-encode r) (ap₂ ◌+ℤ◌ u t, ap₂ ◌+◌ v w, (e, a))))
    | inr other ↦
        let (t, w, a) = summands_fit m account l h.1 (rw other at fits) in
        rw (summands-cons p account r l) (rw other (t, w, a))
  ]

ℤ-set : IsSet ℤ
ℤ-set = hlevel

units_zero : (places : ℕ) → units (decimal_zero places) ≡ pos 0
unfolding units decimal_zero
units_zero places = unfold scale in ap pos (zero-mul (10 ^ places))

zero_size : (places : ℕ) → size (decimal_zero places) ≡ 0
zero_size places = ap magnitude (units_zero places)

from_zero : (places : ℕ) (a : ℤ) → units (decimal_zero places) +ℤ a ≡ a
from_zero places a = rw (units_zero places) (omega int_laws)

module _ (p : Platform) (laws : IsPlatform p) (engine : Engine Row) where
  open p use {Metadata}

  scanned_summands :
      (account : Text) (l : Ledger p)
      → Permᴰ (engine.scan (encode_all p l)) (encode_all p l)
      → Permᴰ
          (summands p account l)
          (map (row_amount p) (select (of_account account) (engine.scan (encode_all p l))))
  unfolding summands
  scanned_summands account l d =
      Permᴰ.symm (Permᴰ.map (row_amount p) (select-perm (of_account account) d))

  balance_along :
      (m : ℕ) (account : Text) (l : Ledger p)
      → m ≤ p.places
      → AmountsAbove p m account l
      → ledger_volume p account l < precision_limit * 10 ^ m
      → Permᴰ (engine.scan (encode_all p l)) (encode_all p l)
      → units
          (add_rows p
            (select (of_account account) (engine.scan (encode_all p l)))
            (decimal_zero p.places)
            none).0
        ≡ ledger_balance p account l
  balance_along m account l hm above fits d =
      let rows = select (of_account account) (engine.scan (encode_all p l)) in
      let (t, v, a) = summands_fit p laws m account l above fits in
      let e = scanned_summands account l d in
      let (t', v') = total-perm e in
      ap units (add_rows-decimal_sum p rows (decimal_zero p.places) none)
      ∙ units-decimal_sum m (decimal_zero p.places) (map (row_amount p) rows)
          (unfold decimal_zero in hm) (AllAbove-perm m e a)
          (omega (arith, zero_size p.places, v, v'))
      ∙ from_zero p.places (total (map (row_amount p) rows))
      ∙ sym t'
      ∙ t

  -- On the table of a ledger, whatever the order in which the engine visits its rows, the balance
  -- that the Account Service reports is the sum of the account's credits minus the sum of its
  -- debits, to the last digit, if the exponent `m` is at most that of the number 0 at which the
  -- sum starts, no amount of the account has digits below `m`, and its amounts together are below
  -- 10 to the 28 in units of `m`.
  pub get_balance_exact :
      (m : ℕ) (account : Text) (l : Ledger p)
      → m ≤ p.places
      → AmountsAbove p m account l
      → ledger_volume p account l < precision_limit * 10 ^ m
      → units (get_balance p engine account (encode_all p l)).balance ≡ ledger_balance p account l
  get_balance_exact m account l hm above fits =
      ∥∥₁_elim (engine.scan-perm (encode_all p l)) (ℤ-set _ _)
        (λ d. unfold get_balance in balance_along m account l hm above fits d)
