-- ===== src/Account/Order/Balances.antt =====
-- Two sequences of calls that deliver the same payloads leave ledgers of the same payloads, and so
-- the same balances.
use mathlib.Core.Path.{subst, subst₂}
use mathlib.Core.Logic.{∥∥₁_elim, ∥∥₁_map}
use mathlib.Core.List.{Permᴰ, Perm, Mem, perm_ext_iff_of_Nodup}
use distr_sys_itrvw.Base.{
  ℕ, ◌+◌, ◌*◌, ◌^◌, ◌≤◌, ◌<◌, ◌≡◌, refl, sym, ap, ◌∙◌, true, ◌↔◌, inl, inr, List, [], ◌∷◌, arith,
  Bool-cases, if◌then◌else◌,
}
use distr_sys_itrvw.Base.Int.{ℤ, pos, ◌+ℤ◌, int_laws}
use distr_sys_itrvw.Shared.Text.{Text, text_eq}
use distr_sys_itrvw.Shared.Decimal.{precision_limit}
use distr_sys_itrvw.Shared.Decimal.Exact.{units, size}
use distr_sys_itrvw.Shared.Contracts.{Platform, IsPlatform, EventPayload}
use distr_sys_itrvw.Shared.Rows.{Engine}
use distr_sys_itrvw.Account.Repository.{Row, get_balance}
use distr_sys_itrvw.Account.Ledger.{Ledger}
use distr_sys_itrvw.Account.Balance.{
  movement, ledger_balance, ledger_volume, AmountsAbove, get_balance_exact,
}
use distr_sys_itrvw.Account.Deliveries.{deliver_all, AllCalls}
use distr_sys_itrvw.Account.Order.{
  Calls, called, payloads, first_deliveries, AllBooked, deliver_all-first_deliveries,
  first_deliveries-Kept,
}
use distr_sys_itrvw.Account.Order.Members.{
  payloads-Nodup, first_deliveries-mem, mem-first_deliveries,
}

ℤ-set : IsSet ℤ
ℤ-set = hlevel

module _ (p : Platform) (account : Text) where
  open p use {Metadata}

  -- What a payload adds to the balance of the account, and to its volume.
  abbrev share : EventPayload Metadata → ℤ
  share e = if text_eq e.account_id account then movement e.type e.amount else pos 0

  abbrev weight : EventPayload Metadata → ℕ
  weight e = if text_eq e.account_id account then size e.amount else 0

  abbrev shares : List (EventPayload Metadata) → ℤ
  shares [] = pos 0
  shares (e ∷ es) = share e +ℤ shares es

  abbrev weights : List (EventPayload Metadata) → ℕ
  weights [] = 0
  weights (e ∷ es) = weight e + weights es

  abbrev AllAbove : ℕ → List (EventPayload Metadata) → Type 0
  AllAbove m [] = Unit {0}
  AllAbove m (e ∷ es) =
      (text_eq e.account_id account ≡ true → m ≤ e.amount.exponent) × AllAbove m es

  -- The ledger's sums, without the conditional.
  ledger_sums :
      (l : Ledger p)
      → (ledger_balance p account l ≡ shares (payloads p l))
        × (ledger_volume p account l ≡ weights (payloads p l))
  ledger_sums [] = (refl, refl)
  ledger_sums (r ∷ l) =
      let (b, v) = ledger_sums l in
      elim (Bool-cases (text_eq r.account_id account)) [
        | inl same ↦
            rw same (ap (λ x. movement r.type r.amount +ℤ x) b, ap (λ x. size r.amount + x) v)
        | inr other ↦ rw other (b ∙ omega int_laws, v ∙ omega arith)
      ]

  sums-perm :
      {es fs : List (EventPayload Metadata)}
      → Permᴰ es fs
      → (shares es ≡ shares fs) × (weights es ≡ weights fs)
  sums-perm Permᴰ.nil = (refl, refl)
  sums-perm (Permᴰ.cons e d) =
      let (b, v) = sums-perm d in ((λ i. share (e i) +ℤ b i), (λ i. weight (e i) + v i))
  sums-perm (Permᴰ.swap {a = a} {b = b} {l = l} e f) =
      subst₂
        (λ x y.
          (shares (a ∷ b ∷ l) ≡ shares (y ∷ x ∷ l)) × (weights (a ∷ b ∷ l) ≡ weights (y ∷ x ∷ l)))
        e f (omega int_laws, omega arith)
  sums-perm (Permᴰ.trans d d') =
      let (b, v) = sums-perm d in let (b', v') = sums-perm d' in (b ∙ b', v ∙ v')

  AllAbove-perm :
      (m : ℕ) {es fs : List (EventPayload Metadata)} → Permᴰ es fs → AllAbove m es → AllAbove m fs
  AllAbove-perm m Permᴰ.nil h = tt
  AllAbove-perm m (Permᴰ.cons e d) h = (
    subst (λ x. text_eq x.account_id account ≡ true → m ≤ x.amount.exponent) e h.0,
    AllAbove-perm m d h.1,
  )
  AllAbove-perm m (Permᴰ.swap {a = a} {b = b} {l = l} e f) h =
      subst₂ (λ x y. AllAbove m (y ∷ x ∷ l)) e f (h.1.0, (h.0, h.1.1))
  AllAbove-perm m (Permᴰ.trans d d') h = AllAbove-perm m d' (AllAbove-perm m d h)

  AmountsAbove-AllAbove :
      (m : ℕ) (l : Ledger p) → AmountsAbove p m account l ↔ AllAbove m (payloads p l)
  AmountsAbove-AllAbove m [] = (λ h. h, λ h. h)
  AmountsAbove-AllAbove m (r ∷ l) =
      let rest = AmountsAbove-AllAbove m l in (λ h. (h.0, rest.0 h.1), λ h. (h.0, rest.1 h.1))

  -- Ledgers of the same payloads, in any order, have the same sums.
  same_sums :
      (l l' : Ledger p)
      → Permᴰ (payloads p l) (payloads p l')
      → (ledger_balance p account l ≡ ledger_balance p account l')
        × (ledger_volume p account l ≡ ledger_volume p account l')
        × ((m : ℕ) → AmountsAbove p m account l → AmountsAbove p m account l')
  same_sums l l' d =
      let (b, v) = ledger_sums l in
      let (b', v') = ledger_sums l' in
      let (e, w) = sums-perm d in
      (
        b ∙ e ∙ sym b',
        v ∙ w ∙ sym v',
        λ m h. (AmountsAbove-AllAbove m l').1 (AllAbove-perm m d ((AmountsAbove-AllAbove m l).0 h)),
      )

module _ (p : Platform) where
  open p use {Metadata}

  -- The same payloads are delivered, in whatever order and however often each.
  abbrev pub IsSameCalls : Calls p → Calls p → Type 0
  IsSameCalls xs ys = (e : EventPayload Metadata) → Mem e (called p xs) ↔ Mem e (called p ys)

module _ (p : Platform) (book : Text → EventPayload (p.Metadata)) (money : Text → Text) where
  open p use {Metadata}

  abbrev pub IsBookedCalls : Calls p → Type 0
  IsBookedCalls calls = AllCalls p calls × AllBooked p book money (called p calls)

  mem-called :
      (calls : Calls p) (e : EventPayload Metadata)
      → IsBookedCalls calls
      → Mem e (payloads p (first_deliveries p calls [])) ↔ Mem e (called p calls)
  mem-called calls e (hc, hb) = (
    λ m. ∥∥₁_map m (λ d. elim (first_deliveries-mem p calls [] d) [
      | inl none_before ↦ elim none_before [ ]
      | inr now ↦ now
    ]),
    λ m. ∥∥₁_map m (λ d. mem-first_deliveries p book money calls [] tt hb (inr d)),
  )

  module _ (laws : IsPlatform p) where
    same_payloads :
        (xs ys : Calls p)
        → IsBookedCalls xs
        → IsBookedCalls ys
        → IsSameCalls p xs ys
        → Perm (payloads p (first_deliveries p xs [])) (payloads p (first_deliveries p ys []))
    same_payloads xs ys hx hy same =
        let (lx, _) = first_deliveries-Kept p book money laws xs [] hx.0 hx.1 tt tt in
        let (ly, _) = first_deliveries-Kept p book money laws ys [] hy.0 hy.1 tt tt in
        (perm_ext_iff_of_Nodup (payloads-Nodup p (first_deliveries p xs []) lx)
            (payloads-Nodup p (first_deliveries p ys []) ly)).1
          (λ e. (
            λ m. (mem-called ys e hy).1 ((same e).0 ((mem-called xs e hx).0 m)),
            λ m. (mem-called xs e hx).1 ((same e).1 ((mem-called ys e hy).0 m)),
          ))

    -- The balance after calls on an empty table.
    balance_delivered :
        (engine : Engine Row) (m : ℕ) (account : Text) (calls : Calls p)
        → IsBookedCalls calls
        → m ≤ p.places
        → AmountsAbove p m account (first_deliveries p calls [])
        → ledger_volume p account (first_deliveries p calls []) < precision_limit * 10 ^ m
        → units (get_balance p engine account (deliver_all p engine calls [])).balance
          ≡ ledger_balance p account (first_deliveries p calls [])
    balance_delivered engine m account calls (hc, hb) hm above fits =
        ap (λ t. units (get_balance p engine account t).balance)
          (deliver_all-first_deliveries p book money laws engine calls [] hc hb tt tt).0
        ∙ get_balance_exact p laws engine m account (first_deliveries p calls []) hm above fits

    -- If two sequences of calls on empty tables deliver the same payloads, in whatever orders,
    -- however often each, at whatever readings of clocks in UTC, and whatever the orders in which
    -- the two engines visit their rows, then the two balances of an account are equal to the last
    -- digit; provided that all payloads agree with one book, which has one payload for each
    -- identifier and one currency for each account, are validated and have a currency of three
    -- characters, and that the account's amounts together have fewer than 28 digits, each
    -- identifier counted once (the exponent `m` is at most that of the number 0 at which the sum
    -- starts, no amount has digits below `m`, and the sum of the amounts is below 10 to the 28 in
    -- units of `m`).
    pub get_balance_any_order :
        (engine engine' : Engine Row) (m : ℕ) (account : Text) (xs ys : Calls p)
        → IsBookedCalls xs
        → IsBookedCalls ys
        → IsSameCalls p xs ys
        → m ≤ p.places
        → AmountsAbove p m account (first_deliveries p xs [])
        → ledger_volume p account (first_deliveries p xs []) < precision_limit * 10 ^ m
        → units (get_balance p engine account (deliver_all p engine xs [])).balance
          ≡ units (get_balance p engine' account (deliver_all p engine' ys [])).balance
    get_balance_any_order engine engine' m account xs ys hx hy same hm above fits =
        ∥∥₁_elim (same_payloads xs ys hx hy same) (ℤ-set _ _) (λ d.
          let (b, v, a) =
            same_sums p account (first_deliveries p xs []) (first_deliveries p ys []) d in
          balance_delivered engine m account xs hx hm above fits
          ∙ b
          ∙ sym (
              balance_delivered engine' m account ys hy hm (a m above)
                (subst (λ n. n < precision_limit * 10 ^ m) v fits)))
