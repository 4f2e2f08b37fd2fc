-- ===== src/Shared/Decimal.antt =====
-- Python's `Decimal` under the default context: 28 digits, ties to even. The exponent counts from the
-- smallest unit in use, which is `places` decimal places; the limits of the context on exponents
-- (999999 and down to -999999) are not modelled, nor are infinities and NaN, which the contracts refuse.
pub mod Exact
pub mod Sum
use Prim.Native.Nat.{min}
use distr_sys_itrvw.Base.{
  ℕ, zero, suc, ◌+◌, ◌-◌, ◌*◌, ◌/◌, ◌%◌, ◌^◌, Bool, true, false, ◌&&◌, ltb, ◌==◌, if◌then◌else◌,
}
use distr_sys_itrvw.Base.Int.{ℤ, pos, negsuc, ◌+ℤ◌, sub_ℕ, pos_part, neg_part}

-- The value is `coefficient` times 10 to the power `exponent`, in the smallest units.
pub record Decimal : Type 0 where
  pub coefficient : ℤ
  pub exponent : ℕ

-- `Decimal("0")`
unfoldable pub decimal_zero : ℕ → Decimal
decimal_zero places = record { coefficient = pos 0; exponent = places }

-- An integer times a natural number.
unfoldable pub scale : ℤ → ℕ → ℤ
scale (pos n) k = pos (n * k)
scale (negsuc n) k = sub_ℕ 0 (suc n * k)

abbrev pub precision_limit : ℕ
precision_limit = 10 ^ 28

-- How many digits past 28 a coefficient has.
unfoldable pub excess : ℕ → ℕ → ℕ
excess zero c = 0
excess (suc fuel) c =
    let more = excess fuel (c / 10) in if ltb c precision_limit then 0 else suc more

-- `c` without its last `n` digits, rounded to the nearest, ties to even.
unfoldable pub round_half_even : ℕ → ℕ → ℕ
round_half_even c n =
    let q = c / 10 ^ n in
    let r = 2 * (c % 10 ^ n) in
    if ltb r (10 ^ n) then q else if r == 10 ^ n then q + q % 2 else q + 1

-- A sign back onto a coefficient.
unfoldable pub signed : ℤ → ℕ → ℤ
signed (pos _) c = pos c
signed (negsuc _) c = sub_ℕ 0 c

-- Rounding up may reach 10 ^ 28, which is written with one digit less.
unfoldable pub shortened : ℤ → ℕ → ℕ → Decimal
unfolding signed
shortened sign c e =
    if c == precision_limit
    then record { coefficient = signed sign (10 ^ 27); exponent = e + 1 }
    else record { coefficient = signed sign c; exponent = e }

abbrev pub magnitude : ℤ → ℕ
magnitude a = pos_part a + neg_part a

-- What the context does to every result.
unfoldable pub fix : Decimal → Decimal
unfolding excess round_half_even shortened
fix d =
    let c = magnitude d.coefficient in
    if ltb c precision_limit
    then d
    else shortened d.coefficient (round_half_even c (excess c c)) (d.exponent + excess c c)

-- The coefficient of a number at a lower exponent.
unfoldable pub aligned : Decimal → ℕ → ℤ
unfolding scale
aligned d e = scale d.coefficient (10 ^ (d.exponent - e))

unfoldable pub decimal_add : Decimal → Decimal → Decimal
decimal_add a b =
    let e = min a.exponent b.exponent in
    fix (record { coefficient = aligned a e +ℤ aligned b e; exponent = e })

-- Unary minus rounds too.
unfoldable pub decimal_neg : Decimal → Decimal
unfolding fix
decimal_neg d = fix (record {
  coefficient = sub_ℕ (neg_part d.coefficient) (pos_part d.coefficient);
  exponent = d.exponent;
})

-- Comparison is exact.
unfoldable pub decimal_eq : Decimal → Decimal → Bool
unfolding aligned
decimal_eq a b =
    let e = min a.exponent b.exponent in
    (pos_part (aligned a e) == pos_part (aligned b e))
    && (neg_part (aligned a e) == neg_part (aligned b e))

-- `gt=Decimal("0")`
unfoldable pub decimal_positive : Decimal → Bool
decimal_positive d = ltb 0 (pos_part d.coefficient)
