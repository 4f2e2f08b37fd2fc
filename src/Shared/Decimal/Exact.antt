-- ===== src/Shared/Decimal/Exact.antt =====
-- When decimal arithmetic is exact: below 28 digits. `units` is the exact value.
use Prim.Native.Nat.{min}
use Prim.Native.Nat.add
use distr_sys_itrvw.Base.{
  ℕ, zero, suc, ◌+◌, ◌-◌, ◌*◌, ◌^◌, ◌≤◌, ◌<◌, ◌≡◌, refl, sym, ap, ◌∙◌, arith,
}
use mathlib.Core.Path.{ap₂}
use native.Mathlib.Decide.{dec_lt}
use native.Mathlib.Nat.{pow-suc}
use distr_sys_itrvw.Base.Int.{
  ℤ, pos, negsuc, ◌+ℤ◌, sub_ℕ, pos_part, neg_part, +ℤ_parts, eq_of_parts, int_laws,
}
use distr_sys_itrvw.Shared.Decimal.{
  Decimal, scale, precision_limit, magnitude, fix, aligned, decimal_add, decimal_neg,
}

-- The exact value, in the smallest units.
unfoldable pub units : Decimal → ℤ
units d = scale d.coefficient (10 ^ d.exponent)

pub pos-scale : (a : ℤ) (k : ℕ) → pos_part (scale a k) ≡ pos_part a * k
unfolding scale
pos-scale (pos n) k = refl
pos-scale (negsuc n) k = ground arith

pub neg-scale : (a : ℤ) (k : ℕ) → neg_part (scale a k) ≡ neg_part a * k
unfolding scale
neg-scale (pos n) k = omega arith
neg-scale (negsuc n) k = ground arith

pub ruleset scale_laws = (int_laws, pos-scale, neg-scale)

pow_pos : (n : ℕ) → 1 ≤ 10 ^ n
pow_pos zero = omega arith
pow_pos (suc n) = rw pow-suc (omega (arith, pow_pos n))

pow-add : (k m : ℕ) → 10 ^ k * 10 ^ m ≡ 10 ^ (k + m)
pow-add zero m = rw add.zero (omega arith)
pow-add (suc k) m = rw (add.suc, pow-suc, pow-suc) (omega (arith, pow-add k m))

-- 10 ^ e splits at any lower exponent.
pow_split : (e m : ℕ) → m ≤ e → 10 ^ (e - m) * 10 ^ m ≡ 10 ^ e
pow_split e m h = pow-add (e - m) m ∙ ap (λ n. 10 ^ n) (omega arith)

pow_mono : (m e : ℕ) → m ≤ e → 10 ^ m ≤ 10 ^ e
pow_mono m e h = grind (arith, pow_pos (e - m), pow_split e m h)

pub scale-scale : (a : ℤ) (k l : ℕ) → scale (scale a k) l ≡ scale a (k * l)
scale-scale a k l = eq_of_parts _ _ (
    omega (
      arith,
      pos-scale (scale a k) l,
      neg-scale (scale a k) l,
      ap (λ (t : ℕ). t * l) (pos-scale a k),
      ap (λ (t : ℕ). t * l) (neg-scale a k),
      pos-scale a (k * l),
      neg-scale a (k * l),
    ))

pub scale-+ℤ : (a b : ℤ) (k : ℕ) → scale (a +ℤ b) k ≡ scale a k +ℤ scale b k
scale-+ℤ a b k = eq_of_parts _ _ (
    omega (
      arith,
      pos-scale (a +ℤ b) k,
      neg-scale (a +ℤ b) k,
      pos-scale a k,
      neg-scale a k,
      pos-scale b k,
      neg-scale b k,
      +ℤ_parts (scale a k) (scale b k),
      ap (λ (t : ℕ). t * k) (+ℤ_parts a b),
    ))

units-aligned : (d : Decimal) (e : ℕ) → e ≤ d.exponent → scale (aligned d e) (10 ^ e) ≡ units d
unfolding units
units-aligned d e h =
    unfold aligned in
    scale-scale d.coefficient (10 ^ (d.exponent - e)) (10 ^ e)
    ∙ ap (scale d.coefficient) (pow_split d.exponent e h)

pub fix_self : (d : Decimal) → magnitude d.coefficient < precision_limit → fix d ≡ d
unfolding fix
fix_self d h = ground arith

decimal_add-sum :
    (a b : Decimal)
    → magnitude (aligned a (min a.exponent b.exponent) +ℤ aligned b (min a.exponent b.exponent))
      < precision_limit
    → decimal_add a b ≡ record {
      coefficient = aligned a (min a.exponent b.exponent) +ℤ aligned b (min a.exponent b.exponent);
      exponent = min a.exponent b.exponent;
    }
decimal_add-sum a b h = unfold decimal_add in fix_self _ h

pub magnitude-+ℤ : (a b : ℤ) → magnitude (a +ℤ b) ≤ magnitude a + magnitude b
unfolding ◌+ℤ◌
magnitude-+ℤ a b = ground arith

mul_le : (a b k : ℕ) → a ≤ b → a * k ≤ b * k
mul_le a b k h = grind arith

lt_of_scaled : (x p q t : ℕ) → p ≤ q → t < precision_limit * p → x * q ≤ t → x < precision_limit
lt_of_scaled x p q t h lt le = elim (dec_lt x precision_limit) [
  | yes small ↦ small
  | no large ↦ absurd (omega (arith, mul_le precision_limit x q (omega arith)))
]

-- A sum of fewer than 28 digits is exact.
pub units-decimal_add :
    (a b : Decimal)
    → magnitude (aligned a (min a.exponent b.exponent) +ℤ aligned b (min a.exponent b.exponent))
      < precision_limit
    → units (decimal_add a b) ≡ units a +ℤ units b
units-decimal_add a b h =
    let e = min a.exponent b.exponent in
    ap units (decimal_add-sum a b h)
    ∙ unfold units in
      scale-+ℤ (aligned a e) (aligned b e) (10 ^ e)
      ∙ ap₂ ◌+ℤ◌ (units-aligned a e (omega arith)) (units-aligned b e (omega arith))

-- The size of a number in the smallest units.
abbrev pub size : Decimal → ℕ
size d = magnitude (units d)

size-aligned : (d : Decimal) (e : ℕ) → e ≤ d.exponent → magnitude (aligned d e) * 10 ^ e ≡ size d
size-aligned d e h = omega (
  arith,
  pos-scale (aligned d e) (10 ^ e),
  neg-scale (aligned d e) (10 ^ e),
  ap pos_part (units-aligned d e h),
  ap neg_part (units-aligned d e h),
)

sum_fits :
    (a b : Decimal) (m : ℕ)
    → m ≤ a.exponent
    → m ≤ b.exponent
    → size a + size b < precision_limit * 10 ^ m
    → magnitude (aligned a (min a.exponent b.exponent) +ℤ aligned b (min a.exponent b.exponent))
      < precision_limit
sum_fits a b m ha hb h =
    let e = min a.exponent b.exponent in
    let x = aligned a e in
    let y = aligned b e in
    lt_of_scaled (magnitude (x +ℤ y)) (10 ^ m) (10 ^ e) (size a + size b)
      (pow_mono m e (omega arith)) h
      (omega (
        arith,
        size-aligned a e (omega arith),
        size-aligned b e (omega arith),
        mul_le (magnitude (x +ℤ y)) (magnitude x + magnitude y) (10 ^ e) (magnitude-+ℤ x y),
      ))

-- Numbers with no digits below exponent `m`, which together have fewer than 28 digits above it, are
-- added exactly, and the sum has no digits below `m` either.
pub decimal_add_exact :
    (a b : Decimal) (m : ℕ)
    → m ≤ a.exponent
    → m ≤ b.exponent
    → size a + size b < precision_limit * 10 ^ m
    → (units (decimal_add a b) ≡ units a +ℤ units b) × (m ≤ (decimal_add a b).exponent)
decimal_add_exact a b m ha hb h =
    let fits = sum_fits a b m ha hb h in
    (units-decimal_add a b fits, rw (decimal_add-sum a b fits) (omega arith))

abbrev opposite_of : Decimal → Decimal
opposite_of d = record {
  coefficient = sub_ℕ (neg_part d.coefficient) (pos_part d.coefficient);
  exponent = d.exponent;
}

negate_parts :
    (a : ℤ)
    → (pos_part (sub_ℕ (neg_part a) (pos_part a)) ≡ neg_part a)
      × (neg_part (sub_ℕ (neg_part a) (pos_part a)) ≡ pos_part a)
negate_parts (pos n) = ground arith
negate_parts (negsuc n) = ground arith

units_opposite :
    (d : Decimal)
    → (pos_part (units (opposite_of d)) ≡ neg_part (units d))
      × (neg_part (units (opposite_of d)) ≡ pos_part (units d))
unfolding units
units_opposite d =
    let c = d.coefficient in
    let k = 10 ^ d.exponent in
    let n = sub_ℕ (neg_part c) (pos_part c) in
    (
      pos-scale n k ∙ ap (λ (t : ℕ). t * k) (negate_parts c).0 ∙ sym (neg-scale c k),
      neg-scale n k ∙ ap (λ (t : ℕ). t * k) (negate_parts c).1 ∙ sym (pos-scale c k),
    )

coefficient_fits :
    (d : Decimal) (m : ℕ)
    → m ≤ d.exponent
    → size d < precision_limit * 10 ^ m
    → magnitude d.coefficient < precision_limit
unfolding units
coefficient_fits d m h fits =
    lt_of_scaled (magnitude d.coefficient) (10 ^ m) (10 ^ d.exponent) (size d)
      (pow_mono m d.exponent h) fits
      (omega (
        arith,
        pos-scale d.coefficient (10 ^ d.exponent),
        neg-scale d.coefficient (10 ^ d.exponent),
      ))

decimal_neg-opposite :
    (d : Decimal) → magnitude d.coefficient < precision_limit → decimal_neg d ≡ opposite_of d
decimal_neg-opposite d h = unfold decimal_neg in fix_self _ (ground arith)

-- So is the opposite of a number that fits.
pub decimal_neg_exact :
    (d : Decimal) (m : ℕ)
    → m ≤ d.exponent
    → size d < precision_limit * 10 ^ m
    → (units (decimal_neg d) +ℤ units d ≡ pos 0) × ((decimal_neg d).exponent ≡ d.exponent)
decimal_neg_exact d m h fits =
    let opposite = decimal_neg-opposite d (coefficient_fits d m h fits) in
    (
      eq_of_parts _ _ (
          omega (
            arith,
            +ℤ_parts (units (decimal_neg d)) (units d),
            ap pos_part (ap units opposite),
            ap neg_part (ap units opposite),
            units_opposite d,
          )),
      ap (λ r. r.exponent) opposite,
    )
