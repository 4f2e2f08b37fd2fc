-- ===== src/Shared/Decimal/Sum.antt =====
-- Adding up a list of decimals from the left: exact below 28 digits, and then in any order.
use mathlib.Core.Path.{subst, subst₂}
use mathlib.Core.List.{Permᴰ}
use distr_sys_itrvw.Base.{ℕ, ◌+◌, ◌*◌, ◌^◌, ◌≤◌, ◌<◌, ◌≡◌, refl, sym, ap, ◌∙◌, List, [], ◌∷◌, arith}
use distr_sys_itrvw.Base.Int.{ℤ, pos, ◌+ℤ◌, int_laws}
use distr_sys_itrvw.Shared.Decimal.{Decimal, precision_limit, magnitude, decimal_add}
use distr_sys_itrvw.Shared.Decimal.Exact.{units, size, decimal_add_exact, magnitude-+ℤ}

unfoldable pub decimal_sum : Decimal → List Decimal → Decimal
decimal_sum acc [] = acc
decimal_sum acc (d ∷ ds) = decimal_sum (decimal_add acc d) ds

abbrev pub total : List Decimal → ℤ
total [] = pos 0
total (d ∷ ds) = units d +ℤ total ds

abbrev pub volume : List Decimal → ℕ
volume [] = 0
volume (d ∷ ds) = size d + volume ds

-- No digits below the exponent `m`.
abbrev pub AllAbove : ℕ → List Decimal → Type 0
AllAbove m [] = Unit {0}
AllAbove m (d ∷ ds) = (m ≤ d.exponent) × AllAbove m ds

pub units-decimal_sum :
    (m : ℕ) (acc : Decimal) (ds : List Decimal)
    → m ≤ acc.exponent
    → AllAbove m ds
    → size acc + volume ds < precision_limit * 10 ^ m
    → units (decimal_sum acc ds) ≡ units acc +ℤ total ds
unfolding decimal_sum
units-decimal_sum m acc [] ha h fits = omega int_laws
units-decimal_sum m acc (d ∷ ds) ha h fits =
    let (exact, above) = decimal_add_exact acc d m ha h.0 (omega arith) in
    let smaller : size (decimal_add acc d) ≤ size acc + size d =
      subst (λ u. magnitude u ≤ size acc + size d) (sym exact)
        (magnitude-+ℤ (units acc) (units d)) in
    units-decimal_sum m (decimal_add acc d) ds above h.1 (omega arith)
    ∙ ap (λ u. u +ℤ total ds) exact
    ∙ omega int_laws

-- What does not depend on the order.
pub total-perm :
    {ds es : List Decimal} → Permᴰ ds es → (total ds ≡ total es) × (volume ds ≡ volume es)
total-perm Permᴰ.nil = (refl, refl)
total-perm (Permᴰ.cons {l₁ = ds} {l₂ = es} e d) =
    let (t, v) = total-perm d in ((λ i. units (e i) +ℤ t i), (λ i. size (e i) + v i))
total-perm (Permᴰ.swap {a = a} {b = b} {l = l} e f) =
    subst₂
      (λ x y. (total (a ∷ b ∷ l) ≡ total (y ∷ x ∷ l)) × (volume (a ∷ b ∷ l) ≡ volume (y ∷ x ∷ l))) e
      f (omega int_laws, omega arith)
total-perm (Permᴰ.trans d d') =
    let (t, v) = total-perm d in let (t', v') = total-perm d' in (t ∙ t', v ∙ v')

pub AllAbove-perm : (m : ℕ) {ds es : List Decimal} → Permᴰ ds es → AllAbove m ds → AllAbove m es
AllAbove-perm m Permᴰ.nil h = tt
AllAbove-perm m (Permᴰ.cons e d) h = (subst (λ x. m ≤ x.exponent) e h.0, AllAbove-perm m d h.1)
AllAbove-perm m (Permᴰ.swap e f) h =
    (subst (λ x. m ≤ x.exponent) f h.1.0, (subst (λ x. m ≤ x.exponent) e h.0, h.1.1))
AllAbove-perm m (Permᴰ.trans d d') h = AllAbove-perm m d' (AllAbove-perm m d h)
