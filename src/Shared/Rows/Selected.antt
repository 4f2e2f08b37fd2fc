-- ===== src/Shared/Rows/Selected.antt =====
-- The rows that a test selects, when the engine visits a table in another order.
use mathlib.Core.Path.{subst, subst₂}
use mathlib.Core.List.{Permᴰ}
use mathlib.Core.List.Permᴰ
use distr_sys_itrvw.Base.{refl, Bool, true, false, List, ◌∷◌, if◌then◌else◌}
use distr_sys_itrvw.Shared.Rows.{select}

module _ {R : Type 0} where
  select-cons :
      (b : Bool) (a : R) {t u : List R}
      → Permᴰ t u
      → Permᴰ (if b then a ∷ t else t) (if b then a ∷ u else u)
  select-cons true a d = Permᴰ.cons refl d
  select-cons false a d = d

  select-swap :
      (x y : Bool) (a b : R) (t : List R)
      → Permᴰ
          (if x then a ∷ (if y then b ∷ t else t) else (if y then b ∷ t else t))
          (if y then b ∷ (if x then a ∷ t else t) else (if x then a ∷ t else t))
  select-swap true true a b t = Permᴰ.swap refl refl
  select-swap true false a b t = Permᴰ.refl (a ∷ t)
  select-swap false true a b t = Permᴰ.refl (b ∷ t)
  select-swap false false a b t = Permᴰ.refl t

  pub select-perm :
      (test : R → Bool) {t u : List R} → Permᴰ t u → Permᴰ (select test t) (select test u)
  unfolding select
  select-perm test Permᴰ.nil = Permᴰ.nil
  select-perm test (Permᴰ.cons {a = a} {l₁ = t} {l₂ = u} e d) =
      subst (λ x. Permᴰ (select test (a ∷ t)) (select test (x ∷ u))) e
        (select-cons (test a) a (select-perm test d))
  select-perm test (Permᴰ.swap {a = a} {b = b} {l = l} e f) =
      subst₂ (λ x y. Permᴰ (select test (a ∷ b ∷ l)) (select test (y ∷ x ∷ l))) e f
        (select-swap (test a) (test b) a b (select test l))
  select-perm test (Permᴰ.trans d d') = Permᴰ.trans (select-perm test d) (select-perm test d')
