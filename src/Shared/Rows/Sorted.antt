-- ===== src/Shared/Rows/Sorted.antt =====
-- `ORDER BY` sorts.
use mathlib.Core.List.{Permᴰ}
use mathlib.Core.List.Permᴰ
use distr_sys_itrvw.Base.{
  zero, suc, ap, ◌++◌, ℕ, ◌≡◌, refl, inl, inr, Bool, true, false, List, [], ◌∷◌, arith, Bool-cases,
}
use distr_sys_itrvw.Base.Lists.{take}
use distr_sys_itrvw.Shared.Text.{Text, text_eq, text_le, text_eq_iff, text_eq_comm, text_eq_refl}
use distr_sys_itrvw.Shared.Rows.{insert_sorted, order_by, key_le}

module _ {R : Type 0} (le : R → R → Bool) where
  abbrev pub IsBelow : R → List R → Type 0
  IsBelow r [] = Unit {0}
  IsBelow r (s ∷ rows) = (le r s ≡ true) × IsBelow r rows

  abbrev pub IsSorted : List R → Type 0
  IsSorted [] = Unit {0}
  IsSorted (r ∷ rows) = IsBelow r rows × IsSorted rows

  module _ (total : (r s : R) → (le r s ≡ false) → le s r ≡ true)
      (trans : (r s t : R) → le r s ≡ true → le s t ≡ true → le r t ≡ true) where
    IsBelow-trans : (r s : R) (rows : List R) → le r s ≡ true → IsBelow s rows → IsBelow r rows
    IsBelow-trans r s [] e h = tt
    IsBelow-trans r s (t ∷ rows) e h = (trans r s t e h.0, IsBelow-trans r s rows e h.1)

    insert_sorted-IsBelow :
        (r s : R) (rows : List R)
        → le r s ≡ true
        → IsBelow r rows
        → IsBelow r (insert_sorted le s rows)
    unfolding insert_sorted
    insert_sorted-IsBelow r s [] e h = (e, tt)
    insert_sorted-IsBelow r s (t ∷ rows) e h = elim (Bool-cases (le s t)) [
      | inl before ↦ rw before (e, h)
      | inr after ↦ rw after (h.0, insert_sorted-IsBelow r s rows e h.1)
    ]

    insert_sorted-IsSorted :
        (r : R) (rows : List R) → IsSorted rows → IsSorted (insert_sorted le r rows)
    unfolding insert_sorted
    insert_sorted-IsSorted r [] h = (tt, tt)
    insert_sorted-IsSorted r (s ∷ rows) h = elim (Bool-cases (le r s)) [
      | inl before ↦ rw before ((before, IsBelow-trans r s rows before h.0), h)
      | inr after ↦
          rw after (
            insert_sorted-IsBelow s r rows (total r s after) h.0,
            insert_sorted-IsSorted r rows h.1,
          )
    ]

    pub order_by-IsSorted : (rows : List R) → IsSorted (order_by le rows)
    unfolding order_by
    order_by-IsSorted [] = tt
    order_by-IsSorted (r ∷ rows) =
        insert_sorted-IsSorted r (order_by le rows) (order_by-IsSorted rows)

  -- The rows that a limit leaves out.
  abbrev pub drop : ℕ → List R → List R
  drop zero rows = rows
  drop (suc n) [] = []
  drop (suc n) (r ∷ rows) = drop n rows

  pub take-drop : (n : ℕ) (rows : List R) → take n rows ++ drop n rows ≡ rows
  take-drop zero rows = refl
  take-drop (suc n) [] = refl
  take-drop (suc n) (r ∷ rows) = ap (λ l. r ∷ l) (take-drop n rows)

  insert_sorted-perm : (r : R) (rows : List R) → Permᴰ (insert_sorted le r rows) (r ∷ rows)
  unfolding insert_sorted
  insert_sorted-perm r [] = Permᴰ.refl (r ∷ [])
  insert_sorted-perm r (s ∷ rows) = elim (Bool-cases (le r s)) [
    | inl before ↦ rw before (Permᴰ.refl (r ∷ s ∷ rows))
    | inr after ↦
        rw after (Permᴰ.trans (Permᴰ.cons refl (insert_sorted-perm r rows)) (Permᴰ.swap refl refl))
  ]

  pub order_by-perm : (rows : List R) → Permᴰ (order_by le rows) rows
  unfolding order_by
  order_by-perm [] = Permᴰ.nil
  order_by-perm (r ∷ rows) =
      Permᴰ.trans (insert_sorted-perm r (order_by le rows)) (Permᴰ.cons refl (order_by-perm rows))

text_le_total : (s t : Text) → text_le s t ≡ false → text_le t s ≡ true
unfolding text_le
text_le_total [] t h = ground arith
text_le_total (x ∷ s) [] h = refl
text_le_total (x ∷ s) (y ∷ t) h = ground (arith, text_le_total s t)

text_le_trans : (s t u : Text) → text_le s t ≡ true → text_le t u ≡ true → text_le s u ≡ true
unfolding text_le
text_le_trans [] t u h k = refl
text_le_trans (x ∷ s) [] u h k = ground arith
text_le_trans (x ∷ s) (y ∷ t) [] h k = ground arith
text_le_trans (x ∷ s) (y ∷ t) (z ∷ u) h k = ground (arith, text_le_trans s t u)

text_le_antisym : (s t : Text) → text_le s t ≡ true → text_le t s ≡ true → text_eq s t ≡ true
unfolding text_le text_eq
text_le_antisym [] [] h k = refl
text_le_antisym [] (y ∷ t) h k = ground arith
text_le_antisym (x ∷ s) [] h k = ground arith
text_le_antisym (x ∷ s) (y ∷ t) h k = ground (arith, text_le_antisym s t)

pub key_le_total : (a b : Text × Text) → key_le a b ≡ false → key_le b a ≡ true
key_le_total (at, id) (at', id') h =
    ground (arith, text_eq_comm at at', text_le_total at at', text_le_total id id')

pub key_le_trans : (a b c : Text × Text) → key_le a b ≡ true → key_le b c ≡ true → key_le a c ≡ true
key_le_trans (at, id) (at', id') (at'', id'') h k = ground (
  arith,
  text_eq_iff at at',
  text_eq_iff at' at'',
  text_eq_iff at at'',
  text_eq_comm at at',
  text_eq_comm at' at'',
  text_le_trans at at' at'',
  text_le_trans id id' id'',
  text_le_antisym at at',
  text_le_antisym at' at'',
  text_eq_refl at,
)
