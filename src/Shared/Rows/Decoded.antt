-- ===== src/Shared/Rows/Decoded.antt =====
-- A table whose rows were made of records: what a query that selects and sorts finds in it are those
-- records, whatever the order of the visit.
use mathlib.Core.Path.{subst, subst₂}
use mathlib.Core.List.{Permᴰ, filter_map}
use mathlib.Core.List.Permᴰ
use distr_sys_itrvw.Base.Lists.{take}
use distr_sys_itrvw.Base.{
  ℕ, zero, suc, ◌≡◌, refl, sym, ap, ◌∙◌, Bool, inl, inr, Option, none, some, List, [], ◌∷◌, map,
  Bool-cases,
}
use distr_sys_itrvw.Shared.Contracts.{Result, ok, err}
use distr_sys_itrvw.Shared.Rows.{select}
use distr_sys_itrvw.Shared.Rows.Selected.{select-perm}
use distr_sys_itrvw.Shared.Rows.Sorted.{IsSorted, IsBelow}

module _ {R S : Type 0} (encode : S → R) where
  pub select-map :
      (test : R → Bool) (l : List S)
      → select test (map encode l) ≡ map encode (select (λ s. test (encode s)) l)
  unfolding select
  select-map test [] = refl
  select-map test (s ∷ l) = elim (Bool-cases (test (encode s))) [
    | inl passes ↦ rw passes (ap (λ t. encode s ∷ t) (select-map test l))
    | inr fails ↦ rw fails (select-map test l)
  ]

  pub take-map : (n : ℕ) (l : List S) → take n (map encode l) ≡ map encode (take n l)
  take-map zero l = refl
  take-map (suc n) [] = refl
  take-map (suc n) (s ∷ l) = ap (λ t. encode s ∷ t) (take-map n l)

  module _ (le : R → R → Bool) where
    IsBelow-map :
        (s : S) (l : List S)
        → IsBelow le (encode s) (map encode l)
        → IsBelow (λ a b. le (encode a) (encode b)) s l
    IsBelow-map s [] h = tt
    IsBelow-map s (r ∷ l) h = (h.0, IsBelow-map s l h.1)

    pub IsSorted-map :
        (l : List S) → IsSorted le (map encode l) → IsSorted (λ a b. le (encode a) (encode b)) l
    IsSorted-map [] h = tt
    IsSorted-map (s ∷ l) h = (IsBelow-map s l h.0, IsSorted-map l h.1)

  module _ (IsGood : S → Type 0) (read : R → Result S)
      (back : (s : S) → IsGood s → read (encode s) ≡ ok s) where
    abbrev pub AllGood : List S → Type 0
    AllGood [] = Unit {0}
    AllGood (s ∷ l) = IsGood s × AllGood l

    -- What the rows are read as.
    abbrev readable : Result S → Option S
    readable (ok s) = some s
    readable (err x) = none

    unfoldable pub decoded : List R → List S
    decoded t = filter_map (λ row. readable (read row)) t

    decoded-encode : (s : S) (t : List R) → IsGood s → decoded (encode s ∷ t) ≡ s ∷ decoded t
    unfolding decoded filter_map
    decoded-encode s t h = rw (back s h) refl

    decoded-map : (l : List S) → AllGood l → decoded (map encode l) ≡ l
    decoded-map [] h = unfold decoded filter_map in refl
    decoded-map (s ∷ l) h =
        decoded-encode s (map encode l) h.0 ∙ ap (λ k. s ∷ k) (decoded-map l h.1)

    -- Rows that good records were made of.
    abbrev AllStored : List R → Type 0
    AllStored [] = Unit {0}
    AllStored (row ∷ t) = ((s : S) × IsGood s × (row ≡ encode s)) × AllStored t

    AllStored-map : (l : List S) → AllGood l → AllStored (map encode l)
    AllStored-map [] h = tt
    AllStored-map (s ∷ l) h = ((s, h.0, refl), AllStored-map l h.1)

    AllStored-perm : {t u : List R} → Permᴰ t u → AllStored t → AllStored u
    AllStored-perm Permᴰ.nil h = tt
    AllStored-perm (Permᴰ.cons e d) h =
        (subst (λ row. (s : S) × IsGood s × (row ≡ encode s)) e h.0, AllStored-perm d h.1)
    AllStored-perm (Permᴰ.swap {l = l} e f) h =
        subst₂ (λ x y. AllStored (y ∷ x ∷ l)) e f (h.1.0, (h.0, h.1.1))
    AllStored-perm (Permᴰ.trans d d') h = AllStored-perm d' (AllStored-perm d h)

    stored_rows : (t : List R) → AllStored t → (t ≡ map encode (decoded t)) × AllGood (decoded t)
    stored_rows [] h = unfold decoded filter_map in (refl, tt)
    stored_rows (row ∷ t) ((s, good, made), h) =
        let (same, rest) = stored_rows t h in
        subst (λ x. (x ∷ t ≡ map encode (decoded (x ∷ t))) × AllGood (decoded (x ∷ t))) (sym made)
          (subst (λ k. (encode s ∷ t ≡ map encode k) × AllGood k) (sym (decoded-encode s t good))
            (ap (λ u. encode s ∷ u) same, (good, rest)))

    pub AllGood-select : (test : S → Bool) (l : List S) → AllGood l → AllGood (select test l)
    unfolding select
    AllGood-select test [] h = tt
    AllGood-select test (s ∷ l) h = elim (Bool-cases (test s)) [
      | inl passes ↦ rw passes (h.0, AllGood-select test l h.1)
      | inr fails ↦ rw fails (AllGood-select test l h.1)
    ]

    pub AllGood-take : (n : ℕ) (l : List S) → AllGood l → AllGood (take n l)
    AllGood-take zero l h = tt
    AllGood-take (suc n) [] h = tt
    AllGood-take (suc n) (s ∷ l) h = (h.0, AllGood-take n l h.1)

    -- The rows of a query, on the table of good records.
    abbrev pub IsFound : (R → Bool) → List S → List R → Type 0
    IsFound test l rows =
        (rows ≡ map encode (decoded rows))
        × AllGood (decoded rows)
        × Permᴰ (decoded rows) (select (λ s. test (encode s)) l)

    pub query-IsFound :
        (test : R → Bool) (visit rows : List R) (l : List S)
        → AllGood l
        → Permᴰ rows (select test visit)
        → Permᴰ visit (map encode l)
        → IsFound test l rows
    query-IsFound test visit rows l good found order =
        let owned = select (λ s. test (encode s)) l in
        let good_owned = AllGood-select (λ s. test (encode s)) l good in
        let selected : Permᴰ rows (map encode owned) =
          Permᴰ.trans found
            (subst (Permᴰ (select test visit)) (select-map test l) (select-perm test order)) in
        let (same, rest) =
          stored_rows rows
            (AllStored-perm (Permᴰ.symm selected) (AllStored-map owned good_owned)) in
        (
          same,
          rest,
          subst (Permᴰ (decoded rows)) (decoded-map owned good_owned)
              (unfold decoded in Permᴰ.filter_map (λ row. readable (read row)) selected),
        )
