-- ===== src/Shared/Rows.antt =====
-- What the SQL of both repositories asks of SQLite: rows selected by a test, sorted by two columns, cut
-- to a limit, and in an order that the engine chooses where no `ORDER BY` says one.
pub mod Sorted
pub mod Selected
pub mod Decoded
use mathlib.Core.List.{Perm}
use distr_sys_itrvw.Base.{Bool, false, ◌||◌, Option, none, some, List, [], ◌∷◌, if◌then◌else◌}
use distr_sys_itrvw.Shared.Text.{Text, text_eq, text_le}

module _ {R : Type 0} where
  -- `WHERE`
  unfoldable pub select : (R → Bool) → List R → List R
  select test [] = []
  select test (r ∷ rows) = let rest = select test rows in if test r then r ∷ rest else rest

  -- `fetchone`
  unfoldable pub fetchone : List R → Option R
  fetchone [] = none
  fetchone (r ∷ rows) = some r

  unfoldable pub exists_row : (R → Bool) → List R → Bool
  exists_row test [] = false
  exists_row test (r ∷ rows) = test r || exists_row test rows

  -- `ORDER BY`, for an order given by a test "not above".
  unfoldable pub insert_sorted : (R → R → Bool) → R → List R → List R
  insert_sorted le r [] = r ∷ []
  insert_sorted le r (s ∷ rows) =
      let later = insert_sorted le r rows in if le r s then r ∷ s ∷ rows else s ∷ later

  unfoldable pub order_by : (R → R → Bool) → List R → List R
  unfolding insert_sorted
  order_by le [] = []
  order_by le (r ∷ rows) = insert_sorted le r (order_by le rows)

-- `event_timestamp ASC, event_id ASC`
abbrev pub key_le : Text × Text → Text × Text → Bool
key_le (at, id) (at', id') = if text_eq at at' then text_le id id' else text_le at at'

-- The order in which the engine visits a table: some arrangement of its rows.
pub record Engine (R : Type 0) : Type 0 where
  pub scan : List R → List R
  pub scan-perm : (rows : List R) → Perm (scan rows) rows
