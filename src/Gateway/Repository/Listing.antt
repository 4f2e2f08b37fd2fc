-- ===== src/Gateway/Repository/Listing.antt =====
-- The rows that `list_events_for_account` reads, and their order.
use mathlib.Core.List.{Permᴰ}
use distr_sys_itrvw.Base.{◌≡◌, refl}
use distr_sys_itrvw.Shared.Text.{Text}
use distr_sys_itrvw.Shared.Contracts.{Platform}
use distr_sys_itrvw.Shared.Rows.{select, order_by, Engine}
use distr_sys_itrvw.Shared.Rows.Sorted.{
  IsSorted, order_by-IsSorted, order_by-perm, key_le_total, key_le_trans,
}
use distr_sys_itrvw.Gateway.Repository.{
  Row, Table, of_account, row_le, read_rows, list_events_for_account,
}

module _ (p : Platform) (engine : Engine Row) where
  -- The list of an account's events is read from all the rows of the account, each of them once, sorted
  -- by the text of their time and then by identifier, whatever the order in which the engine visits them.
  pub list_events_for_account-IsSorted :
      (account : Text) (t : Table)
      → (rows : Table) × (list_events_for_account p engine account t ≡ read_rows p rows)
        × Permᴰ rows (select (of_account account) (engine.scan t))
        × IsSorted row_le rows
  unfolding list_events_for_account
  list_events_for_account-IsSorted account t =
      let found = select (of_account account) (engine.scan t) in
      (
        order_by row_le found,
        refl,
        order_by-perm row_le found,
        order_by-IsSorted row_le
            (λ r s. key_le_total (r.event_timestamp, r.event_id) (s.event_timestamp, s.event_id))
            (λ r s u.
              key_le_trans (r.event_timestamp, r.event_id) (s.event_timestamp, s.event_id)
                (u.event_timestamp, u.event_id))
            found,
      )
