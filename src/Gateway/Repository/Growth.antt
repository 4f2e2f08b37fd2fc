-- ===== src/Gateway/Repository/Growth.antt =====
-- `insert_applied_event` appends the row of its event, or leaves the table as it is.
use distr_sys_itrvw.Base.{
  ◌≡◌, refl, Bool, true, false, ◌⊎◌, inl, inr, Option, none, some, [], ◌∷◌, ◌++◌, Bool-cases,
}
use distr_sys_itrvw.Shared.Time.{DateTime}
use distr_sys_itrvw.Shared.Rows.{exists_row}
use distr_sys_itrvw.Shared.Contracts.{Platform, EventPayload, EventRecord, Result, ok, err}
use distr_sys_itrvw.Gateway.Repository.{
  Row, Table, get_event, same_event, new_row, insert, insert_new, read_back, replay, after_lookup,
  insert_applied_event, has_id,
}

abbrev Grown : Result Row → Table → Table → Type 0
Grown q t u = (u ≡ t) ⊎ ((row : Row) × (q ≡ ok row) × (u ≡ t ++ row ∷ []))

module _ (p : Platform) (e : EventPayload p.Metadata) where
  open p use {Metadata}

  read_back_table :
      (q : Result (Option (EventRecord Metadata))) (t : Table) → (read_back p q t).1 ≡ t
  read_back_table (err x) t = refl
  read_back_table (ok none) t = refl
  read_back_table (ok (some r)) t = refl

  insert_new-Grown : (q : Result Row) (t : Table) → Grown q t (insert_new p q e t).1
  unfolding insert_new insert
  insert_new-Grown (err x) t = inl refl
  insert_new-Grown (ok row) t = elim (Bool-cases (exists_row (has_id row.event_id) t)) [
    | inl old ↦ rw old (inl refl)
    | inr new ↦ rw new (inr (row, refl, read_back_table (get_event p e.event_id (t ++ row ∷ [])) _))
  ]

  replay_table :
      (q : Result Bool) (existing : EventRecord Metadata) (t : Table)
      → (replay p q existing e t).1 ≡ t
  replay_table (err x) existing t = refl
  replay_table (ok false) existing t = refl
  replay_table (ok true) existing t = refl

  lookup-Grown :
      (q : Result (Option (EventRecord Metadata))) (now : DateTime) (t : Table)
      → Grown (new_row p now e) t (after_lookup p q now e t).1
  lookup-Grown (err x) now t = inl refl
  lookup-Grown (ok (some existing)) now t =
      inl (replay_table (same_event p existing.event e) existing t)
  lookup-Grown (ok none) now t = insert_new-Grown (new_row p now e) t

  pub insert_applied_event-Grown :
      (now : DateTime) (t : Table) → Grown (new_row p now e) t (insert_applied_event p now e t).1
  unfolding insert_applied_event
  insert_applied_event-Grown now t = lookup-Grown (get_event p e.event_id t) now t
