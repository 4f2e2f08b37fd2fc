-- ===== src/Account/Ledger/Growth.antt =====
-- The ledger only grows: `apply_event` appends one record or leaves it alone.
use distr_sys_itrvw.Base.{
  ◌≡◌, refl, ◌⊎◌, inl, inr, Option, none, some, [], ◌∷◌, ◌++◌, arith, Bool-cases,
}
use distr_sys_itrvw.Shared.Text.{Text, text_eq}
use distr_sys_itrvw.Shared.Time.{DateTime}
use distr_sys_itrvw.Shared.Contracts.{Platform, EventPayload, TransactionRecord}
use distr_sys_itrvw.Account.Ledger.{
  Ledger, find, ledger_currency, agrees, apply_event, apply_found, apply_unseen,
}

module _ (p : Platform) where
  open p use {Metadata}

  abbrev Grown : DateTime → EventPayload Metadata → Ledger p → Ledger p → Type 0
  Grown now e l l' = (l' ≡ l) ⊎ (l' ≡ l ++ record { event = e; applied_at = now } ∷ [])

  apply_unseen-Grown :
      (currency : Option Text) (now : DateTime) (e : EventPayload Metadata) (l : Ledger p)
      → Grown now e l (apply_unseen p currency now e l).1
  apply_unseen-Grown none now e l = inr refl
  apply_unseen-Grown (some c) now e l = elim (Bool-cases (text_eq c e.currency)) [
    | inl same ↦ rw same (inr refl)
    | inr other ↦ rw other (inl refl)
  ]

  apply_found-Grown :
      (o : Option (TransactionRecord Metadata)) (now : DateTime) (e : EventPayload Metadata)
      (l : Ledger p)
      → Grown now e l (apply_found p o now e l).1
  apply_found-Grown none now e l = apply_unseen-Grown (ledger_currency p e.account_id l) now e l
  apply_found-Grown (some r) now e l = elim (Bool-cases (agrees p r.event e)) [
    | inl same ↦ rw same (inl refl)
    | inr other ↦ rw other (inl refl)
  ]

  pub apply_event-Grown :
      (now : DateTime) (e : EventPayload Metadata) (l : Ledger p)
      → Grown now e l (apply_event p now e l).1
  unfolding apply_event
  apply_event-Grown now e l = apply_found-Grown (find p e.event_id l) now e l

  find-append_before :
      (id : Text) (l m : Ledger p) {r : TransactionRecord Metadata}
      → find p id l ≡ some r
      → find p id (l ++ m) ≡ some r
  unfolding find
  find-append_before id [] m {r} h = ground arith
  find-append_before id (s ∷ l) m {r} h = ground (arith, find-append_before id l m {r = r})

  -- What is found under an identifier is found there ever after.
  pub find-apply_event :
      (id : Text) (now : DateTime) (e : EventPayload Metadata) (l : Ledger p)
      {r : TransactionRecord Metadata}
      → find p id l ≡ some r
      → find p id (apply_event p now e l).1 ≡ some r
  find-apply_event id now e l {r} h = elim (apply_event-Grown now e l) [
    | inl same ↦ rw same h
    | inr more ↦ rw more (find-append_before id l _ h)
  ]
