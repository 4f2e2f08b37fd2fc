-- ===== src/Account/Ledger/Invariant.antt =====
-- `apply_event` keeps a ledger well formed on every branch, and a replay changes nothing.
use mathlib.Core.Path.{subst}
use mathlib.Core.Bool.{false≢true}
use distr_sys_itrvw.Base.{
  ◌≡◌, refl, sym, ◌∙◌, Bool, true, false, inl, inr, Option, none, some, [], ◌∷◌, ◌++◌, arith,
  Bool-cases, Option-cases,
}
use distr_sys_itrvw.Base.Lists.{length}
use distr_sys_itrvw.Shared.Text.{Text, text_eq, text_eq_refl, text_eq→eq, text_eq_comm}
use distr_sys_itrvw.Shared.Time.{DateTime}
use distr_sys_itrvw.Shared.Time.Utc.{IsUtc}
use distr_sys_itrvw.Shared.Decimal.{Decimal, decimal_eq}
use distr_sys_itrvw.Shared.Contracts.{
  Platform, IsPlatform, EventPayload, TransactionRecord, Result, ok,
}
use distr_sys_itrvw.Shared.Contracts.Valid.{IsPayload}
use distr_sys_itrvw.Account.Ledger.{
  Ledger, find, ledger_currency, agrees, apply_event, apply_found, apply_unseen, IsRecord, AllIn,
  IsFresh, IsLedger, append_event,
}
use distr_sys_itrvw.Account.Ledger.Encode.{find-append}

decimal_eq_self : (d : Decimal) → decimal_eq d d ≡ true
unfolding decimal_eq
decimal_eq_self d = ground arith

module _ (p : Platform) where
  open p use {Metadata}

  AllIn-none :
      (account currency : Text) (l : Ledger p)
      → ledger_currency p account l ≡ none
      → AllIn p account currency l
  unfolding ledger_currency
  AllIn-none account currency [] e = tt
  AllIn-none account currency (r ∷ l) e = elim (Bool-cases (text_eq r.account_id account)) [
    | inl same ↦ absurd (ground arith)
    | inr other ↦ (
      (λ same. absurd (false≢true (sym other ∙ same))),
      AllIn-none account currency l (rw other at e),
    )
  ]

  AllIn-some :
      (account currency : Text) (l : Ledger p)
      → IsLedger p l
      → ledger_currency p account l ≡ some currency
      → AllIn p account currency l
  unfolding ledger_currency
  AllIn-some account currency [] h e = tt
  AllIn-some account currency (r ∷ l) h e = elim (Bool-cases (text_eq r.account_id account)) [
    | inl same ↦
        let eq : r.currency ≡ currency = ground arith in
        (
          (λ _. eq),
          subst (λ c. AllIn p account c l) eq
              (subst (λ a. AllIn p a r.currency l) (text_eq→eq r.account_id account same) h.2),
        )
    | inr other ↦ (
      (λ same. absurd (false≢true (sym other ∙ same))),
      AllIn-some account currency l h.3 (rw other at e),
    )
  ]

  AllIn-append :
      (account currency : Text) (l : Ledger p) (r : TransactionRecord Metadata)
      → AllIn p account currency l
      → (text_eq r.account_id account ≡ true → r.currency ≡ currency)
      → AllIn p account currency (l ++ r ∷ [])
  AllIn-append account currency [] r h e = (e, tt)
  AllIn-append account currency (s ∷ l) r h e = (h.0, AllIn-append account currency l r h.1 e)

  IsFresh-append :
      (id : Text) (l : Ledger p) (r : TransactionRecord Metadata)
      → IsFresh p id l
      → text_eq r.event_id id ≡ false
      → IsFresh p id (l ++ r ∷ [])
  unfolding find
  IsFresh-append id [] r h e = rw e refl
  IsFresh-append id (s ∷ l) r h e = ground (arith, IsFresh-append id l r)

  -- A record that is new, and in the currency of its account, may be appended.
  pub IsLedger-append :
      (l : Ledger p) (r : TransactionRecord Metadata)
      → IsLedger p l
      → IsRecord p r
      → IsFresh p r.event_id l
      → AllIn p r.account_id r.currency l
      → IsLedger p (l ++ r ∷ [])
  unfolding find
  IsLedger-append [] r h hr fresh same = (hr, refl, tt, tt)
  IsLedger-append (s ∷ l) r h hr fresh same =
      let distinct : text_eq s.event_id r.event_id ≡ false = ground arith in
      let later : IsFresh p r.event_id l = ground arith in
      (
        h.0,
        IsFresh-append s.event_id l r h.1 (text_eq_comm r.event_id s.event_id ∙ distinct),
        AllIn-append s.account_id s.currency l r h.2
            (λ e. sym (same.0 (text_eq_comm s.account_id r.account_id ∙ e))),
        IsLedger-append l r h.3 hr later same.1,
      )

  apply_unseen-IsLedger :
      (currency : Option Text) (now : DateTime) (e : EventPayload Metadata) (l : Ledger p)
      → IsUtc now
      → IsPayload p e
      → length e.currency ≡ 3
      → IsLedger p l
      → find p e.event_id l ≡ none
      → ledger_currency p e.account_id l ≡ currency
      → IsLedger p (apply_unseen p currency now e l).1
  apply_unseen-IsLedger none now e l hn he three hl fresh unused =
      IsLedger-append l (record { event = e; applied_at = now }) hl
        (record { payload = he; three = three; applied = hn }) fresh
        (AllIn-none e.account_id e.currency l unused)
  apply_unseen-IsLedger (some c) now e l hn he three hl fresh used =
      elim (Bool-cases (text_eq c e.currency)) [
        | inl same ↦ rw same (
            IsLedger-append l (record { event = e; applied_at = now }) hl
              (record { payload = he; three = three; applied = hn }) fresh
              (subst (λ k. AllIn p e.account_id k l) (text_eq→eq c e.currency same)
                (AllIn-some e.account_id c l hl used)))
        | inr other ↦ rw other hl
      ]

  -- On every branch the ledger stays well formed.
  pub apply_event-IsLedger :
      (now : DateTime) (e : EventPayload Metadata) (l : Ledger p)
      → IsUtc now
      → IsPayload p e
      → length e.currency ≡ 3
      → IsLedger p l
      → IsLedger p (apply_event p now e l).1
  unfolding apply_event
  apply_event-IsLedger now e l hn he three hl = elim (Option-cases (find p e.event_id l)) [
    | inl fresh ↦
        rw fresh (
          apply_unseen-IsLedger (ledger_currency p e.account_id l) now e l hn he three hl fresh
            refl)
    | inr (r, found) ↦
        rw found (elim (Bool-cases (agrees p r.event e)) [
          | inl same ↦ rw same hl
          | inr other ↦ rw other hl
        ])
  ]

ok_record :
    {A : Type 0} {r s : A} {b c : Bool}
    → ◌≡◌ {A = Result (A × Bool)} (ok (r, b)) (ok (s, c))
    → r ≡ s
ok_record e = cc

module _ (p : Platform) (laws : IsPlatform p) where
  open p use {Metadata}

  pub agrees_self : (e : EventPayload Metadata) → agrees p e e ≡ true
  unfolding agrees
  agrees_self e =
      rw (text_eq_refl, text_eq_refl, text_eq_refl, decimal_eq_self, text_eq_refl, text_eq_refl)
        (laws.metadata_eq-self e.metadata)

  -- Once the identifier stands for the event, applying it again returns the record and no change.
  pub apply_event-replay :
      (now : DateTime) (e : EventPayload Metadata) (l : Ledger p) {r : TransactionRecord Metadata}
      → find p e.event_id l ≡ some r
      → agrees p r.event e ≡ true
      → apply_event p now e l ≡ (ok (r, false), l)
  unfolding apply_event
  apply_event-replay now e l found same = rw found (rw same refl)

  -- The event is in the ledger, under its identifier.
  abbrev pub Stands : EventPayload Metadata → TransactionRecord Metadata → Ledger p → Type 0
  Stands e r l = (find p e.event_id l ≡ some r) × (agrees p r.event e ≡ true)

  append_event-Stands :
      (now : DateTime) (e : EventPayload Metadata) (l : Ledger p)
      → find p e.event_id l ≡ none
      → Stands e (record { event = e; applied_at = now }) (append_event p now e l).1
  append_event-Stands now e l fresh =
      (find-append p e.event_id l _ fresh (text_eq_refl e.event_id), agrees_self e)

  apply_unseen-Stands :
      (currency : Option Text) (now : DateTime) (e : EventPayload Metadata) (l : Ledger p)
      {r : TransactionRecord Metadata} {created : Bool}
      → find p e.event_id l ≡ none
      → (apply_unseen p currency now e l).0 ≡ ok (r, created)
      → Stands e r (apply_unseen p currency now e l).1
  apply_unseen-Stands none now e l fresh done =
      subst (λ r. Stands e r (append_event p now e l).1) (ok_record done)
        (append_event-Stands now e l fresh)
  apply_unseen-Stands (some c) now e l {r} fresh done = elim (Bool-cases (text_eq c e.currency)) [
    | inl same ↦ rw same (
        subst (λ r. Stands e r (append_event p now e l).1) (ok_record (rw same at done))
          (append_event-Stands now e l fresh))
    | inr other ↦ absurd (ground arith)
  ]

  apply_found-Stands :
      (o : Option (TransactionRecord Metadata)) (now : DateTime) (e : EventPayload Metadata)
      (l : Ledger p) {r : TransactionRecord Metadata} {created : Bool}
      → find p e.event_id l ≡ o
      → (apply_found p o now e l).0 ≡ ok (r, created)
      → Stands e r (apply_found p o now e l).1
  apply_found-Stands none now e l fresh done =
      apply_unseen-Stands (ledger_currency p e.account_id l) now e l fresh done
  apply_found-Stands (some s) now e l {r} found done = elim (Bool-cases (agrees p s.event e)) [
    | inl same ↦ rw same (subst (λ r. Stands e r l) (ok_record (rw same at done)) (found, same))
    | inr other ↦ absurd (ground arith)
  ]

  pub apply_event-Stands :
      (now : DateTime) (e : EventPayload Metadata) (l : Ledger p) {r : TransactionRecord Metadata}
      {created : Bool}
      → (apply_event p now e l).0 ≡ ok (r, created)
      → Stands e r (apply_event p now e l).1
  unfolding apply_event
  apply_event-Stands now e l done = apply_found-Stands (find p e.event_id l) now e l refl done

  -- After an event was accepted, new or replayed, a further delivery at any time returns the same
  -- record as a replay, and leaves the ledger alone.
  pub apply_event-twice :
      (now later : DateTime) (e : EventPayload Metadata) (l : Ledger p)
      {r : TransactionRecord Metadata} {created : Bool}
      → (apply_event p now e l).0 ≡ ok (r, created)
      → apply_event p later e (apply_event p now e l).1 ≡ (ok (r, false), (apply_event p now e l).1)
  apply_event-twice now later e l done =
      let (found, same) = apply_event-Stands now e l done in
      apply_event-replay later e (apply_event p now e l).1 found same
