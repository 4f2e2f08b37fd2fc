-- ===== src/Gateway/Log/Refinement.antt =====
-- `insert_applied_event` of the repository does to the table what `insert_event` does to the log.
use mathlib.Core.List.{map-append}
use mathlib.Core.Path.{subst}
use distr_sys_itrvw.Base.{
  ◌≡◌, refl, sym, ap, ◌∙◌, true, inl, inr, some, [], ◌∷◌, ◌++◌, Bool-cases, Option-cases, some_inj,
}
use distr_sys_itrvw.Shared.Text.{Text, text_eq}
use distr_sys_itrvw.Shared.Time.{DateTime}
use distr_sys_itrvw.Shared.Contracts.{Platform, IsPlatform, EventPayload, EventRecord, ok}
use distr_sys_itrvw.Account.Deliveries.{IsCall}
use distr_sys_itrvw.Account.Ledger.{agrees}
use distr_sys_itrvw.Gateway.Repository.{Table, Outcome, insert_applied_event, after_lookup}
use distr_sys_itrvw.Gateway.Repository.Fresh.{inserted, fresh_row, insert_applied_event_fresh}
use distr_sys_itrvw.Gateway.Log.{
  Log, LogOutcome, find, insert_event, insert_found, IsStored, IsLog, encode, encode_all, IsTable,
  IsLog-append,
}
use distr_sys_itrvw.Gateway.Log.Encode.{get_event-encode, same_event-agrees}

module _ (p : Platform) where
  open p use {Metadata}

  find-IsStored :
      (id : Text) (l : Log p) {r : EventRecord Metadata}
      → IsLog p l
      → find p id l ≡ some r
      → IsStored p r
  unfolding find
  find-IsStored id [] h e = cc
  find-IsStored id (s ∷ l) {r} h e = elim (Bool-cases (text_eq s.event_id id)) [
    | inl same ↦ subst (IsStored p) (some_inj (rw same at e)) h.0
    | inr other ↦ find-IsStored id l h.2 (rw other at e)
  ]

  -- On every branch the log stays well formed.
  pub insert_event-IsLog :
      (now : DateTime) (e : EventPayload Metadata) (l : Log p)
      → IsCall p now e
      → IsLog p l
      → IsLog p (insert_event p now e l).1
  unfolding insert_event
  insert_event-IsLog now e l (hn, he, three) hl = elim (Option-cases (find p e.event_id l)) [
    | inl fresh ↦ rw fresh (
        IsLog-append p l (inserted p now e) hl
          (record { payload = he; three = three; created = hn; updated = hn }) fresh)
    | inr (r, found) ↦
        rw found (elim (Bool-cases (agrees p r.event e)) [
          | inl same ↦ rw same hl
          | inr other ↦ rw other hl
        ])
  ]

  abbrev encoded : LogOutcome p → Outcome p
  encoded (r, l) = (r, encode_all p l)

  encode-inserted :
      (now : DateTime) (e : EventPayload Metadata) → encode p (inserted p now e) ≡ fresh_row p now e
  unfolding encode
  encode-inserted now e = refl

  module _ (laws : IsPlatform p) where
    replayed :
        (now : DateTime) (e : EventPayload Metadata) (r : EventRecord Metadata) (l : Log p)
        → IsCall p now e
        → IsStored p r
        → after_lookup p (ok (some r)) now e (encode_all p l)
          ≡ encoded (insert_found p (some r) now e l)
    replayed now e r l call hr =
        rw (same_event-agrees p laws r.event e hr.payload call.1)
          (elim (Bool-cases (agrees p r.event e)) [
            | inl same ↦ rw same refl
            | inr other ↦ rw other refl
          ])

    -- On a platform that behaves as documented, from the table of a well-formed log,
    -- `insert_applied_event` of a validated payload whose currency has three characters, at a time in
    -- UTC, returns or raises what `insert_event` does, and leaves the table of the log that
    -- `insert_event` leaves: a new identifier appends the record of the payload, an exact replay
    -- returns the record that is there, and another event under the identifier is refused.
    pub insert_applied_event-insert_event :
        (now : DateTime) (e : EventPayload Metadata) (l : Log p)
        → IsCall p now e
        → IsLog p l
        → insert_applied_event p now e (encode_all p l) ≡ encoded (insert_event p now e l)
    insert_applied_event-insert_event now e l call hl =
        let there = get_event-encode p laws e.event_id l hl in
        elim (Option-cases (find p e.event_id l)) [
          | inl fresh ↦
              insert_applied_event_fresh p laws now e (encode_all p l) call (there ∙ ap ok fresh)
              ∙ (unfold insert_event in
                  rw fresh (
                    ap (λ t. (ok (inserted p now e, true), t))
                      (ap (λ row. encode_all p l ++ row ∷ []) (sym (encode-inserted now e))
                        ∙ sym (map-append (encode p) l (inserted p now e ∷ [])))))
          | inr (r, found) ↦
              unfold insert_applied_event insert_event in
              rw there (rw found (replayed now e r l call (find-IsStored e.event_id l hl found)))
        ]

    -- A table that holds a well-formed log still does after a call.
    pub insert_applied_event-IsTable :
        (now : DateTime) (e : EventPayload Metadata) (t : Table)
        → IsCall p now e
        → IsTable p t
        → IsTable p (insert_applied_event p now e t).1
    insert_applied_event-IsTable now e t call (l, hl, held) = (
      (insert_event p now e l).1,
      insert_event-IsLog now e l call hl,
      ap (λ u. (insert_applied_event p now e u).1) held
          ∙ ap (λ o. o.1) (insert_applied_event-insert_event now e l call hl),
    )
