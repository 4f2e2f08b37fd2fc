-- ===== src/System/Invariant.antt =====
-- Every event in the Gateway's table is a transaction of the Account Service, whatever is lost, repeated
-- or interleaved.
use mathlib.Core.Path.{subst}
use distr_sys_itrvw.Base.{◌≡◌, refl, sym, ap, ◌∙◌, inl, inr, List, [], ◌∷◌, ◌++◌}
use distr_sys_itrvw.Shared.Time.{DateTime}
use distr_sys_itrvw.Shared.Contracts.{Platform, IsPlatform, EventPayload, TransactionRecord, ok}
use distr_sys_itrvw.Shared.Contracts.Wire.{Encoding, rounded}
use distr_sys_itrvw.Shared.Rows.{Engine}
use distr_sys_itrvw.Account
use distr_sys_itrvw.Account.Repository.{apply_transaction}
use distr_sys_itrvw.Account.Ledger.{Ledger, apply_event, IsLedger}
use distr_sys_itrvw.Account.Ledger.Encode.{encode_all}
use distr_sys_itrvw.Account.Ledger.Growth.{find-apply_event}
use distr_sys_itrvw.Account.Ledger.Invariant.{apply_event-IsLedger, apply_event-Stands, Stands}
use distr_sys_itrvw.Account.Ledger.Refinement.{apply_transaction-apply_event}
use distr_sys_itrvw.Account.Deliveries.{IsCall}
use distr_sys_itrvw.Gateway
use distr_sys_itrvw.Gateway.Repository.{new_row, insert_applied_event}
use distr_sys_itrvw.Gateway.Repository.Growth.{insert_applied_event-Grown}
use distr_sys_itrvw.System.Steps.{
  System, nothing_yet, IsIn, Step, apply, acknowledge, store, Reach, here, next,
}

module _ (p : Platform) (laws : IsPlatform p) (w : Encoding) where
  open p use {Metadata}

  -- The ledger has a transaction under the payload's identifier that agrees with it in every field.
  abbrev pub IsApplied : EventPayload Metadata → Ledger p → Type 0
  IsApplied e l = (r : TransactionRecord Metadata) × Stands p laws e r l

  -- The row is that of a validated payload, which has been applied with the amount that was sent.
  abbrev pub IsBacked : Ledger p → Gateway.Repository.Row → Type 0
  IsBacked l row =
      (e : EventPayload Metadata) × (now : DateTime) × IsCall p now e
      × (new_row p now e ≡ ok row)
      × IsApplied (rounded p w e) l

  abbrev pub AllApplied : Ledger p → List (EventPayload Metadata) → Type 0
  AllApplied l [] = Unit {0}
  AllApplied l (e ∷ es) = IsApplied e l × AllApplied l es

  abbrev pub AllBacked : Ledger p → Gateway.Repository.Table → Type 0
  AllBacked l [] = Unit {0}
  AllBacked l (row ∷ t) = IsBacked l row × AllBacked l t

  -- The transactions are those of a well-formed ledger, which has every acknowledged payload and every
  -- event of the Gateway.
  pub record Holds (s : System p) : Type 0 where
    pub ledger : Ledger p
    pub well_formed : IsLedger p ledger
    pub transactions : s.transactions ≡ encode_all p ledger
    pub acknowledged : AllApplied ledger s.acknowledged
    pub events : AllBacked ledger s.events

  module _ (now : DateTime) (e : EventPayload Metadata) (l : Ledger p) where
    IsApplied-grows :
        (x : EventPayload Metadata) → IsApplied x l → IsApplied x (apply_event p now e l).1
    IsApplied-grows x (r, (found, same)) = (r, (find-apply_event p x.event_id now e l found, same))

    AllApplied-grows :
        (xs : List (EventPayload Metadata))
        → AllApplied l xs
        → AllApplied (apply_event p now e l).1 xs
    AllApplied-grows [] h = tt
    AllApplied-grows (x ∷ xs) h = (IsApplied-grows x h.0, AllApplied-grows xs h.1)

    AllBacked-grows :
        (t : Gateway.Repository.Table) → AllBacked l t → AllBacked (apply_event p now e l).1 t
    AllBacked-grows [] h = tt
    AllBacked-grows (row ∷ t) h =
        let (x, at, call, made, applied) = h.0 in
        ((x, at, call, made, IsApplied-grows (rounded p w x) applied), AllBacked-grows t h.1)

  AllBacked-append :
      (l : Ledger p) (t : Gateway.Repository.Table) (row : Gateway.Repository.Row)
      → AllBacked l t
      → IsBacked l row
      → AllBacked l (t ++ row ∷ [])
  AllBacked-append l [] row h hr = (hr, tt)
  AllBacked-append l (s ∷ t) row h hr = (h.0, AllBacked-append l t row h.1 hr)

  AllApplied-IsIn :
      (l : Ledger p) (e : EventPayload Metadata) (xs : List (EventPayload Metadata))
      → AllApplied l xs
      → IsIn p e xs
      → IsApplied e l
  AllApplied-IsIn l e [] h m = absurd m
  AllApplied-IsIn l e (x ∷ xs) h (inl same) = subst (λ y. IsApplied y l) same h.0
  AllApplied-IsIn l e (x ∷ xs) h (inr m) = AllApplied-IsIn l e xs h.1 m

  module _ (engine : Engine Account.Repository.Row) where
    pub nothing_yet-Holds : Holds (nothing_yet p)
    nothing_yet-Holds = record {
      ledger = [];
      well_formed = tt;
      transactions = refl;
      acknowledged = tt;
      events = tt;
    }

    -- What `apply_transaction` does to a table that holds.
    applied_table :
        (now : DateTime) (e : EventPayload Metadata) (s : System p) (h : Holds s)
        → IsCall p now e
        → apply_transaction p engine now e s.transactions
          ≡ ((apply_event p now e h.ledger).0, encode_all p (apply_event p now e h.ledger).1)
    applied_table now e s h (hn, he, three) =
        ap (apply_transaction p engine now e) h.transactions
        ∙ apply_transaction-apply_event p laws engine now e h.ledger hn he three h.well_formed

    stored_events :
        (now : DateTime) (e : EventPayload Metadata) (s : System p) (h : Holds s)
        → IsCall p now e
        → IsIn p (rounded p w e) s.acknowledged
        → AllBacked h.ledger (insert_applied_event p now e s.events).1
    stored_events now e s h call m = elim (insert_applied_event-Grown p e now s.events) [
      | inl same ↦ rw same h.events
      | inr (row, made, more) ↦ rw more (
          AllBacked-append h.ledger s.events row h.events (
            e,
            now,
            call,
            made,
            AllApplied-IsIn h.ledger (rounded p w e) s.acknowledged h.acknowledged m,
          ))
    ]

    pub Step-Holds : {s t : System p} → Holds s → Step p w engine s t → Holds t
    Step-Holds {s} h (apply now e call eq) =
        let (hn, he, three) = call in
        subst Holds (sym eq) (record {
          ledger = (apply_event p now e h.ledger).1;
          well_formed = apply_event-IsLedger p now e h.ledger hn he three h.well_formed;
          transactions = ap (λ o. o.1) (applied_table now e s h call);
          acknowledged = AllApplied-grows now e h.ledger s.acknowledged h.acknowledged;
          events = AllBacked-grows now e h.ledger s.events h.events;
        })
    Step-Holds {s} h (acknowledge now e r created call done eq) =
        let (hn, he, three) = call in
        subst Holds (sym eq) (record {
          ledger = (apply_event p now e h.ledger).1;
          well_formed = apply_event-IsLedger p now e h.ledger hn he three h.well_formed;
          transactions = ap (λ o. o.1) (applied_table now e s h call);
          acknowledged = (
            (
              r,
              apply_event-Stands p laws now e h.ledger
                  (sym (ap (λ o. o.0) (applied_table now e s h call)) ∙ done),
            ),
            AllApplied-grows now e h.ledger s.acknowledged h.acknowledged,
          );
          events = AllBacked-grows now e h.ledger s.events h.events;
        })
    Step-Holds {s} h (store now e call m eq) = subst Holds (sym eq) (record {
      ledger = h.ledger;
      well_formed = h.well_formed;
      transactions = h.transactions;
      acknowledged = h.acknowledged;
      events = stored_events now e s h call m;
    })

    -- On a platform that behaves as documented, after any steps from two empty tables, each of them with
    -- a validated payload whose currency has three characters and at a time in UTC: the Account Service's
    -- table holds a well-formed ledger, which has a transaction that agrees with every payload that was
    -- answered with a record, and every row of the Gateway's table is the row of a validated payload under whose identifier
    -- the ledger has a transaction that agrees with it, with the amount that a float made of it.
    pub Reach-Holds : {s : System p} → Reach p w engine (nothing_yet p) s → Holds s
    Reach-Holds here = nothing_yet-Holds
    Reach-Holds (next r st) = Step-Holds (Reach-Holds r) st
