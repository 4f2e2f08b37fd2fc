-- ===== src/Account/Order.antt =====
-- What a sequence of calls of `apply_transaction` comes to when callers keep to one payload for each
-- identifier and one currency for each account: the first delivery of each identifier, however often
-- it is repeated. `Balances` shows that the order does not matter either.
pub mod Members
pub mod Balances
use distr_sys_itrvw.Base.{
  ◌≡◌, refl, sym, ap, ◌∙◌, Bool, true, false, inl, inr, Option, none, some, List, [], ◌∷◌, ◌++◌,
  map, arith, Bool-cases, Option-cases, some_inj, if◌then◌else◌,
}
use distr_sys_itrvw.Shared.Text.{Text, text_eq, text_eq→eq, text_eq_refl}
use distr_sys_itrvw.Shared.Time.{DateTime}
use distr_sys_itrvw.Shared.Contracts.{
  Platform, IsPlatform, EventPayload, TransactionRecord, Result, ok,
}
use distr_sys_itrvw.Shared.Rows.{Engine}
use distr_sys_itrvw.Account.Repository.{Row, Table, apply_transaction}
use distr_sys_itrvw.Account.Ledger.{
  Ledger, LedgerOutcome, find, ledger_currency, agrees, apply_event, apply_unseen, append_event,
  IsLedger,
}
use distr_sys_itrvw.Account.Ledger.Encode.{encode_all}
use distr_sys_itrvw.Account.Ledger.Invariant.{apply_event-IsLedger, agrees_self}
use distr_sys_itrvw.Account.Ledger.Refinement.{apply_transaction-apply_event, encoded}
use distr_sys_itrvw.Account.Deliveries.{deliver_all, AllCalls}

module _ (p : Platform) where
  open p use {Metadata}

  abbrev pub Calls : Type 0
  Calls = List (DateTime × EventPayload Metadata)

  abbrev pub Answer : Type 0
  Answer = TransactionRecord Metadata × Bool

  abbrev pub called : Calls → List (EventPayload Metadata)
  called = map (λ c. c.1)

  abbrev pub payloads : Ledger p → List (EventPayload Metadata)
  payloads = map (λ r. r.event)

  -- Apply what is new under its identifier, and answer a repetition with what was applied.
  abbrev first_applied :
      Option (TransactionRecord Metadata)
      → DateTime
      → EventPayload Metadata
      → Ledger p
      → Answer × Ledger p
  first_applied none now e l =
      let r : TransactionRecord Metadata = record { event = e; applied_at = now } in
      ((r, true), l ++ r ∷ [])
  first_applied (some r) now e l = ((r, false), l)

  abbrev pub apply_first : DateTime → EventPayload Metadata → Ledger p → Answer × Ledger p
  apply_first now e l = first_applied (find p e.event_id l) now e l

  -- The ledger of the first delivery of each identifier, in the order of arrival.
  unfoldable pub first_deliveries : Calls → Ledger p → Ledger p
  first_deliveries [] l = l
  first_deliveries ((now, e) ∷ rest) l = first_deliveries rest (apply_first now e l).1

  -- What each call is answered.
  unfoldable pub first_answers : Calls → Ledger p → List Answer
  first_answers [] l = []
  first_answers ((now, e) ∷ rest) l =
      (apply_first now e l).0 ∷ first_answers rest (apply_first now e l).1

  -- What each call of `apply_transaction` returns or raises.
  unfoldable pub answer_all : Engine Row → Calls → Table → List (Result Answer)
  answer_all engine [] t = []
  answer_all engine ((now, e) ∷ rest) t =
      (apply_transaction p engine now e t).0
      ∷ answer_all engine rest (apply_transaction p engine now e t).1

module _ (p : Platform) (book : Text → EventPayload (p.Metadata)) (money : Text → Text) where
  open p use {Metadata}

  -- The payload is the one that stands in the book under its identifier, in the currency of its
  -- account.
  abbrev pub IsBooked : EventPayload Metadata → Type 0
  IsBooked e = (book e.event_id ≡ e) × (money e.account_id ≡ e.currency)

  abbrev pub AllBooked : List (EventPayload Metadata) → Type 0
  AllBooked [] = Unit {0}
  AllBooked (e ∷ es) = IsBooked e × AllBooked es

  AllBooked-append :
      (l : Ledger p) (r : TransactionRecord Metadata)
      → AllBooked (payloads p l)
      → IsBooked r.event
      → AllBooked (payloads p (l ++ r ∷ []))
  AllBooked-append [] r h hr = (hr, tt)
  AllBooked-append (s ∷ l) r h hr = (h.0, AllBooked-append l r h.1 hr)

  book-find :
      (id : Text) (l : Ledger p) {r : TransactionRecord Metadata}
      → AllBooked (payloads p l)
      → find p id l ≡ some r
      → book id ≡ r.event
  unfolding find
  book-find id [] h e = cc
  book-find id (s ∷ l) {r} h e = elim (Bool-cases (text_eq s.event_id id)) [
    | inl same ↦
        ap book (sym (text_eq→eq s.event_id id same))
        ∙ h.0.0
        ∙ ap (λ x. x.event) (some_inj (rw same at e))
    | inr other ↦ book-find id l h.1 (rw other at e)
  ]

  -- What is found under the identifier of a booked payload is that payload.
  pub found-booked :
      (e : EventPayload Metadata) (l : Ledger p) {r : TransactionRecord Metadata}
      → AllBooked (payloads p l)
      → IsBooked e
      → find p e.event_id l ≡ some r
      → r.event ≡ e
  found-booked e l h he found = sym (book-find e.event_id l h found) ∙ he.0

  money-ledger_currency :
      (account : Text) (l : Ledger p) {c : Text}
      → AllBooked (payloads p l)
      → ledger_currency p account l ≡ some c
      → money account ≡ c
  unfolding ledger_currency
  money-ledger_currency account [] h e = cc
  money-ledger_currency account (s ∷ l) h e = elim (Bool-cases (text_eq s.account_id account)) [
    | inl same ↦
        ap money (sym (text_eq→eq s.account_id account same)) ∙ h.0.1 ∙ some_inj (rw same at e)
    | inr other ↦ money-ledger_currency account l h.1 (rw other at e)
  ]

  pub apply_first-AllBooked :
      (now : DateTime) (e : EventPayload Metadata) (l : Ledger p)
      → AllBooked (payloads p l)
      → IsBooked e
      → AllBooked (payloads p (apply_first p now e l).1)
  apply_first-AllBooked now e l h he = elim (Option-cases (find p e.event_id l)) [
    | inl fresh ↦ rw fresh (AllBooked-append l (record { event = e; applied_at = now }) h he)
    | inr (r, found) ↦ rw found h
  ]

  -- An answer, as the specification of `apply_transaction` gives it.
  abbrev accepted : Answer p × Ledger p → LedgerOutcome p
  accepted (answer, l) = (ok answer, l)

  -- A booked payload is never refused.
  apply_unseen-accepted :
      (currency : Option Text) (now : DateTime) (e : EventPayload Metadata) (l : Ledger p)
      → AllBooked (payloads p l)
      → IsBooked e
      → ledger_currency p e.account_id l ≡ currency
      → apply_unseen p currency now e l ≡ append_event p now e l
  apply_unseen-accepted none now e l h he used = refl
  apply_unseen-accepted (some c) now e l h he used =
      let same : c ≡ e.currency = sym (money-ledger_currency e.account_id l h used) ∙ he.1 in
      rw same (rw (text_eq_refl e.currency) refl)

  module _ (laws : IsPlatform p) where
    apply_event-apply_first :
        (now : DateTime) (e : EventPayload Metadata) (l : Ledger p)
        → AllBooked (payloads p l)
        → IsBooked e
        → apply_event p now e l ≡ accepted (apply_first p now e l)
    unfolding apply_event
    apply_event-apply_first now e l h he = elim (Option-cases (find p e.event_id l)) [
      | inl fresh ↦
          rw fresh (apply_unseen-accepted (ledger_currency p e.account_id l) now e l h he refl)
      | inr (r, found) ↦
          let same : agrees p r.event e ≡ true =
            ap (λ x. agrees p x e) (found-booked e l h he found) ∙ agrees_self p laws e in
          rw found (rw same refl)
    ]

    -- What the calls leave is well formed, and agrees with the book.
    pub first_deliveries-Kept :
        (calls : Calls p) (l : Ledger p)
        → AllCalls p calls
        → AllBooked (called p calls)
        → IsLedger p l
        → AllBooked (payloads p l)
        → IsLedger p (first_deliveries p calls l)
          × AllBooked (payloads p (first_deliveries p calls l))
    unfolding first_deliveries
    first_deliveries-Kept [] l hc hb hl h = (hl, h)
    first_deliveries-Kept ((now, e) ∷ rest) l ((hn, he, three), hc) hb hl h =
        first_deliveries-Kept rest (apply_first p now e l).1 hc hb.1
          (rw (ap (λ o. o.1) (apply_event-apply_first now e l h hb.0)) at
            (apply_event-IsLedger p now e l hn he three hl))
          (apply_first-AllBooked now e l h hb.0)

    module _ (engine : Engine Row) where
      -- If all payloads agree with one book, which has one payload for each identifier and one
      -- currency for each account, are validated and have a currency of three characters, then
      -- whatever the order of the calls, however often each is repeated and at whatever readings of
      -- a clock in UTC, from the table of a well-formed ledger that agrees with the book: every call
      -- is accepted, the first delivery of an identifier is stored with the time of that call, every
      -- other one is answered by the record of the first and changes nothing.
      pub deliver_all-first_deliveries :
          (calls : Calls p) (l : Ledger p)
          → AllCalls p calls
          → AllBooked (called p calls)
          → IsLedger p l
          → AllBooked (payloads p l)
          → (deliver_all p engine calls (encode_all p l)
              ≡ encode_all p (first_deliveries p calls l))
            × (answer_all p engine calls (encode_all p l) ≡ map ok (first_answers p calls l))
      unfolding deliver_all answer_all first_deliveries first_answers
      deliver_all-first_deliveries [] l hc hb hl h = (refl, refl)
      deliver_all-first_deliveries ((now, e) ∷ rest) l ((hn, he, three), hc) hb hl h =
          let m = (apply_first p now e l).1 in
          let step : apply_event p now e l ≡ accepted (apply_first p now e l) =
            apply_event-apply_first now e l h hb.0 in
          let done : apply_transaction p engine now e (encode_all p l)
              ≡ (ok (apply_first p now e l).0, encode_all p m) =
            apply_transaction-apply_event p laws engine now e l hn he three hl
            ∙ ap (encoded p) step in
          let kept : IsLedger p m =
            rw (ap (λ o. o.1) step) at (apply_event-IsLedger p now e l hn he three hl) in
          let (t, a) =
            deliver_all-first_deliveries rest m hc hb.1 kept
              (apply_first-AllBooked now e l h hb.0) in
          (
            ap (λ o. deliver_all p engine rest o.1) done ∙ t,
            (λ i. (done i).0 ∷ answer_all p engine rest (done i).1)
                ∙ ap (λ later. ok (apply_first p now e l).0 ∷ later) a,
          )
