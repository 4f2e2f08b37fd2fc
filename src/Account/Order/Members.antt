-- ===== src/Account/Order/Members.antt =====
-- The payloads of the ledger that a sequence of calls leaves: those that stood there, and those called.
use mathlib.Core.Path.{subst}
use mathlib.Core.Bool.{false≢true}
use mathlib.Core.Logic.{∥∥₁_elim}
use mathlib.Core.List.{Memᴰ, Pairwise, Nodup}
use distr_sys_itrvw.Base.{
  ◌≡◌, sym, ap, ◌∙◌, false, ◌⊎◌, inl, inr, none, some, [], ◌∷◌, ◌++◌, arith, Bool-cases,
  Option-cases, some_inj,
}
use distr_sys_itrvw.Shared.Text.{Text, text_eq, text_eq_refl}
use distr_sys_itrvw.Shared.Time.{DateTime}
use distr_sys_itrvw.Shared.Contracts.{Platform, EventPayload, TransactionRecord}
use distr_sys_itrvw.Account.Ledger.{Ledger, find, IsLedger}
use distr_sys_itrvw.Account.Order.{
  Calls, called, payloads, apply_first, first_deliveries, AllBooked, IsBooked, found-booked,
  apply_first-AllBooked,
}

module _ (p : Platform) where
  open p use {Metadata}

  -- A ledger has no payload twice.
  fresh-mem :
      (id : Text) (l : Ledger p) {e : EventPayload Metadata}
      → find p id l ≡ none
      → Memᴰ e (payloads p l)
      → text_eq e.event_id id ≡ false
  unfolding find
  fresh-mem id [] {e = e} fresh m = elim m [ ]
  fresh-mem id (r ∷ l) fresh (Memᴰ.head same) = elim (Bool-cases (text_eq r.event_id id)) [
    | inl found ↦ absurd (ground arith)
    | inr other ↦ ap (λ x. text_eq x.event_id id) same ∙ other
  ]
  fresh-mem id (r ∷ l) fresh (Memᴰ.tail m) = elim (Bool-cases (text_eq r.event_id id)) [
    | inl found ↦ absurd (ground arith)
    | inr other ↦ fresh-mem id l (rw other at fresh) m
  ]

  pub payloads-Nodup : (l : Ledger p) → IsLedger p l → Nodup (payloads p l)
  payloads-Nodup [] h = Pairwise.nil
  payloads-Nodup (r ∷ l) h =
      Pairwise.cons
        (λ e m same.
          ∥∥₁_elim m (λ a b. elim a [ ])
            (λ d. false≢true (
              sym (fresh-mem r.event_id l h.1 d)
              ∙ ap (λ x. text_eq x.event_id r.event_id) (sym same)
              ∙ text_eq_refl r.event_id)))
        (payloads-Nodup l h.3)

  mem-find :
      (id : Text) (l : Ledger p) {r : TransactionRecord Metadata}
      → find p id l ≡ some r
      → Memᴰ r.event (payloads p l)
  unfolding find
  mem-find id [] found = cc
  mem-find id (s ∷ l) {r} found = elim (Bool-cases (text_eq s.event_id id)) [
    | inl same ↦
        let e : some s ≡ some r = rw same at found in
        Memᴰ.head (ap (λ x. x.event) (some_inj (sym e)))
    | inr other ↦ Memᴰ.tail (mem-find id l (rw other at found))
  ]

  -- The payloads of the ledger that the calls leave: those of the ledger before, and those called.
  mem-append_record :
      {a : EventPayload Metadata} (l : Ledger p) (r : TransactionRecord Metadata)
      → Memᴰ a (payloads p (l ++ r ∷ []))
      → Memᴰ a (payloads p l) ⊎ (a ≡ r.event)
  mem-append_record [] r (Memᴰ.head e) = inr e
  mem-append_record [] r (Memᴰ.tail m) = elim m [ ]
  mem-append_record (s ∷ l) r (Memᴰ.head e) = inl (Memᴰ.head e)
  mem-append_record (s ∷ l) r (Memᴰ.tail m) = elim (mem-append_record l r m) [
    | inl old ↦ inl (Memᴰ.tail old)
    | inr new ↦ inr new
  ]

  append_record-mem :
      {a : EventPayload Metadata} (l : Ledger p) (r : TransactionRecord Metadata)
      → Memᴰ a (payloads p l) ⊎ (a ≡ r.event)
      → Memᴰ a (payloads p (l ++ r ∷ []))
  append_record-mem [] r (inl m) = elim m [ ]
  append_record-mem [] r (inr e) = Memᴰ.head e
  append_record-mem (s ∷ l) r (inl (Memᴰ.head e)) = Memᴰ.head e
  append_record-mem (s ∷ l) r (inl (Memᴰ.tail m)) = Memᴰ.tail (append_record-mem l r (inl m))
  append_record-mem (s ∷ l) r (inr e) = Memᴰ.tail (append_record-mem l r (inr e))

  pub first_deliveries-mem :
      {a : EventPayload Metadata} (calls : Calls p) (l : Ledger p)
      → Memᴰ a (payloads p (first_deliveries p calls l))
      → Memᴰ a (payloads p l) ⊎ Memᴰ a (called p calls)
  unfolding first_deliveries
  first_deliveries-mem [] l m = inl m
  first_deliveries-mem ((now, e) ∷ rest) l m =
      elim (first_deliveries-mem rest (apply_first p now e l).1 m) [
        | inr later ↦ inr (Memᴰ.tail later)
        | inl before ↦ elim (Option-cases (find p e.event_id l)) [
          | inr (r, found) ↦ inl (rw found at before)
          | inl fresh ↦
              elim (mem-append_record l (record { event = e; applied_at = now })
                (rw fresh at before)) [ inl old ↦ inl old | inr new ↦ inr (Memᴰ.head new) ]
        ]
      ]

module _ (p : Platform) (book : Text → EventPayload (p.Metadata)) (money : Text → Text) where
  open p use {Metadata}

  apply_first-mem :
      {a : EventPayload Metadata} (now : DateTime) (e : EventPayload Metadata) (l : Ledger p)
      → AllBooked p book money (payloads p l)
      → IsBooked p book money e
      → Memᴰ a (payloads p l) ⊎ (a ≡ e)
      → Memᴰ a (payloads p (apply_first p now e l).1)
  apply_first-mem {a} now e l h he m = elim (Option-cases (find p e.event_id l)) [
    | inl fresh ↦ rw fresh (append_record-mem p l (record { event = e; applied_at = now }) m)
    | inr (r, found) ↦ rw found (elim m [
      | inl old ↦ old
      | inr new ↦
          subst (λ x. Memᴰ x (payloads p l)) (found-booked p book money e l h he found ∙ sym new)
            (mem-find p e.event_id l found)
    ])
  ]

  pub mem-first_deliveries :
      {a : EventPayload Metadata} (calls : Calls p) (l : Ledger p)
      → AllBooked p book money (payloads p l)
      → AllBooked p book money (called p calls)
      → Memᴰ a (payloads p l) ⊎ Memᴰ a (called p calls)
      → Memᴰ a (payloads p (first_deliveries p calls l))
  unfolding first_deliveries
  mem-first_deliveries [] l h hc (inl m) = m
  mem-first_deliveries [] l h hc (inr m) = elim m [ ]
  mem-first_deliveries ((now, e) ∷ rest) l h hc (inl m) =
      mem-first_deliveries rest (apply_first p now e l).1
        (apply_first-AllBooked p book money now e l h hc.0) hc.1
        (inl (apply_first-mem now e l h hc.0 (inl m)))
  mem-first_deliveries ((now, e) ∷ rest) l h hc (inr (Memᴰ.head same)) =
      mem-first_deliveries rest (apply_first p now e l).1
        (apply_first-AllBooked p book money now e l h hc.0) hc.1
        (inl (apply_first-mem now e l h hc.0 (inr same)))
  mem-first_deliveries ((now, e) ∷ rest) l h hc (inr (Memᴰ.tail m)) =
      mem-first_deliveries rest (apply_first p now e l).1
        (apply_first-AllBooked p book money now e l h hc.0) hc.1 (inr m)
