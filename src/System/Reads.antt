-- ===== src/System/Reads.antt =====
-- What the Gateway answers to a read is in the Account Service's table.
use mathlib.Core.Path.{subst}
use distr_sys_itrvw.Base.{
  ℕ, ◌≡◌, refl, sym, ap, ◌∙◌, true, inl, inr, Option, none, some, List, [], ◌∷◌, Bool-cases,
}
use distr_sys_itrvw.Shared.Text.{Text, text_eq→eq}
use distr_sys_itrvw.Shared.Time.{DateTime}
use distr_sys_itrvw.Shared.Rows.{Engine, select, fetchone}
use distr_sys_itrvw.Shared.Contracts.{
  Platform, IsPlatform, EventPayload, TransactionRecord, EventRecord, Result, ok, err, ◌>>=◌,
}
use distr_sys_itrvw.Shared.Contracts.Wire.{Encoding, rounded}
use distr_sys_itrvw.Account
use distr_sys_itrvw.Account.Repository.{get_transaction}
use distr_sys_itrvw.Account.Ledger.{Ledger, find, agrees}
use distr_sys_itrvw.Account.Ledger.Encode.{get_transaction-encode}
use distr_sys_itrvw.Account.Deliveries.{IsCall}
use distr_sys_itrvw.Gateway
use distr_sys_itrvw.Gateway.Repository.{get_event, read_row, event_from_row, has_id, new_row}
use distr_sys_itrvw.Gateway.Repository.Fresh.{
  inserted, fresh_row, new_row-fresh_row, event_from_row-fresh_row,
}
use distr_sys_itrvw.Gateway.Main.{State, answered}
use distr_sys_itrvw.Gateway.Main.Reads.{read_event, found}
use distr_sys_itrvw.System.{Json, World, Frame}
use distr_sys_itrvw.System.Runs.{view}
use distr_sys_itrvw.Account.Ledger.Refinement.{AllRecords-of}
use distr_sys_itrvw.System.Steps.{nothing_yet, Reach}
use distr_sys_itrvw.System.Invariant.{IsBacked, AllBacked, Reach-Holds}

some-injective : {A : Type 0} {a b : A} → some a ≡ some b → a ≡ b
some-injective e = cc

ok-injective : {A : Type 0} {a b : A} → ok a ≡ ok b → a ≡ b
ok-injective e = cc

read_some : {A : Type 0} {a : A} (q : Result A) → (do x ← q; ok (some x)) ≡ ok (some a) → q ≡ ok a
read_some (ok x) h = cc
read_some (err x) h = absurd cc

module _ (p : Platform) (laws : IsPlatform p) (w : Encoding) where
  open p use {Metadata}

  -- The first selected row is backed.
  first-IsBacked :
      (l : Ledger p) (id : Text) (t : Gateway.Repository.Table) (row : Gateway.Repository.Row)
      → AllBacked p laws w l t
      → fetchone (select (has_id id) t) ≡ some row
      → IsBacked p laws w l row × (has_id id row ≡ true)
  unfolding select fetchone
  first-IsBacked l id [] row h found = absurd cc
  first-IsBacked l id (r ∷ t) row h found = elim (Bool-cases (has_id id r)) [
    | inl same ↦
        let eq : r ≡ row = some-injective (rw same at found) in
        (subst (IsBacked p laws w l) eq h.0, subst (λ x. has_id id x ≡ true) eq same)
    | inr other ↦ first-IsBacked l id t row h.1 (rw other at found)
  ]

  -- A row that was made of a validated payload is read as its record.
  backed_record :
      (row : Gateway.Repository.Row) (now : DateTime) (e : EventPayload Metadata)
      → IsCall p now e
      → new_row p now e ≡ ok row
      → (row ≡ fresh_row p now e) × (event_from_row p row ≡ ok (inserted p now e))
  backed_record row now e call made =
      let eq : fresh_row p now e ≡ row =
        ok-injective (sym (new_row-fresh_row p now e call) ∙ made) in
      (
        sym eq,
        subst (λ x. event_from_row p x ≡ ok (inserted p now e)) eq
            (event_from_row-fresh_row p laws now e call),
      )

  abbrev pub IsHeld : Ledger p → Text → EventRecord Metadata → Type 0
  IsHeld l id r =
      (x : TransactionRecord Metadata) × (find p id l ≡ some x)
      × (agrees p x.event (rounded p w r.event) ≡ true)

  pub backed-IsHeld :
      (l : Ledger p) (id : Text) (row : Gateway.Repository.Row) (r : EventRecord Metadata)
      → IsBacked p laws w l row
      → has_id id row ≡ true
      → event_from_row p row ≡ ok r
      → IsHeld l id r
  backed-IsHeld l id row r (e, now, call, made, (x, (stands, same))) has read =
      let (eq, again) = backed_record row now e call made in
      let r≡ : inserted p now e ≡ r = ok-injective (sym again ∙ read) in
      let id≡ : e.event_id ≡ id =
        ap (λ (y : Gateway.Repository.Row). y.event_id) (sym eq) ∙ text_eq→eq row.event_id id has in
      (
        x,
        subst (λ i. find p i l ≡ some x) id≡ stands,
        subst (λ (y : EventRecord Metadata). agrees p x.event (rounded p w y.event) ≡ true) r≡ same,
      )

  read_row-IsHeld :
      (l : Ledger p) (id : Text) (t : Gateway.Repository.Table) (q : Option Gateway.Repository.Row)
      (r : EventRecord Metadata)
      → AllBacked p laws w l t
      → fetchone (select (has_id id) t) ≡ q
      → read_row p q ≡ ok (some r)
      → IsHeld l id r
  read_row-IsHeld l id t none r h eq read = absurd cc
  read_row-IsHeld l id t (some row) r h eq read =
      let (backed, has) = first-IsBacked l id t row h eq in
      backed-IsHeld l id row r backed has (read_some (event_from_row p row) read)

  found_answer :
      {J : Type 0} (q : Result (Option (EventRecord Metadata))) {status : ℕ}
      {r : EventRecord Metadata}
      → found p J World q ≡ answered status r
      → q ≡ ok (some r)
  found_answer (err x) h = absurd cc
  found_answer (ok none) h = absurd cc
  found_answer (ok (some x)) h = cc

  module _ (f : Frame p w) (engine : Engine Account.Repository.Row) where
    -- On a platform that behaves as documented, after any steps from two empty tables, each of them with
    -- a validated payload whose currency has three characters and at a time in UTC: an event that the
    -- Gateway answers to a read has a transaction under its identifier in the Account Service's table, which can be read there and
    -- agrees with the event in every field, with the amount that a float made of it.
    pub read_event-get_transaction :
        (s : State World) (acks : List (EventPayload Metadata)) (id : Text) {status : ℕ}
        {r : EventRecord Metadata}
        → Reach p w engine (nothing_yet p) (view p w f engine s acks)
        → read_event p (Json Metadata w.Float) World id s ≡ answered status r
        → (x : TransactionRecord Metadata) × (get_transaction p id s.world.account.repository
            ≡ ok (some x))
          × (agrees p x.event (rounded p w r.event) ≡ true)
    read_event-get_transaction s acks id {status} {r} reach read =
        let h = Reach-Holds p laws w engine reach in
        let there : get_event p id s.repository ≡ ok (some r) =
          found_answer {J = Json Metadata w.Float} (get_event p id s.repository) {status = status}
            (unfold read_event in read) in
        let (x, stands, same) =
          read_row-IsHeld h.ledger id s.repository (fetchone (select (has_id id) s.repository)) r
            h.events refl (unfold get_event in there) in
        (
          x,
          ap (get_transaction p id) h.transactions
              ∙ get_transaction-encode p laws id h.ledger (AllRecords-of p h.ledger h.well_formed)
              ∙ ap ok stands,
          same,
        )
