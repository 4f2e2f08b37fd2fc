-- ===== src/System/Listings.antt =====
-- What the Gateway answers to a list of an account's events is complete, in order, and in the Account
-- Service's table.
use mathlib.Core.Path.{subst}
use distr_sys_itrvw.Base.{◌≡◌, refl, sym, ap, ◌∙◌, true, some, List, [], ◌∷◌}
use distr_sys_itrvw.Shared.Text.{Text, text_eq_refl}
use distr_sys_itrvw.Shared.Rows.{Engine}
use distr_sys_itrvw.Shared.Contracts.{Platform, IsPlatform, EventPayload, TransactionRecord, ok}
use distr_sys_itrvw.Shared.Contracts.Wire.{Encoding, rounded}
use distr_sys_itrvw.Account
use distr_sys_itrvw.Account.Repository.{get_transaction}
use distr_sys_itrvw.Account.Ledger.{agrees}
use distr_sys_itrvw.Account.Ledger.Encode.{get_transaction-encode}
use distr_sys_itrvw.Account.Ledger.Refinement.{AllRecords-of}
use distr_sys_itrvw.Gateway
use distr_sys_itrvw.Gateway.Repository.{list_events_for_account}
use distr_sys_itrvw.Gateway.Log.{Log, IsLog, IsTable, encode_all, encode}
use distr_sys_itrvw.Gateway.Log.Encode.{event_from_row-encode}
use distr_sys_itrvw.Gateway.Log.Refinement.{insert_applied_event-IsTable}
use distr_sys_itrvw.Gateway.Log.Listing.{IsListing}
use distr_sys_itrvw.Gateway.Log.Listing.{list_events_for_account-IsListing}
use distr_sys_itrvw.Gateway.Main.{State, answered}
use distr_sys_itrvw.Gateway.Main.Reads.{list_events, listed}
use distr_sys_itrvw.System.{Json, World, Frame}
use distr_sys_itrvw.System.Runs.{view}
use distr_sys_itrvw.System.Reads.{backed-IsHeld}
use distr_sys_itrvw.System.Steps.{
  System, nothing_yet, Step, apply, acknowledge, store, Reach, here, next,
}
use distr_sys_itrvw.System.Invariant.{AllBacked, Holds, Reach-Holds}

module _ (p : Platform) (laws : IsPlatform p) (w : Encoding) where
  open p use {Metadata}

  -- Every event of the log has a transaction in the table that can be read and agrees with it in every
  -- field, with the amount that a float made of it.
  abbrev pub AllHeld : Account.Repository.Table → Log p → Type 0
  AllHeld t [] = Unit {0}
  AllHeld t (r ∷ l) =
      ((x : TransactionRecord Metadata) × (get_transaction p r.event_id t ≡ ok (some x))
        × (agrees p x.event (rounded p w r.event) ≡ true))
      × AllHeld t l

  module _ (engine : Engine Account.Repository.Row) where
    Step-IsTable : {s t : System p} → IsTable p s.events → Step p w engine s t → IsTable p t.events
    Step-IsTable h (apply now e call eq) = subst (IsTable p) (ap (λ x. x.events) (sym eq)) h
    Step-IsTable h (acknowledge now e r created call done eq) =
        subst (IsTable p) (ap (λ x. x.events) (sym eq)) h
    Step-IsTable {s} h (store now e call m eq) =
        subst (IsTable p) (ap (λ x. x.events) (sym eq))
          (insert_applied_event-IsTable p laws now e s.events call h)

    -- The Gateway's table stays that of a well-formed log.
    pub Reach-IsTable : {s : System p} → Reach p w engine (nothing_yet p) s → IsTable p s.events
    Reach-IsTable here = ([], tt, refl)
    Reach-IsTable (next r st) = Step-IsTable (Reach-IsTable r) st

    backed-AllHeld :
        (s : System p) (h : Holds p laws w s) (l : Log p)
        → IsLog p l
        → AllBacked p laws w h.ledger (encode_all p l)
        → AllHeld s.transactions l
    backed-AllHeld s h [] hl backed = tt
    backed-AllHeld s h (r ∷ l) hl backed =
        let (x, stands, same) =
          backed-IsHeld p laws w h.ledger r.event_id (encode p r) r backed.0
            (unfold encode in text_eq_refl r.event_id) (event_from_row-encode p laws r hl.0) in
        (
          (
            x,
            ap (get_transaction p r.event_id) h.transactions
                ∙ get_transaction-encode p laws r.event_id h.ledger
                    (AllRecords-of p h.ledger h.well_formed)
                ∙ ap ok stands,
            same,
          ),
          backed-AllHeld s h l hl.2 backed.1,
        )

    -- On a platform that behaves as documented, after any steps from two empty tables, each of them
    -- with a validated payload whose currency has three characters and at a time in UTC: the Gateway's
    -- table holds a log in which no identifier occurs twice and of which every event has a transaction
    -- under its identifier in the Account Service's table, which can be read there and agrees with the
    -- event in every field, with the amount that a float made of it; and the Gateway answers a request
    -- for an account's events with 200 and all events of the account in that log, each of them once,
    -- and no other, sorted by the text of their time and then by identifier, whatever the order in
    -- which the engine visits the rows.
    pub list_events-IsListing :
        (f : Frame p w) (visit : Engine Gateway.Repository.Row) (s : State World)
        (acks : List (EventPayload Metadata)) (account : Text)
        → Reach p w engine (nothing_yet p) (view p w f engine s acks)
        → (l : Log p) × IsLog p l
          × (s.repository ≡ encode_all p l)
          × AllHeld s.world.account.repository l
          × (rs : Log p) × (list_events p (Json Metadata w.Float) World visit account s
              ≡ answered 200 rs)
          × IsListing p account l rs
    list_events-IsListing f visit s acks account reach =
        let J = Json Metadata w.Float in
        let h = Reach-Holds p laws w engine reach in
        let (l, hl, held) = Reach-IsTable reach in
        let (rs, read, sorted) = list_events_for_account-IsListing p laws visit account l hl in
        (
          l,
          hl,
          held,
          backed-AllHeld (view p w f engine s acks) h l hl
              (subst (AllBacked p laws w h.ledger) held h.events),
          rs,
          (unfold list_events in
              ap (λ t. listed p J World (list_events_for_account p visit account t)) held
              ∙ ap (listed p J World) read),
          sorted,
        )
