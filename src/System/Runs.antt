-- ===== src/System/Runs.antt =====
-- One call of the Gateway's client is a run of the steps of `Steps`: with its retries, and over a
-- network that loses requests and responses.
use distr_sys_itrvw.Base.{◌≡◌, refl, sym, ap, ◌∙◌, inl, inr, List, ◌∷◌}
use distr_sys_itrvw.Shared.Text.{Text}
use distr_sys_itrvw.Shared.Contracts.{Platform, EventPayload}
use distr_sys_itrvw.Shared.Contracts.Valid.{IsPayload}
use distr_sys_itrvw.Shared.Contracts.Wire.{Encoding, IsEncoding, rounded}
use distr_sys_itrvw.Shared.Rows.{Engine}
use distr_sys_itrvw.Account.Repository.{Row, apply_transaction}
use distr_sys_itrvw.Base.Lists.{length}
use distr_sys_itrvw.Gateway.Client.{HttpAccountClient, Request, request}
use distr_sys_itrvw.Gateway.Client.Rule.{IsAccepted, Ends, request-Ends}
use distr_sys_itrvw.Gateway.Main.{State, transaction_request}
use distr_sys_itrvw.System.{Json, World, first_delivery, Frame, IsFrame, cloud, deliver, dump}
use distr_sys_itrvw.System.Served.{IsServed, deliver-IsServed}
use distr_sys_itrvw.System.Steps.{System, IsIn, apply, acknowledge, Reach, next}

module _ (p : Platform) (w : Encoding) (f : Frame p w) (engine : Engine Row) where
  open p use {Metadata}
  open w use {Float}

  -- The tables of a state of the Gateway and of the world it calls into.
  abbrev pub view : State World → List (EventPayload Metadata) → System p
  view s acknowledged = record {
    events = s.repository;
    transactions = s.world.account.repository;
    acknowledged = acknowledged;
  }

  -- A sequence of steps from `s`, which leads to the table of the world `v`.
  abbrev pub Reached : System p → World → Type 0
  Reached s v =
      (t : System p) × Reach p w engine s t
      × (t.transactions ≡ v.account.repository)
      × (t.events ≡ s.events)

  -- The same, with the payload acknowledged.
  abbrev pub Acknowledged : System p → EventPayload Metadata → World → Type 0
  Acknowledged s e v =
      (t : System p) × Reach p w engine s t
      × (t.transactions ≡ v.account.repository)
      × (t.events ≡ s.events)
      × IsIn p e t.acknowledged

  module _ (frame : IsFrame p w f) (encoding : IsEncoding w) (fresh trace_id : Text)
      (e : EventPayload Metadata) (he : IsPayload p e) (three : length e.currency ≡ 3) where
    abbrev pub the_request : Request (Json Metadata Float)
    the_request = transaction_request p (dump p w f engine) fresh trace_id e

    pub cloud-IsServed :
        (v : World)
        → IsServed p w f engine (f.utc_at v.clock) (rounded p w e) v.account (
            deliver p w f engine
              (first_delivery v.deliveries)
              (f.utc_at v.clock)
              the_request
              v.account)
    cloud-IsServed v =
        deliver-IsServed p w f engine frame encoding (first_delivery v.deliveries) fresh trace_id
          (f.utc_at v.clock) e v.account (frame.utc_at v.clock, he, three)

    module _ (s : System p) where
      kept : (v : World) → Reached s v → Reached s ((cloud p w f engine).send the_request v).1
      kept v (t, reach, table, same) =
          let now = f.utc_at v.clock in
          elim (cloud-IsServed v) [
            | inl (unchanged, _) ↦ (t, reach, table ∙ sym unchanged, same)
            | inr (sendable, changed, _) ↦ (
              record t {
                transactions = (apply_transaction p engine now (rounded p w e) t.transactions).1;
              },
              next reach (apply now (rounded p w e) sendable refl),
              ap (λ x. (apply_transaction p engine now (rounded p w e) x).1) table ∙ sym changed,
              same,
            )
          ]

      accepted :
          (v : World)
          → Reached s v
          → IsAccepted ((cloud p w f engine).send the_request v).0
          → Acknowledged s (rounded p w e) ((cloud p w f engine).send the_request v).1
      accepted v (t, reach, table, same) h =
          let now = f.utc_at v.clock in
          elim (cloud-IsServed v) [
            | inl (_, refused) ↦ absurd (refused h)
            | inr (sendable, changed, answer) ↦
                let (r, created, returns) = answer h in
                (
                  record t {
                    transactions =
                        (apply_transaction p engine now (rounded p w e) t.transactions).1;
                    acknowledged = rounded p w e ∷ t.acknowledged;
                  },
                  next reach (
                      acknowledge now (rounded p w e) r created sendable
                        (ap (λ x. (apply_transaction p engine now (rounded p w e) x).0) table
                          ∙ returns)
                        refl),
                  ap (λ x. (apply_transaction p engine now (rounded p w e) x).1) table
                      ∙ sym changed,
                  same,
                  inl refl,
                )
          ]

      pub call-Ends :
          (c : HttpAccountClient) (v : World)
          → Reached s v
          → Ends
              (Reached s)
              (Acknowledged s (rounded p w e))
              (request (cloud p w f engine) the_request c v)
      call-Ends c v h =
          request-Ends (Reached s) (Acknowledged s (rounded p w e)) (cloud p w f engine) the_request
            kept accepted (λ d v h. h) c v h
