-- ===== src/System/Steps.antt =====
-- What can happen to the two services, one step at a time and in any order, and what holds all along.
use distr_sys_itrvw.Base.{◌≡◌, Bool, ◌⊎◌, List, [], ◌∷◌}
use distr_sys_itrvw.Shared.Time.{DateTime}
use distr_sys_itrvw.Shared.Contracts.{Platform, EventPayload, TransactionRecord, ok}
use distr_sys_itrvw.Shared.Contracts.Wire.{Encoding, rounded}
use distr_sys_itrvw.Shared.Rows.{Engine}
use distr_sys_itrvw.Account.Repository.{Row, apply_transaction}
use distr_sys_itrvw.Account
use distr_sys_itrvw.Account.Deliveries.{IsCall}
use distr_sys_itrvw.Gateway
use distr_sys_itrvw.Gateway.Repository.{new_row, insert_applied_event}

module _ (p : Platform) where
  open p use {Metadata}

  -- The two tables, and the payloads that the Account Service has answered with a record. A handler of
  -- the Gateway that waits for an answer has nothing else of it.
  pub record System : Type 0 where
    pub events : Gateway.Repository.Table
    pub transactions : Account.Repository.Table
    pub acknowledged : List (EventPayload Metadata)

  abbrev pub nothing_yet : System
  nothing_yet = record { events = []; transactions = []; acknowledged = [] }

  abbrev pub IsIn : EventPayload Metadata → List (EventPayload Metadata) → Type 0
  IsIn e [] = ⊥
  IsIn e (x ∷ xs) = (x ≡ e) ⊎ IsIn e xs

module _ (p : Platform) (w : Encoding) (engine : Engine Account.Repository.Row) where
  open p use {Metadata}

  -- The Account Service handles a payload, and its answer is lost or is a refusal; or it answers with a
  -- record; or a handler of the Gateway, which has such an answer, inserts its event.
  pub data Step (s t : System p) : Type 0 where
    apply :
        (now : DateTime) (e : EventPayload Metadata)
        → IsCall p now e
        → t ≡ record s { transactions = (apply_transaction p engine now e s.transactions).1 }
        → Step s t
    acknowledge :
        (now : DateTime) (e : EventPayload Metadata) (r : TransactionRecord Metadata)
        (created : Bool)
        → IsCall p now e
        → (apply_transaction p engine now e s.transactions).0 ≡ ok (r, created)
        → t ≡ record s {
          transactions = (apply_transaction p engine now e s.transactions).1;
          acknowledged = e ∷ s.acknowledged;
        }
        → Step s t
    store :
        (now : DateTime) (e : EventPayload Metadata)
        → IsCall p now e
        → IsIn p (rounded p w e) s.acknowledged
        → t ≡ record s { events = (insert_applied_event p now e s.events).1 }
        → Step s t

  pub data Reach (s : System p) : System p → Type 0 where
    here : Reach s s
    next : {t u : System p} → Reach s t → Step t u → Reach s u

  pub Reach-trans : {s t u : System p} → Reach s t → Reach t u → Reach s u
  Reach-trans r here = r
  Reach-trans r (next q st) = next (Reach-trans r q) st
