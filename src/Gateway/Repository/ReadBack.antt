-- ===== src/Gateway/Repository/ReadBack.antt =====
-- What `insert_applied_event` returns is what `get_event` then reads.
use distr_sys_itrvw.Base.{◌≡◌, refl, Bool, true, false, Option, none, some}
use distr_sys_itrvw.Shared.Time.{DateTime}
use distr_sys_itrvw.Shared.Contracts.{Platform, EventPayload, EventRecord, Result, ok, err}
use distr_sys_itrvw.Gateway.Repository.{
  Row, Table, get_event, same_event, new_row, insert, insert_new, read_back, after_insert, replay,
  after_lookup, insert_applied_event,
}

module _ (p : Platform) (e : EventPayload p.Metadata) {r : EventRecord p.Metadata}
    {created : Bool} where
  open p use {Metadata}

  read_back-reads :
      (q : Result (Option (EventRecord Metadata))) (t : Table)
      → get_event p e.event_id t ≡ q
      → (read_back p q t).0 ≡ ok (r, created)
      → get_event p e.event_id (read_back p q t).1 ≡ ok (some r)
  read_back-reads (err x) t h done = cc
  read_back-reads (ok none) t h done = cc
  read_back-reads (ok (some x)) t h done = cc

  after_insert-reads :
      (q : Result Table) (t : Table)
      → (after_insert p q e t).0 ≡ ok (r, created)
      → get_event p e.event_id (after_insert p q e t).1 ≡ ok (some r)
  after_insert-reads (err x) t done = cc
  after_insert-reads (ok t') t done = read_back-reads (get_event p e.event_id t') t' refl done

  insert_new-reads :
      (q : Result Row) (t : Table)
      → (insert_new p q e t).0 ≡ ok (r, created)
      → get_event p e.event_id (insert_new p q e t).1 ≡ ok (some r)
  unfolding insert_new
  insert_new-reads (err x) t done = cc
  insert_new-reads (ok row) t done = after_insert-reads (insert row t) t done

  replay-reads :
      (q : Result Bool) (existing : EventRecord Metadata) (t : Table)
      → get_event p e.event_id t ≡ ok (some existing)
      → (replay p q existing e t).0 ≡ ok (r, created)
      → get_event p e.event_id (replay p q existing e t).1 ≡ ok (some r)
  replay-reads (err x) existing t h done = cc
  replay-reads (ok false) existing t h done = cc
  replay-reads (ok true) existing t h done = cc

  lookup-reads :
      (q : Result (Option (EventRecord Metadata))) (now : DateTime) (t : Table)
      → get_event p e.event_id t ≡ q
      → (after_lookup p q now e t).0 ≡ ok (r, created)
      → get_event p e.event_id (after_lookup p q now e t).1 ≡ ok (some r)
  lookup-reads (err x) now t h done = cc
  lookup-reads (ok (some existing)) now t h done =
      replay-reads (same_event p existing.event e) existing t h done
  lookup-reads (ok none) now t h done = insert_new-reads (new_row p now e) t done

  pub insert_applied_event-get_event :
      (now : DateTime) (t : Table)
      → (insert_applied_event p now e t).0 ≡ ok (r, created)
      → get_event p e.event_id (insert_applied_event p now e t).1 ≡ ok (some r)
  unfolding insert_applied_event
  insert_applied_event-get_event now t done =
      lookup-reads (get_event p e.event_id t) now t refl done
