-- ===== src/Gateway/Log/Encode.antt =====
-- The table that holds a log, and what the reading methods of the repository find in it.
use distr_sys_itrvw.Base.{◌≡◌, refl, inl, inr, [], ◌∷◌, arith, Bool-cases}
use distr_sys_itrvw.Shared.Text.{Text, text_eq}
use distr_sys_itrvw.Shared.Time.Print.{format_timestamp-utc_text}
use distr_sys_itrvw.Shared.Time.Parse.RoundTrip.{parse_timestamp-utc_text}
use distr_sys_itrvw.Shared.Contracts.{
  Platform, IsPlatform, EventPayload, EventRecord, EventStatus, applied, ok,
}
use distr_sys_itrvw.Shared.Contracts.Valid.{IsPayload, validate_self, type_of_value-type_value}
use distr_sys_itrvw.Account.Ledger.{agrees}
use distr_sys_itrvw.Account.Ledger.Encode.{loaded}
use distr_sys_itrvw.Gateway.Repository.{
  checked_status, status_value, event_from_row, get_event, same_event,
}
use distr_sys_itrvw.Gateway.Log.{Log, find, IsStored, IsLog, encode, encode_all}

checked_status-status_value : (s : EventStatus) → checked_status (status_value s) ≡ ok s
unfolding text_eq
checked_status-status_value applied = refl

module _ (p : Platform) (laws : IsPlatform p) where
  open p use {Metadata}

  -- A stored record is read back as it was.
  pub event_from_row-encode :
      (r : EventRecord Metadata) → IsStored p r → event_from_row p (encode p r) ≡ ok r
  unfolding encode
  event_from_row-encode r h =
      unfold event_from_row in
      rw (parse_timestamp-utc_text r.event_timestamp h.payload.event_timestamp) (
        rw (parse_timestamp-utc_text r.created_at h.created) (
          rw (parse_timestamp-utc_text r.updated_at h.updated) (
            rw (type_of_value-type_value r.type) (
              rw (checked_status-status_value r.status) (
                rw (loaded p laws r.event)
                  (rw (validate_self p r.event h.payload h.three) refl))))))

  pub get_event-encode :
      (id : Text) (l : Log p) → IsLog p l → get_event p id (encode_all p l) ≡ ok (find p id l)
  unfolding get_event find encode
  get_event-encode id [] h = refl
  get_event-encode id (r ∷ l) h = elim (Bool-cases (text_eq r.event_id id)) [
    | inl same ↦ rw same (rw (event_from_row-encode r h.0) refl)
    | inr other ↦ rw other (get_event-encode id l h.2)
  ]

  pub same_event-agrees :
      (a b : EventPayload Metadata)
      → IsPayload p a
      → IsPayload p b
      → same_event p a b ≡ ok (agrees p a b)
  unfolding agrees
  same_event-agrees a b ha hb =
      unfold same_event in
      rw (format_timestamp-utc_text a.event_timestamp ha.event_timestamp)
        (rw (format_timestamp-utc_text b.event_timestamp hb.event_timestamp) (ground arith))
