-- ===== src/Gateway/Main/SameEvent.antt =====
-- The two tests of an exact replay, that of the handlers, which compares times, and that of the
-- repository, which compares their texts, agree on validated payloads.
use mathlib.Core.Path.{subst}
use distr_sys_itrvw.Base.{◌≡◌, sym, ap, ◌∙◌, Bool, true, arith}
use distr_sys_itrvw.Shared.Text.{text_eq, text_eq_refl, text_eq→eq}
use distr_sys_itrvw.Shared.Time.{DateTime, Timed}
use distr_sys_itrvw.Shared.Time.Utc.{IsUtc, east_part, west_part}
use distr_sys_itrvw.Shared.Time.Print.{utc_text, format_timestamp-utc_text}
use distr_sys_itrvw.Shared.Time.Parse.RoundTrip.{parse_timestamp-utc_text}
use distr_sys_itrvw.Shared.Contracts.{Platform, EventPayload, ok}
use distr_sys_itrvw.Shared.Contracts.Valid.{IsPayload}
use distr_sys_itrvw.Gateway.Repository
use distr_sys_itrvw.Gateway.Main.{datetime_eq, same_event}

bool_eq : {x y : Bool} → (x ≡ true → y ≡ true) → (y ≡ true → x ≡ true) → x ≡ y
bool_eq f g = ground (arith, f, g)

timed_ok-injective : {A : Type 0} {a b : A} → Timed.ok a ≡ Timed.ok b → a ≡ b
timed_ok-injective e = cc

utc_text-injective : (a b : DateTime) → IsUtc a → IsUtc b → utc_text a ≡ utc_text b → a ≡ b
utc_text-injective a b ha hb e =
    timed_ok-injective (sym (parse_timestamp-utc_text a ha) ∙ rw e (parse_timestamp-utc_text b hb))

datetime_eq_self : (a : DateTime) → datetime_eq a a ≡ true
unfolding datetime_eq
datetime_eq_self a = ground arith

same_fields :
    (a b : DateTime)
    → IsUtc a
    → IsUtc b
    → datetime_eq a b ≡ true
    → (a.date.year ≡ b.date.year)
      × (a.date.month ≡ b.date.month)
      × (a.date.day ≡ b.date.day)
      × (a.time ≡ b.time)
unfolding datetime_eq
same_fields a b ha hb e =
    let offsets : (east_part a.zone ≡ east_part b.zone) × (west_part a.zone ≡ west_part b.zone) =
      (ap east_part same_zone, ap west_part same_zone) in
    ground (arith, offsets)
  where
    same_zone : a.zone ≡ b.zone
    same_zone = ha.zone ∙ sym hb.zone

datetime_eq→eq : (a b : DateTime) → IsUtc a → IsUtc b → datetime_eq a b ≡ true → a ≡ b
datetime_eq→eq a b ha hb e =
    let (year, month, day, time) = same_fields a b ha hb e in
    λ i. record {
      date = record { year = year i; month = month i; day = day i };
      time = time i;
      zone = (ha.zone ∙ sym hb.zone) i;
    }

-- Two valid datetimes in UTC are equal exactly when they are written alike.
pub datetime_eq-utc_text :
    (a b : DateTime) → IsUtc a → IsUtc b → text_eq (utc_text a) (utc_text b) ≡ datetime_eq a b
datetime_eq-utc_text a b ha hb =
    bool_eq
      (λ e.
        subst (λ c. datetime_eq a c ≡ true)
          (utc_text-injective a b ha hb (text_eq→eq (utc_text a) (utc_text b) e))
          (datetime_eq_self a))
      (λ e.
        subst (λ c. text_eq (utc_text a) (utc_text c) ≡ true) (datetime_eq→eq a b ha hb e)
          (text_eq_refl (utc_text a)))

module _ (p : Platform) where
  -- The tests of the Gateway's handlers and of its repository give the same answer on any two
  -- validated payloads, and that of the repository raises nothing.
  pub same_event-agree :
      (existing incoming : EventPayload p.Metadata)
      → IsPayload p existing
      → IsPayload p incoming
      → Repository.same_event p existing incoming ≡ ok (same_event p existing incoming)
  same_event-agree existing incoming he hi =
      unfold Repository.same_event same_event in
      rw (format_timestamp-utc_text existing.event_timestamp he.event_timestamp) (
        rw (format_timestamp-utc_text incoming.event_timestamp hi.event_timestamp) (
          rw
            (datetime_eq-utc_text existing.event_timestamp incoming.event_timestamp
              he.event_timestamp hi.event_timestamp)
            (ground arith)))
