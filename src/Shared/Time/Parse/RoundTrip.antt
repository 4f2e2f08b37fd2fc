-- ===== src/Shared/Time/Parse/RoundTrip.antt =====
-- `parse_timestamp` reads what `format_timestamp` wrote.
use distr_sys_itrvw.Base.{
  ℕ, ◌+◌, ◌*◌, ◌/◌, ◌%◌, ◌<◌, ◌≡◌, refl, sym, ap, ◌∙◌, ◌∷◌, inl, inr, arith, ◌==◌, Bool-cases,
}
use mathlib.Core.Path.{subst}
use distr_sys_itrvw.Shared.Text.{Text, codes}
use distr_sys_itrvw.Shared.Time.{
  Date, DateTime, Timed, ok, err, require_aware_utc, two_digits, four_digits, six_digits, iso_date,
  iso_clock, iso_fraction, replace_from, replace, format_timestamp, utc,
}
use distr_sys_itrvw.Shared.Time.Calendar.{IsDate, days_in_month_bounds}
use distr_sys_itrvw.Shared.Time.Utc.{
  IsDateTime, IsUtc, require_aware_utc_self, require_aware_utc-IsUtc,
}
use distr_sys_itrvw.Shared.Time.Print.{utc_text, zone_replaced}
use distr_sys_itrvw.Shared.Time.Parse.{
  read_two, read_four, read_six, expect, checked_date, read_date, checked_clock, read_clock,
  read_fraction, read_zone, fromisoformat, parse_timestamp,
}

read_two-two_digits : (n : ℕ) (s : Text) → n < 100 → read_two (two_digits n s) ≡ ok (n, s)
unfolding read_two two_digits
read_two-two_digits n s h = ground arith

read_four-four_digits : (n : ℕ) (s : Text) → n < 10000 → read_four (four_digits n s) ≡ ok (n, s)
unfolding read_four four_digits
read_four-four_digits n s h =
    rw (read_two-two_digits (n / 100) (two_digits (n % 100) s) (omega arith))
      (rw (read_two-two_digits (n % 100) s (omega arith)) (ground arith))

read_six-six_digits : (n : ℕ) (s : Text) → n < 1000000 → read_six (six_digits n s) ≡ ok (n, s)
unfolding read_six six_digits
read_six-six_digits n s h =
    rw (read_two-two_digits (n / 10000) (four_digits (n % 10000) s) (omega arith))
      (rw (read_four-four_digits (n % 10000) s (omega arith)) (ground arith))

checked_date_self : (d : Date) (s : Text) → IsDate d → checked_date d s ≡ ok (d, s)
unfolding checked_date
checked_date_self d s h = ground arith

read_date-iso_date : (d : Date) (s : Text) → IsDate d → read_date (iso_date d s) ≡ ok (d, s)
unfolding iso_date expect
read_date-iso_date d s h =
    let bounds = days_in_month_bounds d.year d.month in
    unfold read_date in
    rw (read_four-four_digits d.year _ (omega arith)) (
      rw (read_two-two_digits d.month _ (omega arith))
        (rw (read_two-two_digits d.day s (omega arith)) (checked_date_self d s h)))

checked_clock_self :
    (n : ℕ) (s : Text) → n < 86400 → checked_clock (n / 3600) (n / 60 % 60) (n % 60) s ≡ ok (n, s)
unfolding checked_clock
checked_clock_self n s h = ground arith

read_clock-iso_clock : (n : ℕ) (s : Text) → n < 86400 → read_clock (iso_clock n s) ≡ ok (n, s)
unfolding iso_clock expect
read_clock-iso_clock n s h =
    unfold read_clock in
    rw (read_two-two_digits (n / 3600) _ (omega arith)) (
      rw (read_two-two_digits (n / 60 % 60) _ (omega arith))
        (rw (read_two-two_digits (n % 60) s (omega arith)) (checked_clock_self n s h)))

read_fraction-iso_fraction :
    (n : ℕ) → n < 1000000 → read_fraction (iso_fraction n (codes "+00:00")) ≡ ok (n, codes "+00:00")
unfolding read_fraction iso_fraction
read_fraction-iso_fraction n h = elim (Bool-cases (n == 0)) [
  | inl whole ↦ rw whole (ground arith)
  | inr part ↦ rw part (read_six-six_digits n (codes "+00:00") h)
]

abbrev z_to_zone : Text → Text
z_to_zone = replace_from 0 (codes "Z") (codes "+00:00")

keep_two : (n : ℕ) (s : Text) → n < 100 → z_to_zone (two_digits n s) ≡ two_digits n (z_to_zone s)
unfolding replace_from two_digits
keep_two n s h = ground arith

keep_four :
    (n : ℕ) (s : Text) → n < 10000 → z_to_zone (four_digits n s) ≡ four_digits n (z_to_zone s)
unfolding four_digits
keep_four n s h =
    keep_two (n / 100) _ (omega arith)
    ∙ ap (two_digits (n / 100)) (keep_two (n % 100) s (omega arith))

keep_six :
    (n : ℕ) (s : Text) → n < 1000000 → z_to_zone (six_digits n s) ≡ six_digits n (z_to_zone s)
unfolding six_digits
keep_six n s h =
    keep_two (n / 10000) _ (omega arith)
    ∙ ap (two_digits (n / 10000)) (keep_four (n % 10000) s (omega arith))

keep_date : (d : Date) (s : Text) → IsDate d → z_to_zone (iso_date d s) ≡ iso_date d (z_to_zone s)
unfolding iso_date replace_from
keep_date d s h =
    let bounds = days_in_month_bounds d.year d.month in
    rw (keep_four d.year (b'-' ∷ two_digits d.month (b'-' ∷ two_digits d.day s)) (omega arith)) (
      rw (keep_two d.month (b'-' ∷ two_digits d.day s) (omega arith))
        (rw (keep_two d.day s (omega arith)) refl))

keep_clock : (n : ℕ) (s : Text) → n < 86400 → z_to_zone (iso_clock n s) ≡ iso_clock n (z_to_zone s)
unfolding iso_clock replace_from
keep_clock n s h =
    rw
      (keep_two (n / 3600) (b':' ∷ two_digits (n / 60 % 60) (b':' ∷ two_digits (n % 60) s))
        (omega arith))
      (rw (keep_two (n / 60 % 60) (b':' ∷ two_digits (n % 60) s) (omega arith))
        (rw (keep_two (n % 60) s (omega arith)) refl))

keep_fraction :
    (n : ℕ) → n < 1000000 → z_to_zone (iso_fraction n (codes "Z")) ≡ iso_fraction n (codes "+00:00")
unfolding iso_fraction replace_from
keep_fraction n h = elim (Bool-cases (n == 0)) [
  | inl whole ↦ rw whole refl
  | inr part ↦ rw part (ap (λ s. b'.' ∷ s) (keep_six n (codes "Z") h))
]

zone_restored :
    (v : DateTime)
    → IsUtc v
    → replace (codes "Z") (codes "+00:00") (utc_text v)
      ≡ iso_date v.date
          (b'T' ∷ iso_clock (v.time / 1000000) (iso_fraction (v.time % 1000000) (codes "+00:00")))
unfolding replace utc_text
zone_restored v h =
    keep_date v.date _ h.date
    ∙ ap (λ s. iso_date v.date (b'T' ∷ s))
        (keep_clock (v.time / 1000000) _ (omega arith)
          ∙ ap (iso_clock (v.time / 1000000)) (keep_fraction (v.time % 1000000) (omega arith)))

read_zone-utc : read_zone (codes "+00:00") ≡ ok utc
unfolding read_zone read_two expect
read_zone-utc = refl

same_time : (v : DateTime) → IsUtc v → v.time / 1000000 * 1000000 + v.time % 1000000 ≡ v.time
same_time v h = omega arith

fromisoformat-iso :
    (v : DateTime)
    → IsUtc v
    → fromisoformat (
        iso_date v.date
          (b'T' ∷ iso_clock (v.time / 1000000) (iso_fraction (v.time % 1000000) (codes "+00:00"))))
      ≡ ok v
unfolding expect
fromisoformat-iso v h =
    unfold fromisoformat in
    rw (read_date-iso_date v.date _ h.date) (
      rw (read_clock-iso_clock (v.time / 1000000) _ (omega arith)) (
        rw (read_fraction-iso_fraction (v.time % 1000000) (omega arith))
          (rw read_zone-utc (ground (arith, same_time v h)))))

-- The text of a valid datetime in UTC is read back as that datetime.
pub parse_timestamp-utc_text : (v : DateTime) → IsUtc v → parse_timestamp (utc_text v) ≡ ok v
parse_timestamp-utc_text v h =
    unfold parse_timestamp in
    rw (zone_restored v h) (rw (fromisoformat-iso v h) (require_aware_utc_self v h))

ok-injective : {s t : Text} → ok s ≡ ok t → s ≡ t
ok-injective e = ground arith

format_timestamp-via :
    (v u : DateTime) → require_aware_utc v ≡ ok u → format_timestamp v ≡ ok (utc_text u)
unfolding format_timestamp
format_timestamp-via v u p = rw p (ap ok (zone_replaced u))

parse_formatted :
    (v : DateTime) (r : Timed DateTime) {s : Text}
    → IsDateTime v
    → require_aware_utc v ≡ r
    → format_timestamp v ≡ ok s
    → parse_timestamp s ≡ r
parse_formatted v (ok u) h p e =
    let hu = (require_aware_utc-IsUtc v h p).0 in
    subst (λ t. parse_timestamp t ≡ ok u) (ok-injective (sym (format_timestamp-via v u p) ∙ e))
      (parse_timestamp-utc_text u hu)
parse_formatted v (err x) h p e = unfold format_timestamp in cc

-- What `format_timestamp` writes of a valid datetime, in whatever zone, `parse_timestamp` reads back
-- as that datetime in UTC.
pub parse_timestamp-format_timestamp :
    (v : DateTime) {s : Text}
    → IsDateTime v
    → format_timestamp v ≡ ok s
    → parse_timestamp s ≡ require_aware_utc v
parse_timestamp-format_timestamp v h e = parse_formatted v (require_aware_utc v) h refl e
