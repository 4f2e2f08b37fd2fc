-- ===== src/Shared/Time/Print.antt =====
-- `format_timestamp` of a datetime in UTC, with the replacement of the zone carried out.
use distr_sys_itrvw.Base.{ℕ, ◌/◌, ◌%◌, ◌≡◌, refl, ap, ◌∙◌, ◌∷◌, inl, inr, arith, ◌==◌, Bool-cases}
use distr_sys_itrvw.Shared.Text.{Text, codes}
use distr_sys_itrvw.Shared.Time.{
  Date, DateTime, ok, two_digits, four_digits, six_digits, iso_date, iso_clock, iso_fraction,
  isoformat, replace_from, replace, format_timestamp,
}
use distr_sys_itrvw.Shared.Time.Utc.{IsUtc, require_aware_utc_self}

-- The text of a datetime in UTC, as both services store and send it.
unfoldable pub utc_text : DateTime → Text
utc_text v =
    iso_date v.date
      (b'T' ∷ iso_clock (v.time / 1000000) (iso_fraction (v.time % 1000000) (codes "Z")))

abbrev zone_to_z : Text → Text
zone_to_z = replace_from 0 (codes "+00:00") (codes "Z")

module _ (rest : Text) where
  keep_two : (n : ℕ) → zone_to_z (two_digits n rest) ≡ two_digits n (zone_to_z rest)
  unfolding replace_from two_digits
  keep_two n = ground arith

keep_four : (n : ℕ) (rest : Text) → zone_to_z (four_digits n rest) ≡ four_digits n (zone_to_z rest)
unfolding four_digits
keep_four n rest = keep_two _ (n / 100) ∙ ap (two_digits (n / 100)) (keep_two rest (n % 100))

keep_six : (n : ℕ) (rest : Text) → zone_to_z (six_digits n rest) ≡ six_digits n (zone_to_z rest)
unfolding six_digits
keep_six n rest = keep_two _ (n / 10000) ∙ ap (two_digits (n / 10000)) (keep_four (n % 10000) rest)

ruleset kept = (keep_two, keep_four, keep_six)

keep_date : (d : Date) (rest : Text) → zone_to_z (iso_date d rest) ≡ iso_date d (zone_to_z rest)
unfolding iso_date replace_from
keep_date d rest = simp kept

keep_clock : (s : ℕ) (rest : Text) → zone_to_z (iso_clock s rest) ≡ iso_clock s (zone_to_z rest)
unfolding iso_clock replace_from
keep_clock s rest = simp kept

keep_fraction :
    (m : ℕ) (rest : Text) → zone_to_z (iso_fraction m rest) ≡ iso_fraction m (zone_to_z rest)
unfolding iso_fraction replace_from
keep_fraction m rest = elim (Bool-cases (m == 0)) [
  | inl whole ↦ rw whole refl
  | inr part ↦ rw part (ap (λ s. b'.' ∷ s) (keep_six m rest))
]

pub zone_replaced : (v : DateTime) → replace (codes "+00:00") (codes "Z") (isoformat v) ≡ utc_text v
unfolding replace isoformat utc_text
zone_replaced v =
    keep_date v.date _
    ∙ ap (λ s. iso_date v.date (b'T' ∷ s))
        (keep_clock (v.time / 1000000) _
          ∙ ap (iso_clock (v.time / 1000000)) (keep_fraction (v.time % 1000000) (codes "+00:00")))

-- A valid datetime in UTC is always formatted, as its ISO text with `Z` for the zone.
pub format_timestamp-utc_text : (v : DateTime) → IsUtc v → format_timestamp v ≡ ok (utc_text v)
format_timestamp-utc_text v h =
    unfold format_timestamp in rw (require_aware_utc_self v h) (ap ok (zone_replaced v))
