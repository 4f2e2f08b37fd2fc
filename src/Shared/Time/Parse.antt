-- ===== src/Shared/Time/Parse.antt =====
-- `parse_timestamp`. Of the shapes that `datetime.fromisoformat` reads, the model has the one that the
-- services store: `YYYY-MM-DDTHH:MM:SS`, a fraction of six digits or none, a zone `+HH:MM` or `-HH:MM`
-- or none; it refuses the others.
pub mod RoundTrip
use distr_sys_itrvw.Base.{
  ℕ, zero, suc, ◌+◌, ◌-◌, ◌*◌, ◌/◌, ◌%◌, Bool, true, false, ◌&&◌, ◌||◌, Option, none, some, List,
  [], ◌∷◌, ◌++◌, ltb, leb, ◌==◌, if◌then◌else◌,
}
use distr_sys_itrvw.Shared.Text.{Text, codes}
use distr_sys_itrvw.Shared.Time.{
  Zone, naive, east, west, Date, DateTime, Timed, ok, err, value_error, ◌>>=◌, days_in_month,
  replace, require_aware_utc,
}

unfoldable pub digit_value : ℕ → Timed ℕ
digit_value c = if leb b'0' c && leb c b'9' then ok (c - b'0') else err value_error

unfoldable pub read_two : Text → Timed (ℕ × Text)
unfolding digit_value
read_two (c ∷ d ∷ s) = do a ← digit_value c; b ← digit_value d; ok (a * 10 + b, s)
read_two s = err value_error

unfoldable pub read_four : Text → Timed (ℕ × Text)
read_four s = do (a, s₁) ← read_two s; (b, s₂) ← read_two s₁; ok (a * 100 + b, s₂)

unfoldable pub read_six : Text → Timed (ℕ × Text)
read_six s = do (a, s₁) ← read_two s; (b, s₂) ← read_four s₁; ok (a * 10000 + b, s₂)

unfoldable pub expect : ℕ → Text → Timed Text
expect c [] = err value_error
expect c (d ∷ s) = if d == c then ok s else err value_error

unfoldable pub checked_date : Date → Text → Timed (Date × Text)
checked_date d s =
    if leb 1 d.year
      && (leb 1 d.month
          && (leb d.month 12 && (leb 1 d.day && leb d.day (days_in_month d.year d.month))))
    then ok (d, s)
    else err value_error

unfoldable pub read_date : Text → Timed (Date × Text)
unfolding checked_date
read_date s = do
  (year, s₁) ← read_four s
  s₂ ← expect b'-' s₁
  (month, s₃) ← read_two s₂
  s₄ ← expect b'-' s₃
  (day, s₅) ← read_two s₄
  checked_date (record { year = year; month = month; day = day }) s₅

unfoldable pub checked_clock : ℕ → ℕ → ℕ → Text → Timed (ℕ × Text)
checked_clock hour minute second s =
    if ltb hour 24 && (ltb minute 60 && ltb second 60)
    then ok ((hour * 60 + minute) * 60 + second, s)
    else err value_error

-- The second of the day.
unfoldable pub read_clock : Text → Timed (ℕ × Text)
unfolding checked_clock
read_clock s = do
  (hour, s₁) ← read_two s
  s₂ ← expect b':' s₁
  (minute, s₃) ← read_two s₂
  s₄ ← expect b':' s₃
  (second, s₅) ← read_two s₄
  checked_clock hour minute second s₅

unfoldable pub read_fraction : Text → Timed (ℕ × Text)
read_fraction [] = ok (0, [])
read_fraction (c ∷ s) = if c == b'.' then read_six s else ok (0, c ∷ s)

unfoldable pub offset_zone : ℕ → ℕ → ℕ → Text → Timed Zone
offset_zone sign hour minute [] =
    if ltb hour 24 && ltb minute 60
    then (if sign == b'+'
        then ok (east ((hour * 60 + minute) * 60000000))
        else if sign == b'-'
        then ok (west ((hour * 60 + minute) * 60000000))
        else err value_error)
    else err value_error
offset_zone sign hour minute (c ∷ s) = err value_error

unfoldable pub read_zone : Text → Timed Zone
unfolding offset_zone
read_zone [] = ok naive
read_zone (sign ∷ s) = do
  (hour, s₁) ← read_two s
  s₂ ← expect b':' s₁
  (minute, s₃) ← read_two s₂
  offset_zone sign hour minute s₃

-- `datetime.fromisoformat`
unfoldable pub fromisoformat : Text → Timed DateTime
fromisoformat s = do
  (date, s₁) ← read_date s
  s₂ ← expect b'T' s₁
  (seconds, s₃) ← read_clock s₂
  (micros, s₄) ← read_fraction s₃
  zone ← read_zone s₄
  ok (record { date = date; time = seconds * 1000000 + micros; zone = zone })

unfoldable pub parse_timestamp : Text → Timed DateTime
parse_timestamp value = do
  parsed ← fromisoformat (replace (codes "Z") (codes "+00:00") value)
  require_aware_utc parsed
