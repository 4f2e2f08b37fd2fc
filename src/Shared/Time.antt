-- ===== src/Shared/Time.antt =====
-- src/event_ledger_common/time.py over Python's `datetime`, whose fields, zones and arithmetic across
-- midnight are written out. Every offset from UTC is below 24 hours, as `datetime` demands, so the
-- date moves by one day at most.
pub mod Calendar
pub mod Utc
pub mod Print
pub mod Parse
pub mod Order
use distr_sys_itrvw.Base.{
  ℕ, zero, suc, ◌+◌, ◌-◌, ◌*◌, ◌/◌, ◌%◌, Bool, true, false, ◌&&◌, ◌||◌, not, Option, none, some,
  List, [], ◌∷◌, ◌++◌, ltb, leb, ◌==◌, if◌then◌else◌,
}
use distr_sys_itrvw.Base.Lists.{length}
use distr_sys_itrvw.Shared.Text.{Text, codes}

-- `tzinfo`: none, one whose `utcoffset` is `None`, or an offset in microseconds, east or west.
pub data Zone : Type 0 where
  naive unknown : Zone
  east west : ℕ → Zone

pub record Date : Type 0 where
  pub year : ℕ
  pub month : ℕ
  pub day : ℕ

-- A `datetime`: its date, the microseconds since midnight (which hour, minute, second and microsecond
-- spell), its zone.
pub record DateTime : Type 0 where
  pub date : Date
  pub time : ℕ
  pub zone : Zone

-- What the helpers raise: `ValueError`, and `OverflowError` of `astimezone`.
pub data TimeError : Type 0 where
  value_error overflow_error : TimeError

pub data Timed (A : Type 0) : Type 0 where
  ok : A → Timed A
  err : TimeError → Timed A

infixl 5 ◌>>=◌
abbrev pub ◌>>=◌ : {A B : Type 0} → Timed A → (A → Timed B) → Timed B
ok a >>= f = f a
err e >>= f = err e

abbrev pub day_length : ℕ
day_length = 86400000000

abbrev pub utc : Zone
utc = east 0

unfoldable pub is_leap : ℕ → Bool
is_leap y = y % 4 == 0 && (not (y % 100 == 0) || y % 400 == 0)

unfoldable pub days_in_month : ℕ → ℕ → ℕ
unfolding is_leap
days_in_month y m =
    if m == 2
    then (if is_leap y then 29 else 28)
    else if m == 4 || m == 6 || m == 9 || m == 11
    then 30
    else 31

-- The day after and the day before: none outside the years 1 to 9999.
unfoldable pub next_day : Date → Timed Date
unfolding days_in_month
next_day d =
    if ltb d.day (days_in_month d.year d.month)
    then ok (record d { day = d.day + 1 })
    else if ltb d.month 12
    then ok (record d { month = d.month + 1; day = 1 })
    else if ltb d.year 9999
    then ok (record { year = d.year + 1; month = 1; day = 1 })
    else err overflow_error

unfoldable pub prev_day : Date → Timed Date
unfolding days_in_month
prev_day d =
    if ltb 1 d.day
    then ok (record d { day = d.day - 1 })
    else if ltb 1 d.month
    then ok (record d { month = d.month - 1; day = days_in_month d.year (d.month - 1) })
    else if ltb 1 d.year
    then ok (record { year = d.year - 1; month = 12; day = 31 })
    else err overflow_error

unfoldable pub on_date : Timed Date → ℕ → Timed DateTime
on_date (ok d) t = ok (record { date = d; time = t; zone = utc })
on_date (err e) t = err e

-- `value.astimezone(UTC)` for an offset of `o` microseconds to the east, and to the west.
unfoldable pub from_east : ℕ → DateTime → Timed DateTime
unfolding on_date prev_day
from_east o v =
    if leb o v.time
    then ok (record { date = v.date; time = v.time - o; zone = utc })
    else on_date (prev_day v.date) (v.time + day_length - o)

unfoldable pub from_west : ℕ → DateTime → Timed DateTime
unfolding on_date next_day
from_west o v =
    if ltb (v.time + o) day_length
    then ok (record { date = v.date; time = v.time + o; zone = utc })
    else on_date (next_day v.date) (v.time + o - day_length)

abbrev pub to_utc : Zone → DateTime → Timed DateTime
to_utc naive v = err value_error
to_utc unknown v = err value_error
to_utc (east o) v = from_east o v
to_utc (west o) v = from_west o v

unfoldable pub require_aware_utc : DateTime → Timed DateTime
unfolding from_east from_west
require_aware_utc v = to_utc v.zone v

-- Decimal digits of a number, padded to two, four or six places. Each is read at a number that fits.
unfoldable pub two_digits : ℕ → Text → Text
two_digits n rest = (b'0' + n / 10) ∷ (b'0' + n % 10) ∷ rest

unfoldable pub four_digits : ℕ → Text → Text
four_digits n rest = two_digits (n / 100) (two_digits (n % 100) rest)

unfoldable pub six_digits : ℕ → Text → Text
six_digits n rest = two_digits (n / 10000) (four_digits (n % 10000) rest)

-- The parts of `isoformat`, each in front of the rest of the text.
unfoldable pub iso_date : Date → Text → Text
iso_date d rest = four_digits d.year (b'-' ∷ two_digits d.month (b'-' ∷ two_digits d.day rest))

unfoldable pub iso_clock : ℕ → Text → Text
iso_clock seconds rest =
    two_digits (seconds / 3600)
      (b':' ∷ two_digits (seconds / 60 % 60) (b':' ∷ two_digits (seconds % 60) rest))

-- The fraction is left out when it is zero.
unfoldable pub iso_fraction : ℕ → Text → Text
iso_fraction micros rest = if micros == 0 then rest else b'.' ∷ six_digits micros rest

-- `isoformat` of a datetime in UTC.
unfoldable pub isoformat : DateTime → Text
isoformat v =
    iso_date v.date
      (b'T' ∷ iso_clock (v.time / 1000000) (iso_fraction (v.time % 1000000) (codes "+00:00")))

-- `str.replace`: from the left, without overlaps. `skip` counts the characters still to pass over.
unfoldable pub starts_with : Text → Text → Bool
starts_with [] s = true
starts_with (p ∷ ps) [] = false
starts_with (p ∷ ps) (c ∷ s) = p == c && starts_with ps s

unfoldable pub replace_from : ℕ → Text → Text → Text → Text
unfolding starts_with
replace_from skip old new [] = []
replace_from (suc skip) old new (c ∷ s) = replace_from skip old new s
replace_from zero old new (c ∷ s) =
    let replaced = new ++ replace_from (length old - 1) old new s in
    let kept = c ∷ replace_from 0 old new s in if starts_with old (c ∷ s) then replaced else kept

unfoldable pub replace : Text → Text → Text → Text
unfolding replace_from
replace old new s = replace_from 0 old new s

unfoldable pub format_timestamp : DateTime → Timed Text
format_timestamp v = do
  normalized ← require_aware_utc v
  ok (replace (codes "+00:00") (codes "Z") (isoformat normalized))
