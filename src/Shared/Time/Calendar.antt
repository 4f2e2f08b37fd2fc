-- ===== src/Shared/Time/Calendar.antt =====
-- The calendar: valid dates, the day after and before, and the number of a day.
use distr_sys_itrvw.Base.{
  ℕ, zero, suc, ◌+◌, ◌-◌, ◌*◌, ◌/◌, ◌≤◌, ◌<◌, ◌≡◌, refl, ap, ◌∙◌, inl, inr, arith, Bool-cases,
  if◌then◌else◌,
}
use native.Mathlib.Numerals.{add-one}
use distr_sys_itrvw.Shared.Time.{Date, ok, days_in_month, is_leap, next_day, prev_day}

-- A date of the calendar, in the years that `datetime` knows.
pub record IsDate (d : Date) : Type 0 where
  pub year_low : 1 ≤ d.year
  pub year_high : d.year ≤ 9999
  pub month_low : 1 ≤ d.month
  pub month_high : d.month ≤ 12
  pub day_low : 1 ≤ d.day
  pub day_high : d.day ≤ days_in_month d.year d.month

pub days_in_month_bounds : (y m : ℕ) → (28 ≤ days_in_month y m) × (days_in_month y m ≤ 31)
unfolding days_in_month
days_in_month_bounds y m = ground arith

december : (y : ℕ) → days_in_month y 12 ≡ 31
unfolding days_in_month
december y = refl

pub next_day-IsDate : (d : Date) {d' : Date} → IsDate d → next_day d ≡ ok d' → IsDate d'
next_day-IsDate d h e =
    unfold next_day in
    ground (arith, days_in_month_bounds d.year (d.month + 1), days_in_month_bounds (d.year + 1) 1)

pub prev_day-IsDate : (d : Date) {d' : Date} → IsDate d → prev_day d ≡ ok d' → IsDate d'
prev_day-IsDate d h e =
    unfold prev_day in
    ground (arith, days_in_month_bounds d.year (d.month - 1), december (d.year - 1))

-- `date.toordinal()`: the days before the year, before the month, and in the month.
unfoldable pub days_before_year : ℕ → ℕ
days_before_year y = (y - 1) * 365 + (y - 1) / 4 - (y - 1) / 100 + (y - 1) / 400

unfoldable pub days_before_month : ℕ → ℕ → ℕ
days_before_month y zero = 0
days_before_month y (suc zero) = 0
days_before_month y (suc (suc m)) = days_before_month y (suc m) + days_in_month y (suc m)

unfoldable pub ordinal : Date → ℕ
ordinal d = days_before_year d.year + days_before_month d.year d.month + d.day

minus_plus : (n : ℕ) → 1 ≤ n → n ≡ n - 1 + 1
minus_plus n h = omega arith

next_month :
    (y m : ℕ) → 1 ≤ m → days_before_month y (m + 1) ≡ days_before_month y m + days_in_month y m
unfolding days_before_month
next_month y zero h = elim h [ ]
next_month y (suc m) h = rw add-one refl

twelve_months : (y : ℕ) → days_before_month y 12 + 31 ≡ (if is_leap y then 366 else 365)
unfolding days_before_month days_in_month
twelve_months y = elim (Bool-cases (is_leap y)) [ inl e ↦ rw e refl | inr e ↦ rw e refl ]

whole_year :
    (y m : ℕ)
    → m ≡ 12
    → (days_before_month y m + 31 ≡ (if is_leap y then 366 else 365)) × (days_in_month y m ≡ 31)
whole_year y m e = rw e (twelve_months y, december y)

no_months : (y : ℕ) → days_before_month y 1 ≡ 0
unfolding days_before_month
no_months y = refl

next_year :
    (y : ℕ)
    → 1 ≤ y
    → days_before_year (y + 1) ≡ days_before_year y + (if is_leap y then 366 else 365)
unfolding days_before_year is_leap
next_year y h = ground arith

month_before :
    (y m : ℕ)
    → 1 < m
    → days_before_month y m ≡ days_before_month y (m - 1) + days_in_month y (m - 1)
month_before y m h =
    ap (days_before_month y) (minus_plus m (omega arith)) ∙ next_month y (m - 1) (omega arith)

year_before :
    (y : ℕ)
    → 1 < y
    → days_before_year y ≡ days_before_year (y - 1) + (if is_leap (y - 1) then 366 else 365)
year_before y h = ap days_before_year (minus_plus y (omega arith)) ∙ next_year (y - 1) (omega arith)

no_months_of : (y m : ℕ) → m ≡ 1 → days_before_month y m ≡ 0
no_months_of y m e = rw e (no_months y)

pub ordinal-next_day :
    (d : Date) {d' : Date} → IsDate d → next_day d ≡ ok d' → ordinal d' ≡ ordinal d + 1
unfolding ordinal
ordinal-next_day d h e =
    unfold next_day in
    ground (
      arith,
      next_month d.year d.month,
      whole_year d.year d.month,
      next_year d.year,
      no_months (d.year + 1),
    )

pub ordinal-prev_day :
    (d : Date) {d' : Date} → IsDate d → prev_day d ≡ ok d' → ordinal d' + 1 ≡ ordinal d
unfolding ordinal
ordinal-prev_day d h e =
    unfold prev_day in
    ground (
      arith,
      month_before d.year d.month,
      whole_year (d.year - 1) 12,
      year_before d.year,
      no_months_of d.year d.month,
    )
