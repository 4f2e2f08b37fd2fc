-- ===== src/Shared/Time/Utc.antt =====
-- `require_aware_utc`: what it accepts, and that it normalises.
use distr_sys_itrvw.Base.{
  ℕ, ◌+◌, ◌-◌, ◌*◌, ◌≤◌, ◌<◌, ◌≡◌, ◌≢◌, ◌↔◌, refl, inl, inr, arith, leb, ltb, Bool-cases,
}
use distr_sys_itrvw.Shared.Time.Calendar.{
  IsDate, next_day-IsDate, prev_day-IsDate, ordinal, ordinal-next_day, ordinal-prev_day,
}
use distr_sys_itrvw.Shared.Time.{
  Zone, naive, unknown, east, west, Date, DateTime, value_error, Timed, ok, err, day_length, utc,
  next_day, prev_day, on_date, from_east, from_west, to_utc, require_aware_utc,
}

-- `timedelta(hours=-24) < offset < timedelta(hours=24)`
abbrev pub IsZone : Zone → Type 0
IsZone naive = Unit {0}
IsZone unknown = Unit {0}
IsZone (east o) = o < day_length
IsZone (west o) = o < day_length

pub record IsDateTime (v : DateTime) : Type 0 where
  pub date : IsDate v.date
  pub time : v.time < day_length
  pub zone : IsZone v.zone

-- A valid datetime in UTC.
pub record IsUtc (v : DateTime) : Type 0 where
  pub date : IsDate v.date
  pub time : v.time < day_length
  pub zone : v.zone ≡ utc

abbrev pub east_part : Zone → ℕ
east_part (east o) = o
east_part _ = 0

abbrev pub west_part : Zone → ℕ
west_part (west o) = o
west_part _ = 0

-- Microseconds by the clock on the wall, from the start of the day numbered 0.
unfoldable pub wall_clock : DateTime → ℕ
wall_clock v = ordinal v.date * day_length + v.time

abbrev pub HasOffset : Zone → Type 0
HasOffset naive = ⊥
HasOffset unknown = ⊥
HasOffset (east o) = Unit {0}
HasOffset (west o) = Unit {0}

-- The same instant as `v` on a clock `o` microseconds behind, or ahead of, that of `v`.
abbrev IsShifted : ℕ → ℕ → DateTime → DateTime → Type 0
IsShifted behind ahead v u = IsUtc u × (wall_clock u + behind ≡ wall_clock v + ahead)

on_prev_day :
    (v : DateTime) (o : ℕ) (r : Timed Date) {u : DateTime}
    → IsDate v.date
    → v.time < o
    → o < day_length
    → prev_day v.date ≡ r
    → on_date r (v.time + day_length - o) ≡ ok u
    → IsShifted o 0 v u
unfolding on_date wall_clock
on_prev_day v o (ok d) hd ht ho p e =
    let valid = prev_day-IsDate v.date hd p in
    let counted = ordinal-prev_day v.date hd p in ground arith
on_prev_day v o (err x) hd ht ho p e = cc

on_next_day :
    (v : DateTime) (o : ℕ) (r : Timed Date) {u : DateTime}
    → IsDate v.date
    → v.time < day_length
    → day_length ≤ v.time + o
    → o < day_length
    → next_day v.date ≡ r
    → on_date r (v.time + o - day_length) ≡ ok u
    → IsShifted 0 o v u
unfolding on_date wall_clock
on_next_day v o (ok d) hd ht hm ho p e =
    let valid = next_day-IsDate v.date hd p in
    let counted = ordinal-next_day v.date hd p in ground arith
on_next_day v o (err x) hd ht hm ho p e = cc

to_utc-IsShifted :
    (z : Zone) (v : DateTime) {u : DateTime}
    → IsDate v.date
    → v.time < day_length
    → IsZone z
    → to_utc z v ≡ ok u
    → IsShifted (east_part z) (west_part z) v u
unfolding from_east from_west
to_utc-IsShifted naive v hd ht hz e = cc
to_utc-IsShifted unknown v hd ht hz e = cc
to_utc-IsShifted (east o) v hd ht hz e = elim (Bool-cases (leb o v.time)) [
  | inl same_day ↦ unfold wall_clock in ground arith
  | inr earlier ↦ on_prev_day v o (prev_day v.date) hd (ground arith) hz refl (rw earlier at e)
]
to_utc-IsShifted (west o) v hd ht hz e = elim (Bool-cases (ltb (v.time + o) day_length)) [
  | inl same_day ↦ unfold wall_clock in ground arith
  | inr later ↦ on_next_day v o (next_day v.date) hd ht (ground arith) hz refl (rw later at e)
]

prev_day_no_value_error : (d : Date) → prev_day d ≢ err value_error
prev_day_no_value_error d e = unfold prev_day in ground arith

next_day_no_value_error : (d : Date) → next_day d ≢ err value_error
next_day_no_value_error d e = unfold next_day in ground arith

on_date_no_value_error :
    (r : Timed Date) (t : ℕ) → r ≢ err value_error → on_date r t ≢ err value_error
unfolding on_date
on_date_no_value_error (ok d) t h e = cc
on_date_no_value_error (err x) t h e = h (ground arith)

to_utc_ambiguous : (z : Zone) (v : DateTime) → (to_utc z v ≡ err value_error) ↔ (HasOffset z → ⊥)
unfolding from_east from_west
to_utc_ambiguous naive v = (λ e h. h, λ h. refl)
to_utc_ambiguous unknown v = (λ e h. h, λ h. refl)
to_utc_ambiguous (east o) v = (
  λ e h. ground (
    arith,
    on_date_no_value_error (prev_day v.date) (v.time + day_length - o)
        (prev_day_no_value_error v.date),
  ),
  λ h. absurd (h tt),
)
to_utc_ambiguous (west o) v = (
  λ e h. ground (
    arith,
    on_date_no_value_error (next_day v.date) (v.time + o - day_length)
        (next_day_no_value_error v.date),
  ),
  λ h. absurd (h tt),
)

-- A valid datetime that `require_aware_utc` accepts becomes a valid datetime in UTC which names
-- the same instant: the two clocks on the wall differ by the offset of its zone.
pub require_aware_utc-IsUtc :
    (v : DateTime) {u : DateTime}
    → IsDateTime v
    → require_aware_utc v ≡ ok u
    → IsUtc u × (wall_clock u + east_part v.zone ≡ wall_clock v + west_part v.zone)
unfolding require_aware_utc
require_aware_utc-IsUtc v h e = to_utc-IsShifted v.zone v h.date h.time h.zone e

-- A datetime in UTC stays as it is.
pub require_aware_utc_self : (v : DateTime) → IsUtc v → require_aware_utc v ≡ ok v
unfolding require_aware_utc
require_aware_utc_self v h = rw h.zone (unfold from_east in ground arith)

-- A datetime is refused with a `ValueError` exactly when its zone has no offset.
pub require_aware_utc_ambiguous :
    (v : DateTime) → (require_aware_utc v ≡ err value_error) ↔ (HasOffset v.zone → ⊥)
unfolding require_aware_utc
require_aware_utc_ambiguous v = to_utc_ambiguous v.zone v
