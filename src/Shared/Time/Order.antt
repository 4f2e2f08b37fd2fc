-- ===== src/Shared/Time/Order.antt =====
-- The order of the stored texts against the order in time.
use distr_sys_itrvw.Base.{
  ℕ, ◌+◌, ◌*◌, ◌/◌, ◌%◌, ◌<◌, ◌≡◌, ◌≢◌, ◌⊎◌, sym, ◌∙◌, Bool, true, false, ◌||◌, ◌&&◌, ◌∷◌, arith,
  leb, ltb, ◌==◌, if◌then◌else◌,
}
use distr_sys_itrvw.Shared.Text.{Text, codes, text_le}
use distr_sys_itrvw.Shared.Time.{
  Date, DateTime, two_digits, four_digits, six_digits, iso_date, iso_clock, iso_fraction, ok,
  format_timestamp,
}
use distr_sys_itrvw.Shared.Time.Calendar.{IsDate, days_in_month_bounds}
use distr_sys_itrvw.Shared.Time.Utc.{IsUtc}
use distr_sys_itrvw.Shared.Time.Print.{utc_text, format_timestamp-utc_text}
use mathlib.Core.Path.{subst₂}

-- The order of texts that begin with numbers `m` and `n`, of one width, and go on by an order `b`.
abbrev then_le : ℕ → ℕ → Bool → Bool
then_le m n b = ltb m n || (m == n && b)

le-two_digits :
    (m n : ℕ) (s t : Text)
    → m < 100
    → n < 100
    → text_le (two_digits m s) (two_digits n t) ≡ then_le m n (text_le s t)
unfolding text_le two_digits
le-two_digits m n s t hm hn = ground arith

le-four_digits :
    (m n : ℕ) (s t : Text)
    → m < 10000
    → n < 10000
    → text_le (four_digits m s) (four_digits n t) ≡ then_le m n (text_le s t)
unfolding four_digits
le-four_digits m n s t hm hn = ground (
  arith,
  le-two_digits (m / 100) (n / 100) (two_digits (m % 100) s) (two_digits (n % 100) t),
  le-two_digits (m % 100) (n % 100) s t,
)

le-six_digits :
    (m n : ℕ) (s t : Text)
    → m < 1000000
    → n < 1000000
    → text_le (six_digits m s) (six_digits n t) ≡ then_le m n (text_le s t)
unfolding six_digits
le-six_digits m n s t hm hn = ground (
  arith,
  le-two_digits (m / 10000) (n / 10000) (four_digits (m % 10000) s) (four_digits (n % 10000) t),
  le-four_digits (m % 10000) (n % 10000) s t,
)

-- A date and a time as numbers in their order.
unfoldable pub date_key : Date → ℕ
date_key d = (d.year * 100 + d.month) * 100 + d.day

le-iso_date :
    (d e : Date) (s t : Text)
    → IsDate d
    → IsDate e
    → text_le (iso_date d s) (iso_date e t) ≡ then_le (date_key d) (date_key e) (text_le s t)
unfolding iso_date date_key text_le
le-iso_date d e s t hd he = ground (
  arith,
  le-four_digits d.year e.year (b'-' ∷ two_digits d.month (b'-' ∷ two_digits d.day s))
      (b'-' ∷ two_digits e.month (b'-' ∷ two_digits e.day t)),
  le-two_digits d.month e.month (b'-' ∷ two_digits d.day s) (b'-' ∷ two_digits e.day t),
  le-two_digits d.day e.day s t,
  days_in_month_bounds d.year d.month,
  days_in_month_bounds e.year e.month,
)

le-iso_clock :
    (x y : ℕ) (s t : Text)
    → x < 86400
    → y < 86400
    → text_le (iso_clock x s) (iso_clock y t) ≡ then_le x y (text_le s t)
unfolding iso_clock text_le
le-iso_clock x y s t hx hy = ground (
  arith,
  le-two_digits (x / 3600) (y / 3600)
      (b':' ∷ two_digits (x / 60 % 60) (b':' ∷ two_digits (x % 60) s))
      (b':' ∷ two_digits (y / 60 % 60) (b':' ∷ two_digits (y % 60) t)),
  le-two_digits (x / 60 % 60) (y / 60 % 60) (b':' ∷ two_digits (x % 60) s)
      (b':' ∷ two_digits (y % 60) t),
  le-two_digits (x % 60) (y % 60) s t,
)

-- Where a fraction of a second stands in the order of texts: a whole second has no fraction, and its
-- `Z` comes after every `.`.
abbrev pub fraction_rank : ℕ → ℕ
fraction_rank m = if m == 0 then 1000000 else m

le-iso_fraction :
    (x y : ℕ)
    → x < 1000000
    → y < 1000000
    → text_le (iso_fraction x (codes "Z")) (iso_fraction y (codes "Z"))
      ≡ leb (fraction_rank x) (fraction_rank y)
unfolding iso_fraction text_le
le-iso_fraction x y hx hy = ground (arith, le-six_digits x y (codes "Z") (codes "Z"))

-- The microsecond of a datetime on the scale of `date_key`: the order in which Python compares two
-- datetimes in UTC.
unfoldable pub time_key : DateTime → ℕ
time_key v = date_key v.date * 86400000000 + v.time

-- The second of a datetime on that scale.
unfoldable pub second_key : DateTime → ℕ
second_key v = date_key v.date * 86400 + v.time / 1000000

-- The texts of two datetimes are ordered by their seconds, and within a second by the fraction, with
-- the whole second last.
pub le-utc_text :
    (u v : DateTime)
    → IsUtc u
    → IsUtc v
    → text_le (utc_text u) (utc_text v)
      ≡ then_le
          (second_key u)
          (second_key v)
          (leb (fraction_rank (u.time % 1000000)) (fraction_rank (v.time % 1000000)))
unfolding utc_text second_key text_le
le-utc_text u v hu hv = ground (
  arith,
  le-iso_date u.date v.date
      (b'T' ∷ iso_clock (u.time / 1000000) (iso_fraction (u.time % 1000000) (codes "Z")))
      (b'T' ∷ iso_clock (v.time / 1000000) (iso_fraction (v.time % 1000000) (codes "Z"))),
  le-iso_clock (u.time / 1000000) (v.time / 1000000) (iso_fraction (u.time % 1000000) (codes "Z"))
      (iso_fraction (v.time % 1000000) (codes "Z")),
  le-iso_fraction (u.time % 1000000) (v.time % 1000000),
)

abbrev pub is_whole : DateTime → Bool
is_whole v = v.time % 1000000 == 0

pub le-utc_text_chronological :
    (u v : DateTime)
    → IsUtc u
    → IsUtc v
    → (is_whole u ≡ is_whole v) ⊎ (second_key u ≢ second_key v)
    → text_le (utc_text u) (utc_text v) ≡ leb (time_key u) (time_key v)
unfolding second_key time_key
le-utc_text_chronological u v hu hv alike = rw (le-utc_text u v hu hv) (ground arith)

pub le-utc_text_misordered :
    (u v : DateTime)
    → IsUtc u
    → IsUtc v
    → second_key u ≡ second_key v
    → is_whole u ≡ true
    → is_whole v ≡ false
    → (time_key u < time_key v)
      × (text_le (utc_text u) (utc_text v) ≡ false)
      × (text_le (utc_text v) (utc_text u) ≡ true)
unfolding second_key time_key
le-utc_text_misordered u v hu hv same wu wv = (
  ground arith,
  rw (le-utc_text u v hu hv) (ground arith),
  rw (le-utc_text v u hv hu) (ground arith),
)

ok-injective : {s t : Text} → ok s ≡ ok t → s ≡ t
ok-injective e = cc

written : (v : DateTime) {s : Text} → IsUtc v → format_timestamp v ≡ ok s → utc_text v ≡ s
written v h e = ok-injective (sym (format_timestamp-utc_text v h) ∙ e)

-- Where two datetimes in UTC both have a fraction of a second, or neither has, or their seconds differ,
-- the texts that `format_timestamp` writes of them are in the order in which they are in time.
pub format_timestamp_chronological :
    (u v : DateTime) {s t : Text}
    → IsUtc u
    → IsUtc v
    → format_timestamp u ≡ ok s
    → format_timestamp v ≡ ok t
    → (is_whole u ≡ is_whole v) ⊎ (second_key u ≢ second_key v)
    → text_le s t ≡ leb (time_key u) (time_key v)
format_timestamp_chronological u v hu hv eu ev alike =
    subst₂ (λ x y. text_le x y ≡ leb (time_key u) (time_key v)) (written u hu eu) (written v hv ev)
      (le-utc_text_chronological u v hu hv alike)

-- Of two datetimes in UTC in the same second, of which the first has no fraction and the second has
-- one, the first is before the second, and its text is strictly after the other's.
pub format_timestamp_misordered :
    (u v : DateTime) {s t : Text}
    → IsUtc u
    → IsUtc v
    → format_timestamp u ≡ ok s
    → format_timestamp v ≡ ok t
    → second_key u ≡ second_key v
    → is_whole u ≡ true
    → is_whole v ≡ false
    → (time_key u < time_key v) × (text_le s t ≡ false) × (text_le t s ≡ true)
format_timestamp_misordered u v {s} {t} hu hv eu ev same wu wv =
    subst₂ (λ x y. (time_key u < time_key v) × (text_le x y ≡ false) × (text_le y x ≡ true))
      (written u hu eu) (written v hv ev) (le-utc_text_misordered u v hu hv same wu wv)
