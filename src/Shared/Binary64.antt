-- ===== src/Shared/Binary64.antt =====
-- Python's floats, IEEE 754 with 64 bits, as far as src/event_ledger_common/metrics.py and the
-- middlewares of the services use them for durations: those that are finite and not negative. Such a
-- float is a whole multiple of 2 ^ -1074, and a number of ℕ here counts these units. A result is rounded to
-- 53 significant bits.
use distr_sys_itrvw.Base.{
  ℕ, true, false, zero, suc, ◌+◌, ◌-◌, ◌*◌, ◌/◌, ◌%◌, ◌^◌, ltb, ◌==◌, ◌≡◌, refl, if◌then◌else◌,
}

abbrev pub significand_limit : ℕ
significand_limit = 2 ^ 53

-- How many bits past 53 a number has, up to `fuel`.
unfoldable pub spare_bits : ℕ → ℕ → ℕ
spare_bits zero n = 0
spare_bits (suc fuel) n = elim (ltb n significand_limit) [
  | true ↦ 0
  | false ↦ suc (spare_bits fuel (n / 2))
]

-- Floats are below 2 ^ 1024, which is 2 ^ 2098 units: a finite result has at most 2045 bits past 53.
abbrev pub exponents : ℕ
exponents = 2046

-- The nearest multiple of a unit, ties to the even multiple.
unfoldable pub nearest_multiple : ℕ → ℕ → ℕ
nearest_multiple unit n =
    let q = n / unit in
    let r = 2 * (n % unit) in
    unit * (if ltb r unit then q else if r == unit then q + q % 2 else q + 1)

-- The float nearest to an exact result.
unfoldable pub binary64 : ℕ → ℕ
unfolding spare_bits nearest_multiple
binary64 n = if ltb n significand_limit then n else nearest_multiple (2 ^ spare_bits exponents n) n

-- `a + b`
unfoldable pub float_add : ℕ → ℕ → ℕ
float_add a b = binary64 (a + b)

-- `a - b`, where `a` is not below `b`
unfoldable pub float_sub : ℕ → ℕ → ℕ
float_sub a b = binary64 (a - b)

-- `a * n` for a whole number `n`
unfoldable pub float_mul : ℕ → ℕ → ℕ
float_mul a n = binary64 (a * n)

-- Past 53 bits the last bits are lost.
tie_to_even : float_add (2 ^ 53) 1 ≡ 2 ^ 53
unfolding float_add binary64
tie_to_even = refl
