-- ===== src/Shared/Contracts/Samples.antt =====
-- A platform on which the theorems are run: a JSON object is the text of a key, a space is the only
-- blank, ASCII letters and the sharp s have upper-case forms, and a decimal is written as its sign,
-- its coefficient and its exponent.
use distr_sys_itrvw.Base.{
  ℕ, zero, suc, ◌-◌, ◌≡◌, refl, ap, ◌∙◌, Bool, ◌&&◌, [], ◌∷◌, arith, leb, ◌==◌, if◌then◌else◌,
}
use distr_sys_itrvw.Base.Int.{ℤ, pos, negsuc}
use distr_sys_itrvw.Shared.Text.{
  Text, text_eq, text_eq_refl, lstrip, rstrip, cons_stripped, strip, strip-strip,
}
use distr_sys_itrvw.Shared.Decimal.{Decimal}
use distr_sys_itrvw.Shared.Contracts.{Platform, IsPlatform}

unfoldable pub sample_blank : ℕ → Bool
sample_blank c = c == b' '

-- "ß".upper() is "SS".
unfoldable pub sample_upper : Text → Text
sample_upper [] = []
sample_upper (c ∷ s) =
    let rest = sample_upper s in
    if c == 0xdf
    then b'S' ∷ b'S' ∷ rest
    else if leb b'a' c && leb c b'z'
    then (c - 32) ∷ rest
    else c ∷ rest

unfoldable pub signed_text : ℤ → ℕ → Text
signed_text (pos n) e = 0 ∷ n ∷ e ∷ []
signed_text (negsuc n) e = 1 ∷ n ∷ e ∷ []

unfoldable pub sample_text : Decimal → Text
unfolding signed_text
sample_text d = signed_text d.coefficient d.exponent

unfoldable pub sample_decimal : Text → Decimal
sample_decimal (zero ∷ n ∷ e ∷ []) = record { coefficient = pos n; exponent = e }
sample_decimal (suc _ ∷ n ∷ e ∷ []) = record { coefficient = negsuc n; exponent = e }
sample_decimal _ = record { coefficient = pos 0; exponent = 0 }

abbrev pub sample_platform : Platform
sample_platform = record {
  Metadata = Text;
  metadata_eq = text_eq;
  dumps = λ m. m;
  loads = λ s. s;
  blank = sample_blank;
  strip_keys = strip sample_blank;
  upper = sample_upper;
  decimal_text = sample_text;
  decimal_of = sample_decimal;
  places = 2;
}

upper_twice : (s : Text) → sample_upper (sample_upper s) ≡ sample_upper s
unfolding sample_upper
upper_twice [] = refl
upper_twice (c ∷ s) = ground (arith, upper_twice s)

lstrip-upper :
    (s : Text) → lstrip sample_blank (sample_upper s) ≡ sample_upper (lstrip sample_blank s)
unfolding lstrip sample_upper sample_blank
lstrip-upper [] = refl
lstrip-upper (c ∷ s) = ground (arith, lstrip-upper s)

prefixed :
    (c : ℕ) (t : Text)
    → (if c == 0xdf
        then cons_stripped sample_blank b'S' (cons_stripped sample_blank b'S' (sample_upper t))
        else if leb b'a' c && leb c b'z'
        then cons_stripped sample_blank (c - 32) (sample_upper t)
        else cons_stripped sample_blank c (sample_upper t))
      ≡ sample_upper (cons_stripped sample_blank c t)
unfolding cons_stripped sample_upper sample_blank
prefixed c [] = ground arith
prefixed c (d ∷ t) = ground arith

rstrip-upper :
    (s : Text) → rstrip sample_blank (sample_upper s) ≡ sample_upper (rstrip sample_blank s)
unfolding rstrip sample_upper sample_blank
rstrip-upper [] = refl
rstrip-upper (c ∷ s) = ground (arith, rstrip-upper s, prefixed c (rstrip sample_blank s))

signed_read :
    (a : ℤ) (e : ℕ) → sample_decimal (signed_text a e) ≡ record { coefficient = a; exponent = e }
unfolding signed_text sample_decimal
signed_read (pos n) e = refl
signed_read (negsuc n) e = refl

strip-upper_step :
    (t : Text) → strip sample_blank (sample_upper t) ≡ sample_upper (strip sample_blank t)
unfolding strip
strip-upper_step t = rw lstrip-upper (rstrip-upper (lstrip sample_blank t))

strip-upper_sample :
    (s : Text)
    → strip sample_blank (sample_upper (strip sample_blank s)) ≡ sample_upper (strip sample_blank s)
strip-upper_sample s =
    strip-upper_step (strip sample_blank s) ∙ ap sample_upper (strip-strip sample_blank s)

pub sample_laws : IsPlatform sample_platform
unfolding sample_text
sample_laws = record {
  loads-dumps = λ m. refl;
  metadata_eq-self = text_eq_refl;
  strip_keys-strip_keys = strip-strip sample_blank;
  upper-upper = upper_twice;
  strip-upper = strip-upper_sample;
  decimal_of-text = λ d. signed_read d.coefficient d.exponent;
}
