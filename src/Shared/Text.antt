-- ===== src/Shared/Text.antt =====
-- Python texts as lists of code points, with the operations that the services use on them:
-- equality, order (SQLite compares TEXT by its bytes, and UTF-8 keeps the order of code points),
-- `strip` and `lower`.
use Prim.Native.Char.{code}
use Prim.Native.String.{String}
use distr_sys_itrvw.Base.{
  Bool-cases, inl, inr, ℕ, ◌+◌, ◌≡◌, refl, ◌↔◌, Bool, true, false, ◌&&◌, ◌||◌, List, [], ◌∷◌, arith,
  ltb, leb, ◌==◌, if◌then◌else◌,
}

abbrev pub Text : Type 0
Text = List ℕ

-- The code points of a literal.
abbrev pub codes : String → Text
codes String.[] = []
codes (String.◌∷◌ c s) = code c ∷ codes s

unfoldable pub text_eq : Text → Text → Bool
text_eq [] [] = true
text_eq (x ∷ xs) (y ∷ ys) = x == y && text_eq xs ys
text_eq _ _ = false

-- `ORDER BY` on a TEXT column: not above.
unfoldable pub text_le : Text → Text → Bool
text_le [] ys = true
text_le (x ∷ xs) [] = false
text_le (x ∷ xs) (y ∷ ys) = ltb x y || (x == y && text_le xs ys)

pub text_eq→eq : (s t : Text) → text_eq s t ≡ true → s ≡ t
unfolding text_eq
text_eq→eq [] [] h = refl
text_eq→eq (x ∷ s) (y ∷ t) h = ground (arith, text_eq→eq s t)
text_eq→eq [] (y ∷ t) h = ground arith
text_eq→eq (x ∷ s) [] h = ground arith

pub text_eq_refl : (s : Text) → text_eq s s ≡ true
unfolding text_eq
text_eq_refl [] = refl
text_eq_refl (x ∷ s) = ground (arith, text_eq_refl s)

pub text_eq_iff : (s t : Text) → (text_eq s t ≡ true) ↔ (s ≡ t)
text_eq_iff s t = (text_eq→eq s t, λ e. ground (arith, text_eq_refl s, e))

-- `str.isspace` of one character.
unfoldable pub is_space : ℕ → Bool
is_space c =
    (leb 9 c && leb c 13)
    || (leb 28 c && leb c 32)
    || c == 0x85
    || c == 0xa0
    || c == 0x1680
    || (leb 0x2000 c && leb c 0x200a)
    || c == 0x2028
    || c == 0x2029
    || c == 0x202f
    || c == 0x205f
    || c == 0x3000

-- Stripping by a test for blanks: from the left, from the right, from both.
module _ (blank : ℕ → Bool) where
  unfoldable pub lstrip : Text → Text
  lstrip [] = []
  lstrip (c ∷ s) = let rest = lstrip s in if blank c then rest else c ∷ s

  unfoldable pub cons_stripped : ℕ → Text → Text
  cons_stripped c [] = if blank c then [] else c ∷ []
  cons_stripped c (d ∷ s) = c ∷ d ∷ s

  unfoldable pub rstrip : Text → Text
  unfolding cons_stripped
  rstrip [] = []
  rstrip (c ∷ s) = cons_stripped c (rstrip s)

  unfoldable pub strip : Text → Text
  unfolding lstrip rstrip
  strip s = rstrip (lstrip s)

  rstrip-cons_stripped :
      (c : ℕ) (s : Text) → rstrip s ≡ s → rstrip (cons_stripped c s) ≡ cons_stripped c s
  unfolding rstrip
  rstrip-cons_stripped c [] e = ground arith
  rstrip-cons_stripped c (d ∷ s) e = ground (arith, e)

  rstrip-rstrip : (s : Text) → rstrip (rstrip s) ≡ rstrip s
  unfolding rstrip
  rstrip-rstrip [] = refl
  rstrip-rstrip (c ∷ s) = rstrip-cons_stripped c (rstrip s) (rstrip-rstrip s)

  lstrip-cons_stripped :
      (c : ℕ) (s : Text) → blank c ≡ false → lstrip (cons_stripped c s) ≡ cons_stripped c s
  unfolding lstrip cons_stripped
  lstrip-cons_stripped c [] e = ground arith
  lstrip-cons_stripped c (d ∷ s) e = ground arith

  lstrip-rstrip-lstrip : (s : Text) → lstrip (rstrip (lstrip s)) ≡ rstrip (lstrip s)
  unfolding lstrip rstrip
  lstrip-rstrip-lstrip [] = refl
  lstrip-rstrip-lstrip (c ∷ s) = elim (Bool-cases (blank c)) [
    | inl yes_blank ↦ rw yes_blank (lstrip-rstrip-lstrip s)
    | inr not_blank ↦ rw not_blank (lstrip-cons_stripped c (rstrip s) not_blank)
  ]

  -- Stripping twice is stripping once.
  pub strip-strip : (s : Text) → strip (strip s) ≡ strip s
  unfolding strip
  strip-strip s = rw lstrip-rstrip-lstrip (rstrip-rstrip (lstrip s))

-- `str.lower` on ASCII. No other character has a lower case among the hexadecimal digits, which is
-- all that the program reads in the result.
unfoldable pub lower : Text → Text
lower [] = []
lower (c ∷ s) = (if leb b'A' c && leb c b'Z' then c + 32 else c) ∷ lower s

pub text_eq_comm : (s t : Text) → text_eq s t ≡ text_eq t s
unfolding text_eq
text_eq_comm [] [] = refl
text_eq_comm [] (y ∷ t) = refl
text_eq_comm (x ∷ s) [] = refl
text_eq_comm (x ∷ s) (y ∷ t) = ground (arith, text_eq_comm s t)
