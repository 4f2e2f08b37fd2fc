-- ===== src/Shared/Trace/Identifier.antt =====
-- The trace identifiers that are read from a header.
use distr_sys_itrvw.Base.{
  ℕ, zero, suc, ◌≡◌, refl, ap, true, false, Option, none, some, [], ◌∷◌, Bool-cases, inl, inr,
  Option-cases,
}
use mathlib.Core.Path.{subst}
use distr_sys_itrvw.Base.Lists.{length}
use distr_sys_itrvw.Shared.Text.{Text, text_eq, strip, lower, is_space}
use distr_sys_itrvw.Shared.Trace.{
  is_hex, hex_run, dash, at_end, match_traceparent, zeros, checked_trace_id,
  trace_id_from_traceparent, or_empty, ◌>>=◌,
}

-- A text of hexadecimal digits.
abbrev pub AllHex : Text → Type 0
AllHex [] = Unit {0}
AllHex (c ∷ s) = (is_hex c ≡ true) × AllHex s

some_inj : {A : Type 0} {a b : A} → some a ≡ some b → a ≡ b
some_inj e = cc

not_found : {A : Type 0} {a : A} → none ≡ some a → ⊥
not_found e = cc

bind-elim :
    {A B : Type 0} {C : Type 0} (o : Option A) (f : A → Option B) {b : B}
    → (o >>= f) ≡ some b
    → ((a : A) → o ≡ some a → f a ≡ some b → C)
    → C
bind-elim none f e step = absurd (not_found e)
bind-elim (some a) f e step = step a refl e

abbrev IsRun : ℕ → Text → Type 0
IsRun n run = AllHex run × (length run ≡ n)

hex_run-IsRun :
    (n : ℕ) (s : Text) {found : Text × Text} → hex_run n s ≡ some found → IsRun n found.0
unfolding hex_run
hex_run-IsRun zero s e = subst (λ f. IsRun zero f.0) (some_inj e) (tt, refl)
hex_run-IsRun (suc n) [] e = cc
hex_run-IsRun (suc n) (c ∷ s) e = elim (Bool-cases (is_hex c)) [
  | inr other ↦ absurd (not_found (rw other at e))
  | inl hex ↦ elim (Option-cases (hex_run n s)) [
    | inl stuck ↦ absurd (not_found (rw hex at (rw stuck at e)))
    | inr (found, h) ↦
        let (all, len) = hex_run-IsRun n s h in
        subst (λ f. IsRun (suc n) f.0) (some_inj (rw hex at (rw h at e))) ((hex, all), ap suc len)
  ]
]

match_traceparent-IsRun :
    (s : Text) {trace_id : Text} → match_traceparent s ≡ some trace_id → IsRun 32 trace_id
unfolding match_traceparent
match_traceparent-IsRun s e = bind-elim (hex_run 2 s) _ e (λ a _ e₁.
    bind-elim (dash a.1) _ e₁ (λ s₂ _ e₂. bind-elim (hex_run 32 s₂) _ e₂ (λ found h e₃.
      bind-elim (dash found.1) _ e₃ (λ s₄ _ e₄. bind-elim (hex_run 16 s₄) _ e₄ (λ b _ e₅.
        bind-elim (dash b.1) _ e₅ (λ s₆ _ e₆. bind-elim (hex_run 2 s₆) _ e₆ (λ c _ e₇.
          bind-elim (at_end c.1) _ e₇
            (λ _ _ e₈. subst (IsRun 32) (some_inj e₈) (hex_run-IsRun 32 s₂ h)))))))))

checked_trace_id-IsRun :
    (o : Option Text) {trace_id : Text}
    → ((run : Text) → o ≡ some run → IsRun 32 run)
    → checked_trace_id o ≡ some trace_id
    → AllHex trace_id × (length trace_id ≡ 32) × (text_eq trace_id (zeros 32) ≡ false)
unfolding checked_trace_id
checked_trace_id-IsRun none h e = absurd (not_found e)
checked_trace_id-IsRun (some run) h e = elim (Bool-cases (text_eq run (zeros 32))) [
  | inl zero_id ↦ absurd (not_found (rw zero_id at e))
  | inr other ↦
      subst (λ t. AllHex t × (length t ≡ 32) × (text_eq t (zeros 32) ≡ false))
        (some_inj (rw other at e)) ((h run refl).0, (h run refl).1, other)
]

-- A trace identifier that is read from a `traceparent` header has 32 hexadecimal digits, which are not
-- all zero.
pub trace_id_from_traceparent-AllHex :
    (value : Option Text) {trace_id : Text}
    → trace_id_from_traceparent value ≡ some trace_id
    → AllHex trace_id × (length trace_id ≡ 32) × (text_eq trace_id (zeros 32) ≡ false)
unfolding trace_id_from_traceparent
trace_id_from_traceparent-AllHex value e =
    let s = lower (strip is_space (or_empty value)) in
    checked_trace_id-IsRun (match_traceparent s) (λ run. match_traceparent-IsRun s) e
