-- ===== src/Shared/Trace/Propagation.antt =====
-- A trace identifier that one service puts into a header is the one that the next reads from it.
use distr_sys_itrvw.Base.{
  ℕ, zero, suc, ◌≤◌, ◌≡◌, refl, ap, ◌∙◌, true, false, Option, some, [], ◌∷◌, ◌++◌, arith,
}
use mathlib.Core.Path.{subst}
use mathlib.Core.List.{append-nil}
use distr_sys_itrvw.Base.Lists.{length, take}
use distr_sys_itrvw.Shared.Text.{
  Text, codes, text_eq, strip, lstrip, rstrip, cons_stripped, lower, is_space,
}
use distr_sys_itrvw.Shared.Trace.{
  is_hex, hex_run, dash, at_end, match_traceparent, zeros, checked_trace_id, is_trace_id,
  nothing_left, or_header, trace_id_from_traceparent, trace_id_from_headers,
  traceparent_from_trace_id,
}
use distr_sys_itrvw.Shared.Trace.Identifier.{AllHex}

hex_run-append : (s t : Text) → AllHex s → hex_run (length s) (s ++ t) ≡ some (s, t)
unfolding hex_run
hex_run-append [] t h = refl
hex_run-append (c ∷ s) t (hex, all) = rw hex (rw (hex_run-append s t all) refl)

lower-append : (s t : Text) → lower (s ++ t) ≡ lower s ++ lower t
unfolding lower
lower-append [] t = refl
lower-append (c ∷ s) t = rw (lower-append s t) refl

lower_hex : (s : Text) → AllHex s → lower s ≡ s
unfolding lower is_hex
lower_hex [] h = refl
lower_hex (c ∷ s) (hex, all) = ground (arith, lower_hex s all)

rstrip-append :
    (s : Text) (c : ℕ) (t : Text)
    → rstrip is_space (c ∷ t) ≡ c ∷ t
    → rstrip is_space (s ++ c ∷ t) ≡ s ++ c ∷ t
unfolding rstrip cons_stripped
rstrip-append [] c t h = h
rstrip-append (x ∷ []) c t h = rw h refl
rstrip-append (x ∷ y ∷ s) c t h = rw (rstrip-append (y ∷ s) c t h) refl

take-AllHex : (n : ℕ) (s : Text) → AllHex s → AllHex (take n s)
take-AllHex zero s h = tt
take-AllHex (suc n) [] h = tt
take-AllHex (suc n) (c ∷ s) (hex, all) = (hex, take-AllHex n s all)

length-take_full : (n : ℕ) (s : Text) → n ≤ length s → length (take n s) ≡ n
length-take_full zero s h = refl
length-take_full (suc n) [] h = absurd (omega (arith, h))
length-take_full (suc n) (c ∷ s) h = ap suc (length-take_full n s (omega (arith, h)))

-- A trace identifier of the W3C form.
pub record IsTraceId (s : Text) : Type 0 where
  pub hex : AllHex s
  pub digits : length s ≡ 32
  pub not_zero : text_eq s (zeros 32) ≡ false

-- `n` digits in front are taken, whatever follows.
hex_run-digits : (n : ℕ) (s t : Text) → AllHex s → length s ≡ n → hex_run n (s ++ t) ≡ some (s, t)
hex_run-digits n s t h e = subst (λ n. hex_run n (s ++ t) ≡ some (s, t)) e (hex_run-append s t h)

is_trace_id-IsTraceId : (s : Text) → IsTraceId s → is_trace_id s ≡ true
is_trace_id-IsTraceId s h =
    let found =
      subst (λ t. hex_run 32 t ≡ some (s, [])) (append-nil s)
        (hex_run-digits 32 s [] h.hex h.digits) in
    unfold is_trace_id in ap nothing_left found

-- The header that is written.
abbrev header : Text → Text → Text
header s span = codes "00-" ++ (s ++ (codes "-" ++ (span ++ codes "-01")))

traceparent_from_trace_id-header :
    (fresh s : Text)
    → IsTraceId s
    → traceparent_from_trace_id fresh s ≡ some (header s (take 16 fresh))
unfolding traceparent_from_trace_id
traceparent_from_trace_id-header fresh s h =
    rw (lower_hex s h.hex) (rw (is_trace_id-IsTraceId s h) (rw h.not_zero refl))

match_traceparent-header :
    (s span : Text)
    → AllHex s
    → length s ≡ 32
    → AllHex span
    → length span ≡ 16
    → match_traceparent (header s span) ≡ some s
unfolding match_traceparent dash at_end hex_run is_hex
match_traceparent-header s span hs es hp ep =
    rw (hex_run-digits 32 s (codes "-" ++ (span ++ codes "-01")) hs es)
      (rw (hex_run-digits 16 span (codes "-01") hp ep) refl)

strip-header : (s span : Text) → strip is_space (header s span) ≡ header s span
unfolding strip lstrip is_space
strip-header s span =
    let end : rstrip is_space (codes "-01") ≡ codes "-01" =
      unfold rstrip cons_stripped is_space in refl in
    rstrip-append (codes "00-" ++ s) b'-' (span ++ codes "-01")
      (rstrip-append (b'-' ∷ span) b'-' (codes "01") end)

lower-header : (s span : Text) → AllHex s → AllHex span → lower (header s span) ≡ header s span
unfolding lower
lower-header s span hs hp =
    rw (lower-append s (codes "-" ++ (span ++ codes "-01")))
      (rw (lower_hex s hs) (rw (lower-append span (codes "-01")) (rw (lower_hex span hp) refl)))

trace_id_from_traceparent-header :
    (s span : Text)
    → IsTraceId s
    → AllHex span
    → length span ≡ 16
    → trace_id_from_traceparent (some (header s span)) ≡ some s
unfolding trace_id_from_traceparent checked_trace_id
trace_id_from_traceparent-header s span h hp ep =
    ap (λ t. checked_trace_id (match_traceparent (lower t))) (strip-header s span)
    ∙ ap (λ t. checked_trace_id (match_traceparent t)) (lower-header s span h.hex hp)
    ∙ ap checked_trace_id (match_traceparent-header s span h.hex h.digits hp ep)
    ∙ rw h.not_zero refl

trace_id_from_headers_found :
    (fresh s : Text) (x_trace_id traceparent : Option Text)
    → trace_id_from_traceparent traceparent ≡ some s
    → length s ≡ 32
    → trace_id_from_headers fresh x_trace_id traceparent ≡ s
unfolding trace_id_from_headers or_header
trace_id_from_headers_found fresh [] x_trace_id traceparent e digits =
    absurd (omega (arith, digits))
trace_id_from_headers_found fresh (c ∷ s) x_trace_id traceparent e digits =
    ap (or_header fresh x_trace_id) e

-- A trace identifier of 32 hexadecimal digits in lower case, not all zero, is read back from the header
-- `traceparent` that is made of it, whatever the span identifier that is drawn, if that has at least
-- sixteen hexadecimal digits, and whatever stands in the header `X-Trace-Id`: so the Account Service
-- works under the trace identifier of the Gateway.
pub traceparent-propagates :
    (fresh fresh' s : Text) (x_trace_id : Option Text)
    → IsTraceId s
    → AllHex fresh
    → 16 ≤ length fresh
    → trace_id_from_headers fresh' x_trace_id (traceparent_from_trace_id fresh s) ≡ s
traceparent-propagates fresh fresh' s x_trace_id h hf enough =
    let span = take 16 fresh in
    trace_id_from_headers_found fresh' s x_trace_id (traceparent_from_trace_id fresh s)
      (ap trace_id_from_traceparent (traceparent_from_trace_id-header fresh s h)
        ∙ trace_id_from_traceparent-header s span h (take-AllHex 16 fresh hf)
            (length-take_full 16 fresh enough))
      h.digits
