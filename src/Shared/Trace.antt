-- ===== src/Shared/Trace.antt =====
-- src/event_ledger_common/trace.py: trace context headers and the context variable. The identifiers that
-- `uuid4().hex` draws are arguments (`fresh`).
pub mod Identifier
pub mod Propagation
use distr_sys_itrvw.Base.{
  ℕ, zero, suc, Bool, true, false, not, ◌&&◌, ◌||◌, Option, none, some, [], ◌∷◌, ◌++◌, leb, ◌==◌,
  if◌then◌else◌,
}
use distr_sys_itrvw.Base.Lists.{take}
use distr_sys_itrvw.Shared.Text.{Text, codes, text_eq, is_space, strip, lower}

abbrev pub trace_header : Text
trace_header = codes "X-Trace-Id"

abbrev pub traceparent_header : Text
traceparent_header = codes "traceparent"

-- `[0-9a-f]`
unfoldable pub is_hex : ℕ → Bool
is_hex c = (leb b'0' c && leb c b'9') || (leb b'a' c && leb c b'f')

-- `[0-9a-f]{n}` at the front of a text: what it matches, and what is left.
unfoldable pub hex_run : ℕ → Text → Option (Text × Text)
unfolding is_hex
hex_run zero s = some ([], s)
hex_run (suc n) [] = none
hex_run (suc n) (c ∷ s) =
    let rest = hex_run n s in
    if is_hex c then elim rest [ none ↦ none | some (run, left) ↦ some (c ∷ run, left) ] else none

-- `-` at the front of a text.
unfoldable pub dash : Text → Option Text
dash [] = none
dash (c ∷ s) = if c == b'-' then some s else none

infixl 5 ◌>>=◌
abbrev pub ◌>>=◌ {ℓ κ} : {A : Type ℓ} {B : Type κ} → Option A → (A → Option B) → Option B
none >>= f = none
some a >>= f = f a

-- `$`
unfoldable pub at_end : Text → Option (Unit {0})
at_end [] = some tt
at_end (c ∷ s) = none

-- `_TRACEPARENT_PATTERN.match`, with the group `trace_id`. The text has been stripped, so `$` has no
-- final newline to pass over.
unfoldable pub match_traceparent : Text → Option Text
unfolding hex_run dash at_end
match_traceparent s = do
  (version, s₁) ← hex_run 2 s
  s₂ ← dash s₁
  (trace_id, s₃) ← hex_run 32 s₂
  s₄ ← dash s₃
  (span_id, s₅) ← hex_run 16 s₄
  s₆ ← dash s₅
  (trace_flags, s₇) ← hex_run 2 s₆
  ended ← at_end s₇
  some trace_id

abbrev pub zeros : ℕ → Text
zeros zero = []
zeros (suc n) = b'0' ∷ zeros n

-- `value or ""`
abbrev pub or_empty : Option Text → Text
or_empty none = []
or_empty (some s) = s

unfoldable pub checked_trace_id : Option Text → Option Text
checked_trace_id none = none
checked_trace_id (some trace_id) = if text_eq trace_id (zeros 32) then none else some trace_id

unfoldable pub trace_id_from_traceparent : Option Text → Option Text
unfolding match_traceparent checked_trace_id
trace_id_from_traceparent value =
    checked_trace_id (match_traceparent (lower (strip is_space (or_empty value))))

-- `normalized or new_trace_id()`
unfoldable pub or_fresh : Text → Text → Text
or_fresh [] fresh = fresh
or_fresh (c ∷ s) fresh = c ∷ s

unfoldable pub trace_id_from_header : Text → Option Text → Text
unfolding or_fresh
trace_id_from_header fresh value = or_fresh (strip is_space (or_empty value)) fresh

-- `if traceparent_trace_id:` also passes over an empty text.
unfoldable pub or_header : Text → Option Text → Option Text → Text
unfolding trace_id_from_header
or_header fresh trace_id none = trace_id_from_header fresh trace_id
or_header fresh trace_id (some []) = trace_id_from_header fresh trace_id
or_header fresh trace_id (some (c ∷ s)) = c ∷ s

unfoldable pub trace_id_from_headers : Text → Option Text → Option Text → Text
unfolding or_header
trace_id_from_headers fresh trace_id traceparent =
    or_header fresh trace_id (trace_id_from_traceparent traceparent)

-- `re.fullmatch(r"[0-9a-f]{32}", s)`
abbrev pub nothing_left : Option (Text × Text) → Bool
nothing_left none = false
nothing_left (some (run, [])) = true
nothing_left (some (run, c ∷ s)) = false

unfoldable pub is_trace_id : Text → Bool
unfolding hex_run
is_trace_id s = nothing_left (hex_run 32 s)

unfoldable pub traceparent_from_trace_id : Text → Text → Option Text
unfolding is_trace_id
traceparent_from_trace_id fresh trace_id =
    let normalized = lower trace_id in
    if not (is_trace_id normalized) || text_eq normalized (zeros 32)
    then none
    else some (codes "00-" ++ (normalized ++ (codes "-" ++ (take 16 fresh ++ codes "-01"))))

-- The context variable of a task, by its value.
abbrev pub no_trace : Text
no_trace = codes "-"

unfoldable pub get_trace_id : Text → Text
get_trace_id context = context

-- The token, from which the value before can be restored, and the new value.
unfoldable pub set_trace_id : Text → Text → Text × Text
set_trace_id trace_id context = (context, trace_id)

unfoldable pub reset_trace_id : Text → Text → Text
reset_trace_id token context = token
