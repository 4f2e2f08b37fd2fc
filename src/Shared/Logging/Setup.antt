-- ===== src/Shared/Logging/Setup.antt =====
-- Asking for a logger again and again leaves it with one handler.
use distr_sys_itrvw.Base.{
  ◌≡◌, refl, sym, ap, ◌∙◌, true, false, List, [], ◌∷◌, inl, inr, arith, Bool-cases,
}
use distr_sys_itrvw.Shared.Text.{Text, text_eq, text_eq_refl, text_eq_iff, text_eq→eq}
use distr_sys_itrvw.Shared.Logging.{Logger, Loggers, is_configured, with_logger, get_logger}

-- Every configured name has one handler, which stamps that name.
abbrev pub IsConfigured : Loggers → Type 0
IsConfigured s =
    (name : Text)
    → is_configured name s.configured ≡ true
    → (s.logger name).handlers ≡ record { service_name = name } ∷ []

with_logger-handlers :
    (name other : Text) (l : Logger) (loggers : Text → Logger)
    → l.handlers ≡ record { service_name = name } ∷ []
    → (text_eq other name ≡ false → (loggers other).handlers ≡ record { service_name = other } ∷ [])
    → (with_logger name l loggers other).handlers ≡ record { service_name = other } ∷ []
with_logger-handlers name other l loggers h k = elim (Bool-cases (text_eq other name)) [
  | inl same ↦
      rw same (h ∙ ap (λ n. record { service_name = n } ∷ []) (sym (text_eq→eq other name same)))
  | inr apart ↦ rw apart (k apart)
]

configured_other :
    (name other : Text) (names : List Text)
    → text_eq other name ≡ false
    → is_configured other (name ∷ names) ≡ true
    → is_configured other names ≡ true
unfolding is_configured
configured_other name other names apart h =
    ground (arith, text_eq_iff name other, text_eq_iff other name)

-- If every configured service has a logger with one handler, which stamps the service's name on the lines,
-- then so it is after `get_logger` was called for any service, and the logger that it returns is at the
-- level INFO, does not propagate, and has one such handler.
pub get_logger-IsConfigured :
    (name : Text) (s : Loggers)
    → IsConfigured s
    → IsConfigured (get_logger name s).1
      × ((get_logger name s).0 ≡ record {
        info = true;
        propagate = false;
        handlers = record { service_name = name } ∷ [];
      })
      × (is_configured name (get_logger name s).1.configured ≡ true)
unfolding get_logger
get_logger-IsConfigured name s h = elim (Bool-cases (is_configured name s.configured)) [
  | inl old ↦ rw old (
    λ other hc. with_logger-handlers name other _ s.logger (h name old) (λ _. h other hc),
    ap (λ hs. record { info = true; propagate = false; handlers = hs }) (h name old),
    old,
  )
  | inr new ↦ rw new (
    λ other hc.
        with_logger-handlers name other _ s.logger refl
          (λ apart. h other (configured_other name other s.configured apart hc)),
    refl,
    unfold is_configured in rw (text_eq_refl name) refl,
  )
]
