-- ===== src/Shared/Logging/Lines.antt =====
-- What a log line carries.
use mathlib.Core.Path.{subst}
use distr_sys_itrvw.Base.{
  ◌≡◌, refl, ◌∙◌, Bool, true, false, Option, none, some, List, [], ◌∷◌, ◌++◌, inl, inr, Bool-cases,
  if◌then◌else◌,
}
use distr_sys_itrvw.Shared.Text.{Text, codes, text_eq, text_eq→eq}
use distr_sys_itrvw.Shared.Logging.{
  LogRecord, lookup, filter, optional_keys, field_if, copied, exception_field, stamp_fields,
  payload, or_context,
}

abbrev pub is_key : Text → List Text → Bool
is_key key [] = false
is_key key (k ∷ ks) = if text_eq k key then true else is_key key ks

abbrev AllKeys : (Text → Type 0) → List Text → Type 0
AllKeys P [] = Unit
AllKeys P (k ∷ ks) = P k × AllKeys P ks

AllKeys-is_key :
    (P : Text → Type 0) (keys : List Text) (key : Text)
    → AllKeys P keys
    → is_key key keys ≡ true
    → P key
AllKeys-is_key P [] key h e = cc
AllKeys-is_key P (k ∷ ks) key h e = elim (Bool-cases (text_eq k key)) [
  | inl same ↦ subst P (text_eq→eq k key same) h.0
  | inr apart ↦ AllKeys-is_key P ks key h.1 (rw apart at e)
]

-- The first of two values that is there.
abbrev pub first_of : {V : Type 0} → Option V → Option V → Option V
first_of none o = o
first_of (some v) o = some v

module _ {V : Type 0} where
  lookup-append :
      (key : Text) (d d' : List (Text × V))
      → lookup key (d ++ d') ≡ first_of (lookup key d) (lookup key d')
  unfolding lookup
  lookup-append key [] d' = refl
  lookup-append key ((k, v) ∷ d) d' = elim (Bool-cases (text_eq k key)) [
    | inl same ↦ rw same refl
    | inr apart ↦ rw apart (lookup-append key d d')
  ]

  lookup-field :
      (string : Text → V) (key k : Text) (o : Option V)
      → lookup key (field_if string k o) ≡ (if text_eq k key then o else none)
  unfolding lookup
  lookup-field string key k none = elim (Bool-cases (text_eq k key)) [
    | inl e ↦ rw e refl
    | inr e ↦ rw e refl
  ]
  lookup-field string key k (some v) = refl

  found_once : (b : Bool) (o : Option V) → first_of o (if b then o else none) ≡ o
  found_once true none = refl
  found_once false none = refl
  found_once b (some v) = refl

  lookup-copied :
      (string : Text → V) (key : Text) (keys : List Text) (extra : List (Text × V))
      → lookup key (copied string keys extra) ≡ (if is_key key keys then lookup key extra else none)
  unfolding copied lookup
  lookup-copied string key [] extra = refl
  lookup-copied string key (k ∷ keys) extra =
      lookup-append key (field_if string k (lookup k extra)) (copied string keys extra)
      ∙ elim (Bool-cases (text_eq k key)) [
        | inl same ↦ rw (lookup-field string key k (lookup k extra)) (
            rw same (
              rw (text_eq→eq k key same) (
                rw (lookup-copied string key keys extra)
                  (found_once (is_key key keys) (lookup key extra)))))
        | inr apart ↦
            rw (lookup-field string key k (lookup k extra))
              (rw apart (lookup-copied string key keys extra))
      ]

  first_of-none : (o : Option V) → first_of o none ≡ o
  first_of-none none = refl
  first_of-none (some v) = refl

  module _ (string : Text → V) where
    abbrev pub string_of : Option Text → Option V
    string_of none = none
    string_of (some t) = some (string t)

    lookup-exception_field :
        (o : Option Text)
        → (lookup (codes "exception") (exception_field string o) ≡ string_of o)
          × AllKeys (λ k. lookup k (exception_field string o) ≡ none) optional_keys
    unfolding lookup text_eq
    lookup-exception_field none =
        (refl, (refl, (refl, (refl, (refl, (refl, (refl, (refl, (refl, tt)))))))))
    lookup-exception_field (some t) =
        (refl, (refl, (refl, (refl, (refl, (refl, (refl, (refl, (refl, tt)))))))))

    module _ (now service context : Text) (r : LogRecord V) where
      lookup-stamp_fields :
          AllKeys (λ k. lookup k (stamp_fields string now service context r) ≡ none) optional_keys
      unfolding lookup text_eq
      lookup-stamp_fields = (refl, (refl, (refl, (refl, (refl, (refl, (refl, (refl, tt))))))))

      lookup-payload :
          (key : Text)
          → lookup key (stamp_fields string now service context r) ≡ none
          → lookup key (payload string now service context r)
            ≡ first_of
                (if is_key key optional_keys then lookup key r.extra else none)
                (lookup key (exception_field string r.exception))
      unfolding payload
      lookup-payload key unstamped =
          lookup-append key (stamp_fields string now service context r) _
          ∙ rw unstamped (
              lookup-append key (copied string optional_keys r.extra) _
              ∙ rw (lookup-copied string key optional_keys r.extra) refl)

      lookup-optional :
          (key : Text)
          → is_key key optional_keys ≡ true
          → lookup key (payload string now service context r) ≡ lookup key r.extra
      lookup-optional key h =
          lookup-payload key (
            AllKeys-is_key (λ x. lookup x (stamp_fields string now service context r) ≡ none)
              optional_keys key lookup-stamp_fields h)
          ∙ rw h (
              rw
                (AllKeys-is_key (λ k. lookup k (exception_field string r.exception) ≡ none)
                  optional_keys key (lookup-exception_field r.exception).1 h)
                (first_of-none (lookup key r.extra)))

      lookup-exception :
          lookup (codes "exception") (payload string now service context r) ≡ string_of r.exception
      unfolding text_eq lookup
      lookup-exception =
          lookup-payload (codes "exception") refl ∙ (lookup-exception_field r.exception).0

      lookup-stamped :
          (lookup (codes "trace_id") (payload string now service context r)
            ≡ some (string (or_context r.trace_id context)))
          × (lookup (codes "service") (payload string now service context r)
              ≡ some (string service))
          × (lookup (codes "message") (payload string now service context r)
              ≡ some (string r.message))
      unfolding payload lookup text_eq
      lookup-stamped = (refl, refl, refl)

    -- A log line has the trace identifier of the context in which the filter saw its record, the service
    -- of its formatter and the record's message; each optional key has the value that the record has for
    -- it, and is left out if the record has none; and the exception is there if the record has one.
    pub payload-filter :
        (now service context : Text) (r : LogRecord V) (key : Text)
        → is_key key optional_keys ≡ true
        → let line = payload string now service context (filter context r).1 in
          (lookup (codes "trace_id") line ≡ some (string context))
          × (lookup (codes "service") line ≡ some (string service))
          × (lookup (codes "message") line ≡ some (string r.message))
          × (lookup key line ≡ lookup key r.extra)
          × (lookup (codes "exception") line ≡ string_of r.exception)
    unfolding filter
    payload-filter now service context r key h =
        let r' = record r { trace_id = some context } in
        let (trace, name, message) = lookup-stamped now service context r' in
        (
          trace,
          name,
          message,
          lookup-optional now service context r' key h,
          lookup-exception now service context r',
        )
