-- ===== src/Shared/Contracts/Valid.antt =====
-- What validation guarantees, and that a validated payload passes it again unchanged.
use distr_sys_itrvw.Base.{◌≤◌, ◌≡◌, refl, ap, ◌∙◌, Bool, true, false, arith, ◌==◌, some}
use mathlib.Core.Path.{subst}
use cubical.Cubical.Foundations.HLevels.{IsSet-Retract}
use distr_sys_itrvw.Base.Lists.{length}
use distr_sys_itrvw.Shared.Text.{Text, strip, strip-strip, text_eq}
use distr_sys_itrvw.Shared.Time.{DateTime, Timed, TimeError, require_aware_utc}
use distr_sys_itrvw.Shared.Time.Utc.{
  IsDateTime, IsUtc, require_aware_utc_self, require_aware_utc-IsUtc,
}
use distr_sys_itrvw.Shared.Decimal.{decimal_positive}
use distr_sys_itrvw.Shared.Contracts.{
  Platform, IsPlatform, EventPayload, ok, err, validation_error, collected, validate, fields_valid,
  normalized, TransactionType, credit, debit, type_value, type_of_value,
}

-- A validated payload. Its currency has been folded, which may have changed its length.
pub record IsPayload (p : Platform) (e : EventPayload p.Metadata) : Type 0 where
  pub event_id : strip p.blank e.event_id ≡ e.event_id
  pub event_id_length : 1 ≤ length e.event_id
  pub account_id : strip p.blank e.account_id ≡ e.account_id
  pub account_id_length : 1 ≤ length e.account_id
  pub amount : decimal_positive e.amount ≡ true
  pub currency : strip p.blank e.currency ≡ e.currency
  pub folded : p.upper e.currency ≡ e.currency
  pub event_timestamp : IsUtc e.event_timestamp
  pub metadata : p.strip_keys e.metadata ≡ e.metadata

pub type_of_value-type_value : (t : TransactionType) → type_of_value (type_value t) ≡ some t
unfolding type_of_value type_value text_eq
type_of_value-type_value credit = refl
type_of_value-type_value debit = refl

ok-injective : {A : Type 0} {a b : A} → ok a ≡ ok b → a ≡ b
ok-injective e = cc

collected-inv :
    {A : Type 0} (b : Bool) (r : Timed DateTime) (build : DateTime → A) {a : A}
    → collected b r build ≡ ok a
    → (at : DateTime) × (b ≡ true) × (r ≡ Timed.ok at) × (build at ≡ a)
collected-inv true (Timed.ok at) build e = (at, refl, refl, ok-injective e)
collected-inv false (Timed.ok at) build e = cc
collected-inv b (Timed.err TimeError.value_error) build e = cc
collected-inv b (Timed.err TimeError.overflow_error) build e = cc

module _ (p : Platform) where
  fields_valid-facts :
      (raw : EventPayload p.Metadata)
      → fields_valid p raw ≡ true
      → (1 ≤ length (strip p.blank raw.event_id))
        × (1 ≤ length (strip p.blank raw.account_id))
        × (decimal_positive raw.amount ≡ true)
  unfolding fields_valid
  fields_valid-facts raw e = ground arith

  fields_valid_self :
      (e : EventPayload p.Metadata) → IsPayload p e → fields_valid p e ≡ (length e.currency == 3)
  unfolding fields_valid
  fields_valid_self e h = rw (h.event_id, h.account_id, h.currency) (ground (arith, h.amount))

  normalized_self :
      (e : EventPayload p.Metadata) → IsPayload p e → normalized p e e.event_timestamp ≡ e
  unfolding normalized
  normalized_self e h = λ i. record e {
    event_id = h.event_id i;
    account_id = h.account_id i;
    currency = folded_currency i;
    metadata = h.metadata i;
  }
    where
      folded_currency : p.upper (strip p.blank e.currency) ≡ e.currency
      folded_currency = ap p.upper h.currency ∙ h.folded

  -- A well-formed payload whose currency has three characters passes validation unchanged.
  pub validate_self :
      (e : EventPayload p.Metadata) → IsPayload p e → length e.currency ≡ 3 → validate p e ≡ ok e
  validate_self e h three =
      unfold validate in
      rw (fields_valid_self e h) (
        rw three (
          rw (require_aware_utc_self e.event_timestamp h.event_timestamp)
            (ap ok (normalized_self e h))))

  -- With any other length a well-formed payload is refused.
  pub validate_refuses :
      (e : EventPayload p.Metadata)
      → IsPayload p e
      → (length e.currency == 3) ≡ false
      → validate p e ≡ err validation_error
  validate_refuses e h other =
      unfold validate in
      rw (fields_valid_self e h)
        (rw other (rw (require_aware_utc_self e.event_timestamp h.event_timestamp) refl))

module _ (p : Platform) (laws : IsPlatform p) where
  normalized-IsPayload :
      (raw : EventPayload p.Metadata) (at : DateTime)
      → fields_valid p raw ≡ true
      → IsUtc at
      → IsPayload p (normalized p raw at)
  unfolding normalized
  normalized-IsPayload raw at valid utc =
      let facts = fields_valid-facts p raw valid in
      record {
        event_id = strip-strip p.blank raw.event_id;
        event_id_length = facts.0;
        account_id = strip-strip p.blank raw.account_id;
        account_id_length = facts.1;
        amount = facts.2;
        currency = laws.strip-upper raw.currency;
        folded = laws.upper-upper (strip p.blank raw.currency);
        event_timestamp = utc;
        metadata = laws.strip_keys-strip_keys raw.metadata;
      }

  -- A payload that validation returns, from one with a valid datetime, has identifiers that are
  -- stripped and not empty, a positive amount, a currency that is stripped and in upper case,
  -- a valid datetime in UTC, and metadata with stripped keys.
  pub validate-IsPayload :
      (raw : EventPayload p.Metadata) {e : EventPayload p.Metadata}
      → IsDateTime raw.event_timestamp
      → validate p raw ≡ ok e
      → IsPayload p e
  unfolding validate
  validate-IsPayload raw h e =
      let (at, valid, aware, built) =
        collected-inv (fields_valid p raw) (require_aware_utc raw.event_timestamp)
          (normalized p raw) e in
      subst (IsPayload p) built
        (normalized-IsPayload raw at valid (require_aware_utc-IsUtc raw.event_timestamp h aware).0)

texts_set : IsSet Text
texts_set = hlevel

-- Metadata are a set, since they are read back from texts.
pub Metadata-set : (p : Platform) → IsPlatform p → IsSet (p.Metadata)
Metadata-set p laws = IsSet-Retract p.dumps p.loads laws.loads-dumps texts_set
