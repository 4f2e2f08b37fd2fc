-- ===== src/Shared/Contracts/Wire.antt =====
-- src/event_ledger_common/contracts.py: a payload as JSON, written by the serializers of the models and
-- read back by the validation of the service that receives it.
use distr_sys_itrvw.Base.{◌≡◌, refl, true, false, Option, some, arith}
use distr_sys_itrvw.Base.Lists.{length}
use distr_sys_itrvw.Shared.Text.{Text}
use distr_sys_itrvw.Shared.Time.{DateTime, format_timestamp}
use distr_sys_itrvw.Shared.Time.Utc.{IsUtc, require_aware_utc_self}
use distr_sys_itrvw.Shared.Time.Print.{utc_text, format_timestamp-utc_text}
use distr_sys_itrvw.Shared.Decimal.{Decimal, decimal_positive}
use distr_sys_itrvw.Shared.Contracts.{
  Platform, type_value, type_of_value, EventPayload, validation_error, Result, ok, err, timed,
  ◌>>=◌, validate, fields_valid, checked,
}
use distr_sys_itrvw.Shared.Contracts.Valid.{IsPayload, validate_self, type_of_value-type_value}

-- What the services use of floats and of Pydantic's reading of JSON: `float(value)` of a `Decimal`, the
-- `Decimal` that a JSON number is read as, and the datetime that a text is read as.
pub record Encoding : Type 1 where
  pub Float : Type 0
  pub float_of : Decimal → Float
  pub decimal_of_float : Float → Decimal
  pub read_datetime : Text → Option DateTime

-- The documented behaviour that the theorems rest on: the written form of a datetime in UTC is read back.
pub record IsEncoding (w : Encoding) : Type 1 where
  pub read_datetime-utc_text : (v : DateTime) → IsUtc v → w.read_datetime (utc_text v) ≡ some v

-- The JSON of a payload: the object with the fields `eventId`, `accountId`, `type`, `amount`,
-- `currency`, `eventTimestamp` and `metadata`.
pub record PayloadJson (M F : Type 0) : Type 0 where
  pub event_id : Text
  pub account_id : Text
  pub type : Text
  pub amount : F
  pub currency : Text
  pub event_timestamp : Text
  pub metadata : M

module _ (p : Platform) (w : Encoding) where
  open p use {Metadata}
  open w use {Float}

  -- `serialize_amount` and `serialize_balance`
  unfoldable pub serialize_amount : Decimal → Float
  serialize_amount value = w.float_of value

  -- The object, given the text of the timestamp.
  unfoldable pub payload_json : EventPayload Metadata → Text → PayloadJson Metadata Float
  unfolding serialize_amount
  payload_json e at = record {
    event_id = e.event_id;
    account_id = e.account_id;
    type = type_value e.type;
    amount = serialize_amount e.amount;
    currency = e.currency;
    event_timestamp = at;
    metadata = e.metadata;
  }

  -- `model_dump(by_alias=True, mode="json")` of a payload.
  unfoldable pub model_dump : EventPayload Metadata → Result (PayloadJson Metadata Float)
  model_dump e = do at ← timed (format_timestamp e.event_timestamp); ok (payload_json e at)

  -- `EventPayload` from the JSON of a request.
  unfoldable pub model_validate : PayloadJson Metadata Float → Result (EventPayload Metadata)
  model_validate j = do
    type ← checked (type_of_value j.type)
    at ← checked (w.read_datetime j.event_timestamp)
    validate p (record {
      event_id = j.event_id;
      account_id = j.account_id;
      type = type;
      amount = w.decimal_of_float j.amount;
      currency = j.currency;
      event_timestamp = at;
      metadata = j.metadata;
    })

  -- The payload with the amount that a float makes of it.
  abbrev pub rounded : EventPayload Metadata → EventPayload Metadata
  rounded e = record e { amount = w.decimal_of_float (w.float_of e.amount) }

  -- `model_dump` of a payload whose timestamp is in UTC.
  unfoldable pub sent : EventPayload Metadata → PayloadJson Metadata Float
  sent e = payload_json e (utc_text e.event_timestamp)

  pub model_dump-sent :
      (e : EventPayload Metadata) → IsUtc e.event_timestamp → model_dump e ≡ ok (sent e)
  unfolding model_dump sent
  model_dump-sent e h = rw (format_timestamp-utc_text e.event_timestamp h) refl

module _ (p : Platform) (w : Encoding) where
  open p use {Metadata}

  -- An amount that stays positive keeps the payload valid.
  pub rounded-IsPayload :
      (e : EventPayload Metadata)
      → IsPayload p e
      → decimal_positive (rounded p w e).amount ≡ true
      → IsPayload p (rounded p w e)
  rounded-IsPayload e h positive = record {
    event_id = h.event_id;
    event_id_length = h.event_id_length;
    account_id = h.account_id;
    account_id_length = h.account_id_length;
    amount = positive;
    currency = h.currency;
    folded = h.folded;
    event_timestamp = h.event_timestamp;
    metadata = h.metadata;
  }

  validate_zero :
      (e : EventPayload Metadata)
      → IsUtc e.event_timestamp
      → decimal_positive e.amount ≡ false
      → validate p e ≡ err validation_error
  unfolding fields_valid
  validate_zero e h none_left =
      unfold validate in rw (require_aware_utc_self e.event_timestamp h) (ground arith)

  module _ (laws : IsEncoding w) where
    pub model_validate-sent :
        (e : EventPayload Metadata)
        → IsPayload p e
        → length e.currency ≡ 3
        → decimal_positive (rounded p w e).amount ≡ true
        → model_validate p w (sent p w e) ≡ ok (rounded p w e)
    unfolding sent payload_json serialize_amount
    model_validate-sent e h three positive =
        unfold model_validate in
        rw (type_of_value-type_value e.type) (
          rw (laws.read_datetime-utc_text e.event_timestamp h.event_timestamp)
            (validate_self p (rounded p w e) (rounded-IsPayload e h positive) three))

    -- An amount that is rounded to nothing is refused.
    pub model_validate-sent_refused :
        (e : EventPayload Metadata)
        → IsUtc e.event_timestamp
        → decimal_positive (rounded p w e).amount ≡ false
        → model_validate p w (sent p w e) ≡ err validation_error
    unfolding sent payload_json serialize_amount
    model_validate-sent_refused e h none_left =
        unfold model_validate in
        rw (type_of_value-type_value e.type) (
          rw (laws.read_datetime-utc_text e.event_timestamp h)
            (validate_zero (rounded p w e) h none_left))

    -- Where texts of datetimes in UTC are read back, a validated payload whose currency has three
    -- characters is written without an error, and what is
    -- written is read as the payload with its amount rounded to a float, if that is still positive; so
    -- an amount that a float keeps is read back unchanged.
    pub model_validate-model_dump :
        (e : EventPayload Metadata)
        → IsPayload p e
        → length e.currency ≡ 3
        → decimal_positive (rounded p w e).amount ≡ true
        → (model_dump p w e >>= model_validate p w) ≡ ok (rounded p w e)
    model_validate-model_dump e h three positive =
        rw (model_dump-sent p w e h.event_timestamp) (model_validate-sent e h three positive)
