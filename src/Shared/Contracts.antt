-- ===== src/Shared/Contracts.antt =====
-- src/event_ledger_common/contracts.py: the payload that both services exchange and its validation,
-- and the records that they answer with. What Pydantic, `json`, `str` and `Decimal`'s text do is a
-- `Platform`.
pub mod Valid
pub mod Wire
pub mod Records
pub mod Details
pub mod Samples
pub mod Payloads
use distr_sys_itrvw.Base.{
  ℕ, ◌≡◌, Bool, true, false, ◌&&◌, Option, none, some, List, [], ◌∷◌, leb, ◌==◌, if◌then◌else◌,
}
use distr_sys_itrvw.Base.Lists.{length}
use distr_sys_itrvw.Shared.Text.{Text, codes, text_eq, strip}
use distr_sys_itrvw.Shared.Time.{DateTime, TimeError, Timed, require_aware_utc}
use distr_sys_itrvw.Shared.Decimal.{Decimal, decimal_positive}

pub data TransactionType : Type 0 where
  credit debit : TransactionType

-- The values of the enumeration, which `use_enum_values` stores in the models.
unfoldable pub type_value : TransactionType → Text
type_value credit = codes "CREDIT"
type_value debit = codes "DEBIT"

unfoldable pub type_of_value : Text → Option TransactionType
type_of_value s =
    if text_eq s (codes "CREDIT")
    then some credit
    else if text_eq s (codes "DEBIT")
    then some debit
    else none

-- What the services use of code that is not theirs. `Metadata` is the type of JSON objects, which
-- `json.dumps(value or {}, ...)` writes and `json.loads` reads; `blank` says which characters Pydantic
-- strips, from texts and, as `strip_keys`, from the keys of an object; `upper` is `str.upper`; `places` is the number of decimal places of the smallest unit.
pub record Platform : Type 1 where
  pub Metadata : Type 0
  pub metadata_eq : Metadata → Metadata → Bool
  pub dumps : Metadata → Text
  pub loads : Text → Metadata
  pub blank : ℕ → Bool
  pub strip_keys : Metadata → Metadata
  pub upper : Text → Text
  pub decimal_text : Decimal → Text
  pub decimal_of : Text → Decimal
  pub places : ℕ

-- The documented behaviour that the theorems rest on: JSON and `Decimal` texts are read back, case
-- folding is done once, and it leaves a stripped text stripped.
pub record IsPlatform (p : Platform) : Type 1 where
  pub loads-dumps : (m : p.Metadata) → p.loads (p.dumps m) ≡ m
  pub metadata_eq-self : (m : p.Metadata) → p.metadata_eq m m ≡ true
  pub strip_keys-strip_keys : (m : p.Metadata) → p.strip_keys (p.strip_keys m) ≡ p.strip_keys m
  pub upper-upper : (s : Text) → p.upper (p.upper s) ≡ p.upper s
  pub strip-upper :
      (s : Text) → strip p.blank (p.upper (strip p.blank s)) ≡ p.upper (strip p.blank s)
  pub decimal_of-text : (d : Decimal) → p.decimal_of (p.decimal_text d) ≡ d

pub record EventPayload (M : Type 0) : Type 0 where
  pub event_id : Text
  pub account_id : Text
  pub type : TransactionType
  pub amount : Decimal
  pub currency : Text
  pub event_timestamp : DateTime
  pub metadata : M

pub record TransactionRecord (M : Type 0) : Type 0 where
  pub event : EventPayload M
  pub open event use *
  pub applied_at : DateTime

pub data EventStatus : Type 0 where
  applied : EventStatus

pub record EventRecord (M : Type 0) : Type 0 where
  pub event : EventPayload M
  pub open event use *
  pub status : EventStatus
  pub created_at : DateTime
  pub updated_at : DateTime

pub record BalanceResponse : Type 0 where
  pub account_id : Text
  pub balance : Decimal
  pub currency : Option Text

pub record AccountDetailsResponse (M : Type 0) : Type 0 where
  pub balance_response : BalanceResponse
  pub recent_transactions : List (TransactionRecord M)

-- The exceptions that a repository or a model raises.
pub data Failure : Type 0 where
  duplicate_conflict : Text → Failure
  currency_mismatch : Text → Text → Failure
  validation_error value_error overflow_error integrity_error runtime_error : Failure

pub data Result (A : Type 0) : Type 0 where
  ok : A → Result A
  err : Failure → Result A

infixl 5 ◌>>=◌
abbrev pub ◌>>=◌ : {A B : Type 0} → Result A → (A → Result B) → Result B
ok a >>= f = f a
err e >>= f = err e

abbrev pub failure_of : TimeError → Failure
failure_of TimeError.value_error = value_error
failure_of TimeError.overflow_error = overflow_error

abbrev pub timed : {A : Type 0} → Timed A → Result A
timed (Timed.ok a) = ok a
timed (Timed.err e) = err (failure_of e)

-- A field that Pydantic reads, or refuses.
abbrev pub checked : {A : Type 0} → Option A → Result A
checked none = err validation_error
checked (some a) = ok a

-- Pydantic turns the `ValueError` of a validator into a `ValidationError`, and lets any other exception
-- through, also where another field is invalid.
abbrev pub collected : {A : Type 0} → Bool → Timed DateTime → (DateTime → A) → Result A
collected fields_valid (Timed.ok at) build =
    if fields_valid then ok (build at) else err validation_error
collected fields_valid (Timed.err TimeError.value_error) build = err validation_error
collected fields_valid (Timed.err TimeError.overflow_error) build = err overflow_error

module _ (p : Platform) where
  -- The constraints on the fields, which see the stripped texts.
  unfoldable pub fields_valid : EventPayload p.Metadata → Bool
  fields_valid raw =
      leb 1 (length (strip p.blank raw.event_id))
      && (leb 1 (length (strip p.blank raw.account_id))
          && (decimal_positive raw.amount && length (strip p.blank raw.currency) == 3))

  -- The model that is built: the currency is folded after its length was checked.
  unfoldable pub normalized : EventPayload p.Metadata → DateTime → EventPayload p.Metadata
  normalized raw at = record raw {
    event_id = strip p.blank raw.event_id;
    account_id = strip p.blank raw.account_id;
    currency = p.upper (strip p.blank raw.currency);
    metadata = p.strip_keys raw.metadata;
    event_timestamp = at;
  }

  -- `EventPayload(...)` at fields of the declared types.
  unfoldable pub validate : EventPayload p.Metadata → Result (EventPayload p.Metadata)
  validate raw =
      collected (fields_valid raw) (require_aware_utc raw.event_timestamp) (normalized raw)
