-- ===== src/Shared/Contracts/Details.antt =====
-- src/event_ledger_common/contracts.py: a balance and the details of an account as JSON, written by the
-- Account Service's serializers and read back by the models of the Gateway's client.
use distr_sys_itrvw.Base.{◌≡◌, refl, true, Option, none, some, List, [], ◌∷◌, map}
use distr_sys_itrvw.Base.Lists.{length}
use distr_sys_itrvw.Shared.Text.{Text, strip}
use distr_sys_itrvw.Shared.Time.Utc.{IsUtc}
use distr_sys_itrvw.Shared.Time.Print.{utc_text, format_timestamp-utc_text}
use distr_sys_itrvw.Shared.Decimal.{decimal_positive}
use distr_sys_itrvw.Shared.Contracts.{
  Platform, TransactionRecord, BalanceResponse, AccountDetailsResponse, Result, ok, ◌>>=◌, checked,
}
use distr_sys_itrvw.Shared.Contracts.Valid.{IsPayload}
use distr_sys_itrvw.Shared.Contracts.Wire.{
  Encoding, IsEncoding, model_validate, rounded, sent, model_dump-sent, model_validate-sent,
}
use distr_sys_itrvw.Shared.Contracts.Records.{
  TransactionJson, BalanceJson, balance_dump, transaction_dump,
}

-- `AccountDetailsResponse`
pub record AccountDetailsJson (M F : Type 0) : Type 0 where
  pub balance_response : BalanceJson F
  pub recent_transactions : List (TransactionJson M F)

module _ (p : Platform) (w : Encoding) where
  open p use {Metadata}
  open w use {Float}

  unfoldable pub transactions_dump :
      List (TransactionRecord Metadata) → Result (List (TransactionJson Metadata Float))
  transactions_dump [] = ok []
  transactions_dump (r ∷ rs) = do j ← transaction_dump p w r; js ← transactions_dump rs; ok (j ∷ js)

  unfoldable pub details_dump :
      AccountDetailsResponse Metadata → Result (AccountDetailsJson Metadata Float)
  details_dump d = do
    js ← transactions_dump d.recent_transactions
    ok (record { balance_response = balance_dump p w d.balance_response; recent_transactions = js })

  abbrev pub strip_option : Option Text → Option Text
  strip_option none = none
  strip_option (some c) = some (strip p.blank c)

  -- `BalanceResponse.model_validate`: texts are stripped.
  unfoldable pub balance_validate : BalanceJson Float → BalanceResponse
  balance_validate j = record {
    account_id = strip p.blank j.account_id;
    balance = w.decimal_of_float j.balance;
    currency = strip_option j.currency;
  }

  -- `TransactionRecord.model_validate`
  unfoldable pub transaction_validate :
      TransactionJson Metadata Float → Result (TransactionRecord Metadata)
  transaction_validate j = do
    event ← model_validate p w j.payload
    at ← checked (w.read_datetime j.applied_at)
    ok (record { event = event; applied_at = at })

  unfoldable pub transactions_validate :
      List (TransactionJson Metadata Float) → Result (List (TransactionRecord Metadata))
  transactions_validate [] = ok []
  transactions_validate (j ∷ js) = do
    r ← transaction_validate j
    rs ← transactions_validate js
    ok (r ∷ rs)

  -- `AccountDetailsResponse.model_validate`
  unfoldable pub details_validate :
      AccountDetailsJson Metadata Float → Result (AccountDetailsResponse Metadata)
  details_validate j = do
    rs ← transactions_validate j.recent_transactions
    ok (record { balance_response = balance_validate j.balance_response; recent_transactions = rs })

  -- What a float makes of the balance, and of the amounts of the records.
  abbrev pub rounded_balance : BalanceResponse → BalanceResponse
  rounded_balance b = record b { balance = w.decimal_of_float (w.float_of b.balance) }

  abbrev pub rounded_record : TransactionRecord Metadata → TransactionRecord Metadata
  rounded_record r = record { event = rounded p w r.event; applied_at = r.applied_at }

  abbrev pub rounded_details : AccountDetailsResponse Metadata → AccountDetailsResponse Metadata
  rounded_details d = record {
    balance_response = rounded_balance d.balance_response;
    recent_transactions = map rounded_record d.recent_transactions;
  }

  -- A balance whose texts are stripped.
  abbrev pub IsStripped : BalanceResponse → Type 0
  IsStripped b =
      (strip p.blank b.account_id ≡ b.account_id) × (strip_option b.currency ≡ b.currency)

  pub balance_validate-balance_dump :
      (b : BalanceResponse)
      → IsStripped b
      → balance_validate (balance_dump p w b) ≡ rounded_balance b
  unfolding balance_validate balance_dump
  balance_validate-balance_dump b (account, currency) = λ i. record {
    account_id = account i;
    balance = w.decimal_of_float (w.float_of b.balance);
    currency = currency i;
  }

  -- A record that the Account Service can have stored, with an amount that stays positive as a float.
  pub record IsSendable (r : TransactionRecord Metadata) : Type 0 where
    pub payload : IsPayload p r.event
    pub three : length r.currency ≡ 3
    pub applied : IsUtc r.applied_at
    pub positive : decimal_positive (rounded p w r.event).amount ≡ true

  abbrev pub AllSendable : List (TransactionRecord Metadata) → Type 0
  AllSendable [] = Unit {0}
  AllSendable (r ∷ rs) = IsSendable r × AllSendable rs

  -- The JSON of a record.
  abbrev record_json : TransactionRecord Metadata → TransactionJson Metadata Float
  record_json r = record { payload = sent p w r.event; applied_at = utc_text r.applied_at }

  transaction_dump-record_json :
      (r : TransactionRecord Metadata) → IsSendable r → transaction_dump p w r ≡ ok (record_json r)
  transaction_dump-record_json r h =
      unfold transaction_dump in
      rw (model_dump-sent p w r.event h.payload.event_timestamp)
        (rw (format_timestamp-utc_text r.applied_at h.applied) refl)

  transactions_dump-record_json :
      (rs : List (TransactionRecord Metadata))
      → AllSendable rs
      → transactions_dump rs ≡ ok (map record_json rs)
  unfolding transactions_dump
  transactions_dump-record_json [] h = refl
  transactions_dump-record_json (r ∷ rs) h =
      rw (transaction_dump-record_json r h.0) (rw (transactions_dump-record_json rs h.1) refl)

  module _ (laws : IsEncoding w) where
    transaction_validate-record_json :
        (r : TransactionRecord Metadata)
        → IsSendable r
        → transaction_validate (record_json r) ≡ ok (rounded_record r)
    transaction_validate-record_json r h =
        unfold transaction_validate in
        rw (model_validate-sent p w laws r.event h.payload h.three h.positive)
          (rw (laws.read_datetime-utc_text r.applied_at h.applied) refl)

    transactions_validate-record_json :
        (rs : List (TransactionRecord Metadata))
        → AllSendable rs
        → transactions_validate (map record_json rs) ≡ ok (map rounded_record rs)
    unfolding transactions_validate
    transactions_validate-record_json [] h = refl
    transactions_validate-record_json (r ∷ rs) h =
        rw (transaction_validate-record_json r h.0)
          (rw (transactions_validate-record_json rs h.1) refl)

    -- Where texts of datetimes in UTC are read back, the details of an account whose texts are
    -- stripped and whose transactions are validated, in currencies of three characters, applied at
    -- times in UTC and with amounts that stay positive as floats, are written by the Account Service
    -- without an error, and read by the Gateway as the same details, of which only the balance and
    -- the amounts are rounded to floats.
    pub details_validate-details_dump :
        (d : AccountDetailsResponse Metadata)
        → IsStripped d.balance_response
        → AllSendable d.recent_transactions
        → (details_dump d >>= details_validate)
          ≡ ok (record {
            balance_response = rounded_balance d.balance_response;
            recent_transactions = map rounded_record d.recent_transactions;
          })
    details_validate-details_dump d stripped h =
        unfold details_dump details_validate in
        rw (transactions_dump-record_json d.recent_transactions h) (
          rw (transactions_validate-record_json d.recent_transactions h)
            (rw (balance_validate-balance_dump d.balance_response stripped) refl))
