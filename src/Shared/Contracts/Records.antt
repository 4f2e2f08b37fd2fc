-- ===== src/Shared/Contracts/Records.antt =====
-- src/event_ledger_common/contracts.py: the records as JSON, by their serializers, and the response of
-- the health checks.
use distr_sys_itrvw.Base.{◌≡◌, refl, Bool, Option, if◌then◌else◌}
use distr_sys_itrvw.Shared.Text.{Text, codes}
use distr_sys_itrvw.Shared.Time.{DateTime, Timed, format_timestamp}
use distr_sys_itrvw.Shared.Time.Utc.{IsUtc}
use distr_sys_itrvw.Shared.Time.Print.{utc_text, format_timestamp-utc_text}
use distr_sys_itrvw.Shared.Time.Parse.{parse_timestamp}
use distr_sys_itrvw.Shared.Time.Parse.RoundTrip.{parse_timestamp-utc_text}
use distr_sys_itrvw.Shared.Contracts.{
  Platform, EventRecord, EventStatus, applied, TransactionRecord, BalanceResponse, Result, ok,
  timed, ◌>>=◌,
}
use distr_sys_itrvw.Shared.Contracts.Wire.{
  Encoding, PayloadJson, serialize_amount, model_dump, sent, model_dump-sent,
}

-- `TransactionRecord`
pub record TransactionJson (M F : Type 0) : Type 0 where
  pub payload : PayloadJson M F
  pub applied_at : Text

-- `EventRecord`
pub record EventJson (M F : Type 0) : Type 0 where
  pub payload : PayloadJson M F
  pub status : Text
  pub created_at : Text
  pub updated_at : Text

-- `BalanceResponse`
pub record BalanceJson (F : Type 0) : Type 0 where
  pub account_id : Text
  pub balance : F
  pub currency : Option Text

pub record HealthResponse : Type 0 where
  pub service : Text
  pub status : Text
  pub database : Text
  pub timestamp : DateTime

pub record HealthJson : Type 0 where
  pub service : Text
  pub status : Text
  pub database : Text
  pub timestamp : Text

-- `health`: what the two services' handlers have in common. `reachable` is what `health_check` returned.
unfoldable pub health : Text → Bool → DateTime → HealthResponse
health service reachable now = record {
  service = service;
  status = if reachable then codes "ok" else codes "degraded";
  database = if reachable then codes "ok" else codes "unavailable";
  timestamp = now;
}

unfoldable pub health_dump : HealthResponse → Result HealthJson
health_dump h = do
  at ← timed (format_timestamp h.timestamp)
  ok (record { service = h.service; status = h.status; database = h.database; timestamp = at })

abbrev pub status_text : EventStatus → Text
status_text applied = codes "APPLIED"

module _ (p : Platform) (w : Encoding) where
  open p use {Metadata}
  open w use {Float}

  unfoldable pub transaction_dump :
      TransactionRecord Metadata → Result (TransactionJson Metadata Float)
  transaction_dump r = do
    payload ← model_dump p w r.event
    at ← timed (format_timestamp r.applied_at)
    ok (record { payload = payload; applied_at = at })

  unfoldable pub event_dump : EventRecord Metadata → Result (EventJson Metadata Float)
  event_dump r = do
    payload ← model_dump p w r.event
    created_at ← timed (format_timestamp r.created_at)
    updated_at ← timed (format_timestamp r.updated_at)
    ok (record {
      payload = payload;
      status = status_text r.status;
      created_at = created_at;
      updated_at = updated_at;
    })

  unfoldable pub balance_dump : BalanceResponse → BalanceJson Float
  unfolding serialize_amount
  balance_dump b = record {
    account_id = b.account_id;
    balance = serialize_amount p w b.balance;
    currency = b.currency;
  }

  -- An event record whose times are in UTC is written without an error: its payload as the Gateway
  -- sends it, and its two audit times as texts that are read back as the same times.
  pub event_dump-reads :
      (r : EventRecord Metadata)
      → IsUtc r.event_timestamp
      → IsUtc r.created_at
      → IsUtc r.updated_at
      → (j : EventJson Metadata Float) × (event_dump r ≡ ok j)
        × (j.payload ≡ sent p w r.event)
        × (parse_timestamp j.created_at ≡ Timed.ok r.created_at)
        × (parse_timestamp j.updated_at ≡ Timed.ok r.updated_at)
  unfolding event_dump
  event_dump-reads r h hc hu = rw (model_dump-sent p w r.event h) (
      rw (format_timestamp-utc_text r.created_at hc) (
        rw (format_timestamp-utc_text r.updated_at hu) (
          record {
            payload = sent p w r.event;
            status = status_text r.status;
            created_at = utc_text r.created_at;
            updated_at = utc_text r.updated_at;
          },
          refl,
          refl,
          parse_timestamp-utc_text r.created_at hc,
          parse_timestamp-utc_text r.updated_at hu,
        )))
