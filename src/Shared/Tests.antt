-- ===== src/Shared/Tests.antt =====
-- Runs of the shared package, and the theorems about it at such runs.
use distr_sys_itrvw.Base.{[], ◌+◌, ◌<◌, ◌≡◌, ◌↔◌, refl, inl, true, false, arith, leb, some}
use distr_sys_itrvw.Shared.Text.{Text, codes, text_eq, text_le, strip, is_space, lower}
use distr_sys_itrvw.Base.Lists.{length}
use distr_sys_itrvw.Shared.Trace.{
  trace_id_from_traceparent, trace_id_from_headers, traceparent_from_trace_id, zeros,
}
use distr_sys_itrvw.Shared.Trace.Propagation.{IsTraceId, traceparent-propagates}
use distr_sys_itrvw.Shared.Trace.Identifier.{AllHex, trace_id_from_traceparent-AllHex}
use distr_sys_itrvw.Shared.Time.{
  DateTime, Timed, value_error, naive, utc, west, days_in_month, format_timestamp,
  require_aware_utc, replace, isoformat, iso_date, four_digits, two_digits, six_digits, iso_clock,
  iso_fraction,
}
use distr_sys_itrvw.Shared.Time.Utc.{
  IsDateTime, IsUtc, wall_clock, require_aware_utc-IsUtc, require_aware_utc_ambiguous,
}
use distr_sys_itrvw.Shared.Time.Order.{
  second_key, time_key, format_timestamp_chronological, format_timestamp_misordered,
}
use distr_sys_itrvw.Shared.Time.Parse.{parse_timestamp}
use distr_sys_itrvw.Shared.Time.Parse.RoundTrip.{parse_timestamp-format_timestamp}
use distr_sys_itrvw.Shared.Decimal.{decimal_positive}
use distr_sys_itrvw.Shared.Contracts.{ok, validate, fields_valid, normalized, EventPayload}
use distr_sys_itrvw.Shared.Contracts.Valid.{IsPayload, validate-IsPayload}
use distr_sys_itrvw.Shared.Contracts.Samples.{
  sample_platform, sample_laws, sample_blank, sample_upper,
}
use distr_sys_itrvw.Shared.Contracts.Payloads.{noon, noon-IsUtc, salary}
use distr_sys_itrvw.Shared.Metrics.{empty_registry, entry, count_event, record_request}
use distr_sys_itrvw.Shared.Metrics.Counts.{
  IsCounted, empty-IsCounted, record_request-IsCounted, count_event-entry,
}

-- Leap day, 20:00 at five hours west, which is 01:00 on the first of March in UTC.
abbrev evening : DateTime
evening = record noon { time = 72000000000; zone = west 18000000000 }

abbrev next_morning : DateTime
next_morning = record {
  date = record { year = 2024; month = 3; day = 1 };
  time = 3600000000;
  zone = utc;
}

evening-IsDateTime : IsDateTime evening
evening-IsDateTime = record { date = noon-IsUtc.date; time = omega arith; zone = omega arith }

next_morning-IsUtc : IsUtc next_morning
unfolding days_in_month
next_morning-IsUtc = record {
  date = record {
    year_low = omega arith;
    year_high = omega arith;
    month_low = omega arith;
    month_high = omega arith;
    day_low = omega arith;
    day_high = omega arith;
  };
  time = omega arith;
  zone = refl;
}

next_morning_written : format_timestamp next_morning ≡ Timed.ok (codes "2024-03-01T01:00:00Z")
unfolding format_timestamp require_aware_utc replace isoformat iso_date four_digits two_digits
    iso_clock iso_fraction
next_morning_written = refl

evening_normalized : require_aware_utc evening ≡ Timed.ok next_morning
unfolding require_aware_utc
evening_normalized = refl

require_aware_utc-IsUtc_example :
    IsUtc next_morning × (wall_clock next_morning + 0 ≡ wall_clock evening + 18000000000)
require_aware_utc-IsUtc_example =
    require_aware_utc-IsUtc evening evening-IsDateTime evening_normalized

ambiguous_time :
    (require_aware_utc (record noon { zone = naive }) ≡ Timed.err value_error) ↔ (⊥ → ⊥)
ambiguous_time = require_aware_utc_ambiguous (record noon { zone = naive })

evening_written : format_timestamp evening ≡ Timed.ok (codes "2024-03-01T01:00:00Z")
unfolding format_timestamp require_aware_utc replace isoformat iso_date four_digits two_digits
    iso_clock iso_fraction
evening_written = refl

parse_timestamp-format_timestamp_example :
    parse_timestamp (codes "2024-03-01T01:00:00Z") ≡ require_aware_utc evening
parse_timestamp-format_timestamp_example =
    parse_timestamp-format_timestamp evening evening-IsDateTime evening_written

-- Half a second after noon.
abbrev after_noon : DateTime
after_noon = record noon { time = 43200500000 }

after_noon-IsUtc : IsUtc after_noon
after_noon-IsUtc = record { date = noon-IsUtc.date; time = omega arith; zone = refl }

noon_written : format_timestamp noon ≡ Timed.ok (codes "2024-02-29T12:00:00Z")
unfolding format_timestamp require_aware_utc replace isoformat iso_date four_digits two_digits
    six_digits iso_clock iso_fraction
noon_written = refl

after_noon_written : format_timestamp after_noon ≡ Timed.ok (codes "2024-02-29T12:00:00.500000Z")
unfolding format_timestamp require_aware_utc replace isoformat iso_date four_digits two_digits
    six_digits iso_clock iso_fraction
after_noon_written = refl

format_timestamp_misordered_example :
    (time_key noon < time_key after_noon)
    × (text_le (codes "2024-02-29T12:00:00Z") (codes "2024-02-29T12:00:00.500000Z") ≡ false)
    × (text_le (codes "2024-02-29T12:00:00.500000Z") (codes "2024-02-29T12:00:00Z") ≡ true)
unfolding second_key
format_timestamp_misordered_example =
    format_timestamp_misordered noon after_noon noon-IsUtc after_noon-IsUtc noon_written
      after_noon_written refl refl refl

format_timestamp_chronological_example :
    text_le (codes "2024-02-29T12:00:00Z") (codes "2024-03-01T01:00:00Z")
    ≡ leb (time_key noon) (time_key next_morning)
format_timestamp_chronological_example =
    format_timestamp_chronological noon next_morning noon-IsUtc next_morning-IsUtc noon_written
      next_morning_written (inl refl)

-- With spaces around the identifier and a currency in lower case.
abbrev raw : EventPayload Text
raw = record salary { event_id = codes " e1 "; currency = codes "eur" }

raw_validated : validate sample_platform raw ≡ ok salary
unfolding validate require_aware_utc fields_valid strip sample_blank decimal_positive normalized
    sample_upper
raw_validated = refl

validate-IsPayload_example : IsPayload sample_platform salary
validate-IsPayload_example =
    validate-IsPayload sample_platform sample_laws raw
      (record { date = noon-IsUtc.date; time = noon-IsUtc.time; zone = omega arith }) raw_validated

one_request-IsCounted :
    IsCounted (record_request (codes "GET") (codes "/events") 503 12 empty_registry)
one_request-IsCounted =
    record_request-IsCounted (codes "GET") (codes "/events") 503 12 empty_registry empty-IsCounted

other_counter_kept : entry 0 (codes "b") (count_event (codes "a") empty_registry).domain_counts ≡ 0
unfolding entry text_eq
other_counter_kept = count_event-entry (codes "a") (codes "b") empty_registry

abbrev traceparent : Text
traceparent = codes "00-4BF92F3577B34DA6A3CE929D0E0E4736-00f067aa0ba902b7-01 "

abbrev trace_id : Text
trace_id = codes "4bf92f3577b34da6a3ce929d0e0e4736"

traceparent_read : trace_id_from_traceparent (some traceparent) ≡ some trace_id
unfolding trace_id_from_traceparent lower strip text_eq is_space
traceparent_read = refl

identifier_of_hex : AllHex trace_id × (length trace_id ≡ 32) × (text_eq trace_id (zeros 32) ≡ false)
identifier_of_hex = trace_id_from_traceparent-AllHex (some traceparent) traceparent_read

trace_id-IsTraceId : IsTraceId trace_id
trace_id-IsTraceId =
    let (hex, digits, not_zero) =
      trace_id_from_traceparent-AllHex (some traceparent) traceparent_read in
    record { hex = hex; digits = digits; not_zero = not_zero }

traceparent-propagates_example :
    trace_id_from_headers [] (some (codes "other")) (traceparent_from_trace_id trace_id trace_id)
    ≡ trace_id
traceparent-propagates_example =
    traceparent-propagates trace_id [] trace_id (some (codes "other")) trace_id-IsTraceId
      trace_id-IsTraceId.hex (omega arith)
