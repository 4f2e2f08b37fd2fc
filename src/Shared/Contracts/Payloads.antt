-- ===== src/Shared/Contracts/Payloads.antt =====
-- Payloads on the sample platform, at which the theorems are run.
use distr_sys_itrvw.Base.{refl, arith}
use distr_sys_itrvw.Base.Int.{pos}
use distr_sys_itrvw.Shared.Text.{Text, codes, strip}
use distr_sys_itrvw.Shared.Time.{DateTime, utc, days_in_month}
use distr_sys_itrvw.Shared.Time.Utc.{IsUtc}
use distr_sys_itrvw.Shared.Decimal.{decimal_positive}
use distr_sys_itrvw.Shared.Contracts.{credit, debit, EventPayload}
use distr_sys_itrvw.Shared.Contracts.Valid.{IsPayload}
use distr_sys_itrvw.Shared.Contracts.Samples.{sample_platform, sample_upper, sample_blank}

abbrev pub noon : DateTime
noon = record { date = record { year = 2024; month = 2; day = 29 }; time = 43200000000; zone = utc }

pub noon-IsUtc : IsUtc noon
unfolding days_in_month
noon-IsUtc = record {
  date = record {
    year_low = omega arith;
    year_high = omega arith;
    month_low = omega arith;
    month_high = omega arith;
    day_low = omega arith;
    day_high = omega arith;
  };
  time = omega arith;
  zone = refl;
}

-- 12.50 and 2.50, of which the smallest unit is a hundredth.
abbrev pub salary : EventPayload Text
salary = record {
  event_id = codes "e1";
  account_id = codes "a";
  type = credit;
  amount = record { coefficient = pos 1250; exponent = 0 };
  currency = codes "EUR";
  event_timestamp = noon;
  metadata = codes "{}";
}

abbrev pub rent : EventPayload Text
rent = record salary {
  event_id = codes "e2";
  type = debit;
  amount = record { coefficient = pos 25; exponent = 1 };
}

-- Validated from the currency "ußd", which has three characters.
abbrev pub folded : EventPayload Text
folded = record salary { currency = codes "USSD" }

pub salary-IsPayload : IsPayload sample_platform salary
unfolding strip sample_blank decimal_positive sample_upper
salary-IsPayload = record {
  event_id = refl;
  event_id_length = omega arith;
  account_id = refl;
  account_id_length = omega arith;
  amount = refl;
  currency = refl;
  folded = refl;
  event_timestamp = noon-IsUtc;
  metadata = refl;
}

pub rent-IsPayload : IsPayload sample_platform rent
unfolding strip sample_blank decimal_positive sample_upper
rent-IsPayload = record {
  event_id = refl;
  event_id_length = omega arith;
  account_id = refl;
  account_id_length = omega arith;
  amount = refl;
  currency = refl;
  folded = refl;
  event_timestamp = noon-IsUtc;
  metadata = refl;
}

pub folded-IsPayload : IsPayload sample_platform folded
unfolding strip sample_blank decimal_positive sample_upper
folded-IsPayload = record {
  event_id = refl;
  event_id_length = omega arith;
  account_id = refl;
  account_id_length = omega arith;
  amount = refl;
  currency = refl;
  folded = refl;
  event_timestamp = noon-IsUtc;
  metadata = refl;
}
