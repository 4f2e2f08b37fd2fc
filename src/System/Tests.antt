-- ===== src/System/Tests.antt =====
-- Runs of both services together on the sample platform, and the theorems about them at such runs.
use mathlib.Core.List.Perm
use mathlib.Core.Path.{subst}
use distr_sys_itrvw.Base.{
  ◌≡◌, refl, ap, true, Option, none, some, inl, [], ◌∷◌, arith, if◌then◌else◌,
}
use distr_sys_itrvw.Shared.Text.{Text, codes, text_eq}
use distr_sys_itrvw.Shared.Time.{DateTime, Timed}
use distr_sys_itrvw.Shared.Time.Parse.{parse_timestamp}
use distr_sys_itrvw.Shared.Time.Parse.RoundTrip.{parse_timestamp-utc_text}
use distr_sys_itrvw.Shared.Time.Utc.{IsUtc}
use distr_sys_itrvw.Shared.Decimal.{Decimal, decimal_positive}
use distr_sys_itrvw.Shared.Contracts.{TransactionRecord, ok, ◌>>=◌}
use distr_sys_itrvw.Shared.Contracts.Wire.{
  Encoding, IsEncoding, model_dump, model_validate, model_validate-model_dump,
}
use distr_sys_itrvw.Shared.Contracts.Samples.{sample_platform, sample_laws}
use distr_sys_itrvw.Shared.Contracts.Payloads.{noon, noon-IsUtc, salary, salary-IsPayload}
use distr_sys_itrvw.Shared.Rows.{Engine}
use distr_sys_itrvw.Shared.Metrics.{empty_registry}
use distr_sys_itrvw.Account.Repository.{Row, apply_transaction, get_transaction}
use distr_sys_itrvw.Account.Ledger.{find, agrees, ledger_currency, apply_event}
use distr_sys_itrvw.Account.Ledger.Refinement.{apply_transaction-apply_event}
use distr_sys_itrvw.Gateway.Client.{circuit_allows, record_downstream_success, response, fields}
use distr_sys_itrvw.Gateway.Client.Tests.{client}
use distr_sys_itrvw.Gateway.Main.{State, answered, submit_event}
use distr_sys_itrvw.Gateway.Repository.{get_event, insert_applied_event}
use distr_sys_itrvw.Gateway.Repository.Fresh.{
  inserted, fresh_row, event_from_row-fresh_row, insert_applied_event_fresh,
}
use distr_sys_itrvw.Gateway.Main.Reads.{read_event}
use distr_sys_itrvw.System.Runs.{view}
use distr_sys_itrvw.System.Reads.{read_event-get_transaction}
use distr_sys_itrvw.System.Delivered.{submit_event_delivered}
use distr_sys_itrvw.System.{
  Json, World, Frame, IsFrame, cloud, dump, lost_response, lost_request, timeout, server_error,
}
use distr_sys_itrvw.System.Steps.{System, nothing_yet, acknowledge, store, Reach, here, next}
use distr_sys_itrvw.System.Invariant.{Holds, Reach-Holds}
use distr_sys_itrvw.System.Submissions.{IsRun, submit_event-IsRun}

abbrev read_timed : {A : Type 0} → Timed A → Option A
read_timed (Timed.ok x) = some x
read_timed (Timed.err e) = none

-- Floats that keep every decimal.
abbrev pub sample_encoding : Encoding
sample_encoding = record {
  Float = Decimal;
  float_of = λ d. d;
  decimal_of_float = λ x. x;
  read_datetime = λ s. read_timed (parse_timestamp s);
}

pub sample_encoding-IsEncoding : IsEncoding sample_encoding
sample_encoding-IsEncoding = record {
  read_datetime-utc_text = λ v h. ap read_timed (parse_timestamp-utc_text v h);
}

abbrev pub engine : Engine Row
engine = record { scan = λ t. t; scan-perm = Perm.refl }

abbrev pub frame : Frame sample_platform sample_encoding
frame = record {
  route =
      λ path. if text_eq path (codes "/accounts/a/transactions") then some (codes "a") else none;
  render = λ r. [];
  read = λ req s. response 404 (fields []);
  utc_at = λ n. noon;
}

frame-IsFrame : IsFrame sample_platform sample_encoding frame
frame-IsFrame = record { utc_at = λ n. noon-IsUtc; refused = λ req s post unknown h. omega arith }

model_validate-model_dump_example :
    (model_dump sample_platform sample_encoding salary
      >>= model_validate sample_platform sample_encoding)
    ≡ ok salary
unfolding decimal_positive
model_validate-model_dump_example =
    model_validate-model_dump sample_platform sample_encoding sample_encoding-IsEncoding salary
      salary-IsPayload refl refl

-- The first answer is lost, the second request fails, and the third is served.
abbrev the_world : World
the_world = record {
  account = record { repository = []; metrics = empty_registry };
  clock = 7;
  deliveries = lost_response timeout ∷ lost_request (server_error 2) ∷ [];
}

abbrev started : State World
started = record {
  repository = [];
  metrics = empty_registry;
  account_client = client;
  world = the_world;
}

salary_accepted :
    (now : DateTime)
    → IsUtc now
    → (apply_transaction sample_platform engine now salary []).0
      ≡ ok (record { event = salary; applied_at = now }, true)
unfolding apply_event find ledger_currency text_eq
salary_accepted now hn =
    ap (λ o. o.0)
      (apply_transaction-apply_event sample_platform sample_laws engine now salary [] hn
        salary-IsPayload refl tt)

submit_event_delivered_example :
    let (answer, s') =
      submit_event sample_platform
        (cloud sample_platform sample_encoding frame engine)
        (dump sample_platform sample_encoding frame engine)
        []
        (codes "t")
        noon
        salary
        started in
    (answer ≡ answered 201 (inserted sample_platform noon salary))
    × (s'.repository ≡ fresh_row sample_platform noon salary ∷ [])
    × (s'.account_client ≡ record_downstream_success client)
unfolding get_event circuit_allows decimal_positive text_eq
submit_event_delivered_example =
    submit_event_delivered sample_platform sample_laws sample_encoding frame engine frame-IsFrame
      sample_encoding-IsEncoding [] (codes "t") salary salary-IsPayload refl refl refl noon started
      2 noon-IsUtc refl refl (omega arith) (tt, (tt, refl))
      (([], tt, refl), λ now hn. (_, true, salary_accepted now hn))

submit_event-IsRun_example :
    IsRun sample_platform sample_encoding frame engine started []
      (submit_event sample_platform
        (cloud sample_platform sample_encoding frame engine)
        (dump sample_platform sample_encoding frame engine)
        []
        (codes "t")
        noon
        salary
        started).1
submit_event-IsRun_example =
    submit_event-IsRun sample_platform sample_encoding frame engine noon noon-IsUtc salary
      salary-IsPayload refl started [] frame-IsFrame sample_encoding-IsEncoding [] (codes "t")

abbrev taken : System sample_platform
taken = record {
  events = [];
  transactions = (apply_transaction sample_platform engine noon salary []).1;
  acknowledged = salary ∷ [];
}

abbrev stored : System sample_platform
stored = record taken { events = (insert_applied_event sample_platform noon salary []).1 }

stored-Reach : Reach sample_platform sample_encoding engine (nothing_yet sample_platform) stored
stored-Reach =
    next
      (next here (
        acknowledge noon salary (record { event = salary; applied_at = noon }) true
          (noon-IsUtc, salary-IsPayload, refl) (salary_accepted noon noon-IsUtc) refl))
      (store noon salary (noon-IsUtc, salary-IsPayload, refl) (inl refl) refl)

Reach-Holds_example : Holds sample_platform sample_laws sample_encoding stored
Reach-Holds_example = Reach-Holds sample_platform sample_laws sample_encoding engine stored-Reach

insert_applied_event-salary :
    insert_applied_event sample_platform noon salary []
    ≡ (ok (inserted sample_platform noon salary, true), fresh_row sample_platform noon salary ∷ [])
unfolding get_event
insert_applied_event-salary =
    insert_applied_event_fresh sample_platform sample_laws noon salary []
      (noon-IsUtc, salary-IsPayload, refl) refl

abbrev pub reading : State World
reading = record started {
  repository = fresh_row sample_platform noon salary ∷ [];
  world = record the_world {
    account = record {
      repository = (apply_transaction sample_platform engine noon salary []).1;
      metrics = empty_registry;
    };
  };
}

pub reading-Reach :
    Reach sample_platform sample_encoding engine
      (nothing_yet sample_platform)
      (view sample_platform sample_encoding frame engine reading (salary ∷ []))
reading-Reach =
    subst
      (λ t.
        Reach sample_platform sample_encoding engine (nothing_yet sample_platform)
          (record taken { events = t }))
      (ap (λ o. o.1) insert_applied_event-salary) stored-Reach

salary_read :
    read_event sample_platform (Json Text Decimal) World (codes "e1") reading
    ≡ answered 200 (inserted sample_platform noon salary)
unfolding get_event read_event text_eq
salary_read =
    rw
      (event_from_row-fresh_row sample_platform sample_laws noon salary
        (noon-IsUtc, salary-IsPayload, refl))
      refl

read_event-get_transaction_example :
    (x : TransactionRecord Text) × (get_transaction sample_platform
        (codes "e1")
        reading.world.account.repository
      ≡ ok (some x))
    × (agrees sample_platform x.event salary ≡ true)
read_event-get_transaction_example =
    read_event-get_transaction sample_platform sample_laws sample_encoding frame engine reading
      (salary ∷ []) (codes "e1") reading-Reach salary_read
