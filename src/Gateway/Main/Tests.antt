-- ===== src/Gateway/Main/Tests.antt =====
-- Submissions on the sample platform against a scripted Account Service, and the theorems about the
-- handlers at such submissions.
use distr_sys_itrvw.Base.{ℕ, ◌≡◌, refl, ap, ◌⊎◌, none, some, [], ◌∷◌, arith}
use distr_sys_itrvw.Shared.Text.{Text, codes, text_eq}
use distr_sys_itrvw.Shared.Contracts.{
  EventPayload, EventRecord, applied, ok, type_value, type_of_value,
}
use distr_sys_itrvw.Shared.Time.Print.{format_timestamp-utc_text}
use distr_sys_itrvw.Shared.Time.Parse.RoundTrip.{parse_timestamp-utc_text}
use distr_sys_itrvw.Shared.Contracts.Valid.{validate_self}
use distr_sys_itrvw.Shared.Contracts.Samples.{
  sample_platform, sample_text, signed_text, sample_decimal,
}
use distr_sys_itrvw.Shared.Contracts.Payloads.{
  noon, noon-IsUtc, salary, rent, salary-IsPayload, rent-IsPayload,
}
use distr_sys_itrvw.Shared.Metrics.{empty_registry}
use distr_sys_itrvw.Gateway.Repository
use distr_sys_itrvw.Gateway.Repository.Listing.{list_events_for_account-IsSorted}
use distr_sys_itrvw.Shared.Rows.{select, Engine}
use distr_sys_itrvw.Shared.Rows.Sorted.{IsSorted}
use mathlib.Core.List.Perm
use mathlib.Core.List.{Permᴰ}
use distr_sys_itrvw.Gateway.Repository.{Row, get_event, insert_applied_event}
use distr_sys_itrvw.Gateway.Client.{
  HttpAccountClient, init_client, fields, response, text, circuit_allows, request,
}
use distr_sys_itrvw.Gateway.Client.Tests.{Script, scripted, client, world, outage, conflict}
use distr_sys_itrvw.Gateway.Main.App.{Environment, configured_client, create_app}
use distr_sys_itrvw.Gateway.Main.Started.{IsStarted, create_app-IsStarted}
use distr_sys_itrvw.Base.Int.{pos, negsuc}
use distr_sys_itrvw.Gateway.Main.{
  State, Reply, answered, http_error, count, call, transaction_request, same_event, submit_event,
  store, after_account, conflict_detail,
}
use distr_sys_itrvw.Gateway.Main.Reads.{read_event}
use distr_sys_itrvw.Gateway.Main.Submit.{
  IsAccepted, submit_event_stores_applied, submit_event_again, submit_event_readable,
  submit_event_unavailable,
}
use distr_sys_itrvw.Gateway.Main.SameEvent.{same_event-agree}

abbrev dump : EventPayload Text → ℕ
dump e = 0

abbrev started : Script → State Script
started w = record { repository = []; metrics = empty_registry; account_client = client; world = w }

abbrev accepting : State Script
accepting = started (world (response 201 (fields []) ∷ []))

abbrev submitted : Reply ℕ (EventRecord Text) × State Script
submitted = submit_event sample_platform scripted dump [] (codes "t") noon salary accepting

abbrev recorded : EventRecord Text
recorded = record { event = salary; status = applied; created_at = noon; updated_at = noon }

first_submission : submitted.0 ≡ answered 201 recorded
unfolding submit_event get_event after_account call request store insert_applied_event
    Repository.insert_new Repository.new_row Repository.insert Repository.event_from_row
    circuit_allows text_eq type_of_value type_value sample_text signed_text sample_decimal
first_submission = rw (format_timestamp-utc_text noon noon-IsUtc) (
    rw (parse_timestamp-utc_text noon noon-IsUtc)
      (rw (validate_self sample_platform salary salary-IsPayload refl) refl))

submit_event_readable_example :
    read_event sample_platform ℕ Script (codes "e1") submitted.1 ≡ answered 200 recorded
submit_event_readable_example =
    submit_event_readable sample_platform scripted dump [] (codes "t") noon salary accepting
      first_submission

abbrev again : Reply ℕ (EventRecord Text) × State Script
again =
    submit_event sample_platform scripted dump [] (codes "t") noon
      (record rent { event_id = codes "e1" }) submitted.1

submit_event_again_example : again ≡ (
  http_error 409 (text conflict_detail),
  count (codes "gateway.events.idempotency_conflict") submitted.1,
)
unfolding same_event text_eq type_value
submit_event_again_example =
    submit_event_again sample_platform scripted dump [] [] (codes "t") (codes "t") noon noon salary
      (record rent { event_id = codes "e1" }) accepting first_submission refl

submit_event_stores_applied_example :
    ((submit_event sample_platform scripted dump []
        (codes "t")
        noon
        salary
        (started (world conflict))).1.repository
      ≡ [])
    ⊎ ((get_event sample_platform (codes "e1") [] ≡ ok none)
        × IsAccepted
            (call scripted
              (transaction_request sample_platform dump [] (codes "t") salary)
              (started (world conflict))).0)
submit_event_stores_applied_example =
    submit_event_stores_applied sample_platform scripted dump [] (codes "t") noon salary
      (started (world conflict))

submit_event_unavailable_example :
    (submit_event sample_platform scripted dump []
      (codes "t")
      noon
      salary
      (started (world outage))).0
    ≡ http_error 503 (text (codes "Account Service is unavailable; transaction was not accepted"))
unfolding get_event circuit_allows
submit_event_unavailable_example =
    ap (λ o. o.0)
      (submit_event_unavailable sample_platform scripted dump [] (codes "t") noon salary
        (started (world outage)) 2 refl refl refl (tt, (tt, tt)) (omega arith))

same_event-agree_example :
    Repository.same_event sample_platform salary rent ≡ ok (same_event sample_platform salary rent)
same_event-agree_example =
    same_event-agree sample_platform salary rent salary-IsPayload rent-IsPayload

abbrev engine : Engine Repository.Row
engine = record { scan = λ t. t; scan-perm = Perm.refl }

abbrev event_row : Repository.Row
event_row = record {
  event_id = codes "e1";
  account_id = codes "a";
  event_type = codes "CREDIT";
  amount = codes "1";
  currency = codes "EUR";
  event_timestamp = codes "2024-02-29T12:00:00Z";
  metadata_json = codes "{}";
  status = codes "APPLIED";
  created_at = codes "2024-02-29T12:00:00Z";
  updated_at = codes "2024-02-29T12:00:00Z";
}

-- The later row was inserted first.
abbrev two_rows : Repository.Table
two_rows = record event_row { event_id = codes "e2" } ∷ event_row ∷ []

events_in_order :
    (rows : Repository.Table) × (Repository.list_events_for_account sample_platform engine
        (codes "a")
        two_rows
      ≡ Repository.read_rows sample_platform rows)
    × Permᴰ rows (select (Repository.of_account (codes "a")) two_rows)
    × IsSorted Repository.row_le rows
events_in_order = list_events_for_account-IsSorted sample_platform engine (codes "a") two_rows

-- No variable is set, and every default is read as some number.
abbrev environment : Environment
environment = record {
  getenv = λ name. none;
  int_of = λ s. some (pos 3);
  float_of = λ s. some (negsuc 0);
  timeout_of = λ s. some 15;
  open_database = λ path. [];
}

abbrev app_client : HttpAccountClient
app_client = init_client (codes "http://localhost:8001") 15 (pos 3) (negsuc 0) (pos 3) (negsuc 0)

nothing : {A : Type 0} {a : A} → none ≡ some a → ⊥
nothing e = cc

app_started :
    IsStarted environment none (record (started (world [])) { account_client = app_client })
unfolding create_app configured_client
app_started = create_app-IsStarted environment none none (world []) (λ c e. absurd (nothing e)) refl
