-- ===== src/Gateway/LogTests.antt =====
-- The theorems on the Gateway's log, at calls on the sample platform.
use distr_sys_itrvw.Base.{◌≡◌, refl, true, [], ◌∷◌}
use distr_sys_itrvw.Shared.Text.{text_eq}
use distr_sys_itrvw.Shared.Contracts.{ok}
use distr_sys_itrvw.Shared.Contracts.Samples.{sample_platform, sample_laws}
use distr_sys_itrvw.Shared.Contracts.Payloads.{
  noon, noon-IsUtc, salary, rent, salary-IsPayload, rent-IsPayload,
}
use distr_sys_itrvw.Gateway.Repository.{insert_applied_event}
use distr_sys_itrvw.Gateway.Repository.Fresh.{inserted}
use distr_sys_itrvw.Gateway.Log.{Log, find, insert_event, IsLog, encode_all}
use distr_sys_itrvw.Gateway.Log.Refinement.{insert_applied_event-insert_event}

abbrev paid : Log sample_platform
paid = inserted sample_platform noon salary ∷ []

paid-IsLog : IsLog sample_platform paid
unfolding find
paid-IsLog = (
  record { payload = salary-IsPayload; three = refl; created = noon-IsUtc; updated = noon-IsUtc },
  refl,
  tt,
)

insert_applied_event-insert_event_example :
    insert_applied_event sample_platform noon rent (encode_all sample_platform paid) ≡ (
      ok (inserted sample_platform noon rent, true),
      encode_all sample_platform
          (inserted sample_platform noon salary ∷ inserted sample_platform noon rent ∷ []),
    )
unfolding insert_event find text_eq
insert_applied_event-insert_event_example =
    insert_applied_event-insert_event sample_platform sample_laws noon rent paid
      (noon-IsUtc, rent-IsPayload, refl) paid-IsLog
