-- ===== src/Account/OrderTests.antt =====
-- The theorems on sequences of calls, at calls on the sample platform.
use mathlib.Core.Logic.{∥∥₁_map}
use mathlib.Core.List.{Memᴰ}
use distr_sys_itrvw.Base.{◌≡◌, refl, true, false, [], ◌∷◌, arith, if◌then◌else◌}
use distr_sys_itrvw.Shared.Text.{Text, codes, text_eq}
use distr_sys_itrvw.Shared.Decimal.{scale}
use distr_sys_itrvw.Shared.Decimal.Exact.{units}
use distr_sys_itrvw.Shared.Contracts.{EventPayload, ok}
use distr_sys_itrvw.Shared.Contracts.Samples.{sample_platform, sample_laws}
use distr_sys_itrvw.Shared.Contracts.Payloads.{
  noon, noon-IsUtc, salary, rent, salary-IsPayload, rent-IsPayload,
}
use distr_sys_itrvw.Account.Repository.{get_balance}
use distr_sys_itrvw.Account.Ledger.{find}
use distr_sys_itrvw.Account.Ledger.Encode.{encode_all}
use distr_sys_itrvw.Account.Deliveries.{IsCall, deliver_all}
use distr_sys_itrvw.Account.Order.{
  IsBooked, Calls, answer_all, deliver_all-first_deliveries, first_deliveries, first_answers,
  called,
}
use distr_sys_itrvw.Account.Order.Balances.{IsSameCalls, IsBookedCalls, get_balance_any_order}
use distr_sys_itrvw.Account.Tests.{engine, settled}

abbrev book : Text → EventPayload (sample_platform.Metadata)
book id = if text_eq id salary.event_id then salary else rent

abbrev money : Text → Text
money account = salary.currency

abbrev repeated : Calls sample_platform
repeated = (noon, salary) ∷ (noon, rent) ∷ (noon, salary) ∷ []

abbrev reversed : Calls sample_platform
reversed = (noon, rent) ∷ (noon, salary) ∷ []

salary-IsCall : IsCall sample_platform noon salary
salary-IsCall = (noon-IsUtc, salary-IsPayload, refl)

rent-IsCall : IsCall sample_platform noon rent
rent-IsCall = (noon-IsUtc, rent-IsPayload, refl)

salary-IsBooked : IsBooked sample_platform book money salary
unfolding text_eq
salary-IsBooked = (refl, refl)

rent-IsBooked : IsBooked sample_platform book money rent
unfolding text_eq
rent-IsBooked = (refl, refl)

repeated-IsBookedCalls : IsBookedCalls sample_platform book money repeated
repeated-IsBookedCalls = (
  (salary-IsCall, (rent-IsCall, (salary-IsCall, tt))),
  (salary-IsBooked, (rent-IsBooked, (salary-IsBooked, tt))),
)

reversed-IsBookedCalls : IsBookedCalls sample_platform book money reversed
reversed-IsBookedCalls =
    ((rent-IsCall, (salary-IsCall, tt)), (rent-IsBooked, (salary-IsBooked, tt)))

repeated-IsSameCalls : IsSameCalls sample_platform repeated reversed
repeated-IsSameCalls e = (λ m. ∥∥₁_map m there, λ m. ∥∥₁_map m back)
  where
    there : Memᴰ e (called sample_platform repeated) → Memᴰ e (called sample_platform reversed)
    there (Memᴰ.head s) = Memᴰ.tail (Memᴰ.head s)
    there (Memᴰ.tail (Memᴰ.head r)) = Memᴰ.head r
    there (Memᴰ.tail (Memᴰ.tail (Memᴰ.head s))) = Memᴰ.tail (Memᴰ.head s)
    there (Memᴰ.tail (Memᴰ.tail (Memᴰ.tail m))) = elim m [ ]

    back : Memᴰ e (called sample_platform reversed) → Memᴰ e (called sample_platform repeated)
    back (Memᴰ.head r) = Memᴰ.tail (Memᴰ.head r)
    back (Memᴰ.tail (Memᴰ.head s)) = Memᴰ.head s
    back (Memᴰ.tail (Memᴰ.tail m)) = elim m [ ]

get_balance_any_order_example :
    units
      (get_balance sample_platform engine
        (codes "a")
        (deliver_all sample_platform engine repeated [])).balance
    ≡ units
        (get_balance sample_platform engine
          (codes "a")
          (deliver_all sample_platform engine reversed [])).balance
unfolding first_deliveries find text_eq units scale
get_balance_any_order_example =
    get_balance_any_order sample_platform book money sample_laws engine engine 0 (codes "a")
      repeated reversed repeated-IsBookedCalls reversed-IsBookedCalls repeated-IsSameCalls
      (omega arith) ((λ _. omega arith), ((λ _. omega arith), tt)) (omega arith)

deliver_all-first_deliveries_example :
    (deliver_all sample_platform engine repeated [] ≡ encode_all sample_platform settled)
    × (answer_all sample_platform engine repeated []
        ≡ ok (record { event = salary; applied_at = noon }, true)
          ∷ ok (record { event = rent; applied_at = noon }, true)
          ∷ ok (record { event = salary; applied_at = noon }, false)
          ∷ [])
unfolding first_deliveries first_answers find text_eq
deliver_all-first_deliveries_example =
    deliver_all-first_deliveries sample_platform book money sample_laws engine repeated []
      repeated-IsBookedCalls.0 repeated-IsBookedCalls.1 tt tt
