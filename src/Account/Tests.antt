-- ===== src/Account/Tests.antt =====
-- Calls of the account repository on the sample platform, and the theorems about it at such calls.
use mathlib.Core.List.Perm
use distr_sys_itrvw.Base.{◌≡◌, refl, ap, true, false, [], ◌∷◌, ◌++◌, arith}
use distr_sys_itrvw.Base.Int.{pos, ◌+ℤ◌, ◌-ℤ◌}
use distr_sys_itrvw.Shared.Text.{codes, text_eq, strip}
use distr_sys_itrvw.Shared.Time.{require_aware_utc}
use distr_sys_itrvw.Shared.Decimal.{decimal_positive, scale}
use distr_sys_itrvw.Shared.Decimal.Exact.{units}
use distr_sys_itrvw.Shared.Contracts.{fields_valid, normalized, ok, err, validation_error, validate}
use distr_sys_itrvw.Shared.Contracts.Samples.{
  sample_platform, sample_laws, sample_upper, sample_blank,
}
use distr_sys_itrvw.Shared.Contracts.Payloads.{
  noon, noon-IsUtc, salary, rent, folded, salary-IsPayload, rent-IsPayload, folded-IsPayload,
}
use distr_sys_itrvw.Shared.Rows.{Engine}
use distr_sys_itrvw.Account.Repository.{Row, apply_transaction, get_balance, get_account_details}
use distr_sys_itrvw.Account.Ledger.{Ledger, find, ledger_currency, apply_event, IsLedger}
use distr_sys_itrvw.Account.Ledger.Encode.{encode_all}
use distr_sys_itrvw.Account.Ledger.Refinement.{apply_transaction-apply_event}
use distr_sys_itrvw.Account.Balance.{get_balance_exact}
use distr_sys_itrvw.Account.Deliveries.{
  IsTable, IsCall, deliver_all, deliver_all-IsTable, apply_transaction-twice,
}
use distr_sys_itrvw.Shared.Metrics.{empty_registry}
use distr_sys_itrvw.Account.Main
use distr_sys_itrvw.Account.Details.{of_owner, record_le, get_account_details-IsSorted}
use distr_sys_itrvw.Shared.Rows.Sorted.{IsSorted}
use distr_sys_itrvw.Base.Lists.{length}
use Prim.Native.Nat.{min}
use mathlib.Core.List.{Perm}
use distr_sys_itrvw.Account.Main.Retry.{apply_transaction_retried}
use distr_sys_itrvw.Account.Unreadable.{apply_transaction_unreadable}

abbrev pub engine : Engine Row
engine = record { scan = λ t. t; scan-perm = Perm.refl }

abbrev pub paid : Ledger sample_platform
paid = record { event = salary; applied_at = noon } ∷ []

abbrev pub settled : Ledger sample_platform
settled = paid ++ record { event = rent; applied_at = noon } ∷ []

paid-IsLedger : IsLedger sample_platform paid
unfolding find
paid-IsLedger =
    (record { payload = salary-IsPayload; three = refl; applied = noon-IsUtc }, refl, tt, tt)

folded_by_validation :
    validate sample_platform (record folded { currency = b'u' ∷ 0xdf ∷ b'd' ∷ [] }) ≡ ok folded
unfolding require_aware_utc validate fields_valid normalized strip sample_blank decimal_positive
    sample_upper
folded_by_validation = refl

apply_transaction-apply_event_example :
    apply_transaction sample_platform engine noon rent (encode_all sample_platform paid)
    ≡ (ok (record { event = rent; applied_at = noon }, true), encode_all sample_platform settled)
unfolding apply_event find ledger_currency text_eq
apply_transaction-apply_event_example =
    apply_transaction-apply_event sample_platform sample_laws engine noon rent paid noon-IsUtc
      rent-IsPayload refl paid-IsLedger

pub settled-IsLedger : IsLedger sample_platform settled
unfolding find text_eq
settled-IsLedger = (
  record { payload = salary-IsPayload; three = refl; applied = noon-IsUtc },
  refl,
  ((λ _. refl), tt),
  (record { payload = rent-IsPayload; three = refl; applied = noon-IsUtc }, refl, tt, tt),
)

paid-IsTable : IsTable sample_platform (encode_all sample_platform paid)
paid-IsTable = (paid, paid-IsLedger, refl)

rent-IsCall : IsCall sample_platform noon rent
rent-IsCall = (noon-IsUtc, rent-IsPayload, refl)

delivered-IsTable : IsTable sample_platform (
    deliver_all sample_platform engine
      ((noon, rent) ∷ (noon, salary) ∷ (noon, rent) ∷ [])
      (encode_all sample_platform paid))
delivered-IsTable =
    deliver_all-IsTable sample_platform sample_laws engine
      ((noon, rent) ∷ (noon, salary) ∷ (noon, rent) ∷ []) (encode_all sample_platform paid)
      (rent-IsCall, ((noon-IsUtc, salary-IsPayload, refl), (rent-IsCall, tt))) paid-IsTable

rent_accepted :
    (apply_transaction sample_platform engine noon rent (encode_all sample_platform paid)).0
    ≡ ok (record { event = rent; applied_at = noon }, true)
unfolding apply_event find ledger_currency text_eq
rent_accepted =
    ap (λ o. o.0)
      (apply_transaction-apply_event sample_platform sample_laws engine noon rent paid noon-IsUtc
        rent-IsPayload refl paid-IsLedger)

apply_transaction-twice_example :
    apply_transaction sample_platform engine noon rent
      (apply_transaction sample_platform engine noon rent (encode_all sample_platform paid)).1
    ≡ (
      ok (record { event = rent; applied_at = noon }, false),
      (apply_transaction sample_platform engine noon rent (encode_all sample_platform paid)).1,
    )
apply_transaction-twice_example =
    apply_transaction-twice sample_platform sample_laws engine noon noon rent
      (encode_all sample_platform paid) rent-IsCall noon-IsUtc paid-IsTable rent_accepted

get_balance_exact_example :
    units
      (get_balance sample_platform engine (codes "a") (encode_all sample_platform settled)).balance
    ≡ pos 1000
unfolding units scale text_eq ◌+ℤ◌ ◌-ℤ◌
get_balance_exact_example =
    get_balance_exact sample_platform sample_laws engine 0 (codes "a") settled (omega arith)
      ((λ _. omega arith), ((λ _. omega arith), tt)) (omega arith)

apply_transaction_unreadable_example :
    let t = encode_all sample_platform (record { event = folded; applied_at = noon } ∷ []) in
    (apply_transaction sample_platform engine noon folded [] ≡ (err validation_error, t))
    × (apply_transaction sample_platform engine noon folded t ≡ (err validation_error, t))
unfolding find ledger_currency
apply_transaction_unreadable_example =
    apply_transaction_unreadable sample_platform sample_laws engine noon noon folded [] noon-IsUtc
      folded-IsPayload refl tt refl refl

abbrev started : Main.State
started = record { repository = encode_all sample_platform paid; metrics = empty_registry }

posted :
    (Main.apply_transaction sample_platform engine (codes "a") noon rent started).0
    ≡ Main.answered 201 (record { event = rent; applied_at = noon })
unfolding Main.apply_transaction text_eq
posted = rw rent_accepted refl

apply_transaction_retried_example :
    let retried = (Main.apply_transaction sample_platform engine (codes "a") noon rent started).1 in
    Main.apply_transaction sample_platform engine (codes "a") noon rent retried ≡ (
      Main.answered 200 (record { event = rent; applied_at = noon }),
      Main.count (codes "account.transactions.duplicate_replay") retried,
    )
apply_transaction_retried_example =
    apply_transaction_retried sample_platform sample_laws engine (codes "a") noon noon rent started
      rent-IsCall noon-IsUtc paid-IsTable posted

get_account_details-IsSorted_example :
    (shown hidden : Ledger sample_platform) × (get_account_details sample_platform engine
        (codes "a")
        1
        (encode_all sample_platform settled)
      ≡ ok (record {
        balance_response =
            get_balance sample_platform engine (codes "a") (encode_all sample_platform settled);
        recent_transactions = shown;
      }))
    × (length shown ≡ min 1 (length (of_owner sample_platform (codes "a") settled)))
    × Perm (shown ++ hidden) (of_owner sample_platform (codes "a") settled)
    × IsSorted (record_le sample_platform) (shown ++ hidden)
get_account_details-IsSorted_example =
    get_account_details-IsSorted sample_platform sample_laws engine (codes "a") 1 settled
      settled-IsLedger
