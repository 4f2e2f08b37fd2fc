-- ===== src/System/BalanceTests.antt =====
-- A balance read through the Gateway, on the sample platform.
use distr_sys_itrvw.Base.{
  ◌≡◌, refl, ap, Option, none, some, List, [], ◌∷◌, ◌++◌, arith, if◌then◌else◌,
}
use distr_sys_itrvw.Base.Int.{pos, ◌+ℤ◌, ◌-ℤ◌}
use distr_sys_itrvw.Shared.Text.{Text, codes, text_eq, strip}
use distr_sys_itrvw.Shared.Decimal.{Decimal, scale, decimal_positive}
use distr_sys_itrvw.Shared.Decimal.Exact.{units}
use distr_sys_itrvw.Shared.Contracts.{BalanceResponse, AccountDetailsResponse, ok, ◌>>=◌}
use distr_sys_itrvw.Shared.Contracts.Records.{BalanceJson, TransactionJson}
use distr_sys_itrvw.Shared.Contracts.Details.{
  AccountDetailsJson, rounded_balance, details_dump, details_validate,
  details_validate-details_dump,
}
use distr_sys_itrvw.Shared.Contracts.Payloads.{
  noon, noon-IsUtc, salary, rent, salary-IsPayload, rent-IsPayload,
}
use distr_sys_itrvw.Shared.Contracts.Samples.{sample_platform, sample_laws, sample_blank}
use distr_sys_itrvw.Shared.Metrics.{empty_registry}
use distr_sys_itrvw.Shared.Rows.{order_by, insert_sorted, select}
use distr_sys_itrvw.Shared.Text.{text_le, text_eq_refl}
use distr_sys_itrvw.Shared.Time.Print.{utc_text}
use distr_sys_itrvw.Account.Repository.{detail_rows, get_balance, get_account_details}
use distr_sys_itrvw.Account.Details.{read_rows-encode_all}
use distr_sys_itrvw.System.Balances.{details_of_body}
use distr_sys_itrvw.System.Balances.Details.{get_account_arrives}
use distr_sys_itrvw.Shared.Contracts.Details.{rounded_details, AllSendable}
use distr_sys_itrvw.Account.Ledger.Encode.{encode_all, encode}
use distr_sys_itrvw.Account.Tests.{settled}
use distr_sys_itrvw.Gateway.Client.{circuit_allows, record_downstream_success}
use distr_sys_itrvw.Gateway.Main.{State, answered}
use distr_sys_itrvw.Gateway.Main.Reads
use distr_sys_itrvw.System.{
  Json, payload, string, number, World, cloud, lost_response, lost_request, timeout, server_error,
}
use distr_sys_itrvw.System.Balances.{Reads, IsReads, balance_of_body, with_reads}
use distr_sys_itrvw.System.Balances.Arrives.{get_balance_arrives}
use distr_sys_itrvw.System.Tests.{
  sample_encoding, sample_encoding-IsEncoding, engine, frame, reading,
}

abbrev Fields : Type 0
Fields = List (Text × Json Text Decimal)

abbrev render_transactions : List (TransactionJson Text Decimal) → Fields
render_transactions [] = []
render_transactions (j ∷ js) = (j.applied_at, payload j.payload) ∷ render_transactions js

abbrev read_transactions : Fields → List (TransactionJson Text Decimal)
read_transactions [] = []
read_transactions ((at, payload j) ∷ m) =
    record { payload = j; applied_at = at } ∷ read_transactions m
read_transactions (_ ∷ m) = read_transactions m

read_transactions-render :
    (js : List (TransactionJson Text Decimal)) → read_transactions (render_transactions js) ≡ js
read_transactions-render [] = refl
read_transactions-render (j ∷ js) = ap (λ l. j ∷ l) (read_transactions-render js)

abbrev currency_fields : Option Text → Fields
currency_fields none = []
currency_fields (some c) = (codes "currency", string c) ∷ []

abbrev currency_of : Fields → Option Text
currency_of ((k, string c) ∷ m) = some c
currency_of _ = none

currency_of-currency_fields :
    (o : Option Text) (js : List (TransactionJson Text Decimal))
    → currency_of (currency_fields o ++ render_transactions js) ≡ o
currency_of-currency_fields none [] = refl
currency_of-currency_fields none (j ∷ js) = refl
currency_of-currency_fields (some c) js = refl

read_transactions-currency_fields :
    (o : Option Text) (js : List (TransactionJson Text Decimal))
    → read_transactions (currency_fields o ++ render_transactions js) ≡ js
read_transactions-currency_fields none js = read_transactions-render js
read_transactions-currency_fields (some c) js = read_transactions-render js

abbrev render_both : BalanceJson Decimal → List (TransactionJson Text Decimal) → Fields
render_both b js =
    (codes "accountId", string b.account_id)
    ∷ (codes "balance", number b.balance)
    ∷ (currency_fields b.currency ++ render_transactions js)

abbrev read_both : Fields → Option (AccountDetailsJson Text Decimal)
read_both ((k, string account) ∷ (k', number balance) ∷ m) = some (record {
  balance_response = record { account_id = account; balance = balance; currency = currency_of m };
  recent_transactions = read_transactions m;
})
read_both _ = none

read_both-render_both :
    (b : BalanceJson Decimal) (js : List (TransactionJson Text Decimal))
    → read_both (render_both b js)
      ≡ some (record { balance_response = b; recent_transactions = js })
read_both-render_both b js = λ i. some (record {
  balance_response = record b { currency = currency_of-currency_fields b.currency js i };
  recent_transactions = read_transactions-currency_fields b.currency js i;
})

abbrev balance_part : Option (AccountDetailsJson Text Decimal) → Option (BalanceJson Decimal)
balance_part none = none
balance_part (some d) = some d.balance_response

abbrev reads : Reads sample_platform sample_encoding
reads = record {
  balance_route =
      λ path. if text_eq path (codes "/accounts/a/balance") then some (codes "a") else none;
  details_route = λ path. if text_eq path (codes "/accounts/a") then some (codes "a") else none;
  render_balance = λ b. render_both b [];
  render_details = λ d. render_both d.balance_response d.recent_transactions;
  read_balance = λ m. balance_part (read_both m);
  read_details = read_both;
}

reads-IsReads : IsReads sample_platform sample_encoding reads
reads-IsReads = record {
  read_balance-render = λ j. ap balance_part (read_both-render_both j []);
  read_details-render = λ j. read_both-render_both j.balance_response j.recent_transactions;
}

-- The answer to the first request is lost, the second request is lost, and the third is served.
abbrev asking : State World
asking = record reading {
  world = record {
    account = record { repository = encode_all sample_platform settled; metrics = empty_registry };
    clock = 7;
    deliveries = lost_response timeout ∷ lost_request (server_error 2) ∷ [];
  };
}

get_balance_arrives_example :
    let (answer, s') =
      Reads.get_balance sample_platform
        (cloud sample_platform sample_encoding
          (with_reads sample_platform sample_encoding reads frame engine)
          engine)
        (balance_of_body sample_platform sample_encoding reads)
        []
        (codes "t")
        (codes "a")
        asking in
    (b : BalanceResponse) × (answer
      ≡ answered 200 (rounded_balance sample_platform sample_encoding b))
    × (units b.balance ≡ pos 1000)
    × (s'.repository ≡ asking.repository)
    × (s'.world.account ≡ asking.world.account)
    × (s'.account_client ≡ record_downstream_success asking.account_client)
unfolding circuit_allows text_eq units scale ◌+ℤ◌ ◌-ℤ◌
get_balance_arrives_example =
    get_balance_arrives sample_platform sample_laws sample_encoding frame reads reads-IsReads engine
      [] (codes "t") (codes "a") 2 0 settled asking refl refl (omega arith) (tt, (tt, refl)) refl
      (omega arith) ((λ _. omega arith), ((λ _. omega arith), tt)) (omega arith)

abbrev details : AccountDetailsResponse Text
details = record {
  balance_response = record {
    account_id = codes "a";
    balance = record { coefficient = pos 1000; exponent = 0 };
    currency = some (codes "EUR");
  };
  recent_transactions =
      record { event = salary; applied_at = noon }
      ∷ record { event = rent; applied_at = noon }
      ∷ [];
}

details_read_back :
    (details_dump sample_platform sample_encoding details
      >>= details_validate sample_platform sample_encoding)
    ≡ ok details
unfolding strip sample_blank decimal_positive
details_read_back =
    details_validate-details_dump sample_platform sample_encoding sample_encoding-IsEncoding details
      (refl, refl)
      (
        record { payload = salary-IsPayload; three = refl; applied = noon-IsUtc; positive = refl },
        (
          record { payload = rent-IsPayload; three = refl; applied = noon-IsUtc; positive = refl },
          tt,
        ),
      )

rows_shown :
    detail_rows sample_platform engine (codes "a") 25 (encode_all sample_platform settled)
    ≡ encode_all sample_platform settled
unfolding detail_rows order_by insert_sorted select text_eq text_le encode
rows_shown = rw (text_eq_refl (utc_text noon)) refl

-- The details that the Account Service has of the account.
abbrev settled_details : AccountDetailsResponse Text
settled_details = record {
  balance_response =
      get_balance sample_platform engine (codes "a") (encode_all sample_platform settled);
  recent_transactions = settled;
}

settled_found :
    get_account_details sample_platform engine (codes "a") 25 (encode_all sample_platform settled)
    ≡ ok settled_details
unfolding get_account_details
settled_found = rw rows_shown (
    rw
      (read_rows-encode_all sample_platform sample_laws settled (
        record { payload = salary-IsPayload; three = refl; applied = noon-IsUtc },
        (record { payload = rent-IsPayload; three = refl; applied = noon-IsUtc }, tt),
      ))
      refl)

settled-AllSendable : AllSendable sample_platform sample_encoding settled
unfolding decimal_positive
settled-AllSendable = (
  record { payload = salary-IsPayload; three = refl; applied = noon-IsUtc; positive = refl },
  (record { payload = rent-IsPayload; three = refl; applied = noon-IsUtc; positive = refl }, tt),
)

get_account_arrives_example :
    let (answer, s') =
      Reads.get_account sample_platform
        (cloud sample_platform sample_encoding
          (with_reads sample_platform sample_encoding reads frame engine)
          engine)
        (details_of_body sample_platform sample_encoding reads)
        []
        (codes "t")
        (codes "a")
        asking in
    (answer ≡ answered 200 (rounded_details sample_platform sample_encoding settled_details))
    × (s'.repository ≡ asking.repository)
    × (s'.world.account ≡ asking.world.account)
    × (s'.account_client ≡ record_downstream_success asking.account_client)
unfolding circuit_allows text_eq
get_account_arrives_example =
    get_account_arrives sample_platform sample_laws sample_encoding sample_encoding-IsEncoding frame
      reads reads-IsReads engine [] (codes "t") (codes "a") 2 settled_details asking refl refl
      settled_found settled-AllSendable refl (omega arith) (tt, (tt, refl))
