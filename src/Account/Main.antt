-- ===== src/Account/Main.antt =====
-- src/account_service/main.py: the handlers of the internal API. The state is the table and the
-- counters. The middleware around them is Shared/Middleware; FastAPI's routing and rendering are left
-- out.
pub mod Retry
pub mod App
use distr_sys_itrvw.Base.{ℕ, Bool, true, false, not, ◌++◌, List, [], ◌∷◌, if◌then◌else◌}
use distr_sys_itrvw.Shared.Text.{Text, codes, text_eq}
use distr_sys_itrvw.Shared.Time.{DateTime}
use distr_sys_itrvw.Shared.Contracts.{
  Platform, EventPayload, TransactionRecord, BalanceResponse, AccountDetailsResponse, Failure,
  duplicate_conflict, currency_mismatch, Result, ok, err,
}
use distr_sys_itrvw.Shared.Rows.{Engine}
use distr_sys_itrvw.Shared.Metrics.{MetricsRegistry, count_event}
use distr_sys_itrvw.Account.Repository
use distr_sys_itrvw.Account.Repository.{Row, Table}

pub record State : Type 0 where
  pub repository : Table
  pub metrics : MetricsRegistry

-- A response: a status with a body, or a status with the detail of an `HTTPException`. What no handler
-- catches ends as the server's own 500.
pub data Reply (A : Type 0) : Type 0 where
  answered : ℕ → A → Reply A
  http_error : ℕ → Text → Reply A
  failed : Failure → Reply A

abbrev pub count : Text → State → State
count name s = record s { metrics = count_event name s.metrics }

-- `str(exc)` of `AccountCurrencyMismatchError`.
abbrev pub mismatch_message : Text → Text → Text
mismatch_message account_id currency =
    codes "account " ++ (account_id ++ (codes " already uses currency " ++ currency))

module _ (p : Platform) where
  open p use {Metadata}

  -- What follows the call of the repository, its `except` clauses included.
  abbrev pub applied :
      Result (TransactionRecord Metadata × Bool)
      → State
      → Reply (TransactionRecord Metadata) × State
  applied (ok (transaction, true)) s =
      (answered 201 transaction, count (codes "account.transactions.applied") s)
  applied (ok (transaction, false)) s =
      (answered 200 transaction, count (codes "account.transactions.duplicate_replay") s)
  applied (err (duplicate_conflict id)) s = (
    http_error 409 (codes "eventId already exists with different transaction details"),
    count (codes "account.transactions.idempotency_conflict") s,
  )
  applied (err (currency_mismatch account currency)) s = (
    http_error 409 (mismatch_message account currency),
    count (codes "account.transactions.currency_conflict") s,
  )
  applied (err x) s = (failed x, s)

  module _ (engine : Engine Row) where
    -- `POST /accounts/{account_id}/transactions`, for a payload that validation let through.
    unfoldable pub apply_transaction :
        Text → DateTime → EventPayload Metadata → State → Reply (TransactionRecord Metadata) × State
    apply_transaction account_id now event s =
        if not (text_eq event.account_id account_id)
        then (
          http_error 400 (codes "Path accountId must match payload accountId"),
          count (codes "account.transactions.path_mismatch") s,
        )
        else (let (outcome, table) = Repository.apply_transaction p engine now event s.repository in
            applied outcome (record s { repository = table }))

    -- `GET /accounts/{account_id}/balance`
    unfoldable pub get_balance : Text → State → Reply BalanceResponse
    get_balance account_id s =
        answered 200 (Repository.get_balance p engine account_id s.repository)

    abbrev pub detailed :
        Result (AccountDetailsResponse Metadata) → Reply (AccountDetailsResponse Metadata)
    detailed (ok details) = answered 200 details
    detailed (err x) = failed x

    -- `GET /accounts/{account_id}`, with the default limit.
    unfoldable pub get_account : Text → State → Reply (AccountDetailsResponse Metadata)
    get_account account_id s =
        detailed (Repository.get_account_details p engine account_id 25 s.repository)
