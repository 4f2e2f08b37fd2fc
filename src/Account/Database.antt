-- ===== src/Account/Database.antt =====
-- src/account_service/db.py: `AccountRepository` with its connection, from `__init__` to `close`.
pub mod Reopened
use distr_sys_itrvw.Base.{Bool, Option, List, [], ◌∷◌}
use distr_sys_itrvw.Shared.Text.{Text}
use distr_sys_itrvw.Shared.Time.{DateTime}
use distr_sys_itrvw.Shared.Contracts.{Platform, EventPayload, TransactionRecord, Result}
use distr_sys_itrvw.Shared.Contracts.Records.{HealthResponse}
use distr_sys_itrvw.Shared.Rows.{Engine}
use distr_sys_itrvw.Shared.Database
use distr_sys_itrvw.Shared.Database.{Sql, SqlFailure, done, raised, Files, ◌>>=◌}
use distr_sys_itrvw.Account.Repository
use distr_sys_itrvw.Account.Repository.{Row}
use distr_sys_itrvw.Account.Main.App

abbrev pub AccountRepository : Type 0
AccountRepository = Database.Repository Row

unfoldable pub close : AccountRepository → AccountRepository
close = Database.close

unfoldable pub health_check : Option SqlFailure → AccountRepository → Sql Bool
health_check = Database.health_check

-- `GET /health` of src/account_service/main.py, with the `health_check` that it
-- calls, where `SELECT 1` on an open connection raises `failure`, if any.
unfoldable pub health : DateTime → Option SqlFailure → AccountRepository → Sql HealthResponse
unfolding health_check
health now failure r = do reachable ← health_check failure r; done (App.health reachable now)

module _ {F : Type 0} (files : Files Row F) where
  unfoldable pub initialize : Text → Database.Database Row → F → Sql (AccountRepository × F)
  initialize = Database.initialize files

  unfoldable pub init_repository : Text → F → Sql (AccountRepository × F)
  init_repository = Database.init_repository files

  module _ (p : Platform) (engine : Engine Row) where
    open p use {Metadata}

    -- `apply_transaction`, on the connection.
    unfoldable pub apply_transaction :
        DateTime
        → EventPayload Metadata
        → AccountRepository
        → F
        → Sql (Result (TransactionRecord Metadata × Bool)) × AccountRepository × F
    apply_transaction now event =
        Database.execute files (λ t. Repository.apply_transaction p engine now event t)

    -- The repository and the files after a sequence of calls.
    unfoldable pub apply_all :
        List (DateTime × EventPayload Metadata) → AccountRepository → F → AccountRepository × F
    apply_all [] r f = (r, f)
    apply_all ((now, e) ∷ rest) r f =
        let (answer, r', f') = apply_transaction now e r f in apply_all rest r' f'
