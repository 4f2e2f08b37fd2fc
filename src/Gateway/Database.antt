-- ===== src/Gateway/Database.antt =====
-- src/gateway_service/db.py: `GatewayRepository` with its connection, from `__init__` to `close`.
pub mod Reopened
use distr_sys_itrvw.Base.{Bool, Option, List, [], ◌∷◌}
use distr_sys_itrvw.Shared.Text.{Text}
use distr_sys_itrvw.Shared.Time.{DateTime}
use distr_sys_itrvw.Shared.Contracts.{Platform, EventPayload, EventRecord, Result}
use distr_sys_itrvw.Shared.Contracts.Records.{HealthResponse}
use distr_sys_itrvw.Shared.Database
use distr_sys_itrvw.Shared.Database.{Sql, SqlFailure, done, raised, Files, ◌>>=◌}
use distr_sys_itrvw.Gateway.Repository
use distr_sys_itrvw.Gateway.Repository.{Row}
use distr_sys_itrvw.Gateway.Main.App

abbrev pub GatewayRepository : Type 0
GatewayRepository = Database.Repository Row

unfoldable pub close : GatewayRepository → GatewayRepository
close = Database.close

unfoldable pub health_check : Option SqlFailure → GatewayRepository → Sql Bool
health_check = Database.health_check

-- `GET /health` of src/gateway_service/main.py, with the `health_check` that it
-- calls, where `SELECT 1` on an open connection raises `failure`, if any.
unfoldable pub health : DateTime → Option SqlFailure → GatewayRepository → Sql HealthResponse
unfolding health_check
health now failure r = do reachable ← health_check failure r; done (App.health reachable now)

module _ {F : Type 0} (files : Files Row F) where
  unfoldable pub initialize : Text → Database.Database Row → F → Sql (GatewayRepository × F)
  initialize = Database.initialize files

  unfoldable pub init_repository : Text → F → Sql (GatewayRepository × F)
  init_repository = Database.init_repository files

  module _ (p : Platform) where
    open p use {Metadata}

    -- `insert_applied_event`, on the connection.
    unfoldable pub insert_applied_event :
        DateTime
        → EventPayload Metadata
        → GatewayRepository
        → F
        → Sql (Result (EventRecord Metadata × Bool)) × GatewayRepository × F
    insert_applied_event now event =
        Database.execute files (λ t. Repository.insert_applied_event p now event t)

    -- The repository and the files after a sequence of calls.
    unfoldable pub insert_all :
        List (DateTime × EventPayload Metadata) → GatewayRepository → F → GatewayRepository × F
    insert_all [] r f = (r, f)
    insert_all ((now, e) ∷ rest) r f =
        let (answer, r', f') = insert_applied_event now e r f in insert_all rest r' f'
