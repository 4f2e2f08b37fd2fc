-- ===== src/Account/Main/App.antt =====
-- src/account_service/main.py: the set-up of the application, and the routes for operations. The opening
-- of a database is a parameter.
use distr_sys_itrvw.Shared.Middleware
use distr_sys_itrvw.Shared.Middleware.{Headers, Incoming, Called, Observed, Values}
use distr_sys_itrvw.Base.{ℕ, Bool, Option, none, some}
use distr_sys_itrvw.Shared.Text.{Text, codes}
use distr_sys_itrvw.Shared.Time.{DateTime}
use distr_sys_itrvw.Shared.Metrics.{empty_registry}
use distr_sys_itrvw.Shared.Metrics.Snapshot.{Rounding, Snapshot, snapshot}
use distr_sys_itrvw.Shared.Contracts.Records
use distr_sys_itrvw.Shared.Contracts.Records.{HealthResponse}
use distr_sys_itrvw.Account.Repository.{Table}
use distr_sys_itrvw.Account.Main.{State}

abbrev pub database_path : Option Text → Text
database_path none = codes "/tmp/event-ledger/account-service.sqlite"
database_path (some path) = path

-- The state that `create_app` makes of what it is given.
unfoldable pub create_app : (Text → Option Text) → (Text → Table) → Option Table → State
create_app getenv open_database none = record {
  repository = open_database (database_path (getenv (codes "ACCOUNT_DB_PATH")));
  metrics = empty_registry;
}
create_app getenv open_database (some repository) = record {
  repository = repository;
  metrics = empty_registry;
}

-- `GET /health`; `reachable` is what `health_check` returned.
unfoldable pub health : Bool → DateTime → HealthResponse
unfolding Records.health
health reachable now = Records.health (codes "account-service") reachable now

-- `GET /metrics`
unfoldable pub metrics : (r : Rounding) → State → Snapshot r.Float
unfolding snapshot
metrics r s = snapshot r s.metrics

-- The middleware, which src/gateway_service/main.py has too.
module _ (h : Headers) {S B V : Type 0} (v : Values V) (perf_counter : S → ℕ)
    (call_next : Incoming h.Map → Observed S V → Called h.Map B × Option Text × Observed S V) where
  unfoldable pub trace_metrics_logging_middleware :
      Text → Text → Incoming h.Map → Observed S V → Called h.Map B × Observed S V
  trace_metrics_logging_middleware = Middleware.trace_metrics_logging h v perf_counter call_next
