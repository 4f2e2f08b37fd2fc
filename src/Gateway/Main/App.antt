-- ===== src/Gateway/Main/App.antt =====
-- src/gateway_service/main.py: the set-up of the application, and the routes for operations. `int` and
-- `float` of a text, and the opening of a database, are parameters.
use distr_sys_itrvw.Base.{Bool, Option, none, some}
use distr_sys_itrvw.Base.Int.{ℤ}
use distr_sys_itrvw.Base.{ℕ}
use distr_sys_itrvw.Shared.Text.{Text, codes}
use distr_sys_itrvw.Shared.Time.{DateTime}
use distr_sys_itrvw.Shared.Metrics.{empty_registry}
use distr_sys_itrvw.Shared.Metrics.Snapshot.{Rounding, Snapshot, snapshot}
use distr_sys_itrvw.Shared.Contracts.Records.{HealthResponse}
use distr_sys_itrvw.Shared.Contracts.Records
use distr_sys_itrvw.Gateway.Repository.{Table}
use distr_sys_itrvw.Gateway.Client.{HttpAccountClient, init_client}
use distr_sys_itrvw.Gateway.Main.{State}

-- What the process is started with, and how its texts are read: `none` is a `ValueError`. Times are
-- whole numbers of the unit of the client's clock, and a timeout is only passed on to HTTPX.
pub record Environment : Type 0 where
  pub getenv : Text → Option Text
  pub int_of : Text → Option ℤ
  pub float_of : Text → Option ℤ
  pub timeout_of : Text → Option ℕ
  pub open_database : Text → Table

abbrev pub or_default : Option Text → Text → Text
or_default none default = default
or_default (some s) default = s

-- The constructor, with the settings that were read.
abbrev pub client_of :
    Text → Option ℕ → Option ℤ → Option ℤ → Option ℤ → Option ℤ → Option HttpAccountClient
client_of url (some timeout) (some attempts) (some backoff) (some threshold) (some reset) =
    some (init_client url timeout attempts backoff threshold reset)
client_of url _ _ _ _ _ = none

module _ (env : Environment) where
  abbrev pub setting : Text → Text → Text
  setting name default = or_default (env.getenv name) default

  -- The client that `create_app` makes if it is given none: one setting that is no number is enough for
  -- the `ValueError`.
  unfoldable pub configured_client : Option HttpAccountClient
  configured_client =
      client_of (setting (codes "ACCOUNT_SERVICE_URL") (codes "http://localhost:8001"))
        (env.timeout_of (setting (codes "ACCOUNT_SERVICE_TIMEOUT_SECONDS") (codes "1.5")))
        (env.int_of (setting (codes "ACCOUNT_SERVICE_MAX_ATTEMPTS") (codes "3")))
        (env.float_of (setting (codes "ACCOUNT_SERVICE_BACKOFF_SECONDS") (codes "0.1")))
        (env.int_of (setting (codes "ACCOUNT_SERVICE_CIRCUIT_FAILURE_THRESHOLD") (codes "3")))
        (env.float_of (setting (codes "ACCOUNT_SERVICE_CIRCUIT_RESET_SECONDS") (codes "5.0")))

  abbrev pub chosen_table : Option Table → Table
  chosen_table none =
      env.open_database
        (setting (codes "GATEWAY_DB_PATH") (codes "/tmp/event-ledger/gateway.sqlite"))
  chosen_table (some t) = t

  abbrev pub chosen_client : Option HttpAccountClient → Option HttpAccountClient
  chosen_client none = configured_client
  chosen_client (some c) = some c

  abbrev pub app_state : {W : Type 0} → Table → W → Option HttpAccountClient → Option (State W)
  app_state t world none = none
  app_state t world (some c) =
      some (record { repository = t; metrics = empty_registry; account_client = c; world = world })

  -- The state that `create_app` makes of what it is given: `none` where a setting is no number.
  unfoldable pub create_app :
      {W : Type 0} → Option Table → Option HttpAccountClient → W → Option (State W)
  create_app repository account_client world =
      app_state (chosen_table repository) world (chosen_client account_client)

-- `GET /health`; `reachable` is what `health_check` returned.
unfoldable pub health : Bool → DateTime → HealthResponse
unfolding Records.health
health reachable now = Records.health (codes "event-gateway") reachable now

-- `GET /metrics`
unfoldable pub metrics : {W : Type 0} (r : Rounding) → State W → Snapshot r.Float
unfolding snapshot
metrics r s = snapshot r s.metrics
