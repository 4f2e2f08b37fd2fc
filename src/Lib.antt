-- ===== src/Lib.antt =====
-- Event Ledger: two services that take in financial transaction events which may be delivered more than
-- once and out of order. The Gateway is the public service: it asks the Account Service to apply each
-- event, and keeps a record of the events that were applied. The Account Service keeps the
-- transactions of each account, from which it derives balances. Both share a package of contracts.
--
-- Which file models which part:   Shared/Time           src/event_ledger_common/time.py:
-- `require_aware_utc`, `format_timestamp`, and in                         Parse `parse_timestamp`, on
-- datetimes of whole microseconds   Shared/Contracts      src/event_ledger_common/contracts.py:
-- `EventPayload` and its validators as                         `validate`, and the records of both
-- services; their serializers, in Wire for                         a payload, in Records for the rest,
-- and in Details what the Gateway reads of                         a balance and of the details of an
-- account   Shared/Trace          src/event_ledger_common/trace.py: trace headers and the context
-- variable   Shared/Metrics        src/event_ledger_common/metrics.py: `record_request`,
-- `record_domain_event`,                         in Requests a sequence of calls, and in Snapshot
-- `snapshot`   Shared/Logging        src/event_ledger_common/logging.py: the payload of a line, the
-- filter, and                         `get_logger`   Shared/Middleware     the middleware that
-- src/gateway_service/main.py and                         src/account_service/main.py have word for
-- word   Shared/Database       what both src/account_service/db.py and src/gateway_service/db.py do
-- with the                         connection: `__init__`, `_initialize`, `close`, `health_check`;
-- taken up by                         Account/Database and Gateway/Database   Shared/Text, Rows,
-- Decimal, Binary64   Python's texts, what the SQL asks of SQLite, Python's
-- `Decimal` and floats   Account/Repository    src/account_service/db.py: the methods of
-- `AccountRepository` on its table   Account/Main          src/account_service/main.py: the account
-- routes, and in App the set-up, the                         health check and the metrics
-- Account/Ledger        what the Account Service promises, as a list of transactions   Account/Order
-- sequences of calls of `apply_transaction`, repeated and in any order   Gateway/Repository
-- src/gateway_service/db.py: the methods of `GatewayRepository` on its table   Gateway/Log
-- what the Gateway's repository promises, as a list of event records   Gateway/Client
-- src/gateway_service/account_client.py: `HttpAccountClient` with its retries and
-- its circuit breaker; in Inflight several requests at once on one client   Gateway/Main
-- src/gateway_service/main.py: the public routes, and in App the set-up, the
-- health check and the metrics   System                both services together: the Gateway's client
-- calls the Account Service's                         handlers over a network that loses requests and
-- responses (`deliver`). Steps                         has what can happen to the two tables, one step
-- at a time and in any order,                         and Submissions takes the Gateway's submissions
-- for runs of these steps;                         Balances has the Account Service's routes for reads
-- and the models that the                         Gateway's client reads from them The child modules
-- of a part hold its theorems, and the modules named Tests their runs at concrete inputs.
--
-- State is passed explicitly: a method takes its table, client or state and returns what it returns or
-- raises together with what it leaves. A lock makes a repository's method one step. The reading of the
-- clock that a method makes is its argument `now`.
--
-- Code that is not the repository's is a parameter. `Platform` has what is used of Pydantic, JSON,
-- `str.upper` and the text of a `Decimal`, and `IsPlatform` the documented behaviour relied on: JSON
-- and decimal texts are read back, and folding case or stripping keys twice is doing it once. `Engine`
-- is the order in which SQLite visits a table: any arrangement of its rows. `Files` are the files with
-- their databases, and `IsFiles` says that what was written is read back. The error that `SELECT 1` of
-- `health_check` may meet on an open connection is an argument. `Network` is HTTPX with the clock and
-- `asyncio.sleep`: any functions of a world.
--
-- Bounds: the retry loop is recursion on the attempts left, of which it is given as many as the client
-- is configured with. Every other loop is recursion on a list. `excess` of a decimal counts digits
-- with the coefficient itself as fuel, which exceeds their number. A decimal's exponent counts from
-- the smallest unit in use and is not negative; the limits that Python sets to exponents, infinities
-- and NaN are left out. The client's times are whole numbers. A duration of the metrics is a float
-- that is finite and not negative, counted in units of 2 ^ -1074, and sums of durations round as
-- floats do; `spare_bits` has 2046 steps, one more than a finite float has bits to round away.
--
-- What a float makes of a decimal and the reading of a datetime from JSON are an `Encoding`; the routes,
-- the rendering of responses and the clock of the machine, where both services run together, a `Frame`;
-- the routes and the bodies of reads are `Reads`.
--
-- Not modelled: FastAPI's routing and the rendering of responses, the coercion of other JSON values into
-- the field types, and what else can fail in a file: a locked or a full database, or one that another
-- process writes. They are input and output, or belong to FastAPI, Pydantic and SQLite.
--
-- System lets one submission of the Gateway run at a time, between which anything else may happen to the
-- tables; Gateway/Client/Inflight has the effects that several requests in flight have on one client.
pub mod Base
pub mod Shared
pub mod Account
pub mod Gateway
pub mod System
