-- ===== src/Lib.antt =====
-- The collector of StockTracker: it takes listings, company data and market data from vnstock and
-- sends them to the API and to RabbitMQ, in pipelines that the HTTP endpoints and a scheduler
-- start.
--
-- The parts and the files:
-- - Errors: the exceptions of app/core/exceptions.py, with the built-in ones that the code
--   catches. Exec: a method that mutates state and may raise is a function of the state to an
--   outcome and the state after it; `try_finally` and `try_except` are the statements.
--   Exec.Fallible has the functions without state that may raise, and their loops.
-- - Control.Schema: the tables of alembic/versions, a row to a record. Control.Store: the methods
--   of PipelineStore (app/control/store.py), each an action on the tables with the name of the
--   method; Control.Store.Rows: the rows that the statements select and write. Control.Context:
--   app/control/context.py. The proofs are in Control/Store: Runs, Steps, Marks, and Lifecycle,
--   for which Control.Store.Book has the specification of the methods on the runs, a book that
--   gives each identifier its run. Control.Store.Constraints states the constraints of the migration on the tables, and
--   Control.Store.Integrity is about them after any calls.
-- - Engine: PipelineEngine (app/engine/pipeline.py). Engine.State has its state: a `World` holds
--   the class attributes, the context variable, the living heartbeat tasks, the database, the
--   clocks and what else a pipeline changes; a `Frame` holds the local variables of `_execute`,
--   which is `execute`, in the parts `prepare`, `call_pipeline`, `settle` and `cleanup`. The
--   proofs are in Engine: Outcomes, Steps, Locks, Cleanup.
-- - Migrations: alembic/env.py, with the upgrade of alembic/versions; the proofs are in
--   Migrations.Prepared and Migrations.Settled.
-- - Metrics: the counters of app/middleware/metrics.py and its ASGI middleware; Metrics.Render
--   has the text of the counters. The proofs are in Laws, Order, Sorted, Stable and Middleware.
-- - Jobs: JobRegistry (app/engine/job_registry.py). `_run` awaits the engine once, so it is the
--   two steps `begin_job` and `finish_job`; Jobs.Invariant takes them in any order between
--   submissions. The cancellation of tasks and the shutdown are in Jobs, with proofs in
--   Jobs.Tracked and Jobs.Shutdown.
-- - Api: the endpoints of app/main.py that submit a pipeline and read a job, and the check of the
--   operator's token; Json has the documents that they read. Api.Globals: the globals of the
--   module, their getters and the dependencies built of them. Api.Routes: the routes with their
--   guards, and the pipelines of the scheduler; the proofs on the guards are in Api.Guarded.
-- - Pipelines: app/pipelines, one child for each pipeline. The source, the processors, the API
--   client and the sinks are the fields of a record of dependencies, which may read and change
--   the world in any way and may raise. Pipelines.MarketData also has the chunks of the market
--   data processor. Pipelines.Wiring puts the company processor into the company pipeline.
--   Pipelines.Feed puts the source, the processor and the RabbitMQ sink into the market data
--   pipeline, and Pipelines.Delivered has the proofs on them together.
-- - Frames: app/plugins/processors/pandas_utils.py, over frames that are columns and rows of
--   cells. Schemas: the payloads of app/schemas. Processors: Profile and Company are
--   app/plugins/processors/company_processor.py, MarketData market_data_processor.py, and Listing
--   pandas_processor.py; Cells reads a field of a row. The proofs are in Snapshot, Identity,
--   Priced, Candles, Baskets and Listed.
-- - Vnstock: the source of app/plugins/sources/vnstock_source.py: its calls of the SDK, with the
--   indices in Catalog, the quotes in Quotes and the operations in Extract. The proofs are in
--   Calls, Pages, Baskets and Full.
-- - Lifespan: the lifespan of app/main.py with its stack of callbacks, and readiness;
--   Lifespan.Release has what it leaves behind.
-- - Rabbit: app/plugins/sinks/rabbitmq_sink.py, with proofs on its connection in
--   Rabbit.Connection and on its messages in Rabbit.Published.
-- - Http: the retry of app/engine/retry.py and the token cache of app/engine/keycloak_auth.py.
--   ApiClient: the requests of app/engine/stocktracker_api.py and
--   app/plugins/sinks/rest_api_sink.py; the proofs are in ApiClient.Maps and ApiClient.Sent.
-- - Archive: capture and load of app/archive/raw_archive.py; Archive.Bucket: ensure_bucket and
--   ping.
-- - Config: the settings of app/core/config.py. RateLimit: app/core/rate_limiter.py.
-- - Base: shared names, lists, tables, their rows and dictionaries. Tests: concrete states and
--   examples.
--
-- How the program is represented:
-- - The environment decides which queries fail: `fault n` is the exception that query number n
--   raises, if any. The wait for the heartbeat task at the end of `_execute` counts as a query, so
--   that it may be cancelled. What another task does while a pipeline runs is part of the pipeline's body,
--   which is any function of the world.
-- - Identifiers, times of day and JSON documents in the database are texts; a fresh identifier of
--   uuid4() is an argument. The clock of the database (`clock`), the time of day in the process
--   (`wall_clock`) and the other process clocks are numbers. The lengths of the varchar columns
--   are left out: a query that exceeds one is one that fails.
-- - The rate limiter counts in units of a millionth of a token and in milliseconds, without the
--   rounding of floats. How long a sleep of the limiter lasts is the parameter `slept`. The loop of
--   `acquire` runs on fuel: one round for each missing unit and one more are enough for a task that
--   is alone, asks for no more than the burst and sleeps for a millisecond or longer each time. A retried call has four further attempts, as
--   the source sets. The range of the chunks runs on the length as fuel, enough since a chunk
--   size is positive.
-- - `lower`, `json_loads` and the fields of `Printer` stand for functions of Python's library.
-- - httpx, pydantic and the rate limiter stand behind the fields of `KeycloakClient` and
--   `ApiDeps`, and S3, gzip, SHA-256 and pandas behind those of `ArchiveDeps`; an identifier of
--   the API is not negative.
-- - pandas, float, the dates of datetime and SHA-256 stand behind the fields of `Pandas`, vnstock
--   and the limiter behind those of `Sdk`, and aio-pika behind those of `Broker`. A cell that
--   float refuses by another exception than the two that clean_float catches is left out. The
--   messages of some exceptions leave out what they print of a value. upper and lower change the
--   letters of ASCII, and the digits of a date are those of ASCII.
-- - A sum of durations of the metrics, which Python adds as floats, is kept as its terms in their
--   order; what Python prints of such a sum is the parameter `str_sum`, and of a number `str`. Where the market data pipeline stands with its source and sink, what the
--   source and its limiter change is a state apart from what the sink and its limiter change.
-- - The migrations see the catalog of the database as names of relations with the rows of the two
--   version tables; the names that PostgreSQL chooses itself and the sequences are left out. Alembic's
--   function is a parameter, of which the theorem supposes what it does at the last revision and
--   where none is recorded.
-- - The loop over the pages of trades runs on the number of pages that are left.
--
-- Not modelled: the scheduler's wrapper and logging, which only pass calls on to APScheduler and
-- to the logging library, what FastAPI parses of a request, the offline mode of the migrations, the scripts and the tests.
pub mod Base
pub mod Errors
pub mod Exec
pub mod Control
pub mod Metrics
pub mod Engine
pub mod Jobs
pub mod Json
pub mod Frames
pub mod Schemas
pub mod Processors
pub mod Vnstock
pub mod Rabbit
pub mod Lifespan
pub mod Pipelines
pub mod Api
pub mod Config
pub mod Http
pub mod Archive
pub mod ApiClient
pub mod Migrations
pub mod RateLimit
pub mod Tests
