-- ===== src/Lib.antt =====
-- r64-db-engine: a model of the engine that pulls tables from databases and HTTP sources into files,
-- and of the rules that it keeps.
--
-- The program. A daemon (src/r64_db_engine/core/daemon.py) is built from a configuration
-- (core/config.py), a driver that pulls, a sink that writes one file for each target, and a state store
-- (core/state.py, SQLite). Each table is pulled on its cadence: the watermark and the schema baseline
-- are read from the store, the driver is called with retries, the frame that it returns is merged with
-- the file if the mode is incremental, written, compared with the baseline for drift (core/coercion.py)
-- and recorded in the history. A health server (core/health.py) answers from the daemon's snapshot. The
-- rest dialect (drivers/rest) executes recipes: calls that a book describes, page by page, behind a fence
-- (security.py) that checks each destination. The driver's class comes from the registry
-- (drivers/__init__.py), which imports a driver only when it is asked for.
--
-- The files.
--   Base: lists, texts, decimal numbers, dictionaries, JSON documents, results that may be errors.
--   State: core/state.py. The three SQL tables are a record of lists and dictionaries, a method is a
--     function on it. Which rows `ORDER BY started_at DESC` puts first among equals is open: the
--     order is a parameter with the laws of a sort.
--   Coercion: `compare_schemas` of core/coercion.py.
--   Config: core/config.py and core/profile.py; Config.Cadence `parse_cadence`, Config.Env
--     `substitute_env`. A validator is a function into a result, in pydantic's order.
--   Daemon: core/daemon.py. A pull has two ends, `start_pull` up to the wait for the driver and
--     `finish_pull` from the driver's answers on, so that pulls of several tables interleave as
--     sequences of steps. The driver's answers are a function of the attempt, a sink is an interface,
--     clock readings are arguments. Daemon.Snapshot and Daemon.Snapshot.Health: `status_snapshot`
--     and core/health.py.
--   Descriptor: core/descriptor.py: the checks that a declared descriptor passes.
--   Registry: drivers/__init__.py: the registry of drivers, over an overlay and what an import yields.
--   Sinks: Sinks.Replace core/ramdb_writer.py's directory, target and temporary names, renaming and
--     clean-up, with Sinks.Replace.Steps the step relation of an atomic replacement that may be cut short
--     anywhere; Sinks.Ramdb the write of core/ramdb_writer.py and sinks/ramdb.py with its guard of 32 bits
--     and its null fill; Sinks.ArrowIpc sinks/arrow_ipc.py: `open`, the conversion of a table, the write.
--   Drivers: Drivers.Postgres drivers/postgres/driver.py: the cursor, with Postgres.BuildQuery the query,
--     Postgres.NewWatermark the watermark that a pull leaves, Postgres.Pull the pull, Postgres.Connect the
--     connection string; Drivers.ClickHouse drivers/clickhouse/driver.py, with
--     ClickHouse.Validate the check of a configured table. The server is a parameter: it answers a
--     query with rows. Drivers.Order: the order of the values of a cell.
--   Profiles: Profiles.Supabase profiles/supabase.py.
--   Scrub: core/scrub.py.
--   Rest: drivers/rest. Rest.Security the fence, Rest.Recipes the book and `parse_book`, Rest.Engine what is
--     read out of a response, Rest.Engine.Request one call, Rest.Engine.Run the page loop and the book,
--     Rest.Drift the repair events of drift.py. The answers of the provider, of name resolution and of the
--     file system are functions of the page.
--   Tests: the program's parts at concrete inputs.
--
-- Bounds and fuel. The page loop recurses on the pages that are left of `max_pages`, as the source's
-- loop does. `connect_loop` has no bound in the source; the model's takes fuel, and the theorem about it
-- says how much is enough. The printing of a number has fuel above the number.
--
-- Not modelled: pandas, pydantic's own parsing, asyncio, sockets, SQLite itself, `urllib.parse`, `ipaddress`,
-- jsonschema, httpx, psycopg, clickhouse_connect, pyarrow and row64tools; those that decide something are
-- parameters. Of the database drivers: `discover`, the mapping of types, and `validate_table` of Postgres. The
-- conformance suites, the factory and the command line are outside. Case folding and white space are those of
-- ASCII.
pub mod Base
pub mod State
pub mod Coercion
pub mod Config
pub mod Daemon
pub mod Descriptor
pub mod Registry
pub mod Sinks
pub mod Drivers
pub mod Profiles
pub mod Scrub
pub mod Rest
pub mod Tests
