-- ===== src/Lib.antt =====
-- A model of the commerce data platform, which takes the rows of a source database page by page
-- into a bronze store, builds marts from them and publishes the marts. The model follows the code
-- that keeps the platform consistent: leases, the control state of the ingestion with its commit,
-- the extraction by cursor and the validation of its pages, the run of one table from its leases to
-- its commit, the uploads, the transitions of orders in the source, and the publish runs.
--
-- The parts:
--   * Lease: src/common/lease.py, the one lease on the source that the generator and the warehouse
--     share. `acquire`, `renew`, `check`, `fenced` and `release` are
--     `acquire_source_mutation_lease` and its siblings. Lease/Exclusion and Lease/Fencing hold the
--     theorems.
--   * Records, Control: src/ingestion/control/metadata.py, lease.py and batch.py. `Records` has
--     the value classes with the checks of their constructors, and the rows of the four metadata
--     tables. Control/Watermarks, Control/Runs, Control/Commit, Control/TableLease and
--     Control/Batch have one definition per function, under the function's name; helpers such as
--     `is_expected` or `advanced` are the condition and the assignments of one SQL statement.
--     Control/History has the histories of all writing operations and of the reconciliations of
--     Bronze/Orphan, at any time, by any process and whatever their outcome, and what holds in them.
--   * Cursor, Extraction: the composite cursor, and src/ingestion/extraction/extract.py, which
--     reads a snapshot of a table in pages up to a fixed bound.
--   * Contract: src/ingestion/contract/tables.py and schema.py. `TableConfig` with the checks of its
--     constructor in Contract/Columns, the nine tables in Contract/Tables under the source's names
--     in small letters, and their look-up `table_config`.
--   * Validation: src/ingestion/extraction/validation.py, references.py, corruption.py and the
--     reject rate of quarantine.py, with src/ingestion/contract/rules.py. Validation/Values has the
--     values of a row with Python's equality, Validation/Rules the checks that read no state, and
--     Validation/Pipeline the pipeline, whose state is the seen keys and the next ordinal.
--     Validation/Batch is `_write_local_artifacts` of src/ingestion/service.py, the loop that feeds
--     it; a local file is the list of its rows. Validation/Split says what the loop promises, and
--     Validation/Contracts what it is for a row to keep the contract of its table.
--   * Bronze: src/ingestion/bronze/storage.py, verification.py and orphan.py. A client of the
--     object storage is a parameter, `Client`, of whose answers nothing is assumed; Bronze/Memory
--     is one in memory, on which the examples run. Bronze/Candidates searches the
--     keys of the storage, a sorted list without repetition, for objects that no row knows, and
--     Bronze/Orphan reconciles one.
--   * Ingestion: src/ingestion/service.py. `World` is the global lease, the metadata database and
--     the object storage; `ingest_table` works on it by the operations of Lease, Control, Bronze
--     and Validation. Ingestion/Recording has the records of a failed and of a skipped run,
--     Ingestion/Load the part from the snapshot to the commit, Ingestion/Service the rest. `catch`,
--     `finally` and `suppress` of Action are the statements of these names.
--   * Generator: src/generator/orders/transitions.py, order_progress.py and the order's half of the
--     loop of existing_orders.py, which sends each due step of an order through the transitions;
--     and src/generator/core/commits.py, the record of a run's inputs and result.
--   * Warehouse: src/warehouse/publish_metadata.py, with the checks and the unique keys of
--     sql/metadata/005_create_mart_publish_runs.sql.
--   * Errors: src/ingestion/errors.py, the type of an error and the retry rule, over the exception
--     classes of all the other parts.
--   * Prelude, Exceptions, Action, Clock, Order, Sql: what the parts share. An `Action` takes the
--     state to a result and the state after it; `transaction` puts the state back on an error, as
--     a transaction of PostgreSQL does. `Sql` has the statements as operations on lists of rows.
--
-- The lease of a table stands on the row of its watermark, whose version the commit and the rewind
-- raise; the commit checks both. The retry rule reads the exceptions that the leases raise.
--
-- The service takes the table's contract, validates the pages of the extraction, uploads what is
-- valid and what is not, and commits both with the run. A second request for a committed batch ends
-- at the look-up of Control/Batch.
--
-- Bounds and assumptions:
--   * A time is the number of microseconds since the least datetime, in UTC. A datetime that a
--     caller passes in may also be naive or in another zone, and is refused where the code does
--     so. A time to live that is not positive is 0.
--   * An exception stands for its class; the messages are left out.
--   * A transaction runs alone: a row lock or a serialisable statement makes two transactions on
--     one row come one after the other, and a history is that order.
--   * Lengths of columns are left out. A JSON column that holds a cursor is the cursor itself: the
--     text of its timestamp, and the errors of a column of another form, are not modelled.
--   * The loop over the pages runs on fuel. One page leaves fewer rows than before, so more fuel
--     than the table has rows is enough.
--   * The service runs with no other process between its steps; the interleavings of the operations
--     on the metadata are in Control/History. What other processes, the source database, the
--     heartbeat's thread, the file system and the Parquet and JSON libraries give it is `Outside`, of which nothing
--     is assumed. Its pages are those of Extraction.
--   * A decimal is finite. The reject rate compares fractions: the floats of the code agree with
--     them below 2 ^ 50 rows.
--   * The hash that chooses delays and cancellations of orders is any function.
--
-- Not modelled: the Parquet files, manifests and object keys as bytes and texts; the listing of
-- the object storage and the catalog; the heartbeat threads; the
-- creation of orders and customers; the replacement of the published file, dbt and DuckDB; seeds,
-- exports, dashboards, reports and benchmarks, which read and write files or call services.
pub mod Prelude
pub mod Exceptions
pub mod Action
pub mod Clock
pub mod Lease
pub mod Order
pub mod Cursor
pub mod Sql
pub mod Records
pub mod Contract
pub mod Validation
pub mod Bronze
pub mod Ingestion
pub mod Control
pub mod Extraction
pub mod Generator
pub mod Warehouse
pub mod Errors
