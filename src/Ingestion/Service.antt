-- ===== src/Ingestion/Service.antt =====
-- src/ingestion/service.py: `ingest_table`, over its parts.
use commerce_data_platform.Prelude.{ℕ, not, Option, none, some, str_eq}
use commerce_data_platform.Exceptions.{Exception, ok, err, value_error}
use commerce_data_platform.Action.{
  Action, pure, raise, lift, gets, modify, raise_if, catch, finally, suppress, ◌>>=◌, ◌>>◌,
}
use commerce_data_platform.Clock.{DateTime, utc, utc_now}
use commerce_data_platform.Lease.{
  SourceMutationLease, warehouse_owner_type, acquire, check, release,
}
use commerce_data_platform.Records.{Watermark, PipelineRun, check_run}
use commerce_data_platform.Contract.Columns.{TableConfig}
use commerce_data_platform.Contract.Tables.{table_config}
use commerce_data_platform.Control.Watermarks.{get_or_create_watermark}
use commerce_data_platform.Control.Runs.{record_started_run}
use commerce_data_platform.Control.TableLease.{TableLease, acquire_table_lease, release_table_lease}
use commerce_data_platform.Control.Batch.{CommittedTableBatch, get_committed_table_batch}
use commerce_data_platform.Bronze.Storage.{Client}
use commerce_data_platform.Ingestion.World.{
  World, on_leases, on_metadata, TableIngestionRequest, table_batch_id, TableIngestionResult,
  TableSnapshot, at_exit, Outside,
}
use commerce_data_platform.Ingestion.Recording.{
  run_of, record_prestart_failure, reuse_or_reject_committed_batch,
}
use commerce_data_platform.Ingestion.Load.{ingest_snapshot}

-- `DEFAULT_LEASE_TTL` and `DEFAULT_TABLE_LEASE_TTL`: thirty minutes.
abbrev default_ttl : ℕ
default_ttl = 1800000000

-- Every call takes the service's own time.
module _ {S : Type 0} (client : Client S) (outside : Outside) (clock time : ℕ) where
  abbrev now : Option DateTime
  now = some (utc time)

  -- The start of the run, under the heartbeat.
  unfoldable pub start :
      TableIngestionRequest → Watermark → Action (World S) (TableSnapshot × PipelineRun)
  start request watermark = do
    snapshot ← lift (outside.open_snapshot watermark.cursor)
    run ← lift (check_run (run_of request watermark.cursor snapshot.extract_upper_bound))
    on_metadata (record_started_run clock now run)
    pure (snapshot, run)

  -- A failure of the heartbeat takes the place of the error that leaves its block.
  abbrev leave : {A : Type 0} → Exception → Action (World S) A
  leave e = raise (elim (outside.healthy at_exit) [ ok _ ↦ e | err failure ↦ failure ])

  -- An error before the start of the run is recorded and raised again.
  abbrev fail_before_start :
      {A : Type 0} → TableIngestionRequest → Watermark → Exception → Action (World S) A
  fail_before_start request watermark e = do
    record_prestart_failure client outside clock time request watermark e
    raise e

  -- The block under the leases, with its `except`.
  unfoldable pub run_table :
      TableIngestionRequest
      → TableConfig
      → Watermark
      → SourceMutationLease
      → TableLease
      → Action (World S) TableIngestionResult
  run_table request config watermark source table = do
    started ← catch (catch (start request watermark) leave) (fail_before_start request watermark)
    result ←
        catch
          (ingest_snapshot client outside clock time request config watermark source table
            (started.0) (started.1))
          leave
    lift (outside.healthy at_exit)
    pure result

  -- A global lease that the caller passed in stays with the caller.
  unfoldable pub release_owned :
      Option SourceMutationLease → SourceMutationLease → World S → World S
  release_owned (some given) source w = w
  release_owned none source w = suppress (on_leases (release clock now source)) w

  -- The `finally` of the block: the local files are removed first, and an error of that goes past
  -- the releases.
  unfoldable pub release_leases :
      Option SourceMutationLease → SourceMutationLease → TableLease → Action (World S) (Unit {0})
  release_leases given source table = do
    lift outside.remove_local_artifacts
    modify (λ w.
        release_owned given source (suppress (on_metadata (release_table_lease clock now table)) w))

  unfoldable pub source_lease_for :
      TableIngestionRequest → Option SourceMutationLease → Action (World S) SourceMutationLease
  source_lease_for request (some given) = pure given
  source_lease_for request none =
      on_leases (acquire clock now warehouse_owner_type request.run_id default_ttl)

  unfoldable pub table_lease_for :
      TableIngestionRequest → SourceMutationLease → Action (World S) TableLease
  table_lease_for request source = do
    raise_if (not (str_eq source.owner_type warehouse_owner_type)) value_error
    on_leases (check clock now source)
    on_metadata (
        acquire_table_lease clock now request.pipeline_name request.source_table request.run_id
          default_ttl)

  -- The block under the leases with its `finally`.
  unfoldable pub run_under_leases :
      Option SourceMutationLease
      → TableIngestionRequest
      → TableConfig
      → Watermark
      → SourceMutationLease
      → TableLease
      → Action (World S) TableIngestionResult
  run_under_leases given request config watermark source table =
      finally (run_table request config watermark source table) (release_leases given source table)

  -- The part of `ingest_table` for a batch that is not committed.
  unfoldable pub ingest_batch :
      Option SourceMutationLease
      → TableIngestionRequest
      → TableConfig
      → Watermark
      → Action (World S) TableIngestionResult
  ingest_batch given request config watermark = do
    source ← catch (source_lease_for request given) (fail_before_start request watermark)
    table ← catch (table_lease_for request source) (λ e. do
      record_prestart_failure client outside clock time request watermark e
      λ w. (err e, release_owned given source w))
    run_under_leases given request config watermark source table

  -- From the look-up of the committed batch on.
  unfoldable pub ingest_or_reuse :
      Option SourceMutationLease
      → TableIngestionRequest
      → TableConfig
      → Watermark
      → Option CommittedTableBatch
      → Action (World S) TableIngestionResult
  ingest_or_reuse given request config watermark (some existing) =
      reuse_or_reject_committed_batch client outside clock time request config watermark existing
  ingest_or_reuse given request config watermark none = ingest_batch given request config watermark

  unfoldable pub ingest_at :
      Option SourceMutationLease → TableIngestionRequest → Action (World S) TableIngestionResult
  ingest_at given request = do
    config ← lift (table_config request.source_table)
    lift outside.bucket
    watermark ←
        on_metadata (get_or_create_watermark clock now request.pipeline_name config.source_table)
    lift outside.batch_identity
    existing ← gets (λ w. get_committed_table_batch (table_batch_id request) w.metadata)
    ingest_or_reuse given request config watermark existing

-- `ingest_table`
unfoldable pub ingest_table :
    {S : Type 0}
    → Client S
    → Outside
    → ℕ
    → Option DateTime
    → Option SourceMutationLease
    → TableIngestionRequest
    → Action (World S) TableIngestionResult
ingest_table client outside clock now given request = do
  current_time ← lift (utc_now clock now)
  ingest_at client outside clock current_time given request
