-- ===== src/Ingestion/Recording.antt =====
-- src/ingestion/service.py: how the service records a run that fails, and how it uses a committed
-- batch again.
use commerce_data_platform.Prelude.{ℕ, String, Option, none, some, str_eq, if◌then◌else◌}
use commerce_data_platform.Exceptions.{Exception, Result, ok, err}
use commerce_data_platform.Action.{Action, pure, raise, lift, suppress, ◌>>=◌, ◌>>◌}
use commerce_data_platform.Clock.{DateTime, utc}
use commerce_data_platform.Cursor.{CursorPosition}
use commerce_data_platform.Records.{Watermark, PipelineRun, check_run}
use commerce_data_platform.Contract.Columns.{TableConfig}
use commerce_data_platform.Control.Runs.{
  record_started_run, record_failed_run, record_skipped_already_committed_run,
}
use commerce_data_platform.Control.Batch.{CommittedTableBatch, assert_reusable_table_batch}
use commerce_data_platform.Errors.{classify_error}
use commerce_data_platform.Bronze.Storage.{Client}
use commerce_data_platform.Ingestion.World.{
  World, on_metadata, TableIngestionRequest, skipped_already_committed, TableIngestionResult,
  Outside,
}

-- `str(error) or None`
abbrev nonempty : String → Option String
nonempty text = if str_eq text "" then none else some text

-- `PipelineRun(…)` of a request.
unfoldable pub run_of : TableIngestionRequest → CursorPosition → Option CursorPosition → PipelineRun
run_of request before upper = record {
  run_id = request.run_id;
  pipeline_name = request.pipeline_name;
  source_table = request.source_table;
  batch_id = request.batch_id;
  logical_date = request.logical_date;
  attempt_number = request.attempt_number;
  watermark_before = before;
  extract_upper_bound = upper;
  dag_id = none;
}

-- Every call takes the service's own time.
module _ {S : Type 0} (client : Client S) (outside : Outside) (clock time : ℕ) where
  abbrev pub now : Option DateTime
  now = some (utc time)

  -- `_record_failure_without_masking`
  unfoldable pub record_failure_without_masking : PipelineRun → Exception → World S → World S
  record_failure_without_masking run e = suppress (
      on_metadata
        (record_failed_run clock now run (classify_error e) (nonempty (outside.message e))))

  -- `_record_prestart_failure`: the constructor of the run may raise here.
  unfoldable pub record_prestart_failure :
      TableIngestionRequest → Watermark → Exception → Action (World S) (Unit {0})
  record_prestart_failure request watermark e = do
    run ← lift (check_run (run_of request watermark.cursor none))
    λ w. (
      ok tt,
      suppress
          (on_metadata (do
            record_started_run clock now run
            record_failed_run clock now run (classify_error e) (nonempty (outside.message e))))
          w,
    )

  -- The result of a run that is skipped.
  abbrev pub skipped_result : PipelineRun → CommittedTableBatch → TableIngestionResult
  skipped_result run existing = record {
    run = run;
    status = skipped_already_committed;
    object_key = some existing.object_key;
    manifest_key = some existing.manifest_key;
    row_count = existing.row_count;
    rows_rejected = 0;
    rows_corrupted = 0;
    quarantine_object_key = none;
  }

  -- The two ways on from the outcome of the reuse test.
  unfoldable pub reuse_or_reject_by :
      TableIngestionRequest
      → Watermark
      → CommittedTableBatch
      → Result (Unit {0})
      → Action (World S) TableIngestionResult
  reuse_or_reject_by request watermark existing (err e) = do
    run ← lift (check_run (run_of request watermark.cursor none))
    on_metadata (record_started_run clock now run)
    on_metadata
        (record_failed_run clock now run "BATCH_IDENTITY_CONFLICT" (some (outside.message e)))
    raise e
  reuse_or_reject_by request watermark existing (ok _) = do
    run ←
        lift (check_run (run_of request existing.watermark_before (some existing.watermark_after)))
    on_metadata (record_started_run clock now run)
    on_metadata (record_skipped_already_committed_run clock now run existing.row_count)
    pure (skipped_result run existing)

  -- `_reuse_or_reject_committed_batch`
  unfoldable pub reuse_or_reject_committed_batch :
      TableIngestionRequest
      → TableConfig
      → Watermark
      → CommittedTableBatch
      → Action (World S) TableIngestionResult
  reuse_or_reject_committed_batch request config watermark existing =
      reuse_or_reject_by request watermark existing
        (assert_reusable_table_batch existing watermark config.schema_version)
