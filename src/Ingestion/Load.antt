-- ===== src/Ingestion/Load.antt =====
-- src/ingestion/service.py: the part of `ingest_table` from the snapshot to the commit.
use commerce_data_platform.Prelude.{ℕ, String, Option, none, some, length}
use commerce_data_platform.Exceptions.{err}
use commerce_data_platform.Action.{Action, pure, lift, catch, ◌>>=◌, ◌>>◌}
use commerce_data_platform.Clock.{DateTime, utc}
use commerce_data_platform.Lease.{SourceMutationLease, check}
use commerce_data_platform.Cursor.{CursorPosition}
use commerce_data_platform.Records.{Watermark, PipelineRun, QuarantineBatch, check_commit}
use commerce_data_platform.Contract.Columns.{TableConfig}
use commerce_data_platform.Control.Runs.{record_success_no_data_run}
use commerce_data_platform.Control.Commit.{commit_table_run}
use commerce_data_platform.Control.TableLease.{TableLease, assert_table_lease}
use commerce_data_platform.Bronze.Storage.{Client}
use commerce_data_platform.Validation.Batch.{write_local_artifacts, assert_reject_rate}
use commerce_data_platform.Ingestion.World.{
  World, on_leases, on_metadata, on_objects, TableIngestionRequest, success, success_no_data,
  TableIngestionResult, TableSnapshot, no_data, after_write, before_commit, Outside,
}
use commerce_data_platform.Ingestion.Uploads.{publish_quarantine, upload_and_verify_bronze}
use commerce_data_platform.Ingestion.Recording.{record_failure_without_masking}

abbrev pub object_key_of : Option QuarantineBatch → Option String
object_key_of none = none
object_key_of (some q) = some q.object_key

-- Every call takes the service's own time.
module _ {S : Type 0} (client : Client S) (outside : Outside) (clock time : ℕ) where
  abbrev now : Option DateTime
  now = some (utc time)

  abbrev assert_leases : SourceMutationLease → TableLease → Action (World S) (Unit {0})
  assert_leases source table = do
    on_leases (check clock now source)
    on_metadata (assert_table_lease clock now table)

  -- The inner `try`: from the local files to the commit.
  unfoldable pub load :
      TableIngestionRequest
      → TableConfig
      → Watermark
      → SourceMutationLease
      → TableLease
      → TableSnapshot
      → PipelineRun
      → CursorPosition
      → Action (World S) TableIngestionResult
  load request config watermark source table snapshot run upper = do
    files ← lift (
        write_local_artifacts snapshot.parents request.corruption_plan config watermark.cursor upper
          snapshot.pages)
    lift (outside.healthy after_write)
    assert_leases source table
    lift (assert_reject_rate files.rows_extracted files.rows_rejected)
    quarantine ← on_objects (publish_quarantine client outside request files.quarantine)
    object ← on_objects (upload_and_verify_bronze client outside request config upper files.bronze)
    lift (outside.healthy before_commit)
    assert_leases source table
    commit ← lift (
        check_commit (record {
          run = run;
          object = object;
          expected_watermark = watermark;
          rows_extracted = files.rows_extracted;
          rows_valid = length files.bronze;
          rows_rejected = files.rows_rejected;
          rows_loaded = length files.bronze;
          lease_owner = table.owner_id;
          quarantine = quarantine;
        }))
    on_metadata (commit_table_run clock now commit)
    pure (record {
      run = run;
      status = success;
      object_key = some object.object_key;
      manifest_key = some object.manifest_key;
      row_count = object.row_count;
      rows_rejected = files.rows_rejected;
      rows_corrupted = files.rows_corrupted;
      quarantine_object_key = object_key_of quarantine;
    })

  -- The block after `record_started_run`.
  unfoldable pub ingest_snapshot :
      TableIngestionRequest
      → TableConfig
      → Watermark
      → SourceMutationLease
      → TableLease
      → TableSnapshot
      → PipelineRun
      → Action (World S) TableIngestionResult
  ingest_snapshot request config watermark source table snapshot run =
      elim snapshot.extract_upper_bound [
        | none ↦ do
          lift (outside.healthy no_data)
          on_metadata (record_success_no_data_run clock now run)
          pure (record {
            run = run;
            status = success_no_data;
            object_key = none;
            manifest_key = none;
            row_count = 0;
            rows_rejected = 0;
            rows_corrupted = 0;
            quarantine_object_key = none;
          })
        | some upper ↦
            catch (load request config watermark source table snapshot run upper)
              (λ e w. (err e, record_failure_without_masking client outside clock time run e w))
      ]
