-- ===== src/Ingestion/Uploads.antt =====
-- The two uploads of src/ingestion/service.py: the quarantine of a batch and its bronze file, each
-- with its manifest.
use commerce_data_platform.Prelude.{Option, none, some, List, length}
use commerce_data_platform.Action.{Action, pure, lift, ◌>>=◌, ◌>>◌}
use commerce_data_platform.Cursor.{CursorPosition}
use commerce_data_platform.Records.{
  VerifiedBronzeObject, QuarantineBatch, check_object, check_quarantine,
}
use commerce_data_platform.Contract.Columns.{TableConfig}
use commerce_data_platform.Bronze.Storage.{Client, upload_new}
use commerce_data_platform.Validation.Values.{SourceRecord}
use commerce_data_platform.Validation.Pipeline.{RejectedRecord}
use commerce_data_platform.Ingestion.World.{
  TableIngestionRequest, table_batch_id, Outside, error_counts,
}

module _ {S : Type 0} (client : Client S) (outside : Outside) where
  -- `_publish_quarantine`
  unfoldable pub publish_quarantine :
      TableIngestionRequest → Option (List RejectedRecord) → Action S (Option QuarantineBatch)
  publish_quarantine request none = pure none
  publish_quarantine request (some rows) = do
    uploaded ← upload_new client outside.quarantine_key (outside.quarantine_file rows)
    upload_new client outside.quarantine_manifest_key
        (outside.manifest outside.quarantine_key uploaded)
    batch ← lift (
        check_quarantine (record {
          table_batch_id = table_batch_id request;
          object_key = outside.quarantine_key;
          row_count = length rows;
          error_counts = error_counts rows;
        }))
    pure (some batch)

  -- `_upload_and_verify_bronze`, for a run with an upper bound.
  unfoldable pub upload_and_verify_bronze :
      TableIngestionRequest
      → TableConfig
      → CursorPosition
      → List SourceRecord
      → Action S VerifiedBronzeObject
  upload_and_verify_bronze request config upper rows = do
    uploaded ← upload_new client outside.data_key (outside.bronze_file rows)
    upload_new client outside.manifest_key (outside.manifest outside.data_key uploaded)
    lift (
        check_object (record {
          table_batch_id = table_batch_id request;
          object_key = outside.data_key;
          manifest_key = outside.manifest_key;
          schema_version = config.schema_version;
          row_count = length rows;
          content_sha256 = uploaded.content_sha256;
          logical_hash = outside.logical_hash rows;
          watermark_after = upper;
        }))
