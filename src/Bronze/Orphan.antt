-- ===== src/Bronze/Orphan.antt =====
-- src/ingestion/bronze/orphan.py: the reconciliation of an object whose run ended between its
-- upload and its commit. What the storage says of the object and its manifest comes from outside.
use Prim.Native.String.{◌++◌ as ◌+++◌}
use commerce_data_platform.Prelude.{
  ℕ, String, Bool, true, false, not, ◌&&◌, ◌+◌, Option, none, some, ◌==◌, str_eq, if◌then◌else◌,
}
use commerce_data_platform.Exceptions.{Result, ok, err, orphan_reconciliation}
use commerce_data_platform.Action.{Action, lift, gets, raise_if, transaction, ◌>>=◌, ◌>>◌}
use commerce_data_platform.Clock.{DateTime, utc_now}
use commerce_data_platform.Cursor.{CursorPosition, eq_cursor}
use commerce_data_platform.Sql.{fetchone, insert}
use commerce_data_platform.Records.{
  Metadata, WatermarkRow, RunRow, success, BronzeRow, committed, QuarantineRow, is_running_status,
}
use commerce_data_platform.Control.Tables.{
  is_watermark, is_run, update_watermarks, update_runs, set_objects,
}
use commerce_data_platform.Control.Commit.{same_object}
use commerce_data_platform.Contract.Columns.{assert_supported_schema_version}
use commerce_data_platform.Contract.Tables.{table_config}

-- The fields of a verified manifest that the reconciliation reads.
pub record Manifest : Type 0 where
  pub batch_id : String
  pub run_id : ℕ
  pub source_table : String
  pub watermark_before : CursorPosition
  pub extract_upper_bound : CursorPosition
  pub object_size : ℕ
  pub content_sha256 : String
  pub logical_hash : String
  pub row_count : ℕ
  pub schema_version : ℕ

pub record OrphanCandidate : Type 0 where
  pub object_key : String
  pub manifest_key : Option String

-- `VerifiedParquetObject`
pub record VerifiedParquetObject : Type 0 where
  pub size : ℕ
  pub content_sha256 : String
  pub row_count : ℕ

-- What the storage gives: the manifest, the object that was read again, and whether the batch has
-- a quarantine file.
pub record Evidence : Type 0 where
  pub manifest : Result Manifest
  pub verified : Result VerifiedParquetObject
  pub quarantine_exists : Result Bool

unfoldable pub batch_of : Manifest → String
batch_of m = m.batch_id +++ ("__" +++ m.source_table)

abbrev pub refuse_if : Bool → Action Metadata (Unit {0})
refuse_if b = raise_if b orphan_reconciliation

-- The checks of the run's row.
unfoldable pub interrupted_run : Manifest → Option RunRow → Result RunRow
interrupted_run m none = err orphan_reconciliation
interrupted_run m (some r) =
    if not (is_running_status r.status)
    then err orphan_reconciliation
    else if same_range r.watermark_before r.extract_upper_bound
    then ok r
    else err orphan_reconciliation
  where
    same_range : CursorPosition → Option CursorPosition → Bool
    same_range before none = false
    same_range before (some upper) =
        eq_cursor before m.watermark_before && eq_cursor upper m.extract_upper_bound

-- The check of the watermark's row.
unfoldable pub lower_watermark : Manifest → Option WatermarkRow → Result WatermarkRow
lower_watermark m none = err orphan_reconciliation
lower_watermark m (some w) =
    if eq_cursor (record { timestamp = w.watermark_timestamp; keys = w.watermark_keys })
      m.watermark_before
    then ok w
    else err orphan_reconciliation

unfoldable pub is_found : {A : Type 0} → Option A → Bool
is_found none = false
is_found (some a) = true

unfoldable pub of_batch : String → QuarantineRow → Bool
of_batch table_batch_id q = str_eq q.table_batch_id table_batch_id

abbrev pub adopted : Manifest → OrphanCandidate → String → ℕ → BronzeRow
adopted m candidate manifest_key now = record {
  table_batch_id = batch_of m;
  source_table = m.source_table;
  batch_id = m.batch_id;
  object_key = candidate.object_key;
  manifest_key = manifest_key;
  schema_version = m.schema_version;
  row_count = m.row_count;
  content_sha256 = m.content_sha256;
  logical_hash = m.logical_hash;
  watermark_before = m.watermark_before;
  watermark_after = m.extract_upper_bound;
  status = committed;
  committed_at = some now;
}

abbrev pub completed : Manifest → ℕ → RunRow → RunRow
completed m now r = record r {
  finished_at = some now;
  rows_extracted = m.row_count;
  rows_valid = m.row_count;
  rows_rejected = 0;
  rows_loaded = m.row_count;
  status = success;
  error_type = none;
  error_message = none;
}

unfoldable pub at_version : String → String → ℕ → WatermarkRow → Bool
at_version pipeline table version w = is_watermark pipeline table w && w.version == version

abbrev pub moved_up : Manifest → ℕ → WatermarkRow → WatermarkRow
moved_up m now w = record w {
  watermark_timestamp = m.extract_upper_bound.timestamp;
  watermark_keys = m.extract_upper_bound.keys;
  version = w.version + 1;
  updated_at = now;
}

-- The transaction of `reconcile_orphan`.
unfoldable pub adopt : Manifest → OrphanCandidate → String → ℕ → Action Metadata (Unit {0})
adopt m candidate manifest_key now = transaction do
  run_row ← gets (λ db. fetchone (is_run m.run_id m.source_table) db.pipeline_runs)
  run ← lift (interrupted_run m run_row)
  watermark_row ←
      gets (λ db. fetchone (is_watermark run.pipeline_name m.source_table) db.watermarks)
  watermark ← lift (lower_watermark m watermark_row)
  quarantine ← gets (λ db. fetchone (of_batch (batch_of m)) db.quarantine_batches)
  refuse_if (is_found quarantine)
  existing ← gets (λ db. fetchone (same_object (batch_of m) candidate.object_key) db.bronze_objects)
  refuse_if (is_found existing)
  (λ db. set_objects db (
      insert (same_object (batch_of m) candidate.object_key) (adopted m candidate manifest_key now)
        db.bronze_objects))
  update_runs (is_run m.run_id m.source_table) (completed m now)
  updated ←
      update_watermarks (at_version run.pipeline_name m.source_table watermark.version)
        (moved_up m now)
  refuse_if (not (updated == 1))

-- The checks of the manifest against the object that was read again and the contract.
unfoldable pub check_evidence : Manifest → VerifiedParquetObject → Bool → Action Metadata (Unit {0})
check_evidence m verified has_quarantine = do
  refuse_if
      (not (verified.size == m.object_size && str_eq verified.content_sha256 m.content_sha256))
  refuse_if (not (verified.row_count == m.row_count))
  config ← lift (table_config m.source_table)
  lift (assert_supported_schema_version m.schema_version)
  refuse_if (not (config.schema_version == m.schema_version))
  refuse_if has_quarantine

unfoldable pub key_or_refuse : Option String → Result String
key_or_refuse none = err orphan_reconciliation
key_or_refuse (some key) = ok key

-- `reconcile_orphan`
unfoldable pub reconcile_orphan :
    Evidence → ℕ → Option DateTime → OrphanCandidate → Action Metadata (Unit {0})
reconcile_orphan evidence clock now candidate = do
  current_time ← lift (utc_now clock now)
  manifest_key ← lift (key_or_refuse candidate.manifest_key)
  manifest ← lift evidence.manifest
  verified ← lift evidence.verified
  has_quarantine ← lift evidence.quarantine_exists
  check_evidence manifest verified has_quarantine
  adopt manifest candidate manifest_key current_time
