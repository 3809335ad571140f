-- ===== src/Control/Commit.antt =====
-- `commit_table_run` of src/ingestion/control/metadata.py: the bronze object, the run and the
-- watermark in one transaction.
pub mod Effect
use commerce_data_platform.Prelude.{
  ℕ, ◌+◌, String, Bool, not, ◌&&◌, ◌||◌, Option, none, some, ltb, ◌==◌, str_eq, if◌then◌else◌,
}
use commerce_data_platform.Exceptions.{
  Result, ok, err, watermark_conflict, table_lease_ownership_lost, type_error,
}
use commerce_data_platform.Action.{Action, pure, lift, gets, raise_if, transaction, ◌>>=◌, ◌>>◌}
use commerce_data_platform.Clock.{DateTime, utc_now}
use commerce_data_platform.Cursor.{eq_time, eq_keys}
use commerce_data_platform.Records.{
  TableCommit, QuarantineBatch, success, committed, WatermarkRow, RunRow, BronzeRow, QuarantineRow,
  Metadata,
}
use commerce_data_platform.Sql.{fetchone, insert}
use commerce_data_platform.Control.Tables.{
  is_watermark, update_watermarks, set_objects, set_quarantine,
}
use commerce_data_platform.Control.Runs.{finish_run}

-- An owner that fits beside a null expiry would fail to compare; the table's check rules it out.
abbrev fence_columns : ℕ → ℕ → Option ℕ → Option ℕ → Result (Unit {0})
fence_columns owner now none e = err table_lease_ownership_lost
fence_columns owner now (some o) none =
    if o == owner then err type_error else err table_lease_ownership_lost
fence_columns owner now (some o) (some e) =
    if o == owner && ltb now e then ok tt else err table_lease_ownership_lost

unfoldable pub lease_fence : ℕ → ℕ → Option WatermarkRow → Result (Unit {0})
lease_fence owner now none = err table_lease_ownership_lost
lease_fence owner now (some r) = fence_columns owner now r.lease_owner r.lease_expires_at

abbrev pub new_quarantine : QuarantineBatch → ℕ → QuarantineRow
new_quarantine q now = record {
  table_batch_id = q.table_batch_id;
  object_key = q.object_key;
  row_count = q.row_count;
  error_counts = q.error_counts;
  created_at = now;
}

-- The primary key of both tables is the table batch, and the object key is unique.
unfoldable pub same_object : String → String → BronzeRow → Bool
same_object table_batch_id object_key r =
    str_eq r.table_batch_id table_batch_id || str_eq r.object_key object_key

unfoldable pub same_quarantine : QuarantineBatch → QuarantineRow → Bool
same_quarantine q r = str_eq r.table_batch_id q.table_batch_id || str_eq r.object_key q.object_key

unfoldable pub insert_quarantine : Option QuarantineBatch → ℕ → Action Metadata (Unit {0})
insert_quarantine none now = pure tt
insert_quarantine (some q) now = λ db.
    set_quarantine db (insert (same_quarantine q) (new_quarantine q now) db.quarantine_batches)

abbrev pub new_object : TableCommit → ℕ → BronzeRow
new_object c now = record {
  table_batch_id = c.object.table_batch_id;
  source_table = c.run.source_table;
  batch_id = c.run.batch_id;
  object_key = c.object.object_key;
  manifest_key = c.object.manifest_key;
  schema_version = c.object.schema_version;
  row_count = c.object.row_count;
  content_sha256 = c.object.content_sha256;
  logical_hash = c.object.logical_hash;
  watermark_before = c.run.watermark_before;
  watermark_after = c.object.watermark_after;
  status = committed;
  committed_at = some now;
}

unfoldable pub insert_object : TableCommit → ℕ → Action Metadata (Unit {0})
insert_object c now db = set_objects db (
    insert (same_object c.object.table_batch_id c.object.object_key) (new_object c now)
      db.bronze_objects)

-- `WHERE` of the compare-and-set: the key, the version and the cursor that the run started from.
unfoldable pub is_expected : TableCommit → WatermarkRow → Bool
is_expected c r =
    is_watermark c.expected_watermark.pipeline_name c.expected_watermark.source_table r
    && r.version == c.expected_watermark.version
    && eq_time r.watermark_timestamp c.expected_watermark.cursor.timestamp
    && eq_keys r.watermark_keys c.expected_watermark.cursor.keys

abbrev pub succeeded : TableCommit → ℕ → RunRow → RunRow
succeeded c now r = record r {
  finished_at = some now;
  rows_extracted = c.rows_extracted;
  rows_valid = c.rows_valid;
  rows_rejected = c.rows_rejected;
  rows_loaded = c.rows_loaded;
  status = success;
}

abbrev pub advanced : TableCommit → ℕ → WatermarkRow → WatermarkRow
advanced c now r = record r {
  watermark_timestamp = c.object.watermark_after.timestamp;
  watermark_keys = c.object.watermark_after.keys;
  version = r.version + 1;
  updated_at = now;
}

unfoldable pub advance_watermark : TableCommit → ℕ → Action Metadata (Unit {0})
advance_watermark c now = do
  updated ← update_watermarks (is_expected c) (advanced c now)
  raise_if (not (updated == 1)) watermark_conflict

unfoldable pub commit_table_run : ℕ → Option DateTime → TableCommit → Action Metadata (Unit {0})
commit_table_run clock now c = do
  current_time ← lift (utc_now clock now)
  transaction do
    row ← gets (λ db.
        fetchone (is_watermark c.expected_watermark.pipeline_name c.expected_watermark.source_table)
          db.watermarks)
    lift (lease_fence c.lease_owner current_time row)
    insert_quarantine c.quarantine current_time
    insert_object c current_time
    finish_run c.run (succeeded c current_time)
    advance_watermark c current_time
