-- ===== src/Control/Batch.antt =====
-- src/ingestion/control/batch.py: the identity of a batch, and when a committed one is used again.
use mathlib.Core.Option
use commerce_data_platform.Prelude.{
  ℕ, String, Bool, not, ◌&&◌, ◌||◌, Option, none, some, ltb, ◌==◌, str_eq, is_blank, text_length,
  if◌then◌else◌,
}
use commerce_data_platform.Exceptions.{Result, ok, err, batch_identity_conflict}
use commerce_data_platform.Clock.{DateTime, assert_utc}
use commerce_data_platform.Cursor.{CursorPosition, initial_cursor, eq_cursor}
use commerce_data_platform.Records.{
  Watermark, BronzeRow, Metadata, is_committed_status, require, ◌>>=◌, ◌>>◌,
}
use commerce_data_platform.Sql.{fetchone}

pub record BatchIdentity : Type 0 where
  pub dag_id : String
  pub logical_date : ℕ

-- `BatchIdentity.__post_init__`
unfoldable pub batch_identity : String → DateTime → Result BatchIdentity
unfolding is_blank text_length assert_utc
batch_identity dag_id logical_date = do
  require (not (is_blank dag_id || ltb 174 (text_length dag_id)))
  t ← assert_utc logical_date
  ok (record { dag_id = dag_id; logical_date = t })

pub record CommittedTableBatch : Type 0 where
  pub table_batch_id : String
  pub object_key : String
  pub manifest_key : String
  pub schema_version : ℕ
  pub row_count : ℕ
  pub watermark_before : CursorPosition
  pub watermark_after : CursorPosition

-- `WHERE table_batch_id = … AND status = 'COMMITTED'`
unfoldable pub is_committed_batch : String → BronzeRow → Bool
unfolding is_committed_status
is_committed_batch table_batch_id r =
    str_eq r.table_batch_id table_batch_id && is_committed_status r.status

-- `_cursor_from_metadata`, on the cursor that the JSON object of the column holds: without a
-- timestamp the keys are not read.
unfoldable pub cursor_from_metadata : CursorPosition → CursorPosition
cursor_from_metadata value = elim value.timestamp [ none ↦ initial_cursor | some t ↦ value ]

abbrev pub committed_batch : BronzeRow → CommittedTableBatch
committed_batch r = record {
  table_batch_id = r.table_batch_id;
  object_key = r.object_key;
  manifest_key = r.manifest_key;
  schema_version = r.schema_version;
  row_count = r.row_count;
  watermark_before = cursor_from_metadata r.watermark_before;
  watermark_after = cursor_from_metadata r.watermark_after;
}

unfoldable pub get_committed_table_batch : String → Metadata → Option CommittedTableBatch
get_committed_table_batch table_batch_id db =
    Option.map committed_batch (fetchone (is_committed_batch table_batch_id) db.bronze_objects)

abbrev conflict_unless : Bool → Result (Unit {0})
conflict_unless same = if same then ok tt else err batch_identity_conflict

unfoldable pub assert_reusable_table_batch : CommittedTableBatch → Watermark → ℕ → Result (Unit {0})
assert_reusable_table_batch existing current_watermark schema_version = do
  conflict_unless (existing.schema_version == schema_version)
  conflict_unless (eq_cursor current_watermark.cursor existing.watermark_after)
