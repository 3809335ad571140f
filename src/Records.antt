-- ===== src/Records.antt =====
-- The value classes of src/ingestion/control/metadata.py, with the checks of their constructors,
-- and the rows of the metadata tables.
use commerce_data_platform.Prelude.{
  ◌≡◌, refl, ℕ, String, Bool, true, false, not, ◌&&◌, Option, none, some, List, [], ◌∷◌, ltb, leb,
  ◌==◌, str_eq, is_blank, text_length, is_hex, if◌then◌else◌,
}
use commerce_data_platform.Exceptions.{Exception, Result, ok, err, value_error}
use commerce_data_platform.Cursor.{Keys, CursorPosition, eq_cursor}

-- A check that raises keeps the checks after it from being made.
abbrev pub ◌>>=◌ : {A B : Type 0} → Result A → (A → Result B) → Result B
err raised >>= next = err raised
ok value >>= next = next value

abbrev pub ◌>>◌ : {B : Type 0} → Result (Unit {0}) → Result B → Result B
check >> next = check >>= λ _. next

infixl 5 ◌>>◌ ◌>>=◌
-- A chain that gives a result went through both calls.
pub >>=-ok :
    {A B : Type 0} (m : Result A) (next : A → Result B) (b : B)
    → (m >>= next) ≡ ok b
    → (a : A) × (m ≡ ok a) × (next a ≡ ok b)
>>=-ok (ok a) next b h = (a, refl, h)
>>=-ok (err e) next b h = cc

pub ok-injective : {A : Type 0} {a b : A} → ok a ≡ ok b → a ≡ b
ok-injective h = cc

abbrev pub raise_unless : Bool → Exception → Result (Unit {0})
raise_unless b e = if b then ok tt else err e

abbrev pub require : Bool → Result (Unit {0})
require b = if b then ok tt else err value_error

-- `_assert_nonempty`; the second argument is the maximum length, if there is one.
unfoldable pub assert_nonempty : String → Option ℕ → Result (Unit {0})
unfolding is_blank text_length
assert_nonempty value limit =
    if is_blank value
    then err value_error
    else elim limit [ none ↦ ok tt | some n ↦ require (leb (text_length value) n) ]

unfoldable pub assert_sha256 : String → Result (Unit {0})
unfolding text_length is_hex
assert_sha256 value = require (text_length value == 64 && is_hex value)

pub record Watermark : Type 0 where
  pub pipeline_name : String
  pub source_table : String
  pub cursor : CursorPosition
  pub version : ℕ

pub record PipelineRun : Type 0 where
  pub run_id : ℕ
  pub pipeline_name : String
  pub source_table : String
  pub batch_id : String
  pub logical_date : ℕ
  pub attempt_number : ℕ
  pub watermark_before : CursorPosition
  pub extract_upper_bound : Option CursorPosition
  pub dag_id : Option String

abbrev assert_dag_id : Option String → Result (Unit {0})
assert_dag_id none = ok tt
assert_dag_id (some dag_id) = assert_nonempty dag_id (some 250)

-- `PipelineRun.__post_init__`; the logical date is UTC by its type.
unfoldable pub check_run : PipelineRun → Result PipelineRun
unfolding assert_nonempty
check_run run = do
  assert_nonempty run.pipeline_name (some 128)
  assert_nonempty run.source_table (some 64)
  assert_nonempty run.batch_id (some 192)
  require (ltb 0 run.attempt_number)
  assert_dag_id run.dag_id
  ok run

pub record VerifiedBronzeObject : Type 0 where
  pub table_batch_id : String
  pub object_key : String
  pub manifest_key : String
  pub schema_version : ℕ
  pub row_count : ℕ
  pub content_sha256 : String
  pub logical_hash : String
  pub watermark_after : CursorPosition

-- `VerifiedBronzeObject.__post_init__`
unfoldable pub check_object : VerifiedBronzeObject → Result VerifiedBronzeObject
unfolding assert_nonempty assert_sha256
check_object o = do
  assert_nonempty o.table_batch_id (some 320)
  assert_nonempty o.object_key none
  assert_nonempty o.manifest_key none
  require (ltb 0 o.schema_version)
  assert_sha256 o.content_sha256
  assert_sha256 o.logical_hash
  ok o

pub record QuarantineBatch : Type 0 where
  pub table_batch_id : String
  pub object_key : String
  pub row_count : ℕ
  pub error_counts : List (String × ℕ)

unfoldable pub named_counts : List (String × ℕ) → Bool
named_counts [] = true
named_counts ((code, count) ∷ rest) = not (str_eq code "") && named_counts rest

-- `QuarantineBatch.__post_init__`
unfoldable pub check_quarantine : QuarantineBatch → Result QuarantineBatch
unfolding assert_nonempty named_counts
check_quarantine q = do
  assert_nonempty q.table_batch_id (some 320)
  assert_nonempty q.object_key none
  require (named_counts q.error_counts)
  ok q

pub record TableCommit : Type 0 where
  pub run : PipelineRun
  pub object : VerifiedBronzeObject
  pub expected_watermark : Watermark
  pub rows_extracted : ℕ
  pub rows_valid : ℕ
  pub rows_rejected : ℕ
  pub rows_loaded : ℕ
  pub lease_owner : ℕ
  pub quarantine : Option QuarantineBatch

abbrev quarantine_agrees : VerifiedBronzeObject → ℕ → Option QuarantineBatch → Result (Unit {0})
quarantine_agrees object rows_rejected none = ok tt
quarantine_agrees object rows_rejected (some q) = do
  require (str_eq q.table_batch_id object.table_batch_id)
  require (q.row_count == rows_rejected)

-- `TableCommit.__post_init__`; the counts are not negative by their type.
unfoldable pub check_commit : TableCommit → Result TableCommit
unfolding eq_cursor
check_commit c = do
  require (str_eq c.expected_watermark.pipeline_name c.run.pipeline_name)
  require (str_eq c.expected_watermark.source_table c.run.source_table)
  require (eq_cursor c.expected_watermark.cursor c.run.watermark_before)
  quarantine_agrees c.object c.rows_rejected c.quarantine
  ok c

pub data RunStatus : Type 0 where
  running success success_no_data skipped_already_committed failed : RunStatus

unfoldable pub is_running_status : RunStatus → Bool
is_running_status running = true
is_running_status _ = false

-- A row of `watermarks`.
pub record WatermarkRow : Type 0 where
  pub pipeline_name : String
  pub source_table : String
  pub watermark_timestamp : Option ℕ
  pub watermark_keys : Keys
  pub lease_owner : Option ℕ
  pub lease_expires_at : Option ℕ
  pub version : ℕ
  pub updated_at : ℕ

-- A row of `pipeline_runs`. A JSON column of a cursor holds the cursor.
pub record RunRow : Type 0 where
  pub run_id : ℕ
  pub source_table : String
  pub pipeline_name : String
  pub batch_id : String
  pub dag_id : Option String
  pub logical_date : ℕ
  pub attempt_number : ℕ
  pub started_at : ℕ
  pub finished_at : Option ℕ
  pub watermark_before : CursorPosition
  pub extract_upper_bound : Option CursorPosition
  pub rows_extracted : ℕ
  pub rows_valid : ℕ
  pub rows_rejected : ℕ
  pub rows_loaded : ℕ
  pub status : RunStatus
  pub error_type : Option String
  pub error_message : Option String

pub data ObjectStatus : Type 0 where
  staged committed orphaned : ObjectStatus

unfoldable pub is_committed_status : ObjectStatus → Bool
is_committed_status committed = true
is_committed_status _ = false

-- A row of `bronze_objects`.
pub record BronzeRow : Type 0 where
  pub table_batch_id : String
  pub source_table : String
  pub batch_id : String
  pub object_key : String
  pub manifest_key : String
  pub schema_version : ℕ
  pub row_count : ℕ
  pub content_sha256 : String
  pub logical_hash : String
  pub watermark_before : CursorPosition
  pub watermark_after : CursorPosition
  pub status : ObjectStatus
  pub committed_at : Option ℕ

-- A row of `quarantine_batches`.
pub record QuarantineRow : Type 0 where
  pub table_batch_id : String
  pub object_key : String
  pub row_count : ℕ
  pub error_counts : List (String × ℕ)
  pub created_at : ℕ

-- The metadata database.
pub record Metadata : Type 0 where
  pub watermarks : List WatermarkRow
  pub pipeline_runs : List RunRow
  pub bronze_objects : List BronzeRow
  pub quarantine_batches : List QuarantineRow

abbrev pub empty_metadata : Metadata
empty_metadata = record {
  watermarks = [];
  pipeline_runs = [];
  bronze_objects = [];
  quarantine_batches = [];
}
