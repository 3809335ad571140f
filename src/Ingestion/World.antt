-- ===== src/Ingestion/World.antt =====
-- The state that src/ingestion/service.py works on: the global lease, the metadata database and the
-- object storage; and its request, its result and what comes from outside.
use Prim.Native.String.{◌++◌ as ◌+++◌}
use commerce_data_platform.Prelude.{
  ℕ, String, Option, List, [], ◌∷◌, str_eq, ◌==◌, ◌+◌, if◌then◌else◌,
}
use commerce_data_platform.Exceptions.{Exception, Result}
use commerce_data_platform.Action.{Action}
use commerce_data_platform.Lease.{LeaseTable}
use commerce_data_platform.Cursor.{CursorPosition}
use commerce_data_platform.Records.{Metadata, PipelineRun}
use commerce_data_platform.Bronze.Storage.{Blob}
use commerce_data_platform.Validation.Values.{Value, SourceRecord}
use commerce_data_platform.Validation.Pipeline.{RejectedRecord}
use commerce_data_platform.Validation.Corruption.{CorruptionPlan}

pub record World (S : Type 0) : Type 0 where
  pub leases : LeaseTable
  pub metadata : Metadata
  pub objects : S

module _ {S A : Type 0} where
  abbrev pub on_leases : Action LeaseTable A → Action (World S) A
  on_leases m w = let (r, s) = m w.leases in (r, record w { leases = s })

  abbrev pub on_metadata : Action Metadata A → Action (World S) A
  on_metadata m w = let (r, s) = m w.metadata in (r, record w { metadata = s })

  abbrev pub on_objects : Action S A → Action (World S) A
  on_objects m w = let (r, s) = m w.objects in (r, record w { objects = s })

-- The request; its run id and its pipeline name are those that the code resolves.
pub record TableIngestionRequest : Type 0 where
  pub source_table : String
  pub batch_id : String
  pub logical_date : ℕ
  pub attempt_number : ℕ
  pub run_id : ℕ
  pub pipeline_name : String
  pub corruption_plan : Option CorruptionPlan

-- `f"{batch_id}__{source_table}"`
unfoldable pub table_batch_id : TableIngestionRequest → String
table_batch_id request = request.batch_id +++ ("__" +++ request.source_table)

pub data IngestionStatus : Type 0 where
  success success_no_data skipped_already_committed : IngestionStatus

pub record TableIngestionResult : Type 0 where
  pub run : PipelineRun
  pub status : IngestionStatus
  pub object_key : Option String
  pub manifest_key : Option String
  pub row_count : ℕ
  pub rows_rejected : ℕ
  pub rows_corrupted : ℕ
  pub quarantine_object_key : Option String

-- What an open snapshot gives: its bound, its pages up to the bound, and the columns of the parents.
pub record TableSnapshot : Type 0 where
  pub extract_upper_bound : Option CursorPosition
  pub pages : List (List SourceRecord)
  pub parents : String → String → List Value

-- When the heartbeat is asked for a failure of its thread.
pub data Moment : Type 0 where
  no_data after_write before_commit at_exit : Moment

-- What comes from libraries and other processes: the bucket, the source database, the heartbeat's
-- thread, the Parquet files and the manifests as bytes, the removal of the local files, the hash of the rows, the form of the batch
-- id and of the object keys, and the texts of errors.
pub record Outside : Type 0 where
  pub bucket : Result (Unit {0})
  pub batch_identity : Result (Unit {0})
  pub open_snapshot : CursorPosition → Result TableSnapshot
  pub healthy : Moment → Result (Unit {0})
  pub remove_local_artifacts : Result (Unit {0})
  pub bronze_file : List SourceRecord → Blob
  pub quarantine_file : List RejectedRecord → Blob
  pub manifest : String → Blob → Blob
  pub logical_hash : List SourceRecord → String
  pub data_key : String
  pub manifest_key : String
  pub quarantine_key : String
  pub quarantine_manifest_key : String
  pub message : Exception → String

-- `Counter` of the error codes, in the order of the codes.
unfoldable pub code_count : String → List RejectedRecord → ℕ
code_count code [] = 0
code_count code (j ∷ js) = times j.error_codes + code_count code js
  where
    times : List String → ℕ
    times [] = 0
    times (c ∷ cs) = (if str_eq c code then 1 else 0) + times cs

abbrev sorted_codes : List String
sorted_codes =
    "BATCH_DUPLICATE" ∷ "BROKEN_REFERENCE" ∷ "KEY_NULL" ∷ "NUMERIC_RANGE_INVALID" ∷ "REQUIRED_NULL"
    ∷ "STATUS_DOMAIN_INVALID" ∷ "TYPE_MISMATCH" ∷ []

unfoldable pub counts_of : List String → List RejectedRecord → List (String × ℕ)
counts_of [] js = []
counts_of (code ∷ codes) js =
    let rest = counts_of codes js in
    if code_count code js == 0 then rest else (code, code_count code js) ∷ rest

unfoldable pub error_counts : List RejectedRecord → List (String × ℕ)
error_counts js = counts_of sorted_codes js
