-- ===== src/Bronze/Verification.antt =====
-- src/ingestion/bronze/verification.py: the check that a batch is committed for its tables, before
-- the marts are built from it.
use Prim.Native.String.{◌++◌ as ◌+++◌}
use commerce_data_platform.Prelude.{
  ℕ, String, Bool, true, false, ◌&&◌, Option, none, some, List, [], ◌∷◌, ◌==◌, str_eq,
  if◌then◌else◌,
}
use commerce_data_platform.Exceptions.{Result, ok, err, bronze_commit_verification}
use commerce_data_platform.Order.{number_order}
use commerce_data_platform.Sql.{select}
use commerce_data_platform.Sql.OrderBy.{order_by, descending}
use commerce_data_platform.Records.{
  Metadata, RunRow, RunStatus, success_no_data, raise_unless, ◌>>=◌, ◌>>◌,
}
use commerce_data_platform.Control.Batch.{CommittedTableBatch, get_committed_table_batch}
use commerce_data_platform.Contract.Columns.{TableConfig, assert_supported_schema_version}
use commerce_data_platform.Contract.Tables.{table_config}

pub record VerifiedTableBatch : Type 0 where
  pub source_table : String
  pub object_key : Option String
  pub row_count : ℕ

-- `BatchIdentity.table_batch(source_table).table_batch_id`
unfoldable pub id_of_table : String → String → String
id_of_table batch_id source_table = batch_id +++ ("__" +++ source_table)

-- `WHERE batch_id = … AND source_table = …`
unfoldable pub is_run_of : String → String → RunRow → Bool
is_run_of batch_id source_table r = str_eq r.batch_id batch_id && str_eq r.source_table source_table

-- `LIMIT 1` and `fetchone()`
unfoldable pub status_of_first : List RunRow → Option RunStatus
status_of_first [] = none
status_of_first (r ∷ rs) = some r.status

-- `_latest_run_status`
unfoldable pub latest_run_status : String → String → Metadata → Option RunStatus
latest_run_status batch_id source_table db = status_of_first (
    order_by (descending number_order) (λ (r : RunRow). r.started_at)
      (select (is_run_of batch_id source_table) db.pipeline_runs))

unfoldable pub is_no_data : Option RunStatus → Bool
is_no_data (some success_no_data) = true
is_no_data _ = false

-- One turn of the loop, by the outcome of the look-up.
unfoldable pub verify_existing :
    String
    → String
    → Metadata
    → TableConfig
    → Option CommittedTableBatch
    → Result VerifiedTableBatch
verify_existing batch_id table db config none =
    if is_no_data (latest_run_status batch_id table db)
    then ok (record { source_table = table; object_key = none; row_count = 0 })
    else err bronze_commit_verification
verify_existing batch_id table db config (some existing) = do
  assert_supported_schema_version existing.schema_version
  raise_unless (existing.schema_version == config.schema_version) bronze_commit_verification
  ok (record {
    source_table = table;
    object_key = some existing.object_key;
    row_count = existing.row_count;
  })

-- The identity of the table's batch looks the table up before anything is read; a second look-up
-- gives the same contract.
unfoldable pub verify_table : String → Metadata → String → Result VerifiedTableBatch
verify_table batch_id db table = do
  config ← table_config table
  verify_existing batch_id table db config
      (get_committed_table_batch (id_of_table batch_id table) db)

-- `verify_bronze_commit`
unfoldable pub verify_bronze_commit :
    String → List String → Metadata → Result (List VerifiedTableBatch)
verify_bronze_commit batch_id [] db = ok []
verify_bronze_commit batch_id (table ∷ tables) db = do
  verified ← verify_table batch_id db table
  rest ← verify_bronze_commit batch_id tables db
  ok (verified ∷ rest)
