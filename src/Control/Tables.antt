-- ===== src/Control/Tables.antt =====
-- The statements of src/ingestion/control/metadata.py on the tables of the metadata database.
use commerce_data_platform.Prelude.{ℕ, String, Bool, ◌&&◌, List, ◌==◌, str_eq}
use commerce_data_platform.Exceptions.{Result, ok, err}
use commerce_data_platform.Action.{Action}
use commerce_data_platform.Records.{WatermarkRow, RunRow, BronzeRow, QuarantineRow, Metadata}
use commerce_data_platform.Sql.{rowcount, update_where}

-- `WHERE pipeline_name = … AND source_table = …`
unfoldable pub is_watermark : String → String → WatermarkRow → Bool
is_watermark pipeline table r = str_eq r.pipeline_name pipeline && str_eq r.source_table table

-- `WHERE run_id = … AND source_table = …`
unfoldable pub is_run : ℕ → String → RunRow → Bool
is_run run_id table r = r.run_id == run_id && str_eq r.source_table table

-- Each statement returns its row count.
abbrev pub update_watermarks :
    (WatermarkRow → Bool) → (WatermarkRow → WatermarkRow) → Action Metadata ℕ
update_watermarks p f db =
    (ok (rowcount p db.watermarks), record db { watermarks = update_where p f db.watermarks })

abbrev pub update_runs : (RunRow → Bool) → (RunRow → RunRow) → Action Metadata ℕ
update_runs p f db = (
  ok (rowcount p db.pipeline_runs),
  record db { pipeline_runs = update_where p f db.pipeline_runs },
)

abbrev pub set_runs : Metadata → Result (List RunRow) → Result (Unit {0}) × Metadata
set_runs db (ok rows) = (ok tt, record db { pipeline_runs = rows })
set_runs db (err e) = (err e, db)

abbrev pub set_objects : Metadata → Result (List BronzeRow) → Result (Unit {0}) × Metadata
set_objects db (ok rows) = (ok tt, record db { bronze_objects = rows })
set_objects db (err e) = (err e, db)

abbrev pub set_quarantine : Metadata → Result (List QuarantineRow) → Result (Unit {0}) × Metadata
set_quarantine db (ok rows) = (ok tt, record db { quarantine_batches = rows })
set_quarantine db (err e) = (err e, db)
