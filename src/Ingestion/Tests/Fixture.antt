-- ===== src/Ingestion/Tests/Fixture.antt =====
-- A request for the sellers, a world and what comes from outside, for the tests of the service.
use commerce_data_platform.Prelude.{String, none, some, [], ◌∷◌, length}
use commerce_data_platform.Exceptions.{ok}
use commerce_data_platform.Cursor.{text, CursorPosition}
use commerce_data_platform.Records.{empty_metadata}
use commerce_data_platform.Contract.Tables.Orders.{sellers_table}
use commerce_data_platform.Bronze.Memory.{Objects}
use commerce_data_platform.Validation.Values.{str, null, instant, SourceRecord}
use commerce_data_platform.Ingestion.World.{World, TableIngestionRequest, Outside}

abbrev pub sha : String
sha = "0123456789abcdef0123456789abcdef0123456789abcdef0123456789abcdef"

abbrev pub upper : CursorPosition
upper = record { timestamp = some 11; keys = text (115 ∷ 49 ∷ []) ∷ [] }

abbrev pub seller : SourceRecord
seller = record {
  config = sellers_table;
  values =
      ("seller_id", str "s1")
      ∷ ("seller_city", null)
      ∷ ("seller_state", str "SP")
      ∷ ("created_at", instant 10)
      ∷ ("updated_at", instant 11)
      ∷ [];
  cursor = ok upper;
}

abbrev pub outside : Outside
outside = record {
  bucket = ok tt;
  batch_identity = ok tt;
  open_snapshot = λ before. ok (record {
    extract_upper_bound = some upper;
    pages = (seller ∷ []) ∷ [];
    parents = λ table column. [];
  });
  remove_local_artifacts = ok tt;
  healthy = λ moment. ok tt;
  bronze_file = λ rows. record { size = length rows; content_sha256 = sha };
  quarantine_file = λ rows. record { size = length rows; content_sha256 = sha };
  manifest = λ key blob. record { size = 1; content_sha256 = sha };
  logical_hash = λ rows. sha;
  data_key = "bronze/data.parquet";
  manifest_key = "bronze/manifest.json";
  quarantine_key = "quarantine/records.parquet";
  quarantine_manifest_key = "quarantine/manifest.json";
  message = λ e. "failed";
}

abbrev pub request : TableIngestionRequest
request = record {
  source_table = "sellers";
  batch_id = "daily__20240101T000000Z";
  logical_date = 5;
  attempt_number = 1;
  run_id = 3;
  pipeline_name = "sellers_bronze";
  corruption_plan = none;
}

abbrev pub empty_world : World Objects
empty_world = record { leases = none; metadata = empty_metadata; objects = [] }
