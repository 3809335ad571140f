-- ===== src/Bronze/Tests.antt =====
-- Uploads to an object storage in memory, a batch that is verified and an orphan that is
-- reconciled, and the theorems of the bronze store at them.
use commerce_data_platform.Prelude.{
  ℕ, String, List, ◌≡◌, ◌≢◌, ◌⊎◌, true, false, map, ap, length, All, str_mem, arith, refl, none,
  some, [], ◌∷◌,
}
use commerce_data_platform.Exceptions.{
  Result, ok, err, orphan_reconciliation, value_error, file_exists, bronze_commit_verification,
}
use commerce_data_platform.Bronze.Storage.{
  Blob, is_bad_key, is_status, eq_text, eq_size, assert_object_head, absent_or_raise,
  reject_existing_object, exists_or_raise, upload_new,
}
use commerce_data_platform.Bronze.Memory.{Objects, object_at, head_list, put_list, list_client}
use commerce_data_platform.Clock.{utc_now}
use commerce_data_platform.Cursor.{
  CursorPosition, num, initial_cursor, eq_cursor, eq_time, eq_keys, eq_key, eq_codes,
}
use commerce_data_platform.Control.Tables.{is_watermark, is_run}
use commerce_data_platform.Control.Commit.{same_object}
use commerce_data_platform.Bronze.Orphan.{
  OrphanCandidate, Evidence, reconcile_orphan, key_or_refuse, check_evidence, adopt,
  interrupted_run, lower_watermark, is_found, of_batch, batch_of, at_version,
}
use commerce_data_platform.Bronze.Reconciled.{IsAdopted, reconcile_outcome}
use commerce_data_platform.Bronze.Candidates.{
  ends_with, before_slash, directory, committed_keys, is_orphan, candidate_at,
  find_orphan_candidates, reconciled_is_found_no_more,
}
use commerce_data_platform.Sql.{fetchone, select, insert, rowcount, update_where}
use commerce_data_platform.Sql.OrderBy.{order_by}
use commerce_data_platform.Records.{
  Metadata, empty_metadata, BronzeRow, committed, is_committed_status, RunRow, RunStatus, running,
  is_running_status, failed, success_no_data,
}
use commerce_data_platform.Control.Batch.{get_committed_table_batch, is_committed_batch}
use commerce_data_platform.Contract.Columns.{assert_supported_schema_version}
use commerce_data_platform.Contract.Tables.{table_config, config_named}
use commerce_data_platform.Bronze.Verification.{
  VerifiedTableBatch, id_of_table, is_run_of, status_of_first, latest_run_status, is_no_data,
  verify_existing, verify_table, verify_bronze_commit,
}
use commerce_data_platform.Bronze.Verified.{AllVerified, verify_bronze_commit-AllVerified}
use commerce_data_platform.Bronze.Upload.{IsGoodKey, Asked, upload_asks}

program : Unit {0}
unfolding object_at head_list put_list is_bad_key is_status eq_text eq_size assert_object_head
    absent_or_raise reject_existing_object exists_or_raise upload_new
program = tt

abbrev data_blob : Blob
data_blob = record { size = 10; content_sha256 = "ab" }

abbrev stored : Objects
stored = ("data", data_blob) ∷ []

first_upload : upload_new list_client "data" data_blob [] ≡ (ok data_blob, stored)
unfolding program
first_upload = refl

second_upload : upload_new list_client "data" data_blob stored ≡ (err file_exists, stored)
unfolding program
second_upload = refl

absolute_key : upload_new list_client "/data" data_blob [] ≡ (err value_error, [])
unfolding program
absolute_key = refl

upload_asks_example :
    (data_blob ≡ data_blob)
    × IsGoodKey "more"
    × Asked list_client "more" data_blob stored (("more", data_blob) ∷ stored)
unfolding program
upload_asks_example =
    upload_asks list_client "more" data_blob data_blob stored (("more", data_blob) ∷ stored) refl

abbrev committed_row : BronzeRow
committed_row = record {
  table_batch_id = "daily__sellers";
  source_table = "sellers";
  batch_id = "daily";
  object_key = "sellers/data.parquet";
  manifest_key = "sellers/manifest.json";
  schema_version = 3;
  row_count = 12;
  content_sha256 = "ab";
  logical_hash = "cd";
  watermark_before = initial_cursor;
  watermark_after = initial_cursor;
  status = committed;
  committed_at = some 100;
}

abbrev run_at : ℕ → ℕ → RunStatus → RunRow
run_at id at status_of_run = record {
  run_id = id;
  source_table = "orders";
  pipeline_name = "orders_bronze";
  batch_id = "daily";
  dag_id = none;
  logical_date = 5;
  attempt_number = 1;
  started_at = at;
  finished_at = some at;
  watermark_before = initial_cursor;
  extract_upper_bound = none;
  rows_extracted = 0;
  rows_valid = 0;
  rows_rejected = 0;
  rows_loaded = 0;
  status = status_of_run;
  error_type = none;
  error_message = none;
}

-- The first attempt at the orders failed, the second found no data.
abbrev batch_db : Metadata
batch_db = record empty_metadata {
  bronze_objects = committed_row ∷ [];
  pipeline_runs = run_at 1 10 failed ∷ run_at 2 20 success_no_data ∷ [];
}

abbrev both : List VerifiedTableBatch
both =
    record { source_table = "sellers"; object_key = some "sellers/data.parquet"; row_count = 12 }
    ∷ record { source_table = "orders"; object_key = none; row_count = 0 }
    ∷ []

verification : Unit {0}
unfolding verify_bronze_commit verify_table verify_existing latest_run_status is_no_data
    status_of_first is_run_of id_of_table get_committed_table_batch is_committed_batch
    is_committed_status fetchone select order_by table_config config_named
    assert_supported_schema_version
verification = tt

both_verified : verify_bronze_commit "daily" ("sellers" ∷ "orders" ∷ []) batch_db ≡ ok both
unfolding verification
both_verified = refl

products_missing :
    verify_bronze_commit "daily" ("products" ∷ []) batch_db ≡ err bronze_commit_verification
unfolding verification
products_missing = refl

verify_bronze_commit-AllVerified_example :
    AllVerified "daily" batch_db ("sellers" ∷ "orders" ∷ []) both
verify_bronze_commit-AllVerified_example =
    verify_bronze_commit-AllVerified "daily" batch_db ("sellers" ∷ "orders" ∷ []) both both_verified

abbrev lower : CursorPosition
lower = initial_cursor

abbrev reached : CursorPosition
reached = record { timestamp = some 90; keys = num 4 ∷ [] }

abbrev interrupted_db : Metadata
interrupted_db = record empty_metadata {
  pipeline_runs = record (run_at 7 10 running) { extract_upper_bound = some reached } ∷ [];
  watermarks =
      record {
        pipeline_name = "orders_bronze";
        source_table = "orders";
        watermark_timestamp = none;
        watermark_keys = [];
        lease_owner = none;
        lease_expires_at = none;
        version = 0;
        updated_at = 1;
      }
      ∷ [];
}

abbrev orphan : OrphanCandidate
orphan = record { object_key = "orders/data.parquet"; manifest_key = some "orders/manifest.json" }

abbrev evidence : Evidence
evidence = record {
  manifest = ok (record {
    batch_id = "daily";
    run_id = 7;
    source_table = "orders";
    watermark_before = lower;
    extract_upper_bound = reached;
    object_size = 10;
    content_sha256 = "ab";
    logical_hash = "cd";
    row_count = 2;
    schema_version = 3;
  });
  verified = ok (record { size = 10; content_sha256 = "ab"; row_count = 2 });
  quarantine_exists = ok false;
}

abbrev reconciled : Result (Unit {0}) × Metadata
reconciled = reconcile_orphan evidence 100 none orphan interrupted_db

reconciliation : Unit {0}
unfolding reconcile_orphan key_or_refuse check_evidence adopt interrupted_run lower_watermark
    is_found of_batch batch_of at_version eq_cursor eq_time eq_keys eq_key eq_codes
    is_running_status is_run is_watermark same_object insert rowcount update_where utc_now
    verification
reconciliation = tt

reconciles : reconciled.0 ≡ ok tt
unfolding verification reconciliation
reconciles = refl

-- The run is not running any more.
not_twice : (reconcile_orphan evidence 110 none orphan (reconciled.1)).0 ≡ err orphan_reconciliation
unfolding verification reconciliation
not_twice = refl

reconcile_outcome_example :
    (reconciled.1 ≡ interrupted_db) ⊎ IsAdopted evidence 100 none orphan interrupted_db reconciled
reconcile_outcome_example = reconcile_outcome evidence 100 none orphan interrupted_db

abbrev listing : List String
listing = "orders/data.parquet" ∷ "orders/manifest.json" ∷ "sellers/data.parquet" ∷ []

search_program : Unit {0}
unfolding ends_with before_slash directory committed_keys is_orphan candidate_at
    find_orphan_candidates select is_committed_status str_mem
search_program = tt

-- The first of the two objects has a manifest, the second is a committed one.
finds_one :
    find_orphan_candidates listing (record empty_metadata { bronze_objects = committed_row ∷ [] })
    ≡ record { object_key = "orders/data.parquet"; manifest_key = some "orders/manifest.json" } ∷ []
unfolding search_program
finds_one = refl

adoption_changes : reconciled.1 ≢ interrupted_db
unfolding verification reconciliation
adoption_changes same = let counts = ap (λ db. length db.bronze_objects) same in ground arith

reconciled_is_found_no_more_example :
    All (λ c. c.object_key ≢ orphan.object_key) (find_orphan_candidates listing (reconciled.1))
    × ((key : String)
        → str_mem key listing ≡ true
        → ends_with "/data.parquet" key ≡ true
        → str_mem key (committed_keys (reconciled.1)) ≡ false
        → str_mem key (map (λ c. c.object_key) (find_orphan_candidates listing (reconciled.1)))
          ≡ true)
reconciled_is_found_no_more_example =
    reconciled_is_found_no_more evidence 100 none orphan interrupted_db listing adoption_changes
