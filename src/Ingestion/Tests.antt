-- ===== src/Ingestion/Tests.antt =====
-- A run of the sellers' table over an object storage in memory, and the theorems of the service.
mod Fixture
use commerce_data_platform.Prelude.{
  String, ◌≡◌, refl, Option, none, some, List, [], ◌∷◌, length, str_mem, is_blank, text_length,
  is_hex, is_space,
}
use commerce_data_platform.Exceptions.{Result, ok, err, connection_error}
use commerce_data_platform.Clock.{assert_utc, utc_now}
use commerce_data_platform.Sql.{select, fetchone, rowcount, update_where, insert, insert_or_ignore}
use commerce_data_platform.Lease.{
  SourceMutationLease, check, acquire, release, read_lease, assert_current_lease, lease_of,
  is_active, lease_from_row,
}
use commerce_data_platform.Order.{lex}
use commerce_data_platform.Cursor.{
  text, CursorPosition, cursor_position, initial_cursor, lt_position, lt_key, eq_cursor, eq_keys,
  eq_key, eq_codes, eq_time,
}
use commerce_data_platform.Records.{
  Watermark, empty_metadata, BronzeRow, committed, assert_nonempty, assert_sha256, check_run,
  check_object, check_commit, check_quarantine, named_counts, RunRow, RunStatus, failed,
  is_running_status, is_committed_status,
}
use commerce_data_platform.Control.Tables.{is_watermark, is_run}
use commerce_data_platform.Control.Watermarks.{get_or_create_watermark, fetch_or_create}
use commerce_data_platform.Control.Runs.{
  record_started_run, record_failed_run, record_success_no_data_run,
  record_skipped_already_committed_run, is_running,
}
use commerce_data_platform.Control.Commit.{
  commit_table_run, lease_fence, insert_quarantine, same_quarantine, insert_object, same_object,
  is_expected, advance_watermark,
}
use commerce_data_platform.Control.TableLease.{
  TableLease, acquire_table_lease, assert_table_lease, release_table_lease, releasable, owned,
  acquirable, lease_free,
}
use commerce_data_platform.Control.Batch.{
  cursor_from_metadata, get_committed_table_batch, is_committed_batch, assert_reusable_table_batch,
}
use commerce_data_platform.Errors.{classify_error}
use commerce_data_platform.Contract.Columns.{source_column_names}
use commerce_data_platform.Contract.Tables.{table_config, config_named}
use commerce_data_platform.Contract.Tables.Orders.{sellers_table}
use commerce_data_platform.Bronze.Storage.{
  is_bad_key, is_status, eq_text, eq_size, assert_object_head, absent_or_raise,
  reject_existing_object, exists_or_raise, upload_new,
}
use commerce_data_platform.Bronze.Memory.{Objects, object_at, head_list, put_list, list_client}
use commerce_data_platform.Validation.Values.{str, null, instant, SourceRecord}
use commerce_data_platform.Ingestion.World.{
  World, TableIngestionRequest, table_batch_id, success, skipped_already_committed, IngestionStatus,
  TableIngestionResult, Outside,
}
use commerce_data_platform.Ingestion.Service.{run_under_leases, ingest_table}
use commerce_data_platform.Prelude.Integers.{lt_int, eq_int, scaled}
use commerce_data_platform.Contract.Columns.{all_in}
use commerce_data_platform.Contract.Equality.{eq_config}
use commerce_data_platform.Validation.Values.{
  is_null, as_number, eq_number, eq_plain, eq_value, eq_values, value_mem, value_at, value_or_null,
  value_set,
}
use commerce_data_platform.Validation.Rules.{
  matches_arrow_type, is_uuid, matches_source_column_type, column_errors, columns_errors,
  schema_and_type_errors, in_domain, domain_errors, field_type, below, is_out_of_range,
  numeric_errors, domain_and_numeric_errors, cursor_in_range,
}
use commerce_data_platform.Validation.Pipeline.{
  validation_pipeline, key_mem, primary_key, any_null, key_errors, keys_mem, reference_errors,
  validate_record, with_record, validate_records, validate_page,
}
use commerce_data_platform.Validation.References.{
  child_parent_references, is_reference_key, all_reference_keys, column_values, parent_keys,
  broken_record, broken_records, broken_by, find_broken_parent_references,
}
use commerce_data_platform.Validation.Corruption.{
  kind_at, child_reference_column, corrupted_values, copy_with, apply, copy_columns,
  with_primary_key_of, apply_from, corrupted_count, inject_corruption,
}
use commerce_data_platform.Validation.Batch.{
  quarantined, written, write_page, write_pages, write_local_artifacts, assert_reject_rate,
}
use commerce_data_platform.Validation.Pages.{quarantine_rows, injected}
use commerce_data_platform.Validation.Outcome.{record_at}
use commerce_data_platform.Ingestion.World.{error_counts, counts_of, code_count}
use commerce_data_platform.Ingestion.Uploads.{publish_quarantine, upload_and_verify_bronze}
use commerce_data_platform.Ingestion.Recording.{
  run_of, record_failure_without_masking, record_prestart_failure, reuse_or_reject_by,
  reuse_or_reject_committed_batch,
}
use commerce_data_platform.Ingestion.Load.{load, ingest_snapshot}
use commerce_data_platform.Ingestion.Service.{
  start, run_table, release_owned, release_leases, source_lease_for, table_lease_for, ingest_batch,
  ingest_or_reuse, ingest_at,
}
use commerce_data_platform.Ingestion.Tests.Fixture.{
  sha, upper, seller, outside, request, empty_world,
}

program : Unit {0}
unfolding cursor_from_metadata cursor_position absent_or_raise acquirable acquire
    acquire_table_lease advance_watermark all_in all_reference_keys any_null apply apply_from
    as_number assert_current_lease assert_nonempty assert_object_head assert_reject_rate
    assert_reusable_table_batch assert_sha256 assert_table_lease assert_utc below broken_by
    broken_record broken_records check check_commit check_object check_quarantine check_run
    child_parent_references child_reference_column classify_error code_count column_errors
    column_values columns_errors commit_table_run config_named copy_columns copy_with
    corrupted_count corrupted_values counts_of cursor_in_range domain_and_numeric_errors
    domain_errors eq_codes eq_config eq_cursor eq_int eq_key eq_keys eq_number eq_plain eq_size
    eq_text eq_time eq_value eq_values error_counts exists_or_raise fetch_or_create fetchone
    field_type find_broken_parent_references get_committed_table_batch get_or_create_watermark
    head_list in_domain ingest_at ingest_batch ingest_or_reuse ingest_snapshot ingest_table
    inject_corruption injected insert insert_object insert_or_ignore insert_quarantine is_active
    is_bad_key is_blank is_committed_batch is_committed_status is_expected is_hex is_null
    is_out_of_range is_reference_key is_run is_running is_running_status is_space is_status is_uuid
    is_watermark key_errors key_mem keys_mem kind_at lease_fence lease_free lease_from_row lease_of
    lex load lt_int lt_key lt_position matches_arrow_type matches_source_column_type named_counts
    numeric_errors object_at owned parent_keys primary_key publish_quarantine put_list
    quarantine_rows quarantined read_lease record_at record_failed_run
    record_failure_without_masking record_prestart_failure record_skipped_already_committed_run
    record_started_run record_success_no_data_run reference_errors reject_existing_object releasable
    release release_leases release_owned release_table_lease reuse_or_reject_by
    reuse_or_reject_committed_batch rowcount run_of run_table run_under_leases same_object
    same_quarantine scaled schema_and_type_errors select source_column_names source_lease_for start
    str_mem table_batch_id table_config table_lease_for text_length update_where
    upload_and_verify_bronze upload_new utc_now validate_page validate_record validate_records
    validation_pipeline value_at value_mem value_or_null value_set with_primary_key_of with_record
    write_local_artifacts write_page write_pages written
program = tt

abbrev first : Result TableIngestionResult × World Objects
first = ingest_table list_client outside 100 none none request empty_world

first_succeeds :
    (first.0
      ≡ ok (record {
        run = record {
          run_id = 3;
          pipeline_name = "sellers_bronze";
          source_table = "sellers";
          batch_id = "daily__20240101T000000Z";
          logical_date = 5;
          attempt_number = 1;
          watermark_before = initial_cursor;
          extract_upper_bound = some upper;
          dag_id = none;
        };
        status = success;
        object_key = some "bronze/data.parquet";
        manifest_key = some "bronze/manifest.json";
        row_count = 1;
        rows_rejected = 0;
        rows_corrupted = 0;
        quarantine_object_key = none;
      }))
unfolding program
first_succeeds = refl

status_of : Result TableIngestionResult → Option IngestionStatus
status_of (ok r) = some r.status
status_of (err e) = none

-- The second attempt finds the batch committed.
second_attempt_skips :
    status_of
      (ingest_table list_client outside 200 none none
        (record request { run_id = 4; attempt_number = 2 })
        (first.1)).0
    ≡ some skipped_already_committed
unfolding program status_of
second_attempt_skips = refl

run_statuses : List RunRow → List (RunStatus × Option String)
run_statuses [] = []
run_statuses (r ∷ rs) = (r.status, r.error_type) ∷ run_statuses rs

-- A snapshot that does not open fails the run, which is recorded, and the leases are given back.
abbrev offline : Result TableIngestionResult × World Objects
offline =
    ingest_table list_client (record outside { open_snapshot = λ before. err connection_error }) 100
      none none request empty_world

offline_is_recorded :
    (run_statuses (offline.1).metadata.pipeline_runs
      ≡ (failed, some "SOURCE_CONNECTION_ERROR") ∷ [])
unfolding program run_statuses
offline_is_recorded = refl

abbrev held_source : SourceMutationLease
held_source = record {
  owner_type = "WAREHOUSE";
  owner_id = 3;
  lease_expires_at = 1900;
  version = 1;
}

abbrev held_table : TableLease
held_table = record {
  pipeline_name = "sellers_bronze";
  source_table = "sellers";
  owner_id = 3;
  lease_expires_at = 1900;
  watermark_version = 0;
}

abbrev found : Watermark
found = record {
  pipeline_name = "sellers_bronze";
  source_table = "sellers";
  cursor = initial_cursor;
  version = 0;
}

-- No row holds the leases, so the run fails at its first check.
abbrev unleased_run : Result TableIngestionResult × World Objects
unleased_run =
    run_under_leases list_client outside 100 200 none request sellers_table found held_source
      held_table empty_world

abbrev committed_row : BronzeRow
committed_row = record {
  table_batch_id = "daily__20240101T000000Z__sellers";
  source_table = "sellers";
  batch_id = "daily__20240101T000000Z";
  object_key = "bronze/data.parquet";
  manifest_key = "bronze/manifest.json";
  schema_version = 3;
  row_count = 1;
  content_sha256 = sha;
  logical_hash = sha;
  watermark_before = initial_cursor;
  watermark_after = upper;
  status = committed;
  committed_at = some 100;
}

abbrev later : World Objects
later = record empty_world {
  metadata = record empty_metadata { bronze_objects = committed_row ∷ [] };
}

abbrev second : Result TableIngestionResult × World Objects
second = ingest_table list_client outside 100 none none request later
