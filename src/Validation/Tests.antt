-- ===== src/Validation/Tests.antt =====
-- A batch of two pages with a valid row, a second row of its key and a row without its parent, and
-- the theorems of the validation at it.
use commerce_data_platform.Prelude.{
  ℕ, String, ◌≡◌, refl, ◌⊎◌, ◌<◌, ◌≤◌, ◌+◌, ◌*◌, true, false, Option, none, some, List, [], ◌∷◌,
  length, concat, All, str_mem,
}
use commerce_data_platform.Prelude.Integers.{pos, negsuc, lt_int, eq_int, scaled}
use commerce_data_platform.Exceptions.{
  Result, ok, err, value_error, batch_contract, reject_rate_exceeded,
}
use commerce_data_platform.Cursor.{
  text, CursorPosition, initial_cursor, lt_position, eq_keys, eq_key, eq_codes, lt_key,
}
use commerce_data_platform.Order.{lex}
use commerce_data_platform.Sql.{select}
use commerce_data_platform.Contract.Columns.{
  TableConfig, source_column_names, text_column, decimal_column, timestamp_column, all_in,
}
use commerce_data_platform.Contract.Equality.{eq_config}
use commerce_data_platform.Validation.Sound.{IsSound, bronze_rows-IsSound}
use commerce_data_platform.Validation.Values.{
  Value, str, whole, decimal, truth, instant, is_null, as_number, eq_number, eq_plain, eq_value,
  eq_values, value_mem, value_at, value_or_null, value_set, SourceRecord,
}
use commerce_data_platform.Validation.Rules.{
  matches_arrow_type, is_uuid, matches_source_column_type, column_errors, columns_errors,
  schema_and_type_errors, in_domain, domain_errors, field_type, below, is_out_of_range,
  numeric_errors, domain_and_numeric_errors, cursor_in_range,
}
use commerce_data_platform.Validation.Pipeline.{
  validation_pipeline, key_mem, primary_key, any_null, key_errors, keys_mem, reference_errors,
  validate_record, with_record, validate_records, validate_page,
}
use commerce_data_platform.Validation.References.{
  child_parent_references, is_reference_key, all_reference_keys, column_values, parent_keys,
  broken_record, broken_records, broken_by, find_broken_parent_references,
}
use commerce_data_platform.Validation.Corruption.{
  CorruptionPlan, duplicate_primary_key, kind_at, child_reference_column, corrupted_values,
  copy_with, apply, copy_columns, with_primary_key_of, apply_from, corrupted_count,
  inject_corruption,
}
use commerce_data_platform.Validation.Batch.{
  LocalArtifacts, quarantined, written, write_page, write_pages, write_local_artifacts,
  assert_reject_rate,
}
use commerce_data_platform.Validation.Split.{Split}
use commerce_data_platform.Validation.Pages.{quarantine_rows, injected}
use commerce_data_platform.Validation.Accounted.{batch-Split}
use commerce_data_platform.Validation.Outcome.{
  record_at, bronze_keys_differ, quarantine_ordinals, batch_rate,
}

program : Unit {0}
unfolding lt_int eq_int scaled lt_position eq_keys eq_key eq_codes lt_key lex select
    source_column_names all_in eq_config is_null as_number eq_number eq_plain eq_value eq_values
    value_mem value_at value_or_null value_set matches_arrow_type is_uuid matches_source_column_type
    column_errors columns_errors schema_and_type_errors in_domain domain_errors field_type below
    is_out_of_range numeric_errors domain_and_numeric_errors cursor_in_range validation_pipeline
    key_mem primary_key any_null key_errors keys_mem reference_errors validate_record with_record
    validate_records validate_page child_parent_references is_reference_key all_reference_keys
    column_values parent_keys broken_record broken_records broken_by find_broken_parent_references
    kind_at child_reference_column corrupted_values copy_with apply copy_columns with_primary_key_of
    apply_from corrupted_count inject_corruption quarantined written write_page write_pages
    write_local_artifacts assert_reject_rate quarantine_rows injected record_at str_mem
program = tt

abbrev payments : TableConfig
payments = record {
  source_table = "order_payments";
  primary_key_columns = "order_id" ∷ [];
  cursor_timestamp_column = "updated_at";
  cursor_key_columns = "order_id" ∷ [];
  source_columns =
      text_column "order_id" false
      ∷ decimal_column "payment_value" false
      ∷ timestamp_column "updated_at" false
      ∷ [];
  status_domains = [];
  numeric_minimums = ("payment_value", pos 0) ∷ [];
  append_only = false;
  schema_version = 3;
}

abbrev payment : String → Value → ℕ → SourceRecord
payment order value at = record {
  config = payments;
  values = ("order_id", str order) ∷ ("payment_value", value) ∷ ("updated_at", instant at) ∷ [];
  cursor = ok (record { timestamp = some at; keys = text (at ∷ []) ∷ [] });
}

abbrev orders_of_snapshot : String → String → List Value
orders_of_snapshot table column = str "o1" ∷ str "o2" ∷ []

abbrev upper_bound : CursorPosition
upper_bound = record { timestamp = some 20; keys = text (20 ∷ []) ∷ [] }

abbrev pages : List (List SourceRecord)
pages =
    (payment "o1" (decimal (pos 1050) 2) 11 ∷ [])
    ∷ (payment "o1" (decimal (pos 2000) 2) 12 ∷ payment "o9" (decimal (negsuc 4) 2) 13 ∷ [])
    ∷ []

abbrev run : Option CorruptionPlan → CursorPosition → Result LocalArtifacts
run plan upper = write_local_artifacts orders_of_snapshot plan payments initial_cursor upper pages

abbrev files : LocalArtifacts
files = record {
  bronze = payment "o1" (decimal (pos 1050) 2) 11 ∷ [];
  quarantine = some (
      record {
        rejected = payment "o1" (decimal (pos 2000) 2) 12;
        ordinal = 1;
        error_codes = "BATCH_DUPLICATE" ∷ [];
      }
      ∷ record {
        rejected = payment "o9" (decimal (negsuc 4) 2) 13;
        ordinal = 2;
        error_codes = "NUMERIC_RANGE_INVALID" ∷ "BROKEN_REFERENCE" ∷ [];
      }
      ∷ []);
  rows_extracted = 3;
  rows_rejected = 2;
  rows_corrupted = 0;
}

files_of_run : run none upper_bound ≡ ok files
unfolding program
files_of_run = refl

-- The upper bound lies before the second page.
out_of_range :
    run none (record { timestamp = some 11; keys = text (11 ∷ []) ∷ [] }) ≡ err batch_contract
unfolding program
out_of_range = refl

-- A first record has no key to take over.
no_preceding_record : run (some ((0, duplicate_primary_key) ∷ [])) upper_bound ≡ err value_error
unfolding program
no_preceding_record = refl

-- Numbers of different classes are equal in Python.
one_is_true : eq_value (whole (pos 1)) (truth true) ≡ true
unfolding program
one_is_true = refl

batch-Split_example :
    (records : List SourceRecord) × (injected none 0 pages ≡ ok records)
    × Split orders_of_snapshot payments initial_cursor upper_bound [] 0 records files.bronze
        (quarantine_rows files.quarantine)
    × (files.rows_extracted ≡ length records)
    × (files.rows_rejected ≡ length (quarantine_rows files.quarantine))
batch-Split_example =
    batch-Split orders_of_snapshot none payments initial_cursor upper_bound pages files files_of_run

bronze_keys_differ_example :
    key_mem (primary_key payments (payment "o1" (decimal (pos 1050) 2) 11).values) [] ≡ false
bronze_keys_differ_example =
    bronze_keys_differ orders_of_snapshot none payments initial_cursor upper_bound pages files
      files_of_run [] [] (payment "o1" (decimal (pos 1050) 2) 11) refl

quarantine_ordinals_example :
    All
      (λ j. (j.ordinal < 3) × (record_at j.ordinal (concat pages) ≡ some j.rejected))
      (quarantine_rows files.quarantine)
unfolding program
quarantine_ordinals_example =
    quarantine_ordinals orders_of_snapshot none payments initial_cursor upper_bound pages files
      files_of_run (concat pages) refl

batch_rate_example :
    (assert_reject_rate 3 2 ≡ ok tt) × (20 * 2 ≤ 1 + 2)
    ⊎ (assert_reject_rate 3 2 ≡ err reject_rate_exceeded) × (1 + 2 < 20 * 2)
unfolding program
batch_rate_example =
    batch_rate orders_of_snapshot none payments initial_cursor upper_bound pages files files_of_run

bronze_rows-IsSound_example :
    All (IsSound orders_of_snapshot payments initial_cursor upper_bound) files.bronze
bronze_rows-IsSound_example =
    bronze_rows-IsSound orders_of_snapshot none payments initial_cursor upper_bound pages files
      files_of_run
