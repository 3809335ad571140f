-- ===== src/Validation/Pipeline.antt =====
-- src/ingestion/extraction/validation.py: the pipeline that validates the pages of a batch, with
-- the keys that it has seen and the next ordinal as its state.
use commerce_data_platform.Prelude.{
  ℕ, suc, String, Bool, false, not, ◌||◌, List, [], ◌∷◌, ◌++◌, map, str_mem, if◌then◌else◌,
}
use commerce_data_platform.Exceptions.{ok, value_error, batch_contract}
use commerce_data_platform.Action.{Action, pure, raise, lift, gets, modify, raise_if, ◌>>=◌, ◌>>◌}
use commerce_data_platform.Cursor.{Keys, CursorPosition, eq_keys}
use commerce_data_platform.Contract.Columns.{TableConfig}
use commerce_data_platform.Contract.Equality.{eq_config}
use commerce_data_platform.Validation.Values.{
  Value, is_null, eq_values, Values, value_or_null, SourceRecord,
}
use commerce_data_platform.Validation.Rules.{
  schema_mismatch, key_null, batch_duplicate, broken_reference, schema_and_type_errors,
  domain_and_numeric_errors, cursor_in_range,
}

pub record RejectedRecord : Type 0 where
  pub rejected : SourceRecord
  pub ordinal : ℕ
  pub error_codes : List String

pub record ValidatedPage : Type 0 where
  pub valid_records : List SourceRecord
  pub rejected_records : List RejectedRecord

pub record ValidationPipeline : Type 0 where
  pub config : TableConfig
  pub watermark_before : CursorPosition
  pub extract_upper_bound : CursorPosition
  pub seen_primary_keys : List (List Value)
  pub next_ordinal : ℕ

-- A new pipeline.
unfoldable pub validation_pipeline :
    TableConfig → CursorPosition → CursorPosition → ValidationPipeline
validation_pipeline table lower upper = record {
  config = table;
  watermark_before = lower;
  extract_upper_bound = upper;
  seen_primary_keys = [];
  next_ordinal = 0;
}

-- `primary_key in self._seen_primary_keys`
unfoldable pub key_mem : List Value → List (List Value) → Bool
key_mem key [] = false
key_mem key (seen ∷ rest) = eq_values key seen || key_mem key rest

-- `tuple(values.get(column) for column in config.primary_key_columns)`
unfoldable pub primary_key : TableConfig → Values → List Value
primary_key config values = map (λ column. value_or_null column values) config.primary_key_columns

unfoldable pub any_null : List Value → Bool
any_null [] = false
any_null (v ∷ vs) = is_null v || any_null vs

-- The part of `_validate_record` that reads and writes the seen keys.
unfoldable pub key_errors : List Value → Action ValidationPipeline (List String)
key_errors key pipeline =
    if any_null key
    then (ok (key_null.code ∷ []), pipeline)
    else if key_mem key pipeline.seen_primary_keys
    then (ok (batch_duplicate.code ∷ []), pipeline)
    else (ok [], record pipeline { seen_primary_keys = key ∷ pipeline.seen_primary_keys })

-- `cursor.keys in broken_reference_cursors`
unfoldable pub keys_mem : Keys → List Keys → Bool
keys_mem keys [] = false
keys_mem keys (broken ∷ rest) = eq_keys keys broken || keys_mem keys rest

unfoldable pub reference_errors : CursorPosition → List Keys → List String
reference_errors cursor broken =
    if keys_mem cursor.keys broken then broken_reference.code ∷ [] else []

-- `_validate_record`
unfoldable pub validate_record : SourceRecord → List Keys → Action ValidationPipeline (List String)
validate_record source broken = do
  pipeline ← gets (λ p. p)
  errors ← lift (schema_and_type_errors pipeline.config source.values)
  raise_if (str_mem schema_mismatch.code errors) batch_contract
  cursor ← lift source.cursor
  in_range ← lift (cursor_in_range cursor pipeline.watermark_before pipeline.extract_upper_bound)
  raise_if (not in_range) batch_contract
  of_key ← key_errors (primary_key pipeline.config source.values)
  of_values ← lift (domain_and_numeric_errors pipeline.config source.values)
  pure (errors ++ (of_key ++ (of_values ++ reference_errors cursor broken)))

-- The valid and the rejected records with one more record put before them.
unfoldable pub with_record : SourceRecord → ℕ → List String → ValidatedPage → ValidatedPage
with_record source at [] page = record page { valid_records = source ∷ page.valid_records }
with_record source at (code ∷ codes) page = record page {
  rejected_records =
      record { rejected = source; ordinal = at; error_codes = code ∷ codes }
      ∷ page.rejected_records;
}

abbrev count_one : ValidationPipeline → ValidationPipeline
count_one pipeline = record pipeline { next_ordinal = suc pipeline.next_ordinal }

-- The loop of `validate_page`
unfoldable pub validate_records :
    List SourceRecord → List Keys → Action ValidationPipeline ValidatedPage
validate_records [] broken = pure (record { valid_records = []; rejected_records = [] })
validate_records (source ∷ rest) broken = do
  at ← gets (λ p. p.next_ordinal)
  modify count_one
  errors ← validate_record source broken
  page ← validate_records rest broken
  pure (with_record source at errors page)

-- `validate_page`
unfoldable pub validate_page :
    List SourceRecord → List Keys → Action ValidationPipeline ValidatedPage
validate_page [] broken = raise value_error
validate_page (source ∷ rest) broken = do
  pipeline ← gets (λ p. p)
  raise_if (not (eq_config source.config pipeline.config)) value_error
  validate_records (source ∷ rest) broken
