-- ===== src/Validation/Sound.antt =====
-- The rows of the bronze file that src/ingestion/extraction/validation.py lets through, in terms of
-- the contract of their table.

use commerce_data_platform.Prelude.{
  String, ◌≡◌, ◌≢◌, ap, ◌∙◌, inl, inr, false, Option, List, [], ◌∷◌, All, All-map, map, arith,
  Bool-cases,
}
use commerce_data_platform.Prelude.Integers.{ℤ}
use commerce_data_platform.Exceptions.{ok}
use commerce_data_platform.Cursor.{CursorPosition}
use commerce_data_platform.Records.{>>=-ok, ok-injective}
use commerce_data_platform.Contract.Columns.{
  SourceColumn, TableConfig, source_column_names, eq_texts,
}
use commerce_data_platform.Validation.Values.{
  Value, null, is_null, Values, value_names, value_at, value_or_null, SourceRecord,
}
use commerce_data_platform.Validation.Rules.{
  column_errors, columns_errors, schema_and_type_errors, field_type, is_out_of_range,
  numeric_errors, domain_and_numeric_errors,
}
use commerce_data_platform.Validation.Passed.{append-empty}
use commerce_data_platform.Validation.Pipeline.{any_null, primary_key}
use commerce_data_platform.Validation.Corruption.{CorruptionPlan}
use commerce_data_platform.Validation.Batch.{LocalArtifacts, write_local_artifacts}
use commerce_data_platform.Validation.Split.{HasParents, IsClean}
use commerce_data_platform.Validation.Outcome.{bronze_rows-IsClean}
use commerce_data_platform.Validation.Contracts.{
  FitsColumn, IsInDomain, IsAtLeast, IsInRange, eq_texts-eq, cursor_in_range-IsInRange,
  column_errors-fits, unmarked, domain_errors-InDomain, is_out_of_range-int,
  is_out_of_range-decimal,
}

numeric_errors-AtLeast :
    (columns : List SourceColumn) (minimums : List (String × ℤ)) (values : Values)
    → numeric_errors columns minimums values ≡ ok []
    → All (IsAtLeast columns values) minimums
unfolding numeric_errors
numeric_errors-AtLeast columns [] values h = tt
numeric_errors-AtLeast columns ((column, minimum) ∷ rest) values h =
    let (type, known, h1) = >>=-ok (field_type column columns) _ [] h in
    let (invalid, tested, h2) =
      >>=-ok (is_out_of_range (value_or_null column values) type minimum) _ [] h1 in
    let (errors, others, h3) = >>=-ok (numeric_errors columns rest values) _ [] h2 in
    let (none_here, none_after) = append-empty _ errors (ok-injective h3) in
    let fits = tested ∙ ap ok (unmarked invalid _ none_here) in
    (
      (
        type,
        known,
        (λ n. is_out_of_range-int (value_or_null column values) type minimum n fits),
        (λ c s. is_out_of_range-decimal (value_or_null column values) type minimum c s fits),
      ),
      numeric_errors-AtLeast columns rest values (others ∙ ap ok none_after),
    )

columns_errors-Fit :
    (columns : List SourceColumn) (values : Values)
    → columns_errors columns values ≡ ok []
    → All (FitsColumn values) columns
unfolding columns_errors
columns_errors-Fit [] values h = tt
columns_errors-Fit (column ∷ columns) values h =
    let (v, at, h1) = >>=-ok (value_at column.name values) _ [] h in
    let (errors, found, h2) = >>=-ok (column_errors column v) _ [] h1 in
    let (others, after, h3) = >>=-ok (columns_errors columns values) _ [] h2 in
    let (none_here, none_after) = append-empty errors others (ok-injective h3) in
    (
      (v, at, column_errors-fits column v (found ∙ ap ok none_here)),
      columns_errors-Fit columns values (after ∙ ap ok none_after),
    )

-- A row that keeps the contract of its table.
pub record KeepsContract (config : TableConfig) (values : Values) : Type 0 where
  pub names : value_names values ≡ source_column_names config
  pub columns : All (FitsColumn values) config.source_columns
  pub key : All (λ column. value_or_null column values ≢ null) config.primary_key_columns
  pub domains : All (IsInDomain values) config.status_domains
  pub minimums : All (IsAtLeast config.source_columns values) config.numeric_minimums

schema_and_type_errors-fit :
    (config : TableConfig) (values : Values)
    → schema_and_type_errors config values ≡ ok []
    → (value_names values ≡ source_column_names config)
      × All (FitsColumn values) config.source_columns
unfolding schema_and_type_errors
schema_and_type_errors-fit config values h =
    elim (Bool-cases (eq_texts (value_names values) (source_column_names config))) [
      | inl same ↦
          (eq_texts-eq _ _ same, columns_errors-Fit config.source_columns values (rw same at h))
      | inr other ↦ absurd (cc (ok-injective (rw other at h)))
    ]

domain_and_numeric_errors-keep :
    (config : TableConfig) (values : Values)
    → domain_and_numeric_errors config values ≡ ok []
    → All (IsInDomain values) config.status_domains
      × All (IsAtLeast config.source_columns values) config.numeric_minimums
unfolding domain_and_numeric_errors
domain_and_numeric_errors-keep config values h =
    let (errors, found, h1) =
      >>=-ok (numeric_errors config.source_columns config.numeric_minimums values) _ [] h in
    let (none_here, none_after) = append-empty _ errors (ok-injective h1) in
    (
      domain_errors-InDomain config.status_domains values none_here,
      numeric_errors-AtLeast config.source_columns config.numeric_minimums values
          (found ∙ ap ok none_after),
    )

key_complete :
    (columns : List String) (values : Values)
    → any_null (map (λ column. value_or_null column values) columns) ≡ false
    → All (λ column. value_or_null column values ≢ null) columns
unfolding any_null is_null
key_complete [] values h = tt
key_complete (column ∷ columns) values h =
    ((λ empty. absurd (cc (rw empty at h))), key_complete columns values (ground arith))

module _ (snapshot : String → String → List Value) (config : TableConfig)
    (lower upper : CursorPosition) where
  -- The row keeps the contract, its cursor is in the range, and its parents are in the snapshot.
  abbrev pub IsSound : SourceRecord → Type 0
  IsSound source =
      KeepsContract config source.values
      × ((c : CursorPosition) × (source.cursor ≡ ok c) × IsInRange c lower upper)
      × HasParents snapshot config source

  IsClean-IsSound :
      (source : SourceRecord) → IsClean snapshot config lower upper source → IsSound source
  unfolding primary_key
  IsClean-IsSound source (schema, (c, read, within), complete, ranges, parents) =
      let (names, columns) = schema_and_type_errors-fit config source.values schema in
      let (domains, minimums) = domain_and_numeric_errors-keep config source.values ranges in
      (
        record {
          names = names;
          columns = columns;
          key = key_complete config.primary_key_columns source.values complete;
          domains = domains;
          minimums = minimums;
        },
        (c, read, cursor_in_range-IsInRange c lower upper within),
        parents,
      )

-- Every row of the bronze file of a batch keeps the contract of its table: it has the table's
-- columns, each with a value of the column's type or with a null that is allowed there, a complete
-- key, texts of the status domains, and no number below its minimum; its cursor is after the lower
-- bound and not after the upper one; and its parents are in the snapshot.
pub bronze_rows-IsSound :
    (snapshot : String → String → List Value) (plan : Option CorruptionPlan) (config : TableConfig)
    (lower upper : CursorPosition) (pages : List (List SourceRecord)) (files : LocalArtifacts)
    → write_local_artifacts snapshot plan config lower upper pages ≡ ok files
    → All (IsSound snapshot config lower upper) files.bronze
bronze_rows-IsSound snapshot plan config lower upper pages files wrote =
    All-map (IsClean-IsSound snapshot config lower upper) files.bronze
      (bronze_rows-IsClean snapshot plan config lower upper pages files wrote)
