-- ===== src/Validation/Rules.antt =====
-- src/ingestion/contract/rules.py, and the checks of one record of
-- src/ingestion/extraction/validation.py that read no state.
use commerce_data_platform.Prelude.{
  ℕ, String, Bool, true, false, not, ◌&&◌, ◌||◌, none, some, List, [], ◌∷◌, ◌++◌, str_eq, str_mem,
  if◌then◌else◌,
}
use commerce_data_platform.Prelude.Integers.{ℤ, lt_int, scaled}
use commerce_data_platform.Exceptions.{Result, ok, err, type_error, key_error}
use commerce_data_platform.Records.{◌>>=◌}
use commerce_data_platform.Cursor.{CursorPosition, Position, lt_position}
use commerce_data_platform.Contract.Columns.{
  ArrowType, utf8, int32, boolean, timestamp_us_utc, decimal128_14_2, other_type, SourceColumn,
  TableConfig, source_column_names, eq_texts,
}
use commerce_data_platform.Validation.Values.{
  Value, str, uuid, whole, decimal, truth, instant, is_null, as_number, Values, value_names,
  value_at, value_or_null,
}

pub data Scope : Type 0 where
  row batch : Scope

pub record ValidationRule : Type 0 where
  pub code : String
  pub order : ℕ
  pub scope : Scope

abbrev rule : String → ℕ → Scope → ValidationRule
rule rule_code rule_order rule_scope = record {
  code = rule_code;
  order = rule_order;
  scope = rule_scope;
}

abbrev pub schema_mismatch : ValidationRule
schema_mismatch = rule "SCHEMA_MISMATCH" 1 batch

abbrev pub required_null : ValidationRule
required_null = rule "REQUIRED_NULL" 2 row

abbrev pub type_mismatch : ValidationRule
type_mismatch = rule "TYPE_MISMATCH" 3 row

abbrev pub key_null : ValidationRule
key_null = rule "KEY_NULL" 4 row

abbrev pub batch_duplicate : ValidationRule
batch_duplicate = rule "BATCH_DUPLICATE" 5 row

abbrev pub status_domain_invalid : ValidationRule
status_domain_invalid = rule "STATUS_DOMAIN_INVALID" 6 row

abbrev pub numeric_range_invalid : ValidationRule
numeric_range_invalid = rule "NUMERIC_RANGE_INVALID" 7 row

abbrev pub broken_reference : ValidationRule
broken_reference = rule "BROKEN_REFERENCE" 8 row

abbrev pub cursor_out_of_range : ValidationRule
cursor_out_of_range = rule "CURSOR_OUT_OF_RANGE" 9 batch

-- `_matches_arrow_type`; a boolean is no integer here.
unfoldable pub matches_arrow_type : Value → ArrowType → Result Bool
matches_arrow_type value utf8 = ok (elim value [ str s ↦ true | _ ↦ false ])
matches_arrow_type value int32 = ok (elim value [ whole n ↦ true | _ ↦ false ])
matches_arrow_type value boolean = ok (elim value [ truth b ↦ true | _ ↦ false ])
matches_arrow_type value decimal128_14_2 = ok (elim value [ decimal c s ↦ true | _ ↦ false ])
matches_arrow_type value timestamp_us_utc = ok (elim value [ instant t ↦ true | _ ↦ false ])
matches_arrow_type value other_type = err type_error

unfoldable pub is_uuid : Value → Bool
is_uuid (uuid u) = true
is_uuid _ = false

-- `_matches_source_column_type`
unfoldable pub matches_source_column_type : Value → SourceColumn → Result Bool
matches_source_column_type value column =
    if column.postgres_uuid && is_uuid value then ok true else matches_arrow_type value column.type

-- One turn of the loop over the columns.
unfoldable pub column_errors : SourceColumn → Value → Result (List String)
column_errors column value =
    if is_null value then ok (if column.nullable then [] else required_null.code ∷ []) else do
      matches ← matches_source_column_type value column
      ok (if matches then [] else type_mismatch.code ∷ [])

unfoldable pub columns_errors : List SourceColumn → Values → Result (List String)
columns_errors [] values = ok []
columns_errors (column ∷ columns) values = do
  value ← value_at column.name values
  errors ← column_errors column value
  rest ← columns_errors columns values
  ok (errors ++ rest)

-- `_schema_and_type_errors`
unfoldable pub schema_and_type_errors : TableConfig → Values → Result (List String)
schema_and_type_errors config values =
    if eq_texts (value_names values) (source_column_names config)
    then columns_errors config.source_columns values
    else ok (schema_mismatch.code ∷ [])

-- `value in domain`, where the domain is a set of texts.
unfoldable pub in_domain : Value → List String → Bool
in_domain (str s) domain = str_mem s domain
in_domain _ domain = false

unfoldable pub domain_errors : List (String × List String) → Values → List String
domain_errors [] values = []
domain_errors ((column, domain) ∷ rest) values =
    (if is_null (value_or_null column values) || in_domain (value_or_null column values) domain
      then []
      else status_domain_invalid.code ∷ [])
    ++ domain_errors rest values

-- `source_schema.field(name).type`
unfoldable pub field_type : String → List SourceColumn → Result ArrowType
field_type name [] = err key_error
field_type name (c ∷ cs) = if str_eq c.name name then ok c.type else field_type name cs

-- `value < minimum`
unfoldable pub below : Value → ℤ → Result Bool
below value minimum = elim (as_number value) [
  | none ↦ err type_error
  | some (c, s) ↦ ok (lt_int c (scaled minimum s))
]

-- `value is not None and _matches_arrow_type(value, field_type) and value < minimum`
unfoldable pub is_out_of_range : Value → ArrowType → ℤ → Result Bool
is_out_of_range value arrow_type minimum = if is_null value then ok false else do
  matches ← matches_arrow_type value arrow_type
  if matches then below value minimum else ok false

unfoldable pub numeric_errors :
    List SourceColumn → List (String × ℤ) → Values → Result (List String)
numeric_errors columns [] values = ok []
numeric_errors columns ((column, minimum) ∷ rest) values = do
  arrow_type ← field_type column columns
  invalid ← is_out_of_range (value_or_null column values) arrow_type minimum
  errors ← numeric_errors columns rest values
  ok ((if invalid then numeric_range_invalid.code ∷ [] else []) ++ errors)

-- `_domain_and_numeric_errors`
unfoldable pub domain_and_numeric_errors : TableConfig → Values → Result (List String)
domain_and_numeric_errors config values = do
  errors ← numeric_errors config.source_columns config.numeric_minimums values
  ok (domain_errors config.status_domains values ++ errors)

-- `_cursor_in_range`: the range excludes its lower bound and includes the upper.
unfoldable pub cursor_in_range : CursorPosition → CursorPosition → CursorPosition → Result Bool
cursor_in_range cursor lower upper = elim cursor.timestamp [
  | none ↦ ok false
  | some t ↦
      if above_lower (record { time = t; keys = cursor.keys })
      then elim upper.timestamp [
        | none ↦ err type_error
        | some u ↦ ok (
            not (
              lt_position (record { time = u; keys = upper.keys })
                (record { time = t; keys = cursor.keys })))
      ]
      else ok false
]
  where
    above_lower : Position → Bool
    above_lower candidate = elim lower.timestamp [
      | none ↦ true
      | some l ↦ lt_position (record { time = l; keys = lower.keys }) candidate
    ]
