-- ===== src/Contract/Columns.antt =====
-- src/ingestion/contract/tables.py and schema.py: the columns of a source table, the configuration
-- of a table with the checks of its constructor, and the schemas that it gives.
use commerce_data_platform.Prelude.{
  ℕ, String, Bool, true, false, not, ◌&&◌, List, [], ◌∷◌, ◌++◌, map, ◌==◌, str_eq, is_blank,
  str_mem,
}
use commerce_data_platform.Prelude.Integers.{ℤ}
use commerce_data_platform.Exceptions.{Result, ok, schema_contract}
use commerce_data_platform.Records.{◌>>◌, require, raise_unless}

-- The Arrow types of the contracts; any other type is `other_type`.
pub data ArrowType : Type 0 where
  utf8 int32 boolean timestamp_us_utc decimal128_14_2 other_type : ArrowType

-- An Arrow field.
pub record Field : Type 0 where
  pub name : String
  pub type : ArrowType
  pub nullable : Bool

pub record SourceColumn : Type 0 where
  pub name : String
  pub type : ArrowType
  pub nullable : Bool
  pub postgres_uuid : Bool

-- `SourceColumn.field`
unfoldable pub field_of : SourceColumn → Field
field_of column = record { name = column.name; type = column.type; nullable = column.nullable }

-- `_text`, `_uuid`, `_integer`, `_boolean`, `_timestamp` and `_decimal`; the second argument is
-- `nullable`.
abbrev pub column_of : ArrowType → Bool → String → Bool → SourceColumn
column_of arrow_type is_uuid column_name is_nullable = record {
  name = column_name;
  type = arrow_type;
  nullable = is_nullable;
  postgres_uuid = is_uuid;
}

abbrev pub text_column : String → Bool → SourceColumn
text_column = column_of utf8 false

abbrev pub uuid_column : String → Bool → SourceColumn
uuid_column = column_of utf8 true

abbrev pub integer_column : String → Bool → SourceColumn
integer_column = column_of int32 false

abbrev pub boolean_column : String → Bool → SourceColumn
boolean_column = column_of boolean false

abbrev pub timestamp_column : String → Bool → SourceColumn
timestamp_column = column_of timestamp_us_utc false

abbrev pub decimal_column : String → Bool → SourceColumn
decimal_column = column_of decimal128_14_2 false

-- The minimums are integers: the `Decimal` ones are zero, which compares as the integer does.
pub record TableConfig : Type 0 where
  pub source_table : String
  pub primary_key_columns : List String
  pub cursor_timestamp_column : String
  pub cursor_key_columns : List String
  pub source_columns : List SourceColumn
  pub status_domains : List (String × List String)
  pub numeric_minimums : List (String × ℤ)
  pub append_only : Bool
  pub schema_version : ℕ

abbrev pub column_names : List SourceColumn → List String
column_names [] = []
column_names (c ∷ cs) = c.name ∷ column_names cs

-- `TableConfig.source_column_names`
unfoldable pub source_column_names : TableConfig → List String
source_column_names config = column_names config.source_columns

-- `TableConfig.cursor_columns`
unfoldable pub cursor_columns : TableConfig → List String
cursor_columns config = config.cursor_timestamp_column ∷ config.cursor_key_columns

-- `TableConfig.source_schema`
unfoldable pub source_schema : TableConfig → List Field
unfolding field_of
source_schema config = map field_of config.source_columns

abbrev technical_field : String → ArrowType → Field
technical_field field_name arrow_type = record {
  name = field_name;
  type = arrow_type;
  nullable = false;
}

-- `_technical_fields`
abbrev pub technical_fields : List Field
technical_fields =
    technical_field "_batch_id" utf8
    ∷ technical_field "_run_id" utf8
    ∷ technical_field "_ingested_at" timestamp_us_utc
    ∷ technical_field "_source_table" utf8
    ∷ technical_field "_schema_version" int32
    ∷ []

-- `TableConfig.bronze_schema`
unfoldable pub bronze_schema : TableConfig → List Field
unfolding source_schema
bronze_schema config = source_schema config ++ technical_fields

-- `assert_supported_schema_version`
unfoldable pub assert_supported_schema_version : ℕ → Result (Unit {0})
assert_supported_schema_version version = raise_unless (version == 3) schema_contract

abbrev is_nonempty : List String → Bool
is_nonempty [] = false
is_nonempty (x ∷ xs) = true

abbrev pub eq_texts : List String → List String → Bool
eq_texts [] [] = true
eq_texts (a ∷ s) (b ∷ u) = str_eq a b && eq_texts s u
eq_texts _ _ = false

-- `len(names) == len(set(names))`
unfoldable pub all_distinct : List String → Bool
unfolding str_mem
all_distinct [] = true
all_distinct (x ∷ xs) = not (str_mem x xs) && all_distinct xs

unfoldable pub all_in : List String → List String → Bool
unfolding str_mem
all_in [] names = true
all_in (x ∷ xs) names = str_mem x names && all_in xs names

abbrev mapping_keys {ℓ} : {A : Type ℓ} → List (String × A) → List String
mapping_keys [] = []
mapping_keys ((key, value) ∷ rest) = key ∷ mapping_keys rest

-- `TableConfig.__post_init__`
unfoldable pub check_table_config : TableConfig → Result TableConfig
unfolding assert_supported_schema_version source_column_names all_distinct all_in is_blank
check_table_config config = do
  require (not (is_blank config.source_table))
  require (is_nonempty config.primary_key_columns && is_nonempty config.cursor_key_columns)
  require (eq_texts config.primary_key_columns config.cursor_key_columns)
  assert_supported_schema_version config.schema_version
  require (all_distinct (source_column_names config))
  require (
      all_in (config.cursor_timestamp_column ∷ config.primary_key_columns)
        (source_column_names config))
  require (
      all_in (mapping_keys config.status_domains) (source_column_names config)
      && all_in (mapping_keys config.numeric_minimums) (source_column_names config))
  ok config
