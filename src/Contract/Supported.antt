-- ===== src/Contract/Supported.antt =====
-- src/ingestion/contract/tables.py: what holds of every table that the look-up gives.
use commerce_data_platform.Prelude.{
  String, ◌≡◌, refl, subst, inl, inr, Bool, true, false, not, ◌&&◌, ◌||◌, List, [], ◌∷◌, str_eq,
  str_eq_iff, is_space, is_blank, str_mem, All, Bool-cases, arith,
}
use commerce_data_platform.Exceptions.{ok}
use commerce_data_platform.Contract.Columns.{
  ArrowType, timestamp_us_utc, SourceColumn, Field, TableConfig, field_of, check_table_config,
  source_column_names, source_schema, bronze_schema, all_distinct, all_in,
  assert_supported_schema_version,
}
use commerce_data_platform.Contract.Tables.{table_configs, config_named, table_config}

unfoldable pub is_timestamp : ArrowType → Bool
is_timestamp timestamp_us_utc = true
is_timestamp _ = false

-- The column is there and required; the third test reads its type.
unfoldable pub has_required : (ArrowType → Bool) → String → List SourceColumn → Bool
has_required of_type name [] = false
has_required of_type name (c ∷ cs) =
    str_eq name c.name && not c.nullable && of_type c.type || has_required of_type name cs

unfoldable pub all_required : List String → List SourceColumn → Bool
unfolding has_required
all_required [] columns = true
all_required (name ∷ names) columns =
    has_required (λ _. true) name columns && all_required names columns

abbrev pub field_names : List Field → List String
field_names [] = []
field_names (f ∷ fs) = f.name ∷ field_names fs

-- What the ingestion relies on: the constructor's checks pass, the cursor's columns and the key's
-- are required, the cursor starts with a UTC timestamp, and the columns of the bronze file have
-- different names.
unfoldable pub is_sound : TableConfig → Bool
unfolding has_required all_required is_timestamp all_distinct bronze_schema
is_sound config =
    has_required is_timestamp config.cursor_timestamp_column config.source_columns
    && all_required config.primary_key_columns config.source_columns
    && all_distinct (field_names (bronze_schema config))

abbrev pub IsSound : TableConfig → Type 0
IsSound config = (check_table_config config ≡ ok config) × (is_sound config ≡ true)

tables-IsSound : All IsSound table_configs
unfolding check_table_config is_sound has_required all_required is_timestamp all_distinct
    bronze_schema all_in is_blank is_space assert_supported_schema_version source_column_names
    source_schema field_of str_mem
tables-IsSound = (
  (refl, refl),
  (
    (refl, refl),
    (
      (refl, refl),
      (
        (refl, refl),
        ((refl, refl), ((refl, refl), ((refl, refl), ((refl, refl), ((refl, refl), tt))))),
      ),
    ),
  ),
)

module _ (P : TableConfig → Type 0) where
  config_named-All :
      (name : String) (configs : List TableConfig) (config : TableConfig)
      → All P configs
      → config_named name configs ≡ ok config
      → (config.source_table ≡ name) × P config
  unfolding config_named
  config_named-All name [] config all found = cc
  config_named-All name (c ∷ cs) config (holds, rest) found =
      elim (Bool-cases (str_eq c.source_table name)) [
        | inl same ↦
            subst (λ x. (x.source_table ≡ name) × P x) (the_one same)
              (ground (arith, str_eq_iff c.source_table name), holds)
        | inr differs ↦ config_named-All name cs config rest (ground (arith))
      ]
    where
      the_one : str_eq c.source_table name ≡ true → c ≡ config
      the_one same = ground (arith)

-- The configuration that the look-up of a name gives is that table's, passes the checks of its
-- constructor, requires the columns of its cursor and its key, has a UTC timestamp to start the
-- cursor with, and gives a bronze file whose columns have different names.
pub table_config-IsSound :
    (name : String) (config : TableConfig)
    → table_config name ≡ ok config
    → (config.source_table ≡ name) × IsSound config
unfolding table_config
table_config-IsSound name config found =
    config_named-All IsSound name table_configs config tables-IsSound found
