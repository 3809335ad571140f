-- ===== src/Contract/Equality.antt =====
-- Python's `==` on the table configurations of src/ingestion/contract/tables.py: field by field,
-- where the mappings and the sets in them forget their order.
use commerce_data_platform.Prelude.{
  String, Bool, true, false, ◌&&◌, not, List, [], ◌∷◌, ◌==◌, str_eq, if◌then◌else◌,
}
use commerce_data_platform.Prelude.Integers.{eq_int}
use commerce_data_platform.Contract.Columns.{
  ArrowType, utf8, int32, boolean, timestamp_us_utc, decimal128_14_2, other_type, SourceColumn,
  TableConfig, eq_texts, all_in,
}

abbrev eq_bool : Bool → Bool → Bool
eq_bool true b = b
eq_bool false b = not b

abbrev eq_type : ArrowType → ArrowType → Bool
eq_type utf8 utf8 = true
eq_type int32 int32 = true
eq_type boolean boolean = true
eq_type timestamp_us_utc timestamp_us_utc = true
eq_type decimal128_14_2 decimal128_14_2 = true
eq_type other_type other_type = true
eq_type _ _ = false

abbrev eq_column : SourceColumn → SourceColumn → Bool
eq_column a b =
    str_eq a.name b.name
    && eq_type a.type b.type
    && eq_bool a.nullable b.nullable
    && eq_bool a.postgres_uuid b.postgres_uuid

abbrev eq_columns : List SourceColumn → List SourceColumn → Bool
eq_columns [] [] = true
eq_columns (a ∷ s) (b ∷ u) = eq_column a b && eq_columns s u
eq_columns _ _ = false

abbrev eq_set : List String → List String → Bool
eq_set a b = all_in a b && all_in b a

module _ {ℓ} {A : Type ℓ} (eq : A → A → Bool) where
  abbrev has_entry : String → A → List (String × A) → Bool
  has_entry key value [] = false
  has_entry key value ((k, v) ∷ rest) =
      if str_eq k key then eq value v else has_entry key value rest

  abbrev entries_in : List (String × A) → List (String × A) → Bool
  entries_in [] other = true
  entries_in ((key, value) ∷ rest) other = has_entry key value other && entries_in rest other

  abbrev eq_mapping : List (String × A) → List (String × A) → Bool
  eq_mapping a b = entries_in a b && entries_in b a

-- `config == other`
unfoldable pub eq_config : TableConfig → TableConfig → Bool
unfolding all_in eq_int
eq_config a b =
    str_eq a.source_table b.source_table
    && eq_texts a.primary_key_columns b.primary_key_columns
    && str_eq a.cursor_timestamp_column b.cursor_timestamp_column
    && eq_texts a.cursor_key_columns b.cursor_key_columns
    && eq_columns a.source_columns b.source_columns
    && eq_mapping eq_set a.status_domains b.status_domains
    && eq_mapping eq_int a.numeric_minimums b.numeric_minimums
    && eq_bool a.append_only b.append_only
    && a.schema_version == b.schema_version
