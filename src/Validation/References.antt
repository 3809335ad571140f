-- ===== src/Validation/References.antt =====
-- src/ingestion/extraction/references.py: the child records of a page whose parents the snapshot
-- does not have.
use commerce_data_platform.Prelude.{
  String, Bool, true, false, not, ◌&&◌, List, [], ◌∷◌, ◌++◌, str_eq, if◌then◌else◌,
}
use commerce_data_platform.Exceptions.{Result, ok, err, type_error}
use commerce_data_platform.Records.{◌>>=◌, ◌>>◌, raise_unless, require}
use commerce_data_platform.Cursor.{Keys}
use commerce_data_platform.Sql.{select}
use commerce_data_platform.Contract.Columns.{TableConfig}
use commerce_data_platform.Contract.Equality.{eq_config}
use commerce_data_platform.Validation.Values.{
  Value, str, whole, is_null, value_mem, value_at, SourceRecord,
}

pub record ParentReference : Type 0 where
  pub child_column : String
  pub parent_table : String
  pub parent_column : String

pub record BrokenReference : Type 0 where
  pub child_table : String
  pub child_cursor : Keys
  pub child_column : String
  pub parent_table : String
  pub missing_key : Value

abbrev reference : String → String → ParentReference
reference column table = record {
  child_column = column;
  parent_table = table;
  parent_column = column;
}

-- `CHILD_PARENT_REFERENCES.get(source_table, ())`
unfoldable pub child_parent_references : String → List ParentReference
child_parent_references table =
    if str_eq table "order_items"
    then reference "order_id" "orders"
      ∷ reference "product_id" "products"
      ∷ reference "seller_id" "sellers"
      ∷ []
    else if str_eq table "order_payments"
    then reference "order_id" "orders" ∷ []
    else []

-- A string or an integer that is no boolean.
unfoldable pub is_reference_key : Value → Bool
is_reference_key (str s) = true
is_reference_key (whole n) = true
is_reference_key _ = false

unfoldable pub all_reference_keys : List Value → Bool
all_reference_keys [] = true
all_reference_keys (v ∷ vs) = is_reference_key v && all_reference_keys vs

-- `{record.values[column] for record in records}`
unfoldable pub column_values : String → List SourceRecord → Result (List Value)
column_values column [] = ok []
column_values column (r ∷ rs) = do
  value ← value_at column r.values
  values ← column_values column rs
  ok (value ∷ values)

-- `not (page.records and page.records[0].config != config)`
abbrev pub config_matches : TableConfig → List SourceRecord → Bool
config_matches config [] = true
config_matches config (r ∷ rs) = eq_config r.config config

-- The snapshot gives the values of a column of a table.
module _ (snapshot : String → String → List Value) where
  -- `_parent_keys`; a null equals nothing in the query.
  unfoldable pub parent_keys : ParentReference → List Value → Result (List Value)
  parent_keys r [] = ok []
  parent_keys r (key ∷ keys) =
      let rows =
        select (λ v. not (is_null v) && value_mem v (key ∷ keys))
          (snapshot r.parent_table r.parent_column) in
      if all_reference_keys rows then ok rows else err type_error

  -- One turn of the loop over the records of one reference.
  unfoldable pub broken_record :
      String → ParentReference → List Value → SourceRecord → Value → Result (List BrokenReference)
  broken_record table r present child key = if value_mem key present then ok [] else do
    raise_unless (is_reference_key key) type_error
    cursor ← child.cursor
    ok (
        record {
          child_table = table;
          child_cursor = cursor.keys;
          child_column = r.child_column;
          parent_table = r.parent_table;
          missing_key = key;
        }
        ∷ [])

  unfoldable pub broken_records :
      String → ParentReference → List Value → List SourceRecord → Result (List BrokenReference)
  broken_records table r present [] = ok []
  broken_records table r present (child ∷ children) = do
    key ← value_at r.child_column child.values
    broken ← broken_record table r present child key
    rest ← broken_records table r present children
    ok (broken ++ rest)

  -- The loop over the references of the table.
  unfoldable pub broken_by :
      String → List ParentReference → List SourceRecord → Result (List BrokenReference)
  broken_by table [] records = ok []
  broken_by table (r ∷ rs) records = do
    keys ← column_values r.child_column records
    present ← parent_keys r keys
    broken ← broken_records table r present records
    rest ← broken_by table rs records
    ok (broken ++ rest)

  -- `find_broken_parent_references`
  unfoldable pub find_broken_parent_references :
      TableConfig → List SourceRecord → Result (List BrokenReference)
  find_broken_parent_references config records = do
    require (config_matches config records)
    broken_by config.source_table (child_parent_references config.source_table) records
