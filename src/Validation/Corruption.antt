-- ===== src/Validation/Corruption.antt =====
-- src/ingestion/extraction/corruption.py: the planned corruption of the records of a page.
use commerce_data_platform.Prelude.{
  ℕ, zero, suc, String, Bool, true, false, ◌||◌, Option, none, some, List, [], ◌∷◌, ◌+◌, ◌==◌,
  str_eq, if◌then◌else◌, length,
}
use commerce_data_platform.Prelude.Integers.{negsuc}
use commerce_data_platform.Exceptions.{Result, ok, err, value_error, other}
use commerce_data_platform.Records.{◌>>=◌, ◌>>◌, require}
use commerce_data_platform.Cursor.{CursorPosition}
use commerce_data_platform.Contract.Columns.{source_column_names, eq_texts}
use commerce_data_platform.Validation.Values.{
  Value, null, str, whole, opaque, Values, value_names, value_at, value_set, SourceRecord,
}

-- `SUPPORTED_CORRUPTION_KINDS`
pub data CorruptionKind : Type 0 where
  null_primary_key invalid_status negative_numeric : CorruptionKind
  type_mismatch broken_reference duplicate_primary_key : CorruptionKind

-- The rules by the ordinal of a record; ordinals and kinds are valid by their types.
abbrev pub CorruptionPlan : Type 0
CorruptionPlan = List (ℕ × CorruptionKind)

-- `rules.get(ordinal)`
unfoldable pub kind_at : CorruptionPlan → ℕ → Option CorruptionKind
kind_at [] ordinal = none
kind_at ((n, kind) ∷ rest) ordinal = if n == ordinal then some kind else kind_at rest ordinal

abbrev first_name {ℓ} : {A : Type ℓ} → List (String × A) → Result String
first_name [] = err value_error
first_name ((name, value) ∷ rest) = ok name

-- `columns[0]` and `columns[-1]`; no table is without a key, and an IndexError is no class of its
-- own here.
abbrev first_column : List String → Result String
first_column [] = err other
first_column (c ∷ cs) = ok c

abbrev last_column : List String → Result String
last_column [] = err other
last_column (c ∷ []) = ok c
last_column (c ∷ d ∷ cs) = last_column (d ∷ cs)

-- `_child_reference_column`
unfoldable pub child_reference_column : SourceRecord → Result String
child_reference_column r =
    if str_eq r.config.source_table "order_items" || str_eq r.config.source_table "order_payments"
    then ok "order_id"
    else err value_error

abbrev put : Values → Value → Result String → Result Values
put values new column = do name ← column; ok (value_set name new values)

-- The values of the corrupted copy; the object is any that is no text and no number.
unfoldable pub corrupted_values : CorruptionKind → SourceRecord → Result Values
corrupted_values null_primary_key r = put r.values null (first_column r.config.primary_key_columns)
corrupted_values invalid_status r =
    put r.values (str "__invalid_status__") (first_name r.config.status_domains)
corrupted_values negative_numeric r =
    put r.values (whole (negsuc 0)) (first_name r.config.numeric_minimums)
corrupted_values type_mismatch r =
    put r.values (opaque 0) (last_column r.config.primary_key_columns)
corrupted_values broken_reference r =
    put r.values (str "__missing_parent__") (child_reference_column r)
corrupted_values duplicate_primary_key r = err value_error

-- The copy keeps the cursor as its override; its constructor checks the columns and the key count.
unfoldable pub copy_with : SourceRecord → Values → Result SourceRecord
copy_with r new_values = do
  position ← r.cursor
  require (eq_texts (value_names new_values) (source_column_names r.config))
  require (is_initial position || length position.keys == length r.config.cursor_key_columns)
  ok (record r { values = new_values; cursor = ok position })
  where
    is_initial : CursorPosition → Bool
    is_initial position = elim position.timestamp [ none ↦ true | some t ↦ false ]

-- `CorruptionPlan.apply`
unfoldable pub apply : CorruptionPlan → SourceRecord → ℕ → Result SourceRecord
apply plan r ordinal = elim (kind_at plan ordinal) [
  | none ↦ ok r
  | some kind ↦ corrupted_values kind r >>= copy_with r
]

unfoldable pub copy_columns : List String → Values → Values → Result Values
copy_columns [] source values = ok values
copy_columns (column ∷ columns) source values = do
  value ← value_at column source
  copy_columns columns source (value_set column value values)

-- `_with_primary_key_of`
unfoldable pub with_primary_key_of : SourceRecord → SourceRecord → Result SourceRecord
with_primary_key_of r previous =
    copy_columns r.config.primary_key_columns previous.values r.values >>= copy_with r

abbrev pub duplicate_of : Option SourceRecord → SourceRecord → Result SourceRecord
duplicate_of none r = err value_error
duplicate_of (some previous) r = with_primary_key_of r previous

abbrev pub is_duplicate : Option CorruptionKind → Bool
is_duplicate (some duplicate_primary_key) = true
is_duplicate _ = false

-- The loop of `CorruptionPlan.apply_page`, with the last record that it has put out.
unfoldable pub apply_from :
    CorruptionPlan → Option SourceRecord → List SourceRecord → ℕ → Result (List SourceRecord)
apply_from plan previous [] ordinal = ok []
apply_from plan previous (r ∷ rs) ordinal = do
  made ←
      if is_duplicate (kind_at plan ordinal) then duplicate_of previous r else apply plan r ordinal
  rest ← apply_from plan (some made) rs (suc ordinal)
  ok (made ∷ rest)

unfoldable pub corrupted_count : CorruptionPlan → ℕ → ℕ → ℕ
corrupted_count plan first zero = 0
corrupted_count plan first (suc n) =
    elim (kind_at plan first) [ none ↦ 0 | some kind ↦ 1 ] + corrupted_count plan (suc first) n

-- `inject_corruption`
unfoldable pub inject_corruption :
    Option CorruptionPlan → List SourceRecord → ℕ → Result (List SourceRecord × ℕ)
inject_corruption none records first = ok (records, 0)
inject_corruption (some plan) records first = do
  made ← apply_from plan none records first
  ok (made, corrupted_count plan first (length records))
