-- ===== src/Validation/Values.antt =====
-- The values of a source row as the PostgreSQL driver gives them, Python's `==` on them, and the
-- records and pages of src/ingestion/extraction/extract.py.
use commerce_data_platform.Prelude.{
  ℕ, String, Bool, true, false, ◌&&◌, ◌||◌, Option, none, some, List, [], ◌∷◌, ◌==◌, str_eq,
  if◌then◌else◌,
}
use commerce_data_platform.Prelude.Integers.{ℤ, pos, eq_int, scaled}
use commerce_data_platform.Exceptions.{Result, ok, err, key_error}
use commerce_data_platform.Cursor.{CursorPosition}
use commerce_data_platform.Contract.Columns.{TableConfig}

-- `null` is None. A decimal is finite: its coefficient, and how many digits of it stand after the
-- point. An aware datetime is its instant. `opaque` is an object of any other class.
pub data Value : Type 0 where
  null : Value
  str : String → Value
  uuid : ℕ → Value
  whole : ℤ → Value
  decimal : ℤ → ℕ → Value
  truth : Bool → Value
  instant naive_instant : ℕ → Value
  opaque : ℕ → Value

unfoldable pub is_null : Value → Bool
is_null null = true
is_null _ = false

-- Integers, decimals and booleans are numbers and compare as such.
unfoldable pub as_number : Value → Option (ℤ × ℕ)
as_number (whole n) = some (n, 0)
as_number (decimal c s) = some (c, s)
as_number (truth true) = some (pos 1, 0)
as_number (truth false) = some (pos 0, 0)
as_number _ = none

unfoldable pub eq_number : ℤ × ℕ → ℤ × ℕ → Bool
eq_number (a, s) (b, t) = eq_int (scaled a t) (scaled b s)

unfoldable pub eq_plain : Value → Value → Bool
eq_plain null null = true
eq_plain (str a) (str b) = str_eq a b
eq_plain (uuid a) (uuid b) = a == b
eq_plain (instant a) (instant b) = a == b
eq_plain (naive_instant a) (naive_instant b) = a == b
eq_plain (opaque a) (opaque b) = a == b
eq_plain _ _ = false

-- `==`
unfoldable pub eq_value : Value → Value → Bool
eq_value v w = elim (as_number v) [
  | none ↦ eq_plain v w
  | some a ↦ elim (as_number w) [ none ↦ false | some b ↦ eq_number a b ]
]

-- `value in values`
unfoldable pub value_mem : Value → List Value → Bool
value_mem v [] = false
value_mem v (w ∷ ws) = eq_value v w || value_mem v ws

unfoldable pub eq_values : List Value → List Value → Bool
eq_values [] [] = true
eq_values (v ∷ vs) (w ∷ ws) = eq_value v w && eq_values vs ws
eq_values _ _ = false

-- A mapping from column names.
abbrev pub Values : Type 0
Values = List (String × Value)

-- `tuple(values)`
abbrev pub value_names : Values → List String
value_names [] = []
value_names ((name, value) ∷ rest) = name ∷ value_names rest

-- `values[name]`
unfoldable pub value_at : String → Values → Result Value
value_at name [] = err key_error
value_at name ((key, value) ∷ rest) = if str_eq key name then ok value else value_at name rest

-- `values.get(name)`
unfoldable pub value_or_null : String → Values → Value
value_or_null name [] = null
value_or_null name ((key, value) ∷ rest) =
    if str_eq key name then value else value_or_null name rest

-- `values[name] = value` on a copy.
unfoldable pub value_set : String → Value → Values → Values
value_set name new [] = (name, new) ∷ []
value_set name new ((key, value) ∷ rest) =
    if str_eq key name then (key, new) ∷ rest else (key, value) ∷ value_set name new rest

-- The field `cursor` is the outcome of the property: the override of a corrupted copy, or the
-- cursor that is read from the values and may raise.
pub record SourceRecord : Type 0 where
  pub config : TableConfig
  pub values : Values
  pub cursor : Result CursorPosition
