-- ===== src/Cursor.antt =====
-- The composite cursor of src/ingestion/control/metadata.py: a timestamp and the whole primary key.
use commerce_data_platform.Prelude.{
  ℕ, ◌≡◌, ◌↔◌, refl, ap, Bool, true, false, ◌&&◌, Option, none, some, List, [], ◌∷◌, arith, ltb,
  ◌==◌, if◌then◌else◌,
}
use commerce_data_platform.Exceptions.{Result, ok, err, value_error}
use commerce_data_platform.Clock.{DateTime, assert_utc}
use commerce_data_platform.Order.{
  StrictOrder, number_order, lex, lex_irrefl, lex_trans, lex_total, list_order,
}

-- A value of a key column: an integer, or a text by its code points. The columns of one table have
-- fixed types, so a number and a text are never compared there; the order puts numbers first.
pub data Key : Type 0 where
  num : ℕ → Key
  text : List ℕ → Key

abbrev pub Keys : Type 0
Keys = List Key

unfoldable pub lt_key : Key → Key → Bool
lt_key (num a) (num b) = ltb a b
lt_key (num a) (text s) = true
lt_key (text s) (num b) = false
lt_key (text s) (text u) = lex number_order s u

pub lt_key_irrefl : (a : Key) → lt_key a a ≡ false
unfolding lt_key
lt_key_irrefl (num a) = ground arith
lt_key_irrefl (text s) = lex_irrefl number_order s

pub lt_key_trans : (a b c : Key) → lt_key a b ≡ true → lt_key b c ≡ true → lt_key a c ≡ true
unfolding lt_key
lt_key_trans (num a) (num b) (num c) p q = ground arith
lt_key_trans (num a) (num b) (text u) p q = refl
lt_key_trans (num a) (text s) (num c) p q = cc
lt_key_trans (num a) (text s) (text u) p q = refl
lt_key_trans (text s) (num b) c p q = cc
lt_key_trans (text s) (text u) (num c) p q = cc
lt_key_trans (text s) (text u) (text v) p q = lex_trans number_order s u v p q

pub lt_key_total : (a b : Key) → lt_key a b ≡ false → lt_key b a ≡ false → a ≡ b
unfolding lt_key
lt_key_total (num a) (num b) p q = ground arith
lt_key_total (num a) (text s) p q = cc
lt_key_total (text s) (num b) p q = cc
lt_key_total (text s) (text u) p q = ap text (lex_total number_order s u p q)

abbrev pub key_order : StrictOrder Key
key_order = record {
  lt = lt_key;
  irrefl = lt_key_irrefl;
  trans = lt_key_trans;
  total = lt_key_total;
}

abbrev pub keys_order : StrictOrder Keys
keys_order = list_order key_order

-- A cursor with no timestamp is the initial one.
pub record CursorPosition : Type 0 where
  pub timestamp : Option ℕ
  pub keys : Keys

abbrev pub initial_cursor : CursorPosition
initial_cursor = record { timestamp = none; keys = [] }

-- The constructor with its checks.
unfoldable pub cursor_position : Option DateTime → Keys → Result CursorPosition
unfolding assert_utc
cursor_position none [] = ok initial_cursor
cursor_position none (k ∷ ks) = err value_error
cursor_position (some at) [] = elim (assert_utc at) [ ok t ↦ err value_error | err e ↦ err e ]
cursor_position (some at) (k ∷ ks) = elim (assert_utc at) [
  | ok t ↦ ok (record { timestamp = some t; keys = k ∷ ks })
  | err e ↦ err e
]

-- What the constructor and the table's check guarantee.
abbrev pub IsCursor : Option ℕ → Keys → Type 0
IsCursor none [] = Unit
IsCursor none (k ∷ ks) = ⊥
IsCursor (some t) [] = ⊥
IsCursor (some t) (k ∷ ks) = Unit

-- The position in the source: a timestamp, then the keys.
pub record Position : Type 0 where
  pub time : ℕ
  pub keys : Keys

unfoldable pub lt_position : Position → Position → Bool
lt_position a b =
    if ltb a.time b.time
    then true
    else if ltb b.time a.time
    then false
    else lex key_order a.keys b.keys

pub lt_position_irrefl : (a : Position) → lt_position a a ≡ false
unfolding lt_position
lt_position_irrefl a = ground (arith, lex_irrefl key_order a.keys)

pub lt_position_trans :
    (a b c : Position) → lt_position a b ≡ true → lt_position b c ≡ true → lt_position a c ≡ true
unfolding lt_position
lt_position_trans a b c p q = ground (arith, lex_trans key_order a.keys b.keys c.keys)

pub lt_position_total : (a b : Position) → lt_position a b ≡ false → lt_position b a ≡ false → a ≡ b
unfolding lt_position
lt_position_total a b p q = ground (arith, lex_total key_order a.keys b.keys)

abbrev pub position_order : StrictOrder Position
position_order = record {
  lt = lt_position;
  irrefl = lt_position_irrefl;
  trans = lt_position_trans;
  total = lt_position_total;
}

-- `_cursor_is_earlier`
unfoldable pub cursor_is_earlier : CursorPosition → CursorPosition → Bool
cursor_is_earlier candidate current = elim current.timestamp [
  | none ↦ false
  | some t ↦ elim candidate.timestamp [
    | none ↦ true
    | some u ↦
        lt_position (record { time = u; keys = candidate.keys })
          (record { time = t; keys = current.keys })
  ]
]

-- Python's `==` on keys and cursors.
unfoldable pub eq_codes : List ℕ → List ℕ → Bool
eq_codes [] [] = true
eq_codes (a ∷ s) (b ∷ u) = a == b && eq_codes s u
eq_codes _ _ = false

pub eq_codes_iff : (s u : List ℕ) → (eq_codes s u ≡ true) ↔ (s ≡ u)
unfolding eq_codes
eq_codes_iff [] [] = ground arith
eq_codes_iff [] (b ∷ u) = ground arith
eq_codes_iff (a ∷ s) [] = ground arith
eq_codes_iff (a ∷ s) (b ∷ u) = ground (arith, eq_codes_iff s u)

unfoldable pub eq_key : Key → Key → Bool
eq_key (num a) (num b) = a == b
eq_key (text s) (text u) = eq_codes s u
eq_key _ _ = false

pub eq_key_iff : (a b : Key) → (eq_key a b ≡ true) ↔ (a ≡ b)
unfolding eq_key
eq_key_iff (num a) (num b) = ground arith
eq_key_iff (num a) (text u) = ground arith
eq_key_iff (text s) (num b) = ground arith
eq_key_iff (text s) (text u) = ground (arith, eq_codes_iff s u)

unfoldable pub eq_keys : Keys → Keys → Bool
unfolding eq_key eq_codes
eq_keys [] [] = true
eq_keys (a ∷ s) (b ∷ u) = eq_key a b && eq_keys s u
eq_keys _ _ = false

pub eq_keys_iff : (s u : Keys) → (eq_keys s u ≡ true) ↔ (s ≡ u)
unfolding eq_keys
eq_keys_iff [] [] = ground arith
eq_keys_iff [] (b ∷ u) = ground arith
eq_keys_iff (a ∷ s) [] = ground arith
eq_keys_iff (a ∷ s) (b ∷ u) = ground (arith, eq_keys_iff s u, eq_key_iff a b)

unfoldable pub eq_time : Option ℕ → Option ℕ → Bool
eq_time none none = true
eq_time (some a) (some b) = a == b
eq_time _ _ = false

pub eq_time_iff : (a b : Option ℕ) → (eq_time a b ≡ true) ↔ (a ≡ b)
unfolding eq_time
eq_time_iff none none = ground arith
eq_time_iff none (some b) = ground arith
eq_time_iff (some a) none = ground arith
eq_time_iff (some a) (some b) = ground arith

unfoldable pub eq_cursor : CursorPosition → CursorPosition → Bool
eq_cursor a b = eq_time a.timestamp b.timestamp && eq_keys a.keys b.keys

pub eq_cursor_iff : (a b : CursorPosition) → (eq_cursor a b ≡ true) ↔ (a ≡ b)
unfolding eq_cursor
eq_cursor_iff a b = ground (arith, eq_time_iff a.timestamp b.timestamp, eq_keys_iff a.keys b.keys)
