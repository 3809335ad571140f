-- ===== src/Validation/Contracts.antt =====
-- What the checks of one value, of src/ingestion/extraction/validation.py, say when they pass, in
-- terms of the value and of the contract of its table.
use mathlib.Core.List.{Mem, mem-cons_self, mem-cons_of_mem}
use commerce_data_platform.Prelude.{
  ℕ, ◌<◌, String, ◌≡◌, refl, sym, subst, ◌⊎◌, inl, inr, Bool, true, false, none, some, List, [],
  ◌∷◌, str_eq, str_mem, ◌&&◌, ◌||◌, str_eq_iff, All, arith, Bool-cases, Option-cases, if◌then◌else◌,
}
use commerce_data_platform.Prelude.Integers.{ℤ, lt_int, scaled}
use commerce_data_platform.Exceptions.{Result, ok, err}
use commerce_data_platform.Order.{lex}
use commerce_data_platform.Cursor.{CursorPosition, key_order, lt_position}
use commerce_data_platform.Records.{◌>>=◌, ok-injective}
use commerce_data_platform.Contract.Columns.{
  ArrowType, utf8, int32, boolean, timestamp_us_utc, decimal128_14_2, other_type, SourceColumn,
  eq_texts,
}
use commerce_data_platform.Validation.Values.{
  Value, null, str, uuid, whole, decimal, truth, instant, is_null, as_number, Values, value_at,
  value_or_null,
}
use commerce_data_platform.Validation.Passed.{append-empty}
use commerce_data_platform.Validation.Rules.{
  matches_arrow_type, is_uuid, matches_source_column_type, column_errors, type_mismatch, in_domain,
  domain_errors, field_type, below, is_out_of_range, cursor_in_range,
}

abbrev pub IsOf : Value → ArrowType → Type 0
IsOf v utf8 = (s : String) × (v ≡ str s)
IsOf v int32 = (n : ℤ) × (v ≡ whole n)
IsOf v boolean = (b : Bool) × (v ≡ truth b)
IsOf v decimal128_14_2 = (c : ℤ) × (s : ℕ) × (v ≡ decimal c s)
IsOf v timestamp_us_utc = (t : ℕ) × (v ≡ instant t)
IsOf v other_type = ⊥

-- The column has a value: a null where it may be one, a UUID where the source keeps UUIDs, or a
-- value of its type.
abbrev pub FitsColumn : Values → SourceColumn → Type 0
FitsColumn values column =
    (v : Value) × (value_at column.name values ≡ ok v)
    × (((v ≡ null) × (column.nullable ≡ true))
        ⊎ (((u : ℕ) × (v ≡ uuid u) × (column.postgres_uuid ≡ true)) ⊎ IsOf v column.type))

abbrev pub IsInDomain : Values → String × List String → Type 0
IsInDomain values (column, domain) =
    (value_or_null column values ≡ null)
    ⊎ ((s : String) × (value_or_null column values ≡ str s) × Mem s domain)

-- An integer or a decimal of the column's own type is not below the minimum.
abbrev pub IsAtLeast : List SourceColumn → Values → String × ℤ → Type 0
IsAtLeast columns values (column, minimum) =
    (type : ArrowType) × (field_type column columns ≡ ok type)
    × ((n : ℤ)
        → type ≡ int32
        → value_or_null column values ≡ whole n
        → lt_int n (scaled minimum 0) ≡ false)
    × ((c : ℤ) (s : ℕ)
        → type ≡ decimal128_14_2
        → value_or_null column values ≡ decimal c s
        → lt_int c (scaled minimum s) ≡ false)

-- Strictly after the lower bound, and not after the upper one.
abbrev pub IsInRange : CursorPosition → CursorPosition → CursorPosition → Type 0
IsInRange c lower upper =
    (t u : ℕ) × (c.timestamp ≡ some t)
    × (upper.timestamp ≡ some u)
    × ((lower.timestamp ≡ none)
        ⊎ ((l : ℕ) × (lower.timestamp ≡ some l)
            × ((l < t) ⊎ ((l ≡ t) × (lex key_order lower.keys c.keys ≡ true)))))
    × ((t < u) ⊎ ((t ≡ u) × (lex key_order upper.keys c.keys ≡ false)))

pub eq_texts-eq : (a b : List String) → eq_texts a b ≡ true → a ≡ b
eq_texts-eq [] [] h = refl
eq_texts-eq [] (y ∷ b) h = absurd (cc)
eq_texts-eq (x ∷ a) [] h = absurd (cc)
eq_texts-eq (x ∷ a) (y ∷ b) h = ground (arith, str_eq_iff x y, eq_texts-eq a b)

matches-IsOf : (v : Value) (type : ArrowType) → matches_arrow_type v type ≡ ok true → IsOf v type
unfolding matches_arrow_type
matches-IsOf (str s) utf8 h = (s, refl)
matches-IsOf v utf8 h = absurd (cc)
matches-IsOf (whole n) int32 h = (n, refl)
matches-IsOf v int32 h = absurd (cc)
matches-IsOf (truth b) boolean h = (b, refl)
matches-IsOf v boolean h = absurd (cc)
matches-IsOf (decimal c s) decimal128_14_2 h = (c, s, refl)
matches-IsOf v decimal128_14_2 h = absurd (cc)
matches-IsOf (instant t) timestamp_us_utc h = (t, refl)
matches-IsOf v timestamp_us_utc h = absurd (cc)
matches-IsOf v other_type h = absurd (cc)

pub cursor_in_range-IsInRange :
    (c lower upper : CursorPosition)
    → cursor_in_range c lower upper ≡ ok true
    → IsInRange c lower upper
unfolding cursor_in_range lt_position
cursor_in_range-IsInRange c lower upper h = elim (Option-cases c.timestamp) [
  | inl e ↦ absurd (ground (arith, e))
  | inr (t, e) ↦ elim (Option-cases upper.timestamp) [
    | inl e1 ↦ elim (Option-cases lower.timestamp) [
      | inl e2 ↦ absurd (ground (arith, e, e1, e2))
      | inr (l, e2) ↦ absurd (ground (arith, e, e1, e2))
    ]
    | inr (u, e1) ↦ elim (Option-cases lower.timestamp) [
      | inl e2 ↦ (t, u, e, e1, inl e2, ground (arith, e, e1, e2))
      | inr (l, e2) ↦
          (t, u, e, e1, inr (l, e2, ground (arith, e, e1, e2)), ground (arith, e, e1, e2))
    ]
  ]
]

str_mem-Mem : (s : String) (xs : List String) → str_mem s xs ≡ true → Mem s xs
unfolding str_mem
str_mem-Mem s [] h = absurd (cc)
str_mem-Mem s (x ∷ xs) h = elim (Bool-cases (str_eq s x)) [
  | inl same ↦ subst (λ y. Mem y (x ∷ xs)) (sym ((str_eq_iff s x).0 same)) mem-cons_self
  | inr other ↦ mem-cons_of_mem x (str_mem-Mem s xs (ground (arith, other)))
]

in_domain-IsInDomain :
    (v : Value) (domain : List String)
    → in_domain v domain ≡ true
    → (s : String) × (v ≡ str s) × Mem s domain
unfolding in_domain
in_domain-IsInDomain (str s) domain h = (s, refl, str_mem-Mem s domain h)
in_domain-IsInDomain v domain h = absurd (ground arith)

matched :
    (r : Result Bool)
    → (r >>= λ m. ok (if m then [] else type_mismatch.code ∷ [])) ≡ ok []
    → r ≡ ok true
matched (ok true) h = refl
matched (ok false) h = absurd (cc)
matched (err e) h = absurd (cc)

unset :
    (b : Bool) (r : Result Bool)
    → ((if b && false then ok true else r) >>= λ m. ok (if m then [] else type_mismatch.code ∷ []))
      ≡ ok []
    → (r >>= λ m. ok (if m then [] else type_mismatch.code ∷ [])) ≡ ok []
unset true r h = h
unset false r h = h

pub column_errors-fits :
    (column : SourceColumn) (v : Value)
    → column_errors column v ≡ ok []
    → ((v ≡ null) × (column.nullable ≡ true))
      ⊎ (((u : ℕ) × (v ≡ uuid u) × (column.postgres_uuid ≡ true)) ⊎ IsOf v column.type)
unfolding column_errors is_null matches_source_column_type is_uuid
column_errors-fits column null h = inl (refl, ground arith)
column_errors-fits column (uuid u) h = elim (Bool-cases column.postgres_uuid) [
  | inl keeps ↦ inr (inl (u, refl, keeps))
  | inr other ↦ inr (inr (matches-IsOf (uuid u) column.type (matched _ (rw other at h))))
]
column_errors-fits column v h = inr (inr (matches-IsOf v column.type (matched _ (unset _ _ h))))

allowed : (b : Bool) (code : String) → (if b then [] else code ∷ []) ≡ [] → b ≡ true
allowed true code h = refl
allowed false code h = absurd (cc)

pub unmarked : (b : Bool) (code : String) → (if b then code ∷ [] else []) ≡ [] → b ≡ false
unmarked true code h = absurd (cc)
unmarked false code h = refl

domain-passed :
    (v : Value) (domain : List String)
    → is_null v || in_domain v domain ≡ true
    → (v ≡ null) ⊎ ((s : String) × (v ≡ str s) × Mem s domain)
unfolding is_null
domain-passed null domain h = inl refl
domain-passed v domain h = inr (in_domain-IsInDomain v domain h)

pub domain_errors-InDomain :
    (domains : List (String × List String)) (values : Values)
    → domain_errors domains values ≡ []
    → All (IsInDomain values) domains
unfolding domain_errors
domain_errors-InDomain [] values h = tt
domain_errors-InDomain ((column, domain) ∷ rest) values h =
    let (here, others) = append-empty _ (domain_errors rest values) h in
    (
      domain-passed (value_or_null column values) domain (allowed _ _ here),
      domain_errors-InDomain rest values others,
    )

pub is_out_of_range-int :
    (v : Value) (type : ArrowType) (minimum n : ℤ)
    → is_out_of_range v type minimum ≡ ok false
    → type ≡ int32
    → v ≡ whole n
    → lt_int n (scaled minimum 0) ≡ false
unfolding is_out_of_range is_null matches_arrow_type below as_number
is_out_of_range-int v type minimum n h is_int is_whole = ok-injective (rw (is_int, is_whole) at h)

pub is_out_of_range-decimal :
    (v : Value) (type : ArrowType) (minimum c : ℤ) (s : ℕ)
    → is_out_of_range v type minimum ≡ ok false
    → type ≡ decimal128_14_2
    → v ≡ decimal c s
    → lt_int c (scaled minimum s) ≡ false
unfolding is_out_of_range is_null matches_arrow_type below as_number
is_out_of_range-decimal v type minimum c s h is_decimal is_number =
    ok-injective (rw (is_decimal, is_number) at h)
