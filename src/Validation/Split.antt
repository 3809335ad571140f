-- ===== src/Validation/Split.antt =====
-- What the validation of a batch promises: its records, in their order, are split into the valid
-- rows and the rejected ones. src/ingestion/extraction/validation.py.
use commerce_data_platform.Prelude.{
  ℕ, suc, String, ◌≡◌, refl, subst, true, false, List, [], ◌∷◌, ◌++◌, ◌+◌, length, All, arith,
}
use commerce_data_platform.Exceptions.{ok}
use commerce_data_platform.Cursor.{CursorPosition}
use commerce_data_platform.Contract.Columns.{TableConfig}
use commerce_data_platform.Validation.Values.{Value, value_mem, value_at, SourceRecord}
use commerce_data_platform.Validation.Rules.{
  schema_and_type_errors, domain_and_numeric_errors, cursor_in_range,
}
use commerce_data_platform.Validation.References.{ParentReference, child_parent_references}
use commerce_data_platform.Validation.Pipeline.{RejectedRecord, key_mem, primary_key, any_null}

module _ (snapshot : String → String → List Value) where
  -- The parent of the record is in the snapshot.
  abbrev pub HasParent : SourceRecord → ParentReference → Type 0
  HasParent source r =
      (key : Value) × (value_at r.child_column source.values ≡ ok key)
      × (value_mem key (snapshot r.parent_table r.parent_column) ≡ true)

  abbrev pub HasParents : TableConfig → SourceRecord → Type 0
  HasParents config source = All (HasParent source) (child_parent_references config.source_table)

  module _ (config : TableConfig) (lower upper : CursorPosition) where
    -- A row that keeps the contract of its table: columns, types, domains and minimums, a complete
    -- key, a cursor in the range, and its parents.
    abbrev pub IsClean : SourceRecord → Type 0
    IsClean source =
        (schema_and_type_errors config source.values ≡ ok [])
        × ((c : CursorPosition) × (source.cursor ≡ ok c)
            × (cursor_in_range c lower upper ≡ ok true))
        × (any_null (primary_key config source.values) ≡ false)
        × (domain_and_numeric_errors config source.values ≡ ok [])
        × HasParents config source

    abbrev pub rejected_at : SourceRecord → ℕ → String → List String → RejectedRecord
    rejected_at source at code codes = record {
      rejected = source;
      ordinal = at;
      error_codes = code ∷ codes;
    }

    -- From the keys of the valid rows so far and the next ordinal: a record is kept, clean and with
    -- a key that no valid row has, or it is rejected at its ordinal with at least one code.
    pub data Split
        : List (List Value)
          → ℕ
          → List SourceRecord
          → List SourceRecord
          → List RejectedRecord
          → Type 0 where
      done : {keys : List (List Value)} {n : ℕ} → Split keys n [] [] []
      keep :
          {keys : List (List Value)} {n : ℕ} {rs vs : List SourceRecord} {js : List RejectedRecord}
          (r : SourceRecord)
          → IsClean r
          → key_mem (primary_key config r.values) keys ≡ false
          → Split (primary_key config r.values ∷ keys) (suc n) rs vs js
          → Split keys n (r ∷ rs) (r ∷ vs) js
      reject :
          {keys : List (List Value)} {n : ℕ} {rs vs : List SourceRecord} {js : List RejectedRecord}
          (r : SourceRecord) (code : String) (codes : List String)
          → Split keys (suc n) rs vs js
          → Split keys n (r ∷ rs) vs (rejected_at r n code codes ∷ js)

    -- The keys of the valid rows, the latest first.
    abbrev pub keys_onto : List SourceRecord → List (List Value) → List (List Value)
    keys_onto [] keys = keys
    keys_onto (v ∷ vs) keys = keys_onto vs (primary_key config v.values ∷ keys)

    pub Split-append :
        {rs vs us ws : List SourceRecord} {js ks : List RejectedRecord} (keys : List (List Value))
        (n m : ℕ)
        → m ≡ n + length rs
        → Split keys n rs vs js
        → Split (keys_onto vs keys) m us ws ks
        → Split keys n (rs ++ us) (vs ++ ws) (js ++ ks)
    Split-append {us = us} {ws = ws} {ks = ks} keys n m at done rest =
        subst (λ k. Split keys k us ws ks) (omega (arith, at)) rest
    Split-append keys n m at (keep r clean new split) rest =
        keep r clean new (Split-append _ (suc n) m (omega (arith, at)) split rest)
    Split-append keys n m at (reject r code codes split) rest =
        reject r code codes (Split-append keys (suc n) m (omega (arith, at)) split rest)

    pub length-Split :
        {keys : List (List Value)} {n : ℕ} {rs vs : List SourceRecord} {js : List RejectedRecord}
        → Split keys n rs vs js
        → length rs ≡ length vs + length js
    length-Split done = refl
    length-Split (keep r clean new split) = omega (arith, length-Split split)
    length-Split (reject r code codes split) = omega (arith, length-Split split)
