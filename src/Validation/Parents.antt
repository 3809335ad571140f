-- ===== src/Validation/Parents.antt =====
-- src/ingestion/extraction/references.py: a record of a page that is not among the broken ones has
-- its parents.
use commerce_data_platform.Prelude.{
  String, ◌≡◌, refl, sym, subst, inl, inr, Bool, true, false, not, ◌&&◌, List, [], ◌∷◌, ◌++◌, All,
  All-always, All-map, All-map2, arith, Bool-cases,
}
use commerce_data_platform.Exceptions.{ok, err}
use commerce_data_platform.Records.{require, >>=-ok, ok-injective}
use commerce_data_platform.Exceptions.{type_error}
use commerce_data_platform.Cursor.{Keys, CursorPosition, eq_keys_iff}
use commerce_data_platform.Sql.{select}
use commerce_data_platform.Contract.Columns.{TableConfig}
use commerce_data_platform.Validation.Values.{Value, is_null, value_mem, value_at, SourceRecord}
use commerce_data_platform.Validation.Pipeline.{keys_mem}
use commerce_data_platform.Validation.References.{
  ParentReference, BrokenReference, child_parent_references, is_reference_key, column_values,
  parent_keys, broken_record, broken_records, broken_by, config_matches,
  find_broken_parent_references,
}
use commerce_data_platform.Validation.Batch.{cursors}
use commerce_data_platform.Validation.Split.{HasParent, HasParents}

cursors-append :
    (a b : List BrokenReference) (k : Keys)
    → keys_mem k (cursors (a ++ b)) ≡ false
    → (keys_mem k (cursors a) ≡ false) × (keys_mem k (cursors b) ≡ false)
unfolding keys_mem
cursors-append [] b k h = (refl, h)
cursors-append (x ∷ a) b k h = ground (arith, cursors-append a b k)

value_mem-select :
    (keep : Value → Bool) (v : Value) (rows : List Value)
    → value_mem v (select keep rows) ≡ true
    → value_mem v rows ≡ true
unfolding value_mem select
value_mem-select keep v [] h = h
value_mem-select keep v (w ∷ rows) h = ground (arith, value_mem-select keep v rows)

-- The record is none of the broken ones.
abbrev pub IsWhole : List BrokenReference → SourceRecord → Type 0
IsWhole broken source =
    (c : CursorPosition) × (source.cursor ≡ ok c) × (keys_mem c.keys (cursors broken) ≡ false)

IsWhole-parts :
    (a b : List BrokenReference) (source : SourceRecord)
    → IsWhole (a ++ b) source
    → IsWhole a source × IsWhole b source
IsWhole-parts a b source (c, at, whole) =
    let (left, right) = cursors-append a b c.keys whole in ((c, at, left), (c, at, right))

module _ (snapshot : String → String → List Value) where
  parent_keys-snapshot :
      (r : ParentReference) (keys present : List Value) (v : Value)
      → parent_keys snapshot r keys ≡ ok present
      → value_mem v present ≡ true
      → value_mem v (snapshot r.parent_table r.parent_column) ≡ true
  unfolding parent_keys value_mem
  parent_keys-snapshot r [] present v h found = absurd (ground arith)
  parent_keys-snapshot r (k ∷ ks) present v h found =
      value_mem-select (λ w. not (is_null w) && value_mem w (k ∷ ks)) v
        (snapshot r.parent_table r.parent_column)
        (subst (λ rows. value_mem v rows ≡ true) (ground arith) found)

  broken_record-missing :
      (table : String) (r : ParentReference) (present : List Value) (child : SourceRecord)
      (key : Value) (c : CursorPosition)
      → value_mem key present ≡ false
      → is_reference_key key ≡ true
      → child.cursor ≡ ok c
      → broken_record snapshot table r present child key
        ≡ ok (
            record {
              child_table = table;
              child_cursor = c.keys;
              child_column = r.child_column;
              parent_table = r.parent_table;
              missing_key = key;
            }
            ∷ [])
  unfolding broken_record
  broken_record-missing table r present child key c missing typed at = rw (missing, typed, at) refl

  broken_record-untyped :
      (table : String) (r : ParentReference) (present : List Value) (child : SourceRecord)
      (key : Value)
      → value_mem key present ≡ false
      → is_reference_key key ≡ false
      → broken_record snapshot table r present child key ≡ err type_error
  unfolding broken_record
  broken_record-untyped table r present child key missing untyped = rw (missing, untyped) refl

  broken_record-IsWhole :
      (table : String) (r : ParentReference) (present : List Value) (child : SourceRecord)
      (key : Value) (broken : List BrokenReference)
      → broken_record snapshot table r present child key ≡ ok broken
      → IsWhole broken child
      → value_mem key present ≡ true
  unfolding keys_mem
  broken_record-IsWhole table r present child key broken h (c, at, whole) =
      elim (Bool-cases (value_mem key present)) [
        | inl found ↦ found
        | inr missing ↦ elim (Bool-cases (is_reference_key key)) [
          | inl typed ↦ absurd (
              ground (
                arith,
                broken_record-missing table r present child key c missing typed at,
                eq_keys_iff c.keys c.keys,
              ))
          | inr untyped ↦
              absurd
                (ground (arith, broken_record-untyped table r present child key missing untyped))
        ]
      ]

  -- The parent of one reference is among those present.
  abbrev IsPresent : ParentReference → List Value → SourceRecord → Type 0
  IsPresent r present child =
      (key : Value) × (value_at r.child_column child.values ≡ ok key)
      × (value_mem key present ≡ true)

  broken_records-IsWhole :
      (table : String) (r : ParentReference) (present : List Value) (children : List SourceRecord)
      (broken : List BrokenReference)
      → broken_records snapshot table r present children ≡ ok broken
      → All (λ child. IsWhole broken child → IsPresent r present child) children
  unfolding broken_records
  broken_records-IsWhole table r present [] broken h = tt
  broken_records-IsWhole table r present (child ∷ children) broken h =
      let (key, at, h1) = >>=-ok (value_at r.child_column child.values) _ broken h in
      let (first, h2, h3) = >>=-ok (broken_record snapshot table r present child key) _ broken h1 in
      let (others, h4, h5) =
        >>=-ok (broken_records snapshot table r present children) _ broken h3 in
      (
        (λ whole. (
          key,
          at,
          broken_record-IsWhole table r present child key first h2 (
              (IsWhole-parts first others child
                (subst (λ b. IsWhole b child) (sym (ok-injective h5)) whole)).0),
        )),
        All-map
            (λ x present_if whole. present_if (
              (IsWhole-parts first others x
                (subst (λ b. IsWhole b x) (sym (ok-injective h5)) whole)).1))
            children (broken_records-IsWhole table r present children others h4),
      )

  broken_by-parents :
      (table : String) (refs : List ParentReference) (records : List SourceRecord)
      (broken : List BrokenReference)
      → broken_by snapshot table refs records ≡ ok broken
      → All (λ child. IsWhole broken child → All (HasParent snapshot child) refs) records
  unfolding broken_by
  broken_by-parents table [] records broken h = All-always (λ x whole. tt) records
  broken_by-parents table (r ∷ refs) records broken h =
      let (keys, h0, h1) = >>=-ok (column_values r.child_column records) _ broken h in
      let (present, h2, h3) = >>=-ok (parent_keys snapshot r keys) _ broken h1 in
      let (first, h4, h5) = >>=-ok (broken_records snapshot table r present records) _ broken h3 in
      let (others, h6, h7) = >>=-ok (broken_by snapshot table refs records) _ broken h5 in
      All-map2
        (λ x here there whole.
          let (w1, w2) =
            IsWhole-parts first others x (subst (λ b. IsWhole b x) (sym (ok-injective h7)) whole) in
          let (key, at, found) = here w1 in
          ((key, at, parent_keys-snapshot r keys present key h2 found), there w2))
        records (broken_records-IsWhole table r present records first h4)
        (broken_by-parents table refs records others h6)

  pub find_broken_parent_references-parents :
      (config : TableConfig) (records : List SourceRecord) (broken : List BrokenReference)
      → find_broken_parent_references snapshot config records ≡ ok broken
      → All (λ child. IsWhole broken child → HasParents snapshot config child) records
  unfolding find_broken_parent_references
  find_broken_parent_references-parents config records broken h =
      let (checked, h0, h1) = >>=-ok (require (config_matches config records)) _ broken h in
      broken_by-parents config.source_table (child_parent_references config.source_table) records
        broken h1
