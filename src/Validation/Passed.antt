-- ===== src/Validation/Passed.antt =====
-- src/ingestion/extraction/validation.py: what the validation of one record found, by its outcome.
use commerce_data_platform.Prelude.{
  String, ◌≡◌, refl, sym, ap, ◌∙◌, inl, inr, Bool, true, false, List, [], ◌∷◌, ◌++◌, str_mem, arith,
  Bool-cases,
}
use commerce_data_platform.Exceptions.{ok, Result-cases}
use commerce_data_platform.Action.{◌>>=◌}
use commerce_data_platform.Cursor.{Keys, CursorPosition}
use commerce_data_platform.Validation.Values.{Value, SourceRecord}
use commerce_data_platform.Validation.Rules.{
  schema_and_type_errors, domain_and_numeric_errors, cursor_in_range, schema_mismatch, key_null,
  batch_duplicate,
}
use commerce_data_platform.Validation.Pipeline.{
  ValidationPipeline, key_mem, primary_key, any_null, key_errors, keys_mem, reference_errors,
  validate_record,
}

pub append-empty : (xs ys : List String) → xs ++ ys ≡ [] → (xs ≡ []) × (ys ≡ [])
append-empty [] ys p = (refl, p)
append-empty (x ∷ xs) ys p = cc

-- A record without an error: its values fit the columns, its cursor is in the range, its key is
-- complete and new and is now among those seen, and no domain, minimum or parent is amiss.
abbrev pub Passed : SourceRecord → List Keys → ValidationPipeline → ValidationPipeline → Type 0
Passed source broken p q =
    (schema_and_type_errors p.config source.values ≡ ok [])
    × ((c : CursorPosition) × (source.cursor ≡ ok c)
        × (cursor_in_range c p.watermark_before p.extract_upper_bound ≡ ok true)
        × (keys_mem c.keys broken ≡ false))
    × (any_null (primary_key p.config source.values) ≡ false)
    × (key_mem (primary_key p.config source.values) p.seen_primary_keys ≡ false)
    × (domain_and_numeric_errors p.config source.values ≡ ok [])
    × (q
        ≡ record p { seen_primary_keys = primary_key p.config source.values ∷ p.seen_primary_keys })

pub key_errors-empty :
    (key : List Value) (p q : ValidationPipeline)
    → key_errors key p ≡ (ok [], q)
    → (any_null key ≡ false)
      × (key_mem key p.seen_primary_keys ≡ false)
      × (q ≡ record p { seen_primary_keys = key ∷ p.seen_primary_keys })
unfolding key_errors
key_errors-empty key p q h = ground arith

pub reference_errors-empty :
    (c : CursorPosition) (broken : List Keys)
    → reference_errors c broken ≡ []
    → keys_mem c.keys broken ≡ false
unfolding reference_errors
reference_errors-empty c broken h = ground arith

-- Every step that a validated record went through.
abbrev pub Traced :
    SourceRecord → List Keys → ValidationPipeline → List String → ValidationPipeline → Type 0
Traced source broken p codes q =
    (errors of_key of_values : List String) × (c : CursorPosition) × (schema_and_type_errors
        p.config source.values
      ≡ ok errors)
    × (source.cursor ≡ ok c)
    × (cursor_in_range c p.watermark_before p.extract_upper_bound ≡ ok true)
    × (key_errors (primary_key p.config source.values) p ≡ (ok of_key, q))
    × (domain_and_numeric_errors p.config source.values ≡ ok of_values)
    × (codes ≡ errors ++ (of_key ++ (of_values ++ reference_errors c broken)))

validate_record-result :
    (source : SourceRecord) (broken : List Keys) (p q : ValidationPipeline)
    (errors of_key of_values : List String) (c : CursorPosition)
    → schema_and_type_errors p.config source.values ≡ ok errors
    → source.cursor ≡ ok c
    → key_errors (primary_key p.config source.values) p ≡ (ok of_key, q)
    → domain_and_numeric_errors p.config source.values ≡ ok of_values
    → str_mem schema_mismatch.code errors ≡ false
    → cursor_in_range c p.watermark_before p.extract_upper_bound ≡ ok true
    → validate_record source broken p
      ≡ (ok (errors ++ (of_key ++ (of_values ++ reference_errors c broken))), q)
unfolding validate_record
validate_record-result source broken p q errors of_key of_values c eq eq1 eq3 eq4 matching eq2 =
    rw (eq, matching, eq1, eq2, ◌>>=◌, ap (λ r. r.0) eq3, eq4, ap (λ r. r.1) eq3) refl

of_ok : {codes others : List String} → ok codes ≡ ok others → codes ≡ others
of_ok same = cc

pub key_errors-ok :
    (key : List Value) (p : ValidationPipeline)
    → (codes : List String) × ((key_errors key p).0 ≡ ok codes)
unfolding key_errors
key_errors-ok key p = elim (Bool-cases (any_null key)) [
  | inl h ↦ (key_null.code ∷ [], rw h refl)
  | inr h ↦ elim (Bool-cases (key_mem key p.seen_primary_keys)) [
    | inl k ↦ (batch_duplicate.code ∷ [], rw (h, k) refl)
    | inr k ↦ ([], rw (h, k) refl)
  ]
]

pub validate_record-Traced :
    (source : SourceRecord) (broken : List Keys) (p : ValidationPipeline) (codes : List String)
    (q : ValidationPipeline)
    → validate_record source broken p ≡ (ok codes, q)
    → Traced source broken p codes q
unfolding validate_record
validate_record-Traced source broken p codes q h =
    elim (Result-cases (schema_and_type_errors p.config source.values)) [
      | inr (e, eq) ↦ absurd (ground (arith, eq))
      | inl (errors, eq) ↦ elim (Result-cases source.cursor) [
        | inr (e, eq1) ↦ absurd (ground (arith, eq, eq1))
        | inl (c, eq1) ↦
            elim (Result-cases (cursor_in_range c p.watermark_before p.extract_upper_bound)) [
              | inr (e, eq2) ↦ absurd (ground (arith, eq, eq1, eq2))
              | inl (in_range, eq2) ↦
                  elim (Result-cases (domain_and_numeric_errors p.config source.values)) [
                    | inr (e, eq4) ↦ absurd (ground (arith, eq, eq1, eq2, eq4))
                    | inl (of_values, eq4) ↦
                        let (of_key, eq3) = key_errors-ok (primary_key p.config source.values) p in
                        conclude errors of_key of_values c in_range eq eq1 eq2 eq3 eq4
                          (ground arith) (ground arith)
                  ]
            ]
      ]
    ]
  where
    conclude :
        (errors of_key of_values : List String) (c : CursorPosition) (in_range : Bool)
        → schema_and_type_errors p.config source.values ≡ ok errors
        → source.cursor ≡ ok c
        → cursor_in_range c p.watermark_before p.extract_upper_bound ≡ ok in_range
        → (key_errors (primary_key p.config source.values) p).0 ≡ ok of_key
        → domain_and_numeric_errors p.config source.values ≡ ok of_values
        → str_mem schema_mismatch.code errors ≡ false
        → in_range ≡ true
        → Traced source broken p codes q
    conclude errors of_key of_values c in_range eq eq1 eq2 eq3 eq4 matching within =
        let result =
          validate_record-result source broken p
            (key_errors (primary_key p.config source.values) p).1 errors of_key of_values c eq eq1
            (ap (λ x. (x, (key_errors (primary_key p.config source.values) p).1)) eq3) eq4 matching
            (eq2 ∙ ap ok within) in
        let same = sym h ∙ result in
        (
          errors,
          of_key,
          of_values,
          c,
          eq,
          eq1,
          eq2 ∙ ap ok within,
          ap (λ x. (x, (key_errors (primary_key p.config source.values) p).1)) eq3
              ∙ ap (λ y. (ok of_key, y)) (sym (ap (λ r. r.1) same)),
          eq4,
          of_ok (ap (λ r. r.0) same),
        )

pub Traced-Passed :
    (source : SourceRecord) (broken : List Keys) (p q : ValidationPipeline)
    → Traced source broken p [] q
    → Passed source broken p q
Traced-Passed source broken p q (errors, of_key, of_values, c, eq, eq1, within, eq3, eq4, empty) =
    let (no_errors, rest) = append-empty errors _ (sym empty) in
    let (no_key, others) = append-empty of_key _ rest in
    let (no_values, no_reference) = append-empty of_values _ others in
    let (complete, new, after) = key_errors-empty _ p q (eq3 ∙ ap (λ x. (ok x, q)) no_key) in
    (
      eq ∙ ap ok no_errors,
      (c, eq1, within, reference_errors-empty c broken no_reference),
      complete,
      new,
      eq4 ∙ ap ok no_values,
      after,
    )
