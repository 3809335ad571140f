-- ===== src/Validation/Steps.antt =====
-- src/ingestion/extraction/validation.py: the validation of the records of one page as a split.
use commerce_data_platform.Prelude.{
  ℕ, suc, String, ◌≡◌, refl, sym, ap, subst, ◌∙◌, ◌⊎◌, inl, inr, false, List, [], ◌∷◌, ◌+◌, length,
  All, arith, Bool-cases,
}
use commerce_data_platform.Exceptions.{ok}
use commerce_data_platform.Action.{pure, ◌>>=◌, >>=-ok, pure-ok}
use commerce_data_platform.Cursor.{Keys, CursorPosition}
use commerce_data_platform.Contract.Columns.{TableConfig}
use commerce_data_platform.Validation.Values.{Value, SourceRecord}
use commerce_data_platform.Validation.Pipeline.{
  ValidatedPage, ValidationPipeline, key_mem, keys_mem, primary_key, any_null, key_errors,
  validate_record, with_record, validate_records,
}
use commerce_data_platform.Validation.Passed.{validate_record-Traced, Traced-Passed}
use commerce_data_platform.Validation.Split.{
  HasParents, IsClean, Split, done, keep, reject, keys_onto,
}

-- A key that is new to the first list is new to the second.
abbrev pub Covers : List (List Value) → List (List Value) → Type 0
Covers seen keys = (key : List Value) → key_mem key seen ≡ false → key_mem key keys ≡ false

Covers-same :
    (key : List Value) (seen keys : List (List Value))
    → Covers seen keys
    → Covers (key ∷ seen) (key ∷ keys)
unfolding key_mem
Covers-same key seen keys covers other h = ground (arith, covers other)

Covers-more :
    (key : List Value) (seen keys : List (List Value)) → Covers seen keys → Covers (key ∷ seen) keys
unfolding key_mem
Covers-more key seen keys covers other h = ground (arith, covers other)

module _ (snapshot : String → String → List Value) (config : TableConfig)
    (lower upper : CursorPosition) where
  -- The pipeline of the batch.
  abbrev pub pipeline_at : List (List Value) → ℕ → ValidationPipeline
  pipeline_at seen n = record {
    config = config;
    watermark_before = lower;
    extract_upper_bound = upper;
    seen_primary_keys = seen;
    next_ordinal = n;
  }

  key_errors-grows :
      (key : List Value) (seen keys : List (List Value)) (n : ℕ) (codes : List String)
      (q : ValidationPipeline)
      → Covers seen keys
      → key_errors key (pipeline_at seen n) ≡ (ok codes, q)
      → (more : List (List Value)) × (q ≡ pipeline_at more n) × Covers more keys
  unfolding key_errors
  key_errors-grows key seen keys n codes q covers h = elim (Bool-cases (any_null key)) [
    | inl null ↦ (seen, ground (arith), covers)
    | inr complete ↦ elim (Bool-cases (key_mem key seen)) [
      | inl old ↦ (seen, ground (arith), covers)
      | inr new ↦ (key ∷ seen, ground (arith), Covers-more key seen keys covers)
    ]
  ]

  -- What the look-up of the broken references says about a record of the page.
  abbrev pub IsJudged : List Keys → SourceRecord → Type 0
  IsJudged broken source =
      (c : CursorPosition)
      → source.cursor ≡ ok c
      → keys_mem c.keys broken ≡ false
      → HasParents snapshot config source

  -- A page of the pipeline splits the records.
  abbrev pub Splits :
      List (List Value) → ℕ → List SourceRecord → ValidatedPage → ValidationPipeline → Type 0
  Splits keys n records page q =
      Split snapshot config lower upper keys n records page.valid_records page.rejected_records
      × (seen : List (List Value)) × (q ≡ pipeline_at seen (n + length records))
      × Covers seen (keys_onto snapshot config lower upper page.valid_records keys)

  -- One record is kept or rejected.
  abbrev Kept :
      List (List Value) → List (List Value) → ℕ → SourceRecord → ValidationPipeline → Type 0
  Kept seen keys n r p =
      IsClean snapshot config lower upper r
      × (key_mem (primary_key config r.values) keys ≡ false)
      × (p ≡ pipeline_at (primary_key config r.values ∷ seen) n)

  abbrev Refused : List (List Value) → ℕ → List String → ValidationPipeline → Type 0
  Refused keys n codes p =
      (code : String) × (others : List String) × (codes ≡ code ∷ others)
      × (more : List (List Value)) × (p ≡ pipeline_at more n)
      × Covers more keys

  record-outcome :
      (r : SourceRecord) (broken : List Keys) (seen keys : List (List Value)) (n : ℕ)
      (codes : List String) (p : ValidationPipeline)
      → Covers seen keys
      → IsJudged broken r
      → validate_record r broken (pipeline_at seen n) ≡ (ok codes, p)
      → ((codes ≡ []) × Kept seen keys n r p) ⊎ Refused keys n codes p
  record-outcome r broken seen keys n [] p covers judge h =
      let (fits, (c, at, within, referenced), complete, new, domains, after) =
        Traced-Passed r broken (pipeline_at seen n) p
          (validate_record-Traced r broken (pipeline_at seen n) [] p h) in
      inl (
        refl,
        ((fits, (c, at, within), complete, domains, judge c at referenced), covers _ new, after),
      )
  record-outcome r broken seen keys n (code ∷ codes) p covers judge h =
      let (errors, of_key, of_values, c, eq, eq1, within, eq3, eq4, all) =
        validate_record-Traced r broken (pipeline_at seen n) (code ∷ codes) p h in
      let (more, at, covered) = key_errors-grows _ seen keys n of_key p covers eq3 in
      inr (code, codes, refl, more, at, covered)

  -- The rest of the page, from the keys that the record leaves.
  with_record-Splits :
      (r : SourceRecord) (rs : List SourceRecord) (broken : List Keys)
      (seen keys : List (List Value)) (n : ℕ) (codes : List String) (p q : ValidationPipeline)
      (tail : ValidatedPage)
      → Covers seen keys
      → ((more others : List (List Value))
          → Covers more others
          → p ≡ pipeline_at more (suc n)
          → Splits others (suc n) rs tail q)
      → ((codes ≡ []) × Kept seen keys (suc n) r p) ⊎ Refused keys (suc n) codes p
      → Splits keys n (r ∷ rs) (with_record r n codes tail) q
  unfolding with_record
  with_record-Splits r rs broken seen keys n codes p q tail covers rest
        (inl (none_found, (clean, new, at))) =
      let (split, more, ends, covered) = rest _ _ (Covers-same _ seen keys covers) at in
      subst (λ x. Splits keys n (r ∷ rs) (with_record r n x tail) q) (sym none_found)
        (keep r clean new split, more, ends ∙ ap (pipeline_at more) (omega arith), covered)
  with_record-Splits r rs broken seen keys n codes p q tail covers rest
        (inr (code, others, found, more, at, covered)) =
      let (split, later, ends, still) = rest more keys covered at in
      subst (λ x. Splits keys n (r ∷ rs) (with_record r n x tail) q) (sym found)
        (reject r code others split, later, ends ∙ ap (pipeline_at later) (omega arith), still)

  pub records-Splits :
      (records : List SourceRecord) (broken : List Keys) (seen keys : List (List Value)) (n : ℕ)
      (page : ValidatedPage) (q : ValidationPipeline)
      → Covers seen keys
      → All (IsJudged broken) records
      → validate_records records broken (pipeline_at seen n) ≡ (ok page, q)
      → Splits keys n records page q
  unfolding validate_records
  records-Splits [] broken seen keys n page q covers judged h =
      let (same, after) = pure-ok h in
      subst (λ x. Splits keys n [] x q) same
        (done, seen, sym after ∙ ap (pipeline_at seen) (omega arith), covers)
  records-Splits (r ∷ rs) broken seen keys n page q covers (judge, judged) h =
      let (codes, p, checked, rest) =
        >>=-ok (validate_record r broken)
          (λ errors. validate_records rs broken >>= λ tail. pure (with_record r n errors tail))
          (pipeline_at seen (suc n)) page q h in
      let (tail, q1, validated, last) =
        >>=-ok (validate_records rs broken) (λ tail. pure (with_record r n codes tail)) p page q
          rest in
      let (same, after) = pure-ok last in
      subst (λ x. Splits keys n (r ∷ rs) x q) same
        (with_record-Splits r rs broken seen keys n codes p q tail covers
          (λ more others covered at.
            records-Splits rs broken more others (suc n) tail q covered judged
              (ap (validate_records rs broken) (sym at) ∙ validated ∙ ap (λ x. (ok tail, x)) after))
          (record-outcome r broken seen keys (suc n) codes p covers judge checked))
