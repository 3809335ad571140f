-- ===== src/Validation/Accounted.antt =====
-- `_write_local_artifacts` of src/ingestion/service.py: the pages of a batch as one split.
use commerce_data_platform.Prelude.{
  ℕ, String, ◌≡◌, refl, sym, ap, subst, ◌∙◌, Option, List, [], ◌∷◌, ◌++◌, ◌+◌, length, arith,
  length-append,
}
use mathlib.Core.List.{append-nil, append_assoc}
use commerce_data_platform.Exceptions.{ok}
use commerce_data_platform.Action.{>>=-ok, pure-ok}
use commerce_data_platform.Cursor.{CursorPosition}
use commerce_data_platform.Contract.Columns.{TableConfig}
use commerce_data_platform.Validation.Values.{Value, SourceRecord}
use commerce_data_platform.Validation.Pipeline.{
  RejectedRecord, ValidationPipeline, validation_pipeline,
}
use commerce_data_platform.Validation.Corruption.{CorruptionPlan, inject_corruption}
use commerce_data_platform.Validation.Batch.{
  LocalArtifacts, no_artifacts, written, write_page, write_pages, write_local_artifacts,
}
use commerce_data_platform.Validation.Split.{Split, done, keys_onto, Split-append}
use commerce_data_platform.Validation.Steps.{Covers, pipeline_at}
use commerce_data_platform.Validation.Pages.{
  quarantine_rows, quarantined-rows, inject_corruption-length, injected, write_page-Splits,
}

module _ (snapshot : String → String → List Value) (plan : Option CorruptionPlan)
    (config : TableConfig) (lower upper : CursorPosition) where
  -- What the loop over the pages adds to the files.
  abbrev Adds :
      List (List SourceRecord) → List (List Value) → LocalArtifacts → LocalArtifacts → Type 0
  Adds pages keys files out =
      (records valid : List SourceRecord) × (rejected : List RejectedRecord) × (injected plan
          files.rows_extracted pages
        ≡ ok records)
      × Split snapshot config lower upper keys files.rows_extracted records valid rejected
      × (out.bronze ≡ files.bronze ++ valid)
      × (quarantine_rows out.quarantine ≡ quarantine_rows files.quarantine ++ rejected)
      × (out.rows_extracted ≡ files.rows_extracted + length records)
      × (out.rows_rejected ≡ files.rows_rejected + length rejected)

  injected-more :
      (page made rest : List SourceRecord) (pages : List (List SourceRecord)) (n k : ℕ)
      → inject_corruption plan page n ≡ ok (made, k)
      → injected plan (n + length page) pages ≡ ok rest
      → injected plan n (page ∷ pages) ≡ ok (made ++ rest)
  unfolding injected
  injected-more page made rest pages n k h0 h1 = rw (h0, h1) refl

  write_pages-Adds :
      (pages : List (List SourceRecord)) (files out : LocalArtifacts)
      (seen keys : List (List Value)) (q : ValidationPipeline)
      → Covers seen keys
      → write_pages snapshot plan config files pages
          (pipeline_at snapshot config lower upper seen files.rows_extracted)
        ≡ (ok out, q)
      → Adds pages keys files out
  unfolding write_pages injected written
  write_pages-Adds [] files out seen keys q covers h =
      let (same, ends) = pure-ok h in
      subst (Adds [] keys files) same (
        [],
        [],
        [],
        refl,
        done,
        sym (append-nil files.bronze),
        sym (append-nil (quarantine_rows files.quarantine)),
        omega arith,
        omega arith,
      )
  write_pages-Adds (page ∷ pages) files out seen keys q covers h =
      let (next, p1, h0, h1) =
        >>=-ok (write_page snapshot plan config files page)
          (λ next. write_pages snapshot plan config next pages)
          (pipeline_at snapshot config lower upper seen files.rows_extracted) out q h in
      let (made, k, split, put_out, (first, more, at, covered), wrote) =
        write_page-Splits snapshot plan config lower upper files next page seen keys p1 covers h0 in
      let counted = inject_corruption-length plan page made files.rows_extracted k put_out in
      let moved = ap LocalArtifacts.rows_extracted wrote in
      let (records, valid, rejected, injected_rest, rest, bronze, quarantine, extracted, refused) =
        write_pages-Adds pages next out more
          (keys_onto snapshot config lower upper split.valid_records keys) q covered
          (ap (write_pages snapshot plan config next pages) (
              ap (pipeline_at snapshot config lower upper more) (omega (arith, counted, moved))
              ∙ sym at)
            ∙ h1) in
      (
        made ++ records,
        split.valid_records ++ valid,
        split.rejected_records ++ rejected,
        injected-more page made records pages files.rows_extracted k put_out
            (ap (λ m. injected plan m pages) (sym moved) ∙ injected_rest),
        Split-append snapshot config lower upper keys files.rows_extracted next.rows_extracted
            (omega (arith, counted, moved)) first rest,
        bronze
            ∙ ap (λ f. f.bronze ++ valid) wrote
            ∙ append_assoc files.bronze split.valid_records valid,
        quarantine
            ∙ ap (λ f. quarantine_rows f.quarantine ++ rejected) wrote
            ∙ ap (λ rows. rows ++ rejected)
                (quarantined-rows files.quarantine split.rejected_records)
            ∙ append_assoc (quarantine_rows files.quarantine) split.rejected_records rejected,
        omega (arith, extracted, moved, counted, length-append made records),
        omega (
          arith,
          refused,
          ap LocalArtifacts.rows_rejected wrote,
          length-append split.rejected_records rejected,
        ),
      )

module _ (snapshot : String → String → List Value) (plan : Option CorruptionPlan)
    (config : TableConfig) (lower upper : CursorPosition) (pages : List (List SourceRecord))
    (files : LocalArtifacts)
    (wrote : write_local_artifacts snapshot plan config lower upper pages ≡ ok files) where
  -- A batch that is written is its records, after the planned corruption if there is any, split in
  -- their order into the bronze rows and the quarantine rows: a bronze row keeps the contract of
  -- its table and has a key that no bronze row before it has, a quarantine row has its ordinal in
  -- the batch and at least one code; and the counts are those of the records and of the
  -- quarantine rows.
  pub batch-Split :
      (records : List SourceRecord) × (injected plan 0 pages ≡ ok records)
      × Split snapshot config lower upper [] 0 records files.bronze
          (quarantine_rows files.quarantine)
      × (files.rows_extracted ≡ length records)
      × (files.rows_rejected ≡ length (quarantine_rows files.quarantine))
  unfolding write_local_artifacts validation_pipeline quarantine_rows
  batch-Split =
      let run =
        write_pages snapshot plan config no_artifacts pages
          (pipeline_at snapshot config lower upper [] 0) in
      let (records, valid, rejected, made, split, bronze, quarantine, extracted, refused) =
        write_pages-Adds snapshot plan config lower upper pages no_artifacts files [] [] (run.1)
          (λ key new. new) (ap (λ r. (r, run.1)) wrote) in
      (
        records,
        made,
        subst
            (λ b.
              Split snapshot config lower upper [] 0 records b (quarantine_rows files.quarantine))
            (sym bronze)
            (subst (λ j. Split snapshot config lower upper [] 0 records valid j) (sym quarantine)
              split),
        omega (arith, extracted),
        omega (arith, refused, ap length quarantine),
      )
