-- ===== src/Validation/Pages.antt =====
-- `_write_local_artifacts` of src/ingestion/service.py: one page of the loop as a split.
use commerce_data_platform.Prelude.{
  ℕ, suc, String, ◌≡◌, refl, sym, ap, ◌∙◌, inl, inr, Option, none, some, List, [], ◌∷◌, ◌++◌, ◌+◌,
  length, All-map, arith, Bool-cases, if◌then◌else◌,
}
use mathlib.Core.List.{append-nil}
use commerce_data_platform.Exceptions.{Result, ok}
use commerce_data_platform.Records.{◌>>=◌ as ◌>=>◌, >>=-ok as chain-ok, ok-injective}
use commerce_data_platform.Action.{lift, pure, ◌>>=◌, >>=-ok, pure-ok}
use commerce_data_platform.Cursor.{Keys, CursorPosition}
use commerce_data_platform.Contract.Columns.{TableConfig}
use commerce_data_platform.Contract.Equality.{eq_config}
use commerce_data_platform.Validation.Values.{Value, SourceRecord}
use commerce_data_platform.Validation.Pipeline.{
  RejectedRecord, ValidatedPage, ValidationPipeline, validate_records, validate_page,
}
use commerce_data_platform.Validation.References.{find_broken_parent_references}
use commerce_data_platform.Validation.Corruption.{
  CorruptionPlan, inject_corruption, apply_from, apply, kind_at, is_duplicate, duplicate_of,
}
use commerce_data_platform.Validation.Batch.{
  LocalArtifacts, quarantined, cursors, written, write_page,
}
use commerce_data_platform.Validation.Steps.{Covers, pipeline_at, Splits, records-Splits}
use commerce_data_platform.Validation.Parents.{find_broken_parent_references-parents}

-- The rows of the quarantine file.
unfoldable pub quarantine_rows : Option (List RejectedRecord) → List RejectedRecord
quarantine_rows none = []
quarantine_rows (some rows) = rows

pub quarantined-rows :
    (file : Option (List RejectedRecord)) (js : List RejectedRecord)
    → quarantine_rows (quarantined file js) ≡ quarantine_rows file ++ js
unfolding quarantined quarantine_rows
quarantined-rows none [] = refl
quarantined-rows (some rows) [] = sym (append-nil rows)
quarantined-rows none (j ∷ js) = refl
quarantined-rows (some rows) (j ∷ js) = refl

validate_page-records :
    (records : List SourceRecord) (broken : List Keys) (p q : ValidationPipeline)
    (page : ValidatedPage)
    → validate_page records broken p ≡ (ok page, q)
    → validate_records records broken p ≡ (ok page, q)
unfolding validate_page
validate_page-records [] broken p q page h = absurd (ground arith)
validate_page-records (r ∷ rs) broken p q page h = elim (Bool-cases (eq_config r.config p.config)) [
  | inl same ↦ ground (arith, same)
  | inr differs ↦ absurd (ground (arith, differs))
]

apply_from-length :
    (plan : CorruptionPlan) (previous : Option SourceRecord) (records made : List SourceRecord)
    (n : ℕ)
    → apply_from plan previous records n ≡ ok made
    → length made ≡ length records
unfolding apply_from
apply_from-length plan previous [] made n h = ap length (sym (ok-injective h))
apply_from-length plan previous (r ∷ rs) made n h =
    let (first, h0, h1) =
      chain-ok (if is_duplicate (kind_at plan n) then duplicate_of previous r else apply plan r n) _
        made h in
    let (rest, h2, h3) = chain-ok (apply_from plan (some first) rs (suc n)) _ made h1 in
    ap length (sym (ok-injective h3))
    ∙ ap suc (apply_from-length plan (some first) rs rest (suc n) h2)

pub inject_corruption-length :
    (plan : Option CorruptionPlan) (records made : List SourceRecord) (n k : ℕ)
    → inject_corruption plan records n ≡ ok (made, k)
    → length made ≡ length records
unfolding inject_corruption
inject_corruption-length none records made n k h = ap (λ x. length (x.0)) (sym (ok-injective h))
inject_corruption-length (some plan) records made n k h =
    let (put_out, h0, h1) = chain-ok (apply_from plan none records n) _ (made, k) h in
    ap (λ x. length (x.0)) (sym (ok-injective h1))
    ∙ apply_from-length plan none records put_out n h0

-- The records of the batch as they were validated.
unfoldable pub injected :
    Option CorruptionPlan → ℕ → List (List SourceRecord) → Result (List SourceRecord)
injected plan n [] = ok []
injected plan n (page ∷ pages) = inject_corruption plan page n >=> λ made.
    injected plan (n + length page) pages >=> λ rest. ok (made.0 ++ rest)

module _ (snapshot : String → String → List Value) (plan : Option CorruptionPlan)
    (config : TableConfig) (lower upper : CursorPosition) where
  -- One page, from its records as they are validated.
  pub write_page-Splits :
      (files out : LocalArtifacts) (page : List SourceRecord) (seen keys : List (List Value))
      (q : ValidationPipeline)
      → Covers seen keys
      → write_page snapshot plan config files page
          (pipeline_at snapshot config lower upper seen files.rows_extracted)
        ≡ (ok out, q)
      → (made : List SourceRecord) × (k : ℕ) × (split : ValidatedPage) × (inject_corruption plan
            page files.rows_extracted
          ≡ ok (made, k))
        × Splits snapshot config lower upper keys files.rows_extracted made split q
        × (out ≡ written files (length page) k split)
  unfolding write_page
  write_page-Splits files out page seen keys q covers h =
      let p = pipeline_at snapshot config lower upper seen files.rows_extracted in
      let ((made, k), p1, h0, h1) =
        >>=-ok (lift (inject_corruption plan page files.rows_extracted))
          (λ made. lift (find_broken_parent_references snapshot config (made.0)) >>= λ broken.
            validate_page (made.0) (cursors broken) >>= λ validated.
            pure (written files (length page) (made.1) validated))
          p out q h in
      let (broken, p2, h2, h3) =
        >>=-ok (lift (find_broken_parent_references snapshot config made))
          (λ broken. validate_page made (cursors broken) >>= λ validated.
            pure (written files (length page) k validated))
          p1 out q h1 in
      let (split, p3, h4, h5) =
        >>=-ok (validate_page made (cursors broken))
          (λ validated. pure (written files (length page) k validated)) p2 out q h3 in
      let (same, ends) = pure-ok h5 in
      let start = ap (λ x. x.1) h0 ∙ ap (λ x. x.1) h2 in
      (
        made,
        k,
        split,
        ap (λ x. x.0) h0,
        records-Splits snapshot config lower upper made (cursors broken) seen keys
            files.rows_extracted split q covers
            (All-map (λ r parents c at whole. parents (c, at, whole)) made
              (find_broken_parent_references-parents snapshot config made broken
                (ap (λ x. x.0) h2)))
            (validate_page-records made (cursors broken) p q split
              (ap (validate_page made (cursors broken)) start ∙ h4 ∙ ap (λ x. (ok split, x)) ends)),
        sym same,
      )
