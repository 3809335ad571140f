-- ===== src/Validation/Batch.antt =====
-- `_write_local_artifacts` of src/ingestion/service.py: the loop that validates the pages of a
-- snapshot and splits their records into the local files, and the reject rate of
-- src/ingestion/extraction/quarantine.py. A file is the list of its rows.
use commerce_data_platform.Prelude.{
  ℕ, String, not, ◌&&◌, Option, none, some, List, [], ◌∷◌, ◌++◌, ◌+◌, ◌*◌, ltb, ◌==◌, if◌then◌else◌,
  length,
}
use commerce_data_platform.Exceptions.{Result, ok, err, value_error, reject_rate_exceeded}
use commerce_data_platform.Action.{Action, pure, lift, ◌>>=◌}
use commerce_data_platform.Cursor.{Keys, CursorPosition}
use commerce_data_platform.Contract.Columns.{TableConfig}
use commerce_data_platform.Validation.Values.{Value, SourceRecord}
use commerce_data_platform.Validation.Pipeline.{
  RejectedRecord, ValidatedPage, ValidationPipeline, validation_pipeline, validate_page,
}
use commerce_data_platform.Validation.References.{BrokenReference, find_broken_parent_references}
use commerce_data_platform.Validation.Corruption.{CorruptionPlan, inject_corruption}

-- The quarantine file is there only if a record was rejected.
pub record LocalArtifacts : Type 0 where
  pub bronze : List SourceRecord
  pub quarantine : Option (List RejectedRecord)
  pub rows_extracted : ℕ
  pub rows_rejected : ℕ
  pub rows_corrupted : ℕ

abbrev pub no_artifacts : LocalArtifacts
no_artifacts = record {
  bronze = [];
  quarantine = none;
  rows_extracted = 0;
  rows_rejected = 0;
  rows_corrupted = 0;
}

-- The writer is opened for the first rejected records.
unfoldable pub quarantined :
    Option (List RejectedRecord) → List RejectedRecord → Option (List RejectedRecord)
quarantined file [] = file
quarantined none (r ∷ rs) = some (r ∷ rs)
quarantined (some rows) (r ∷ rs) = some (rows ++ (r ∷ rs))

abbrev pub cursors : List BrokenReference → List Keys
cursors [] = []
cursors (b ∷ bs) = b.child_cursor ∷ cursors bs

unfoldable pub written : LocalArtifacts → ℕ → ℕ → ValidatedPage → LocalArtifacts
written files extracted corrupted page = record {
  bronze = files.bronze ++ page.valid_records;
  quarantine = quarantined files.quarantine page.rejected_records;
  rows_extracted = files.rows_extracted + extracted;
  rows_rejected = files.rows_rejected + length page.rejected_records;
  rows_corrupted = files.rows_corrupted + corrupted;
}

module _ (snapshot : String → String → List Value) (plan : Option CorruptionPlan) where
  -- One turn of the loop.
  unfoldable pub write_page :
      TableConfig → LocalArtifacts → List SourceRecord → Action ValidationPipeline LocalArtifacts
  write_page config files page = do
    made ← lift (inject_corruption plan page files.rows_extracted)
    broken ← lift (find_broken_parent_references snapshot config (made.0))
    validated ← validate_page (made.0) (cursors broken)
    pure (written files (length page) (made.1) validated)

  unfoldable pub write_pages :
      TableConfig
      → LocalArtifacts
      → List (List SourceRecord)
      → Action ValidationPipeline LocalArtifacts
  write_pages config files [] = pure files
  write_pages config files (page ∷ pages) = do
    next ← write_page config files page
    write_pages config next pages

  -- `_write_local_artifacts`
  unfoldable pub write_local_artifacts :
      TableConfig
      → CursorPosition
      → CursorPosition
      → List (List SourceRecord)
      → Result LocalArtifacts
  write_local_artifacts config lower upper pages =
      (write_pages config no_artifacts pages (validation_pipeline config lower upper)).0

-- `assert_reject_rate`. The quotient of two floats below 2 ^ 50 exceeds the float 0.05 exactly if
-- the fraction exceeds a twentieth.
unfoldable pub assert_reject_rate : ℕ → ℕ → Result (Unit {0})
assert_reject_rate total rejected =
    if ltb total rejected
    then err value_error
    else if not (total == 0) && ltb total (20 * rejected)
    then err reject_rate_exceeded
    else ok tt
