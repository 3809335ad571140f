-- ===== src/Bronze/Adopted.antt =====
-- src/ingestion/bronze/orphan.py: the conditions and the effect of a reconciliation.
use commerce_data_platform.Prelude.{
  ℕ, String, ◌≡◌, ◌⊎◌, inl, inr, Bool, false, none, [], ◌∷◌, ◌++◌, arith,
}
use commerce_data_platform.Exceptions.{Exception, ok, err, Result-cases}
use commerce_data_platform.Sql.{fetchone, insert, rowcount, update_where}
use commerce_data_platform.Records.{Metadata, WatermarkRow, RunRow}
use commerce_data_platform.Control.Tables.{is_watermark, is_run}
use commerce_data_platform.Control.Commit.{same_object}
use commerce_data_platform.Contract.Columns.{assert_supported_schema_version}
use commerce_data_platform.Contract.Tables.{table_config}
use commerce_data_platform.Bronze.Orphan.{
  Manifest, OrphanCandidate, batch_of, interrupted_run, lower_watermark, is_found, of_batch,
  adopted, completed, at_version, moved_up, adopt, check_evidence, VerifiedParquetObject,
}

module _ (m : Manifest) (candidate : OrphanCandidate) (manifest_key : String) (now : ℕ) where
  -- What the transaction finds.
  pub record CanAdopt (db : Metadata) (run : RunRow) (watermark : WatermarkRow) : Type 0 where
    pub run_found :
        interrupted_run m (fetchone (is_run m.run_id m.source_table) db.pipeline_runs) ≡ ok run
    pub watermark_found :
        lower_watermark m (fetchone (is_watermark run.pipeline_name m.source_table) db.watermarks)
        ≡ ok watermark
    pub quarantine : fetchone (of_batch (batch_of m)) db.quarantine_batches ≡ none
    pub object : fetchone (same_object (batch_of m) candidate.object_key) db.bronze_objects ≡ none
    pub one_row :
        rowcount (at_version run.pipeline_name m.source_table watermark.version) db.watermarks ≡ 1

  -- The database after it.
  abbrev pub after_adoption : Metadata → RunRow → WatermarkRow → Metadata
  after_adoption db run watermark = record {
    watermarks =
        update_where (at_version run.pipeline_name m.source_table watermark.version)
          (moved_up m now) db.watermarks;
    pipeline_runs =
        update_where (is_run m.run_id m.source_table) (completed m now) db.pipeline_runs;
    bronze_objects = db.bronze_objects ++ adopted m candidate manifest_key now ∷ [];
    quarantine_batches = db.quarantine_batches;
  }

  adopt_atomic :
      (db : Metadata) (e : Exception)
      → (adopt m candidate manifest_key now db).0 ≡ err e
      → (adopt m candidate manifest_key now db).1 ≡ db
  unfolding adopt
  adopt_atomic db e h = ground arith

  CanAdopt-adopt :
      (db : Metadata) (run : RunRow) (watermark : WatermarkRow)
      → CanAdopt db run watermark
      → adopt m candidate manifest_key now db ≡ (ok tt, after_adoption db run watermark)
  unfolding adopt insert is_found
  CanAdopt-adopt db run watermark h =
      rw (h.run_found, h.watermark_found) (ground (arith, h.quarantine, h.object, h.one_row))

  adopt-CanAdopt :
      (db : Metadata)
      → (adopt m candidate manifest_key now db).0 ≡ ok tt
      → (run : RunRow) × (watermark : WatermarkRow) × CanAdopt db run watermark
  unfolding adopt insert is_found
  adopt-CanAdopt db h =
      elim (Result-cases
        (interrupted_run m (fetchone (is_run m.run_id m.source_table) db.pipeline_runs))) [
          | inr (e, eq) ↦ absurd (ground (arith, eq))
          | inl (run, eq) ↦
              elim (Result-cases (
                lower_watermark m
                  (fetchone (is_watermark run.pipeline_name m.source_table) db.watermarks))) [
                    | inr (e, eq1) ↦ absurd (ground (arith, eq, eq1))
                    | inl (watermark, eq1) ↦ (
                      run,
                      watermark,
                      record {
                        run_found = eq;
                        watermark_found = eq1;
                        quarantine = ground arith;
                        object = ground arith;
                        one_row = ground arith;
                      },
                    )
                  ]
        ]

  pub adopt_outcome :
      (db : Metadata)
      → ((adopt m candidate manifest_key now db).1 ≡ db)
        ⊎ ((run : RunRow) × (watermark : WatermarkRow) × CanAdopt db run watermark
            × (adopt m candidate manifest_key now db ≡ (ok tt, after_adoption db run watermark)))
  adopt_outcome db = elim (Result-cases (adopt m candidate manifest_key now db).0) [
    | inr (e, h) ↦ inl (adopt_atomic db e h)
    | inl (u, h) ↦
        let (run, watermark, can) = adopt-CanAdopt db h in
        inr (run, watermark, can, CanAdopt-adopt db run watermark can)
  ]

  pub check_evidence-reads :
      (v : VerifiedParquetObject) (q : Bool) (db : Metadata) → (check_evidence m v q db).1 ≡ db
  unfolding check_evidence
  check_evidence-reads v q db = ground arith

  pub check_evidence-ok :
      (v : VerifiedParquetObject) (q : Bool) (db : Metadata)
      → (check_evidence m v q db).0 ≡ ok tt
      → q ≡ false
  unfolding check_evidence
  check_evidence-ok v q db h = elim (Result-cases (table_config m.source_table)) [
    | inr (e, eq) ↦ absurd (ground (arith, eq))
    | inl (config, eq) ↦ elim (Result-cases (assert_supported_schema_version m.schema_version)) [
      | inr (e, eq1) ↦ absurd (ground (arith, eq, eq1))
      | inl (u, eq1) ↦ ground (arith, eq, eq1)
    ]
  ]
