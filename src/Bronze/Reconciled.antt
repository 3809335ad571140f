-- ===== src/Bronze/Reconciled.antt =====
-- src/ingestion/bronze/orphan.py: a reconciliation from its evidence to its transaction.
use commerce_data_platform.Prelude.{
  ℕ, String, ◌≡◌, refl, sym, ap, subst, ◌∙◌, ◌⊎◌, inl, inr, true, false, Option, none, some, arith,
  Option-cases, [], ◌∷◌, ◌++◌, ◌+◌, ==_iff,
}
use commerce_data_platform.Exceptions.{Result, ok, err}
use commerce_data_platform.Action.{Action, lift, ◌>>=◌, ◌>>◌}
use commerce_data_platform.Action.Keeps.{>>=-cases}
use commerce_data_platform.Clock.{DateTime, utc_now}
use commerce_data_platform.Records.{
  Metadata, WatermarkRow, RunRow, success, committed, is_running_status,
}
use commerce_data_platform.Sql.{fetchone}
use commerce_data_platform.Sql.Laws.{fetchone-update_where, fetchone_sound}
use Prim.Native.String.{◌++◌ as ◌+++◌}
use commerce_data_platform.Cursor.{eq_cursor_iff}
use commerce_data_platform.Control.Tables.{is_watermark, is_run}
use commerce_data_platform.Control.Commit.{same_object}
use commerce_data_platform.Bronze.Orphan.{
  Manifest, completed, moved_up, at_version, batch_of, of_batch, interrupted_run, lower_watermark,
  OrphanCandidate, Evidence, VerifiedParquetObject, adopt, check_evidence, key_or_refuse,
  reconcile_orphan,
}
use commerce_data_platform.Bronze.Adopted.{
  CanAdopt, after_adoption, adopt_outcome, check_evidence-reads, check_evidence-ok,
}

key_is_there : (o : Option String) (key : String) → key_or_refuse o ≡ ok key → o ≡ some key
unfolding key_or_refuse
key_is_there o key h = ground arith

-- What the metadata have to say for an adoption, in plain terms.
pub record IsInterrupted (m : Manifest) (key : String) (db : Metadata) (run : RunRow)
    (watermark : WatermarkRow) : Type 0 where
  pub run_row : fetchone (is_run m.run_id m.source_table) db.pipeline_runs ≡ some run
  pub still_running : is_running_status run.status ≡ true
  pub run_before : run.watermark_before ≡ m.watermark_before
  pub run_upper : run.extract_upper_bound ≡ some m.extract_upper_bound
  pub watermark_row :
      fetchone (is_watermark run.pipeline_name m.source_table) db.watermarks ≡ some watermark
  pub stands_at : watermark.watermark_timestamp ≡ m.watermark_before.timestamp
  pub stands_at_keys : watermark.watermark_keys ≡ m.watermark_before.keys
  pub no_quarantine : fetchone (of_batch (batch_of m)) db.quarantine_batches ≡ none
  pub no_object : fetchone (same_object (batch_of m) key) db.bronze_objects ≡ none

interrupted_run-facts :
    (m : Manifest) (o : Option RunRow) (run : RunRow)
    → interrupted_run m o ≡ ok run
    → (o ≡ some run)
      × (is_running_status run.status ≡ true)
      × (run.watermark_before ≡ m.watermark_before)
      × (run.extract_upper_bound ≡ some m.extract_upper_bound)
unfolding interrupted_run
interrupted_run-facts m none run h = absurd (ground arith)
interrupted_run-facts m (some r) run h = elim (Option-cases r.extract_upper_bound) [
  | inl missing ↦ absurd (ground (arith, missing))
  | inr (upper, there) ↦ ground (
    arith,
    there,
    eq_cursor_iff r.watermark_before m.watermark_before,
    eq_cursor_iff upper m.extract_upper_bound,
  )
]

lower_watermark-facts :
    (m : Manifest) (o : Option WatermarkRow) (watermark : WatermarkRow)
    → lower_watermark m o ≡ ok watermark
    → (o ≡ some watermark)
      × (watermark.watermark_timestamp ≡ m.watermark_before.timestamp)
      × (watermark.watermark_keys ≡ m.watermark_before.keys)
unfolding lower_watermark
lower_watermark-facts m none watermark h = absurd (ground arith)
lower_watermark-facts m (some w) watermark h = ground (
  arith,
  eq_cursor_iff (record { timestamp = w.watermark_timestamp; keys = w.watermark_keys })
      m.watermark_before,
)

CanAdopt-IsInterrupted :
    (m : Manifest) (candidate : OrphanCandidate) (key : String) (time : ℕ) (db : Metadata)
    (run : RunRow) (watermark : WatermarkRow)
    → CanAdopt m candidate key time db run watermark
    → IsInterrupted m candidate.object_key db run watermark
CanAdopt-IsInterrupted m candidate key time db run watermark can =
    let (run_row, running, before, upper) = interrupted_run-facts m _ run can.run_found in
    let (row, at, keys) = lower_watermark-facts m _ watermark can.watermark_found in
    record {
      run_row = run_row;
      still_running = running;
      run_before = before;
      run_upper = upper;
      watermark_row = row;
      stands_at = at;
      stands_at_keys = keys;
      no_quarantine = can.quarantine;
      no_object = can.object;
    }

-- What an adoption at a time leaves in place of the run's row and of the watermark's row, and the row
-- that it adds.
pub record HasEffect (m : Manifest) (key manifest_key : String) (time : ℕ) (db : Metadata)
    (run : RunRow) (watermark : WatermarkRow) (db' : Metadata) : Type 0 where
  pub run_ended :
      fetchone (is_run m.run_id m.source_table) db'.pipeline_runs
      ≡ some (record run {
        finished_at = some time;
        rows_extracted = m.row_count;
        rows_valid = m.row_count;
        rows_rejected = 0;
        rows_loaded = m.row_count;
        status = success;
        error_type = none;
        error_message = none;
      })
  pub watermark_moved :
      fetchone (is_watermark run.pipeline_name m.source_table) db'.watermarks
      ≡ some (record watermark {
        watermark_timestamp = m.extract_upper_bound.timestamp;
        watermark_keys = m.extract_upper_bound.keys;
        version = watermark.version + 1;
        updated_at = time;
      })
  pub object_added :
      db'.bronze_objects
      ≡ db.bronze_objects
        ++ record {
          table_batch_id = m.batch_id +++ ("__" +++ m.source_table);
          source_table = m.source_table;
          batch_id = m.batch_id;
          object_key = key;
          manifest_key = manifest_key;
          schema_version = m.schema_version;
          row_count = m.row_count;
          content_sha256 = m.content_sha256;
          logical_hash = m.logical_hash;
          watermark_before = m.watermark_before;
          watermark_after = m.extract_upper_bound;
          status = committed;
          committed_at = some time;
        }
          ∷ []
  pub quarantine_kept : db'.quarantine_batches ≡ db.quarantine_batches

IsInterrupted-HasEffect :
    (m : Manifest) (candidate : OrphanCandidate) (key : String) (time : ℕ) (db : Metadata)
    (run : RunRow) (watermark : WatermarkRow)
    → IsInterrupted m candidate.object_key db run watermark
    → HasEffect m candidate.object_key key time db run watermark
        (after_adoption m candidate key time db run watermark)
unfolding is_run is_watermark at_version batch_of
IsInterrupted-HasEffect m candidate key time db run watermark was = record {
  run_ended = ground (
    arith,
    was.run_row,
    fetchone_sound (is_run m.run_id m.source_table) db.pipeline_runs run was.run_row,
    fetchone-update_where (is_run m.run_id m.source_table) (is_run m.run_id m.source_table)
        (completed m time) db.pipeline_runs (λ r _. refl),
  );
  watermark_moved = ground (
    arith,
    was.watermark_row,
    ==_iff watermark.version watermark.version,
    fetchone_sound (is_watermark run.pipeline_name m.source_table) db.watermarks watermark
        was.watermark_row,
    fetchone-update_where (is_watermark run.pipeline_name m.source_table)
        (at_version run.pipeline_name m.source_table watermark.version) (moved_up m time)
        db.watermarks (λ r _. refl),
  );
  object_added = refl;
  quarantine_kept = refl;
}

module _ (evidence : Evidence) (clock : ℕ) (now : Option DateTime) (candidate : OrphanCandidate)
    (db : Metadata) where
  -- The object is adopted by the metadata.
  abbrev pub IsAdopted : Result (Unit {0}) × Metadata → Type 0
  IsAdopted end =
      (m : Manifest) × (key : String) × (time : ℕ) × (run : RunRow) × (watermark : WatermarkRow)
      × (evidence.manifest ≡ ok m)
      × (evidence.quarantine_exists ≡ ok false)
      × (candidate.manifest_key ≡ some key)
      × (utc_now clock now ≡ ok time)
      × IsInterrupted m candidate.object_key db run watermark
      × (end ≡ (ok tt, after_adoption m candidate key time db run watermark))
      × HasEffect m candidate.object_key key time db run watermark (end.1)

  abbrev Ends : Result (Unit {0}) × Metadata → Type 0
  Ends end = (end.1 ≡ db) ⊎ IsAdopted end

  lift-Ends :
      {A : Type 0} (x : Result A) (f : A → Action Metadata (Unit {0}))
      → ((a : A) → x ≡ ok a → Ends (f a db))
      → Ends ((lift x >>= f) db)
  lift-Ends (ok a) f rest = rest a refl
  lift-Ends (err e) f rest = inl refl

  -- The reconciliation from its later steps on.
  abbrev with_object : Manifest → String → ℕ → VerifiedParquetObject → Action Metadata (Unit {0})
  with_object m key time v =
      lift evidence.quarantine_exists >>= λ q. check_evidence m v q >> adopt m candidate key time

  abbrev with_manifest : Manifest → String → ℕ → Action Metadata (Unit {0})
  with_manifest m key time = lift evidence.verified >>= with_object m key time

  abbrev with_key : String → ℕ → Action Metadata (Unit {0})
  with_key key time = lift evidence.manifest >>= λ m. with_manifest m key time

  abbrev with_time : ℕ → Action Metadata (Unit {0})
  with_time time = lift (key_or_refuse candidate.manifest_key) >>= λ key. with_key key time

  adopt-Ends :
      (m : Manifest) (key : String) (time : ℕ)
      → utc_now clock now ≡ ok time
      → candidate.manifest_key ≡ some key
      → evidence.manifest ≡ ok m
      → evidence.quarantine_exists ≡ ok false
      → Ends (adopt m candidate key time db)
  adopt-Ends m key time at has_key read looked = elim (adopt_outcome m candidate key time db) [
    | inl same ↦ inl same
    | inr (run, watermark, can, done) ↦ inr (
      m,
      key,
      time,
      run,
      watermark,
      read,
      looked,
      has_key,
      at,
      CanAdopt-IsInterrupted m candidate key time db run watermark can,
      done,
      rw done (
          IsInterrupted-HasEffect m candidate key time db run watermark
            (CanAdopt-IsInterrupted m candidate key time db run watermark can)),
    )
  ]

  -- A reconciliation leaves the metadata as they were, or it adopts the object: then the manifest
  -- is readable and the batch has no quarantine file, the run of the manifest is still running over
  -- the manifest's range, the watermark stands at its lower bound, and neither the batch nor the
  -- object key is known; and the object is added as a committed one, the run is ended with success
  -- and the counts of the manifest, and the watermark moved to the upper bound and the next version.
  pub reconcile_outcome :
      ((reconcile_orphan evidence clock now candidate db).1 ≡ db)
      ⊎ IsAdopted (reconcile_orphan evidence clock now candidate db)
  unfolding reconcile_orphan
  reconcile_outcome = lift-Ends (utc_now clock now) with_time (λ time at.
      lift-Ends (key_or_refuse candidate.manifest_key) (λ key. with_key key time)
        (λ key has_key.
          lift-Ends evidence.manifest (λ m. with_manifest m key time)
            (λ m read. lift-Ends evidence.verified (with_object m key time) (λ v seen.
              lift-Ends evidence.quarantine_exists
                (λ q. check_evidence m v q >> adopt m candidate key time)
                (λ q looked.
                  >>=-cases Ends (check_evidence m v q) (λ _. adopt m candidate key time) db
                    (λ e u h.
                      inl
                        (sym (ap (λ x. x.1) h) ∙ check_evidence-reads m candidate key time v q db))
                    (λ x u h.
                      subst (λ s. Ends (adopt m candidate key time s))
                        (sym (check_evidence-reads m candidate key time v q db) ∙ ap (λ x. x.1) h)
                        (adopt-Ends m key time at (key_is_there candidate.manifest_key key has_key)
                          read
                          (looked
                            ∙ ap ok (
                                check_evidence-ok m candidate key time v q db
                                  (ap (λ x. x.0) h))))))))))
