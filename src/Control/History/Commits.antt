-- ===== src/Control/History/Commits.antt =====
-- What `commit_table_run` of src/ingestion/control/metadata.py writes beside the watermark, in the
-- histories.
use commerce_data_platform.Prelude.{
  ℕ, ◌≤◌, true, ◌≡◌, refl, inl, inr, Option, none, some, List, [], ◌∷◌, ◌++◌, arith, Option-cases,
}
use commerce_data_platform.Exceptions.{ok}
use commerce_data_platform.Clock.{DateTime, utc_now}
use commerce_data_platform.Records.{
  TableCommit, QuarantineBatch, QuarantineRow, PipelineRun, RunRow, Metadata, empty_metadata,
  running, success, committed, is_running_status,
}
use commerce_data_platform.Sql.{fetchone, rowcount, update_where, insert}
use commerce_data_platform.Sql.Laws.{
  fetchone-update_where, rowcount-fetchone, rowcount-fetchone-none, rowcount_mono,
}
use commerce_data_platform.Control.Tables.{is_run}
use commerce_data_platform.Control.Runs.{is_running}
use commerce_data_platform.Control.Commit.{succeeded, insert_quarantine, commit_table_run}
use commerce_data_platform.Control.Commit.Effect.{commit-CanCommit, CanCommit-commit}
use commerce_data_platform.Control.History.{Reach}
use commerce_data_platform.Control.History.RunKey.{one_run}

-- The quarantine batches with the commit's, if it has one.
abbrev pub with_quarantine : Option QuarantineBatch → ℕ → List QuarantineRow → List QuarantineRow
with_quarantine none t rows = rows
with_quarantine (some q) t rows =
    rows
    ++ record {
      table_batch_id = q.table_batch_id;
      object_key = q.object_key;
      row_count = q.row_count;
      error_counts = q.error_counts;
      created_at = t;
    }
      ∷ []

-- What a commit at time `t` did to the run, the objects and the quarantine batches.
pub record HasCommitted (c : TableCommit) (t : ℕ) (db db' : Metadata) : Type 0 where
  pub run : RunRow
  pub found : fetchone (is_run c.run.run_id c.run.source_table) db.pipeline_runs ≡ some run
  pub was_running : run.status ≡ running
  pub run_ended :
      fetchone (is_run c.run.run_id c.run.source_table) db'.pipeline_runs
      ≡ some (record run {
        finished_at = some t;
        rows_extracted = c.rows_extracted;
        rows_valid = c.rows_valid;
        rows_rejected = c.rows_rejected;
        rows_loaded = c.rows_loaded;
        status = success;
      })
  pub object_added :
      db'.bronze_objects
      ≡ db.bronze_objects
        ++ record {
          table_batch_id = c.object.table_batch_id;
          source_table = c.run.source_table;
          batch_id = c.run.batch_id;
          object_key = c.object.object_key;
          manifest_key = c.object.manifest_key;
          schema_version = c.object.schema_version;
          row_count = c.object.row_count;
          content_sha256 = c.object.content_sha256;
          logical_hash = c.object.logical_hash;
          watermark_before = c.run.watermark_before;
          watermark_after = c.object.watermark_after;
          status = committed;
          committed_at = some t;
        }
          ∷ []
  pub quarantine_added :
      db'.quarantine_batches ≡ with_quarantine c.quarantine t db.quarantine_batches

insert_quarantine-added :
    (q : Option QuarantineBatch) (t : ℕ) (db : Metadata)
    → (insert_quarantine q t db).0 ≡ ok tt
    → (insert_quarantine q t db).1.quarantine_batches ≡ with_quarantine q t db.quarantine_batches
unfolding insert_quarantine insert
insert_quarantine-added none t db h = refl
insert_quarantine-added (some q) t db h = ground arith

running_key :
    (run : PipelineRun) (r : RunRow)
    → is_running run r ≡ true
    → is_run run.run_id run.source_table r ≡ true
unfolding is_running
running_key run r h = ground arith

running_status : (run : PipelineRun) (r : RunRow) → is_running run r ≡ true → r.status ≡ running
unfolding is_running is_running_status
running_status run r h = ground arith

-- Where a run has one row at most and one that is running, the run has that row.
running_row :
    (run : PipelineRun) (rows : List RunRow)
    → rowcount (is_run run.run_id run.source_table) rows ≤ 1
    → rowcount (is_running run) rows ≡ 1
    → (r : RunRow) × (fetchone (is_run run.run_id run.source_table) rows ≡ some r)
      × (is_running run r ≡ true)
running_row run rows one h =
    elim (Option-cases (fetchone (is_run run.run_id run.source_table) rows)) [
      | inl missing ↦ absurd (
          omega (
            arith,
            h,
            rowcount-fetchone-none (is_run run.run_id run.source_table) rows missing,
            rowcount_mono (is_running run) (is_run run.run_id run.source_table) rows
                (running_key run),
          ))
      | inr (r, found) ↦ (
        r,
        found,
        ground (
          arith,
          rowcount-fetchone (is_running run) (is_run run.run_id run.source_table) rows r
              (running_key run) one found,
        ),
      )
    ]

ended_row :
    (c : TableCommit) (t : ℕ) (rows : List RunRow) (r : RunRow)
    → fetchone (is_run c.run.run_id c.run.source_table) rows ≡ some r
    → is_running c.run r ≡ true
    → fetchone
        (is_run c.run.run_id c.run.source_table)
        (update_where (is_running c.run) (succeeded c t) rows)
      ≡ some (succeeded c t r)
unfolding is_run
ended_row c t rows r found fits = ground (
  arith,
  fetchone-update_where (is_run c.run.run_id c.run.source_table) (is_running c.run) (succeeded c t)
      rows (λ r _. refl),
)

-- In every history that starts from an empty database, a commit that goes through found the row of
-- its run running, and ended it with success and the commit's counts; and it added the object under
-- the run's table, batch and lower bound, and the quarantine batch, if it has one.
pub commit_records :
    (clock t : ℕ) (now : Option DateTime) (c : TableCommit) {db : Metadata}
    → utc_now clock now ≡ ok t
    → Reach empty_metadata db
    → (commit_table_run clock now c db).0 ≡ ok tt
    → HasCommitted c t db (commit_table_run clock now c db).1
commit_records clock t now c {db} time start done =
    let can = commit-CanCommit clock t now time c db done in
    let (run, found, fits) =
      running_row c.run db.pipeline_runs (one_run c.run.run_id c.run.source_table start) can.run in
    rw (CanCommit-commit clock t now time c db can) (record {
      run = run;
      found = found;
      was_running = running_status c.run run fits;
      run_ended = ended_row c t db.pipeline_runs run found fits;
      object_added = refl;
      quarantine_added = insert_quarantine-added c.quarantine t db can.quarantine;
    })
