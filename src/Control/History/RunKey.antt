-- ===== src/Control/History/RunKey.antt =====
-- The primary key of the runs, in the histories of src/ingestion/control.
use commerce_data_platform.Prelude.{ℕ, String, true, ◌≡◌, refl, inl, inr, Option, arith, str_eq_iff}
use commerce_data_platform.Exceptions.{Result-cases}
use commerce_data_platform.Clock.{DateTime, utc_now}
use commerce_data_platform.Records.{PipelineRun, TableCommit, RunRow, Metadata, empty_metadata}
use commerce_data_platform.Sql.{rowcount, update_where, insert}
use commerce_data_platform.Sql.Unique.{IsUnique, IsUnique-update_where, IsUnique-insert}
use commerce_data_platform.Control.Tables.{is_run}
use commerce_data_platform.Control.Watermarks.{
  get_or_create_watermark, rewind_watermark, fetch_or_create,
}
use commerce_data_platform.Control.Runs.{
  new_run, is_running, failed_with, ended_empty, skipped_with, record_started_run,
  record_failed_run, record_success_no_data_run, record_skipped_already_committed_run,
}
use commerce_data_platform.Control.Commit.{succeeded, commit_table_run}
use commerce_data_platform.Control.Commit.Effect.{commit_outcome}
use commerce_data_platform.Control.TableLease.{
  acquire_table_lease, renew_table_lease, release_table_lease,
}
use commerce_data_platform.Bronze.Orphan.{Evidence, OrphanCandidate, completed, reconcile_orphan}
use commerce_data_platform.Bronze.Reconciled.{reconcile_outcome}
use commerce_data_platform.Control.History.{
  Step, created, rewound, started, ended_failed, ended_no_data, ended_skipped, committed, leased,
  renewed, released, reconciled, Reach, here, next,
}

same_run :
    (i : ℕ) (t : String) (run : PipelineRun) (now : ℕ)
    → is_run i t (new_run run now) ≡ true
    → (r : RunRow) → is_run i t r ≡ true
    → is_run run.run_id run.source_table r ≡ true
unfolding is_run
same_run i t run now h r q = ground (
  arith,
  str_eq_iff run.source_table t,
  str_eq_iff r.source_table t,
  str_eq_iff r.source_table run.source_table,
)

module _ (i : ℕ) (t : String) where
  abbrev pub OneRun : Metadata → Type 0
  OneRun db = IsUnique (is_run i t) db.pipeline_runs

  OneRun-end :
      (run : PipelineRun) (f : RunRow → RunRow) (db : Metadata)
      → ((r : RunRow) → is_running run r ≡ true → is_run i t (f r) ≡ is_run i t r)
      → OneRun db
      → IsUnique (is_run i t) (update_where (is_running run) f db.pipeline_runs)
  OneRun-end run f db = IsUnique-update_where (is_run i t) (is_running run) f db.pipeline_runs

  started-OneRun :
      (clock : ℕ) (now : Option DateTime) (run : PipelineRun) (db : Metadata)
      → OneRun db
      → OneRun (record_started_run clock now run db).1
  unfolding record_started_run
  started-OneRun clock now run db h = elim (Result-cases (utc_now clock now)) [
    | inl (n, time) ↦
        elim (Result-cases
          (insert (is_run run.run_id run.source_table) (new_run run n) db.pipeline_runs)) [
            | inl (rows, e) ↦ ground (
              arith,
              IsUnique-insert (is_run i t) (is_run run.run_id run.source_table) (new_run run n)
                  db.pipeline_runs rows (same_run i t run n) e h,
            )
            | inr (x, e) ↦ ground arith
          ]
    | inr (e, late) ↦ ground arith
  ]

  failed-OneRun :
      (clock : ℕ) (now : Option DateTime) (run : PipelineRun) (error_type : String)
      (message : Option String) (db : Metadata)
      → OneRun db
      → OneRun (record_failed_run clock now run error_type message db).1
  unfolding record_failed_run is_run
  failed-OneRun clock now run error_type message db h = elim (Result-cases (utc_now clock now)) [
    | inl (n, time) ↦
        ground (arith, OneRun-end run (failed_with error_type message n) db (λ r _. refl) h)
    | inr (e, late) ↦ ground arith
  ]

  no_data-OneRun :
      (clock : ℕ) (now : Option DateTime) (run : PipelineRun) (db : Metadata)
      → OneRun db
      → OneRun (record_success_no_data_run clock now run db).1
  unfolding record_success_no_data_run is_run
  no_data-OneRun clock now run db h = elim (Result-cases (utc_now clock now)) [
    | inl (n, time) ↦ ground (arith, OneRun-end run (ended_empty n) db (λ r _. refl) h)
    | inr (e, late) ↦ ground arith
  ]

  skipped-OneRun :
      (clock : ℕ) (now : Option DateTime) (run : PipelineRun) (row_count : ℕ) (db : Metadata)
      → OneRun db
      → OneRun (record_skipped_already_committed_run clock now run row_count db).1
  unfolding record_skipped_already_committed_run is_run
  skipped-OneRun clock now run row_count db h = elim (Result-cases (utc_now clock now)) [
    | inl (n, time) ↦ ground (arith, OneRun-end run (skipped_with row_count n) db (λ r _. refl) h)
    | inr (e, late) ↦ ground arith
  ]

  commit-OneRun :
      (clock : ℕ) (now : Option DateTime) (c : TableCommit) (db : Metadata)
      → OneRun db
      → OneRun (commit_table_run clock now c db).1
  unfolding is_run
  commit-OneRun clock now c db h = elim (commit_outcome clock now c db) [
    | inl same ↦ rw same h
    | inr (n, time, can, e) ↦ rw e (OneRun-end c.run (succeeded c n) db (λ r _. refl) h)
  ]

  reconcile-OneRun :
      (evidence : Evidence) (clock : ℕ) (now : Option DateTime) (candidate : OrphanCandidate)
      (db : Metadata)
      → OneRun db
      → OneRun (reconcile_orphan evidence clock now candidate db).1
  unfolding is_run
  reconcile-OneRun evidence clock now candidate db h =
      elim (reconcile_outcome evidence clock now candidate db) [
        | inl same ↦ rw same h
        | inr (m, key, time, run, watermark, read, looked, has_key, at, can, done, effect) ↦
            rw done (
              IsUnique-update_where (is_run i t) (is_run m.run_id m.source_table) (completed m time)
                db.pipeline_runs (λ r _. refl) h)
      ]

  OneRun-Step : {db db' : Metadata} → Step db db' → OneRun db → OneRun db'
  unfolding get_or_create_watermark fetch_or_create rewind_watermark acquire_table_lease
      renew_table_lease release_table_lease
  OneRun-Step (created clock now pipeline table db) h = ground arith
  OneRun-Step (rewound clock now pipeline table owner version cursor db) h = ground arith
  OneRun-Step (started clock now run db) h = started-OneRun clock now run db h
  OneRun-Step (ended_failed clock now run error_type message db) h =
      failed-OneRun clock now run error_type message db h
  OneRun-Step (ended_no_data clock now run db) h = no_data-OneRun clock now run db h
  OneRun-Step (ended_skipped clock now run row_count db) h =
      skipped-OneRun clock now run row_count db h
  OneRun-Step (committed clock now c db) h = commit-OneRun clock now c db h
  OneRun-Step (leased clock now pipeline table owner ttl db) h = ground arith
  OneRun-Step (renewed clock now lease ttl db) h = ground arith
  OneRun-Step (released clock now lease db) h = ground arith
  OneRun-Step (reconciled evidence clock now candidate db) h =
      reconcile-OneRun evidence clock now candidate db h

-- In every history that starts from an empty database a run has one row for a table at most.
pub one_run : (i : ℕ) (t : String) {db : Metadata} → Reach empty_metadata db → OneRun i t db
unfolding rowcount
one_run i t here = omega arith
one_run i t (next r st) = OneRun-Step i t st (one_run i t r)
