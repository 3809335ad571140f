-- ===== src/Control/History/Runs.antt =====
-- The runs that have ended, in the histories of src/ingestion/control.
use commerce_data_platform.Prelude.{
  ℕ, String, true, false, ◌≡◌, refl, inl, inr, Option, some, List, [], ◌∷◌, arith, sym, ◌∙◌,
  Bool-cases, str_eq_iff,
}
use commerce_data_platform.Exceptions.{ok, Result-cases}
use commerce_data_platform.Clock.{DateTime, utc_now}
use commerce_data_platform.Records.{PipelineRun, TableCommit, RunRow, Metadata, is_running_status}
use commerce_data_platform.Sql.{fetchone, update_where, insert}
use commerce_data_platform.Sql.Laws.{
  fetchone-update_where, fetchone-update_where_other, fetchone-append_some,
}
use commerce_data_platform.Control.Tables.{is_run}
use commerce_data_platform.Control.Watermarks.{
  get_or_create_watermark, rewind_watermark, fetch_or_create,
}
use commerce_data_platform.Control.Runs.{
  new_run, is_running, failed_with, ended_empty, skipped_with, record_started_run,
  record_failed_run, record_success_no_data_run, record_skipped_already_committed_run,
}
use commerce_data_platform.Control.Commit.{succeeded, commit_table_run}
use commerce_data_platform.Control.Commit.Effect.{commit_outcome}
use commerce_data_platform.Control.TableLease.{
  acquire_table_lease, renew_table_lease, release_table_lease,
}
use commerce_data_platform.Bronze.Orphan.{
  Manifest, Evidence, OrphanCandidate, completed, reconcile_orphan,
}
use commerce_data_platform.Bronze.Reconciled.{reconcile_outcome}
use commerce_data_platform.Control.History.{
  Step, created, rewound, started, ended_failed, ended_no_data, ended_skipped, committed, leased,
  renewed, released, reconciled, Reach, here, next,
}

one_key :
    (i j : ℕ) (s t : String) (r : RunRow)
    → is_run i s r ≡ true
    → is_run j t r ≡ true
    → (i ≡ j) × (s ≡ t)
unfolding is_run
one_key i j s t r h k = ground (arith, str_eq_iff r.source_table s, str_eq_iff r.source_table t)

module _ (i : ℕ) (t : String) (row : RunRow) (over : is_running_status row.status ≡ false) where
  abbrev pub Ended : Metadata → Type 0
  Ended db = fetchone (is_run i t) db.pipeline_runs ≡ some row

  Ended-end :
      (run : PipelineRun) (f : RunRow → RunRow) (db : Metadata)
      → ((r : RunRow) → is_running run r ≡ true → is_run i t (f r) ≡ is_run i t r)
      → Ended db
      → fetchone (is_run i t) (update_where (is_running run) f db.pipeline_runs) ≡ some row
  unfolding is_running
  Ended-end run f db keeps h =
      ground (arith, fetchone-update_where (is_run i t) (is_running run) f db.pipeline_runs keeps)

  Ended-start :
      (run : PipelineRun) (n : ℕ) (db : Metadata) (rows : List RunRow)
      → insert (is_run run.run_id run.source_table) (new_run run n) db.pipeline_runs ≡ ok rows
      → Ended db
      → fetchone (is_run i t) rows ≡ some row
  unfolding insert
  Ended-start run n db rows e h =
      ground (arith, fetchone-append_some (is_run i t) db.pipeline_runs (new_run run n ∷ []) row h)

  started-Ended :
      (clock : ℕ) (now : Option DateTime) (run : PipelineRun) (db : Metadata)
      → Ended db
      → Ended (record_started_run clock now run db).1
  unfolding record_started_run
  started-Ended clock now run db h = elim (Result-cases (utc_now clock now)) [
    | inl (n, time) ↦
        elim (Result-cases
          (insert (is_run run.run_id run.source_table) (new_run run n) db.pipeline_runs)) [
            | inl (rows, e) ↦ ground (arith, Ended-start run n db rows e h)
            | inr (x, e) ↦ ground arith
          ]
    | inr (e, late) ↦ ground arith
  ]

  failed-Ended :
      (clock : ℕ) (now : Option DateTime) (run : PipelineRun) (error_type : String)
      (message : Option String) (db : Metadata)
      → Ended db
      → Ended (record_failed_run clock now run error_type message db).1
  unfolding record_failed_run is_run
  failed-Ended clock now run error_type message db h = elim (Result-cases (utc_now clock now)) [
    | inl (n, time) ↦
        ground (arith, Ended-end run (failed_with error_type message n) db (λ r _. refl) h)
    | inr (e, late) ↦ ground arith
  ]

  no_data-Ended :
      (clock : ℕ) (now : Option DateTime) (run : PipelineRun) (db : Metadata)
      → Ended db
      → Ended (record_success_no_data_run clock now run db).1
  unfolding record_success_no_data_run is_run
  no_data-Ended clock now run db h = elim (Result-cases (utc_now clock now)) [
    | inl (n, time) ↦ ground (arith, Ended-end run (ended_empty n) db (λ r _. refl) h)
    | inr (e, late) ↦ ground arith
  ]

  skipped-Ended :
      (clock : ℕ) (now : Option DateTime) (run : PipelineRun) (row_count : ℕ) (db : Metadata)
      → Ended db
      → Ended (record_skipped_already_committed_run clock now run row_count db).1
  unfolding record_skipped_already_committed_run is_run
  skipped-Ended clock now run row_count db h = elim (Result-cases (utc_now clock now)) [
    | inl (n, time) ↦ ground (arith, Ended-end run (skipped_with row_count n) db (λ r _. refl) h)
    | inr (e, late) ↦ ground arith
  ]

  commit-Ended :
      (clock : ℕ) (now : Option DateTime) (c : TableCommit) (db : Metadata)
      → Ended db
      → Ended (commit_table_run clock now c db).1
  unfolding is_run
  commit-Ended clock now c db h = elim (commit_outcome clock now c db) [
    | inl same ↦ rw same h
    | inr (n, time, can, e) ↦ rw e (Ended-end c.run (succeeded c n) db (λ r _. refl) h)
  ]

  other_run :
      (m : Manifest) (run : RunRow) (db : Metadata)
      → fetchone (is_run m.run_id m.source_table) db.pipeline_runs ≡ some run
      → is_running_status run.status ≡ true
      → Ended db
      → (r : RunRow) → is_run m.run_id m.source_table r ≡ true
      → is_run i t r ≡ false
  other_run m run db found running h r key = elim (Bool-cases (is_run i t r)) [
    | inr other ↦ other
    | inl both ↦ absurd (
        let (same_id, same_table) = one_key m.run_id i m.source_table t r key both in
        let found' = rw (same_id, same_table) at found in ground (arith, sym found' ∙ h))
  ]

  -- An adoption ends a run that is still running, so it is not this one.
  Ended-adopt :
      (m : Manifest) (n : ℕ) (run : RunRow) (db : Metadata)
      → fetchone (is_run m.run_id m.source_table) db.pipeline_runs ≡ some run
      → is_running_status run.status ≡ true
      → Ended db
      → fetchone
          (is_run i t)
          (update_where (is_run m.run_id m.source_table) (completed m n) db.pipeline_runs)
        ≡ some row
  unfolding is_run
  Ended-adopt m n run db found running h =
      fetchone-update_where_other (is_run i t) (is_run m.run_id m.source_table) (completed m n)
        db.pipeline_runs (other_run m run db found running h) (other_run m run db found running h)
      ∙ h

  reconcile-Ended :
      (evidence : Evidence) (clock : ℕ) (now : Option DateTime) (candidate : OrphanCandidate)
      (db : Metadata)
      → Ended db
      → Ended (reconcile_orphan evidence clock now candidate db).1
  reconcile-Ended evidence clock now candidate db h =
      elim (reconcile_outcome evidence clock now candidate db) [
        | inl same ↦ rw same h
        | inr (m, key, time, run, watermark, read, looked, has_key, at, can, done, effect) ↦
            rw done (Ended-adopt m time run db can.run_row can.still_running h)
      ]

  pub Ended-Step : {db db' : Metadata} → Step db db' → Ended db → Ended db'
  unfolding get_or_create_watermark fetch_or_create rewind_watermark acquire_table_lease
      renew_table_lease release_table_lease
  Ended-Step (created clock now pipeline table db) h = ground arith
  Ended-Step (rewound clock now pipeline table owner version cursor db) h = ground arith
  Ended-Step (started clock now run db) h = started-Ended clock now run db h
  Ended-Step (ended_failed clock now run error_type message db) h =
      failed-Ended clock now run error_type message db h
  Ended-Step (ended_no_data clock now run db) h = no_data-Ended clock now run db h
  Ended-Step (ended_skipped clock now run row_count db) h =
      skipped-Ended clock now run row_count db h
  Ended-Step (committed clock now c db) h = commit-Ended clock now c db h
  Ended-Step (leased clock now pipeline table owner ttl db) h = ground arith
  Ended-Step (renewed clock now lease ttl db) h = ground arith
  Ended-Step (released clock now lease db) h = ground arith
  Ended-Step (reconciled evidence clock now candidate db) h =
      reconcile-Ended evidence clock now candidate db h

-- A run that has ended, by success, failure, no data or a skip, keeps its row as it is in every
-- further history of control operations and reconciliations.
pub ended_run_is_final :
    (i : ℕ) (t : String) (row : RunRow) {db later : Metadata}
    → is_running_status row.status ≡ false
    → fetchone (is_run i t) db.pipeline_runs ≡ some row
    → Reach db later
    → fetchone (is_run i t) later.pipeline_runs ≡ some row
ended_run_is_final i t row over h here = h
ended_run_is_final i t row over h (next r st) =
    Ended-Step i t row over st (ended_run_is_final i t row over h r)
