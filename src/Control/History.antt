-- ===== src/Control/History.antt =====
-- Every operation of src/ingestion/control that writes the metadata database, and the reconciliation
-- of src/ingestion/bronze/orphan.py, at any time, by any process and whatever its outcome, and the
-- databases that they lead to.
pub mod WatermarkKey
pub mod RunKey
pub mod Objects
pub mod Runs
pub mod Versions
pub mod Staleness
pub mod Rewinds
pub mod Commits
use commerce_data_platform.Prelude.{ℕ, String, Option}
use commerce_data_platform.Clock.{DateTime}
use commerce_data_platform.Cursor.{CursorPosition}
use commerce_data_platform.Records.{PipelineRun, TableCommit, Metadata}
use commerce_data_platform.Control.Watermarks.{get_or_create_watermark, rewind_watermark}
use commerce_data_platform.Control.Runs.{
  record_started_run, record_failed_run, record_success_no_data_run,
  record_skipped_already_committed_run,
}
use commerce_data_platform.Control.Commit.{commit_table_run}
use commerce_data_platform.Control.TableLease.{
  TableLease, acquire_table_lease, renew_table_lease, release_table_lease,
}
use commerce_data_platform.Bronze.Orphan.{Evidence, OrphanCandidate, reconcile_orphan}

pub data Step : Metadata → Metadata → Type 0 where
  created :
      (clock : ℕ) (now : Option DateTime) (pipeline table : String) (db : Metadata)
      → Step db (get_or_create_watermark clock now pipeline table db).1
  rewound :
      (clock : ℕ) (now : Option DateTime) (pipeline table : String) (owner version : ℕ)
      (cursor : CursorPosition) (db : Metadata)
      → Step db (rewind_watermark clock now pipeline table owner version cursor db).1
  started :
      (clock : ℕ) (now : Option DateTime) (run : PipelineRun) (db : Metadata)
      → Step db (record_started_run clock now run db).1
  ended_failed :
      (clock : ℕ) (now : Option DateTime) (run : PipelineRun) (error_type : String)
      (message : Option String) (db : Metadata)
      → Step db (record_failed_run clock now run error_type message db).1
  ended_no_data :
      (clock : ℕ) (now : Option DateTime) (run : PipelineRun) (db : Metadata)
      → Step db (record_success_no_data_run clock now run db).1
  ended_skipped :
      (clock : ℕ) (now : Option DateTime) (run : PipelineRun) (row_count : ℕ) (db : Metadata)
      → Step db (record_skipped_already_committed_run clock now run row_count db).1
  committed :
      (clock : ℕ) (now : Option DateTime) (c : TableCommit) (db : Metadata)
      → Step db (commit_table_run clock now c db).1
  leased :
      (clock : ℕ) (now : Option DateTime) (pipeline table : String) (owner ttl : ℕ) (db : Metadata)
      → Step db (acquire_table_lease clock now pipeline table owner ttl db).1
  renewed :
      (clock : ℕ) (now : Option DateTime) (lease : TableLease) (ttl : ℕ) (db : Metadata)
      → Step db (renew_table_lease clock now lease ttl db).1
  released :
      (clock : ℕ) (now : Option DateTime) (lease : TableLease) (db : Metadata)
      → Step db (release_table_lease clock now lease db).1
  reconciled :
      (evidence : Evidence) (clock : ℕ) (now : Option DateTime) (candidate : OrphanCandidate)
      (db : Metadata)
      → Step db (reconcile_orphan evidence clock now candidate db).1

pub data Reach (start : Metadata) : Metadata → Type 0 where
  here : Reach start start
  next : {t u : Metadata} → Reach start t → Step t u → Reach start u
