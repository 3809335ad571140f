-- ===== src/Control/Tests.antt =====
-- A table's first run in the metadata database, and the theorems of src/ingestion/control at it.
use commerce_data_platform.Prelude.{ℕ, ◌≡◌, ◌≢◌, refl, ◌⊎◌, inl, none, some, [], ◌∷◌, arith}
use commerce_data_platform.Exceptions.{ok, err, table_lease_unavailable}
use commerce_data_platform.Clock.{utc_now}
use commerce_data_platform.Cursor.{
  num, CursorPosition, initial_cursor, cursor_position, cursor_is_earlier, lt_position, eq_time,
  eq_keys,
}
use commerce_data_platform.Records.{
  PipelineRun, TableCommit, Watermark, Metadata, RunRow, empty_metadata, assert_nonempty,
}
use commerce_data_platform.Sql.{fetchone, rowcount, update_where, insert, insert_or_ignore}
use commerce_data_platform.Control.Tables.{is_watermark, is_run}
use commerce_data_platform.Control.Watermarks.{
  get_or_create_watermark, fetch_or_create, rewind_watermark, rewindable, leased,
}
use commerce_data_platform.Control.Runs.{record_started_run, record_failed_run, is_running}
use commerce_data_platform.Control.Commit.{
  commit_table_run, lease_fence, insert_quarantine, same_object, insert_object, is_expected,
  advance_watermark,
}
use commerce_data_platform.Control.Commit.Effect.{CanCommit, after, commit_outcome}
use commerce_data_platform.Control.TableLease.{
  TableLease, acquire_table_lease, renew_table_lease, release_table_lease, acquirable, renewable,
  lease_free, releasable, owned,
}
use commerce_data_platform.Control.History.{Reach, here, next, started, committed, released}
use commerce_data_platform.Control.Runs.{new_run}
use commerce_data_platform.Control.History
use commerce_data_platform.Control.History.Commits.{HasCommitted, commit_records}
use commerce_data_platform.Control.History.Rewinds.{HasRewound, rewind_moves}
use commerce_data_platform.Control.History.Objects.{commit_once}
use commerce_data_platform.Control.History.Runs.{ended_run_is_final}
use commerce_data_platform.Control.History.Staleness.{
  Moved, committed_moves, stale_commit_refused, lease_spent_by_commit,
}

program : Unit {0}
unfolding get_or_create_watermark fetch_or_create rewind_watermark rewindable record_started_run
    record_failed_run is_running commit_table_run lease_fence insert_quarantine same_object
    insert_object is_expected advance_watermark acquire_table_lease renew_table_lease
    release_table_lease acquirable renewable lease_free releasable owned leased cursor_is_earlier
    lt_position assert_nonempty cursor_position eq_time eq_keys is_watermark is_run fetchone
    rowcount update_where insert insert_or_ignore utc_now
program = tt

abbrev reached : CursorPosition
reached = record { timestamp = some 90; keys = num 4 ∷ [] }

abbrev first_run : PipelineRun
first_run = record {
  run_id = 1;
  pipeline_name = "commerce";
  source_table = "orders";
  batch_id = "batch-1";
  logical_date = 0;
  attempt_number = 1;
  watermark_before = initial_cursor;
  extract_upper_bound = some reached;
  dag_id = none;
}

abbrev first_commit : TableCommit
first_commit = record {
  run = first_run;
  expected_watermark = record {
    pipeline_name = "commerce";
    source_table = "orders";
    cursor = initial_cursor;
    version = 0;
  };
  lease_owner = 7;
  object = record {
    table_batch_id = "batch-1/orders";
    object_key = "bronze/orders/batch-1.parquet";
    manifest_key = "bronze/orders/batch-1.json";
    schema_version = 1;
    row_count = 2;
    content_sha256 = "c";
    logical_hash = "l";
    watermark_after = reached;
  };
  quarantine = none;
  rows_extracted = 2;
  rows_valid = 2;
  rows_rejected = 0;
  rows_loaded = 2;
}

abbrev leased_db : Metadata
leased_db = (acquire_table_lease 100 none "commerce" "orders" 7 1800 empty_metadata).1

abbrev held : TableLease
held = record {
  pipeline_name = "commerce";
  source_table = "orders";
  owner_id = 7;
  lease_expires_at = 1900;
  watermark_version = 0;
}

acquire-held : (acquire_table_lease 100 none "commerce" "orders" 7 1800 empty_metadata).0 ≡ ok held
unfolding program
acquire-held = refl

acquire-other :
    (acquire_table_lease 200 none "commerce" "orders" 8 1800 leased_db).0
    ≡ err table_lease_unavailable
unfolding program
acquire-other = refl

acquire-expired :
    (acquire_table_lease 1900 none "commerce" "orders" 8 1800 leased_db).0
    ≡ ok (record held { owner_id = 8; lease_expires_at = 3700 })
unfolding program
acquire-expired = refl

abbrev started_db : Metadata
started_db = (record_started_run 110 none first_run leased_db).1

abbrev committed_db : Metadata
committed_db = (commit_table_run 120 none first_commit started_db).1

started-Reach : Reach empty_metadata started_db
started-Reach =
    next (next here (History.leased 100 none "commerce" "orders" 7 1800 empty_metadata))
      (started 110 none first_run leased_db)

commit_done : (commit_table_run 120 none first_commit started_db).0 ≡ ok tt
unfolding program
commit_done = refl

abbrev released_db : Metadata
released_db = (release_table_lease 130 none held committed_db).1

after_release : Reach committed_db released_db
after_release = next here (released 130 none held committed_db)

commit_outcome_example :
    (committed_db ≡ started_db)
    ⊎ ((t : ℕ) × (utc_now 120 none ≡ ok t)
        × CanCommit first_commit t started_db
        × (commit_table_run 120 none first_commit started_db
            ≡ (ok tt, after first_commit t started_db)))
commit_outcome_example = commit_outcome 120 none first_commit started_db

commit_once_example : (commit_table_run 140 none first_commit released_db).0 ≢ ok tt
unfolding program
commit_once_example =
    commit_once 120 140 none none first_commit first_commit started_db refl after_release (inl refl)

committed_moves_example : Moved first_commit 120 started_db committed_db
unfolding program
committed_moves_example = committed_moves 120 120 none first_commit refl started-Reach refl

commit_records_example : HasCommitted first_commit 120 started_db committed_db
unfolding program
commit_records_example = commit_records 120 120 none first_commit refl started-Reach refl

stale_commit_refused_example : (commit_table_run 140 none first_commit released_db).0 ≢ ok tt
unfolding program
stale_commit_refused_example =
    stale_commit_refused 120 140 none none first_commit first_commit started-Reach refl
      after_release refl refl (omega arith)

lease_spent_by_commit_example :
    (renew_table_lease 140 none held 1800 committed_db).0
    ≢ ok (record held { lease_expires_at = 1940 })
unfolding program
lease_spent_by_commit_example =
    lease_spent_by_commit 120 140 none none first_commit held
      (record held { lease_expires_at = 1940 }) 1800 started-Reach refl here refl refl (omega arith)

-- Before the commit the same renewal goes through.
renew_before_commit :
    (renew_table_lease 140 none held 1800 started_db).0
    ≡ ok (record held { lease_expires_at = 1940 })
unfolding program
renew_before_commit = refl

abbrev no_run : RunRow
no_run = new_run first_run 0

abbrev ended_row : RunRow
ended_row = elim (fetchone (is_run 1 "orders") committed_db.pipeline_runs) [
  | none ↦ no_run
  | some r ↦ r
]

ended_run_is_final_example : fetchone (is_run 1 "orders") released_db.pipeline_runs ≡ some ended_row
unfolding program
ended_run_is_final_example = ended_run_is_final 1 "orders" ended_row refl refl after_release

-- An operator leases the table again and moves its cursor back.
abbrev recovery_db : Metadata
recovery_db = (acquire_table_lease 150 none "commerce" "orders" 9 1800 released_db).1

abbrev earlier : CursorPosition
earlier = record { timestamp = some 80; keys = num 1 ∷ [] }

rewind_done :
    (rewind_watermark 160 none "commerce" "orders" 9 1 earlier recovery_db).0
    ≡ ok (record {
      pipeline_name = "commerce";
      source_table = "orders";
      cursor = earlier;
      version = 2;
    })
unfolding program
rewind_done = refl

recovery-Reach : Reach empty_metadata recovery_db
recovery-Reach =
    next
      (next (next started-Reach (committed 120 none first_commit started_db))
        (released 130 none held committed_db))
      (History.leased 150 none "commerce" "orders" 9 1800 released_db)

abbrev recovered : Watermark
recovered = record {
  pipeline_name = "commerce";
  source_table = "orders";
  cursor = earlier;
  version = 2;
}

rewind_moves_example :
    HasRewound "commerce" "orders" 9 1 160 earlier recovery_db
      (rewind_watermark 160 none "commerce" "orders" 9 1 earlier recovery_db).1
    × (recovered ≡ record {
      pipeline_name = "commerce";
      source_table = "orders";
      cursor = earlier;
      version = 2;
    })
unfolding program
rewind_moves_example =
    rewind_moves 160 160 none "commerce" "orders" 9 1 earlier recovered refl recovery-Reach refl
