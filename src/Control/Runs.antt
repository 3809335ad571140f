-- ===== src/Control/Runs.antt =====
-- The runs of src/ingestion/control/metadata.py: how a run starts, and the three ways in which it
-- ends without a commit.
use commerce_data_platform.Prelude.{
  ℕ, String, Bool, true, false, not, ◌&&◌, Option, none, some, ◌==◌,
}
use commerce_data_platform.Exceptions.{pipeline_run_state, value_error}
use commerce_data_platform.Action.{Action, raise_if, lift, transaction, ◌>>=◌, ◌>>◌}
use commerce_data_platform.Clock.{DateTime, utc_now}
use commerce_data_platform.Records.{
  PipelineRun, running, success_no_data, skipped_already_committed, failed, is_running_status,
  RunRow, Metadata, assert_nonempty,
}
use commerce_data_platform.Sql.{insert}
use commerce_data_platform.Control.Tables.{is_run, update_runs, set_runs}

abbrev pub new_run : PipelineRun → ℕ → RunRow
new_run run now = record {
  run_id = run.run_id;
  source_table = run.source_table;
  pipeline_name = run.pipeline_name;
  batch_id = run.batch_id;
  dag_id = run.dag_id;
  logical_date = run.logical_date;
  attempt_number = run.attempt_number;
  started_at = now;
  finished_at = none;
  watermark_before = run.watermark_before;
  extract_upper_bound = run.extract_upper_bound;
  rows_extracted = 0;
  rows_valid = 0;
  rows_rejected = 0;
  rows_loaded = 0;
  status = running;
  error_type = none;
  error_message = none;
}

unfoldable pub record_started_run : ℕ → Option DateTime → PipelineRun → Action Metadata (Unit {0})
record_started_run clock now run = do
  current_time ← lift (utc_now clock now)
  transaction (λ db.
      set_runs db
        (insert (is_run run.run_id run.source_table) (new_run run current_time) db.pipeline_runs))

-- `WHERE run_id = … AND source_table = … AND status = 'RUNNING'`
unfoldable pub is_running : PipelineRun → RunRow → Bool
unfolding is_running_status
is_running run r = is_run run.run_id run.source_table r && is_running_status r.status

-- The update of one running row, which every end of a run makes.
abbrev pub finish_run : PipelineRun → (RunRow → RunRow) → Action Metadata (Unit {0})
finish_run run f = do
  updated ← update_runs (is_running run) f
  raise_if (not (updated == 1)) pipeline_run_state

abbrev pub failed_with : String → Option String → ℕ → RunRow → RunRow
failed_with error_type error_message now r = record r {
  finished_at = some now;
  status = failed;
  error_type = some error_type;
  error_message = error_message;
}

abbrev pub ended_empty : ℕ → RunRow → RunRow
ended_empty now r = record r { finished_at = some now; status = success_no_data }

abbrev pub skipped_with : ℕ → ℕ → RunRow → RunRow
skipped_with row_count now r = record r {
  finished_at = some now;
  rows_extracted = row_count;
  rows_valid = row_count;
  rows_loaded = row_count;
  status = skipped_already_committed;
}

unfoldable pub record_failed_run :
    ℕ → Option DateTime → PipelineRun → String → Option String → Action Metadata (Unit {0})
record_failed_run clock now run error_type error_message = do
  lift (assert_nonempty error_type (some 64))
  current_time ← lift (utc_now clock now)
  transaction (finish_run run (failed_with error_type error_message current_time))

abbrev has_bound : PipelineRun → Bool
has_bound run = elim run.extract_upper_bound [ none ↦ false | some _ ↦ true ]

unfoldable pub record_success_no_data_run :
    ℕ → Option DateTime → PipelineRun → Action Metadata (Unit {0})
record_success_no_data_run clock now run = do
  raise_if (has_bound run) value_error
  current_time ← lift (utc_now clock now)
  transaction (finish_run run (ended_empty current_time))

-- The row count is not negative by its type.
unfoldable pub record_skipped_already_committed_run :
    ℕ → Option DateTime → PipelineRun → ℕ → Action Metadata (Unit {0})
record_skipped_already_committed_run clock now run row_count = do
  current_time ← lift (utc_now clock now)
  transaction (finish_run run (skipped_with row_count current_time))
