-- ===== src/Warehouse/Tests.antt =====
-- A publish run from its start to its end, and the theorems of the publish runs at it.
use commerce_data_platform.Prelude.{◌≡◌, refl, true, none, some, [], ◌∷◌}
use commerce_data_platform.Exceptions.{err, publish_in_progress, publish_state, integrity_error}
use commerce_data_platform.Sql.{select, fetchone, rowcount, update_where}
use commerce_data_platform.Sql.Unique.{IsUnique}
use commerce_data_platform.Sql.OrderBy.{order_by}
use commerce_data_platform.Warehouse.PublishRuns.{
  PublishRun, PublishRow, PublishTable, published, is_building, is_publishing, is_published,
  is_failed, is_active_status, is_active, has_id, row_check, updates_pass, update_checked,
  latest_published, insert_row,
}
use commerce_data_platform.Warehouse.PublishRuns.Operations.{
  start_publish_run, transition, mark_publishing, mark_published, mark_failed, close_stale_run,
  is_stale,
}
use commerce_data_platform.Warehouse.PublishRuns.History.{
  Reach, here, next, started, replacing, replaced,
}
use commerce_data_platform.Warehouse.PublishRuns.Invariants.{
  one_active, IsComplete, published-IsComplete, published_run_is_final, HasFailed,
  failed_run_stays_failed,
}

program : Unit {0}
unfolding start_publish_run transition mark_publishing mark_published mark_failed close_stale_run
    is_stale is_building is_publishing is_published is_failed is_active_status is_active has_id
    row_check updates_pass update_checked latest_published insert_row select fetchone rowcount
    update_where order_by
program = tt

abbrev run : PublishRun
run = record { publish_run_id = 1; pipeline_name = "mart"; batch_id = none; dag_run_id = none }

abbrev second_run : PublishRun
second_run = record run { publish_run_id = 2 }

abbrev started_runs : PublishTable
started_runs = (start_publish_run run 10 []).1

abbrev replacing_runs : PublishTable
replacing_runs = (mark_publishing 1 (("m", "h") ∷ []) (("m", 3) ∷ []) (5, 6) started_runs).1

abbrev published_runs : PublishTable
published_runs = (mark_published 1 20 replacing_runs).1

abbrev failed_runs : PublishTable
failed_runs = (mark_failed 1 "DBT_BUILD_ERROR" "model" none 15 started_runs).1

second_start : (start_publish_run second_run 11 started_runs).0 ≡ err publish_in_progress
unfolding program
second_start = refl

early_publish : (mark_published 1 20 started_runs).0 ≡ err publish_state
unfolding program
early_publish = refl

-- The table refuses a published run without hashes.
close_building : (close_stale_run 1 true 100 200 started_runs).0 ≡ err integrity_error
unfolding program
close_building = refl

started-Reach : Reach [] started_runs
started-Reach = next here (started run 10 [])

published-Reach : Reach [] published_runs
published-Reach =
    next (next started-Reach (replacing 1 (("m", "h") ∷ []) (("m", 3) ∷ []) (5, 6) started_runs))
      (replaced 1 20 replacing_runs)

one_active_example : IsUnique is_active started_runs
one_active_example = one_active started-Reach

abbrev published_row : PublishRow
published_row = record {
  publish_run_id = 1;
  pipeline_name = "mart";
  batch_id = none;
  dag_run_id = none;
  dbt_invocation_id = none;
  status = published;
  error_type = none;
  error_message = none;
  previous_publish_run_id = none;
  mart_hashes = some (("m", "h") ∷ []);
  mart_row_counts = some (("m", 3) ∷ []);
  published_identity = some (5, 6);
  tests_passed = 0;
  tests_failed = 0;
  failed_path = none;
  started_at = 10;
  heartbeat_at = some 10;
  finished_at = some 20;
}

published-IsComplete_example : IsComplete published_row
unfolding program
published-IsComplete_example =
    published-IsComplete 1 published_row {rows = published_runs} published-Reach refl refl

published_run_is_final_example :
    fetchone (has_id 1) (start_publish_run second_run 30 published_runs).1 ≡ some published_row
unfolding program
published_run_is_final_example =
    published_run_is_final 1 published_row {rows = published_runs} refl refl
      (next here (started second_run 30 published_runs))

failed_run_stays_failed_example : HasFailed 1 (mark_published 1 20 failed_runs).1
unfolding program
failed_run_stays_failed_example =
    failed_run_stays_failed 1 {rows = failed_runs} (_, refl, refl)
      (next here (replaced 1 20 failed_runs))
