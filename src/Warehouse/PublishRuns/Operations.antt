-- ===== src/Warehouse/PublishRuns/Operations.antt =====
-- The functions of src/warehouse/publish_metadata.py on the table of publish runs.
use mathlib.Core.Option
use commerce_data_platform.Prelude.{
  ℕ, zero, suc, String, Bool, true, false, not, ◌&&◌, Option, none, some, List, [], ◌∷◌, ltb, ◌==◌,
  str_eq,
}
use commerce_data_platform.Exceptions.{ok, err, publish_in_progress, publish_state}
use commerce_data_platform.Action.{Action, pure, gets, raise_if, transaction, ◌>>=◌, ◌>>◌}
use commerce_data_platform.Order.{number_order}
use commerce_data_platform.Sql.{select, fetchone}
use commerce_data_platform.Sql.OrderBy.{order_by}
use commerce_data_platform.Warehouse.PublishRuns.{
  PublishStatus, publishing, published, failed, PublishRun, PublishRow, PublishTable, is_building,
  is_publishing, is_failed, is_active_status, is_active, has_id, update_checked, latest_published,
  new_row, insert_row,
}

unfoldable pub start_publish_run : PublishRun → ℕ → Action PublishTable PublishRow
start_publish_run run now = do
  previous ←
      gets (λ rows. Option.map (λ (r : PublishRow). r.publish_run_id) (latest_published rows))
  insert_row (new_row run previous now)
  pure (new_row run previous now)

-- `_transition`: the update of one row in an expected status, or an error.
unfoldable pub transition :
    ℕ → (PublishStatus → Bool) → (PublishRow → PublishRow) → Action PublishTable (Unit {0})
transition run_id expected f = transaction do
  updated ← update_checked (λ r. has_id run_id r && expected r.status) f
  raise_if (not (updated == 1)) publish_state

abbrev pub tested_with : Option String → ℕ → ℕ → PublishRow → PublishRow
tested_with invocation_id passed fails r = record r {
  dbt_invocation_id = invocation_id;
  tests_passed = passed;
  tests_failed = fails;
}

unfoldable pub record_dbt_result : ℕ → Option String → ℕ → ℕ → Action PublishTable (Unit {0})
record_dbt_result run_id invocation_id passed fails =
    transition run_id is_building (tested_with invocation_id passed fails)

abbrev pub replacing_with :
    List (String × String) → List (String × ℕ) → ℕ × ℕ → PublishRow → PublishRow
replacing_with hashes counts identity r = record r {
  status = publishing;
  mart_hashes = some hashes;
  mart_row_counts = some counts;
  published_identity = some identity;
}

unfoldable pub mark_publishing :
    ℕ → List (String × String) → List (String × ℕ) → ℕ × ℕ → Action PublishTable (Unit {0})
mark_publishing run_id hashes counts identity =
    transition run_id is_building (replacing_with hashes counts identity)

abbrev pub published_at : ℕ → PublishRow → PublishRow
published_at now r = record r { status = published; finished_at = some now }

unfoldable pub mark_published : ℕ → ℕ → Action PublishTable (Unit {0})
mark_published run_id now = transition run_id is_publishing (published_at now)

-- `error_message[:n]`
abbrev pub text_take : ℕ → String → String
text_take zero s = String.[]
text_take (suc n) String.[] = String.[]
text_take (suc n) (String.◌∷◌ c s) = String.◌∷◌ c (text_take n s)

abbrev pub ended_failed : String → String → Option String → ℕ → PublishRow → PublishRow
ended_failed error_type message path now r = record r {
  status = failed;
  error_type = some error_type;
  error_message = some message;
  failed_path = path;
  finished_at = some now;
}

unfoldable pub mark_failed :
    ℕ → String → String → Option String → ℕ → Action PublishTable (Unit {0})
mark_failed run_id error_type message path now =
    transition run_id is_active_status (ended_failed error_type (text_take 4000 message) path now)

unfoldable pub get_publish_run : ℕ → PublishTable → Option PublishRow
get_publish_run run_id rows = fetchone (has_id run_id) rows

-- `COALESCE(heartbeat_at, started_at) < stale_before`
unfoldable pub is_stale : ℕ → PublishRow → Bool
is_stale stale_before r =
    ltb (elim r.heartbeat_at [ none ↦ r.started_at | some t ↦ t ]) stale_before

unfoldable pub stale_active_runs : ℕ → PublishTable → List PublishRow
stale_active_runs stale_before rows =
    order_by number_order (λ (r : PublishRow). r.started_at)
      (select (λ r. is_active r && is_stale stale_before r) rows)

abbrev pub seen_at : ℕ → PublishRow → PublishRow
seen_at now r = record r { heartbeat_at = some now }

unfoldable pub touch_publish_run : ℕ → ℕ → Action PublishTable Bool
touch_publish_run run_id now = do
  updated ← update_checked (λ r. has_id run_id r && is_active r) (seen_at now)
  pure (updated == 1)

abbrev pub closed_as : Bool → ℕ → PublishRow → PublishRow
closed_as true now r = record r {
  status = published;
  finished_at = some now;
  error_type = none;
  error_message = none;
}
closed_as false now r = record r {
  status = failed;
  finished_at = some now;
  error_type = some "UNKNOWN_ERROR";
  error_message = some "abandoned";
}

unfoldable pub close_stale_run : ℕ → Bool → ℕ → ℕ → Action PublishTable Bool
close_stale_run run_id as_published stale_before now = do
  updated ←
      update_checked (λ r. has_id run_id r && is_active r && is_stale stale_before r)
        (closed_as as_published now)
  pure (updated == 1)

abbrev same_text : Option String → String → Bool
same_text none s = false
same_text (some t) s = str_eq t s

-- `WHERE` of the reclaim.
unfoldable pub reclaimable : String → String → PublishRow → Bool
reclaimable pipeline dag_run_id r =
    is_building r.status && str_eq r.pipeline_name pipeline && same_text r.dag_run_id dag_run_id

abbrev ids : PublishTable → List ℕ
ids [] = []
ids (r ∷ rs) = r.publish_run_id ∷ ids rs

abbrev pub reclaimed : ℕ → PublishRow → PublishRow
reclaimed now r = record r {
  status = failed;
  error_type = some "UNKNOWN_ERROR";
  error_message = some "abandoned: reclaimed by same DAG run retry";
  finished_at = some now;
}

unfoldable pub close_dag_run_building : String → String → ℕ → Action PublishTable (List ℕ)
close_dag_run_building pipeline dag_run_id now = do
  found ← gets (select (reclaimable pipeline dag_run_id))
  count ← update_checked (reclaimable pipeline dag_run_id) (reclaimed now)
  pure (ids found)

abbrev pub filed_at : String → PublishRow → PublishRow
filed_at path r = record r { failed_path = some path }

unfoldable pub record_failed_path : ℕ → String → Action PublishTable (Unit {0})
record_failed_path run_id path = transition run_id is_failed (filed_at path)

unfoldable pub assert_no_active_publish : Action PublishTable (Unit {0})
assert_no_active_publish rows = elim (fetchone is_active rows) [
  | none ↦ (ok tt, rows)
  | some r ↦ (err publish_in_progress, rows)
]
