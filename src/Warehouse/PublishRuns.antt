-- ===== src/Warehouse/PublishRuns.antt =====
-- src/warehouse/publish_metadata.py: the runs that publish the marts, with the checks and the two
-- unique keys of their table. The limits on the lengths of its columns are left out.
pub mod Operations
pub mod History
pub mod Changes
pub mod Invariants
use mathlib.Core.Option
use commerce_data_platform.Prelude.{
  ℕ, zero, suc, String, Bool, true, false, not, ◌&&◌, ◌||◌, Option, none, some, List, [], ◌∷◌, ◌++◌,
  ltb, ◌==◌, str_eq, if◌then◌else◌,
}
use Prim.Native.String
use commerce_data_platform.Exceptions.{
  Exception, Result, ok, err, publish_in_progress, publish_state, integrity_error,
}
use commerce_data_platform.Action.{Action, pure, gets, raise_if, transaction, ◌>>=◌, ◌>>◌}
use commerce_data_platform.Order.{number_order, list_order}
use commerce_data_platform.Sql.{select, fetchone, rowcount, update_where}
use commerce_data_platform.Sql.OrderBy.{order_by, descending}

pub data PublishStatus : Type 0 where
  building publishing published failed : PublishStatus

pub record PublishRun : Type 0 where
  pub publish_run_id : ℕ
  pub pipeline_name : String
  pub batch_id : Option String
  pub dag_run_id : Option String

-- A row of `mart_publish_runs`.
pub record PublishRow : Type 0 where
  pub publish_run_id : ℕ
  pub pipeline_name : String
  pub batch_id : Option String
  pub dag_run_id : Option String
  pub dbt_invocation_id : Option String
  pub status : PublishStatus
  pub error_type : Option String
  pub error_message : Option String
  pub previous_publish_run_id : Option ℕ
  pub mart_hashes : Option (List (String × String))
  pub mart_row_counts : Option (List (String × ℕ))
  pub published_identity : Option (ℕ × ℕ)
  pub tests_passed : ℕ
  pub tests_failed : ℕ
  pub failed_path : Option String
  pub started_at : ℕ
  pub heartbeat_at : Option ℕ
  pub finished_at : Option ℕ

abbrev pub PublishTable : Type 0
PublishTable = List PublishRow

unfoldable pub is_building : PublishStatus → Bool
is_building building = true
is_building status = false

unfoldable pub is_publishing : PublishStatus → Bool
is_publishing publishing = true
is_publishing status = false

unfoldable pub is_published : PublishStatus → Bool
is_published published = true
is_published status = false

unfoldable pub is_failed : PublishStatus → Bool
is_failed failed = true
is_failed status = false

-- `ACTIVE_STATUSES`
unfoldable pub is_active_status : PublishStatus → Bool
unfolding is_building is_publishing
is_active_status status = is_building status || is_publishing status

unfoldable pub is_active : PublishRow → Bool
is_active r = is_active_status r.status

unfoldable pub has_id : ℕ → PublishRow → Bool
has_id run_id r = r.publish_run_id == run_id

abbrev is_some {ℓ} : {A : Type ℓ} → Option A → Bool
is_some none = false
is_some (some a) = true

abbrev named : Option String → Bool
named none = false
named (some text) = not (str_eq text "")

-- The checks of the table: finished, error and hash, and a name for the pipeline.
unfoldable pub row_check : PublishRow → Bool
unfolding is_active_status is_failed is_publishing is_published
row_check r =
    not (str_eq r.pipeline_name "")
    && (if is_active_status r.status then not (is_some r.finished_at) else is_some r.finished_at)
    && (if is_failed r.status
        then named r.error_type
        else not (is_some r.error_type) && not (is_some r.error_message))
    && (if is_publishing r.status || is_published r.status
        then is_some r.mart_hashes && is_some r.mart_row_counts
        else true)

-- Every row that `UPDATE … SET f WHERE p` writes passes the checks.
unfoldable pub updates_pass : (PublishRow → Bool) → (PublishRow → PublishRow) → PublishTable → Bool
updates_pass p f [] = true
updates_pass p f (r ∷ rs) = (if p r then row_check (f r) else true) && updates_pass p f rs

-- An update keeps the keys: it writes neither an identifier nor an active status on a row that was
-- not active.
unfoldable pub update_checked :
    (PublishRow → Bool) → (PublishRow → PublishRow) → Action PublishTable ℕ
update_checked p f rows =
    if updates_pass p f rows
    then (ok (rowcount p rows), update_where p f rows)
    else (err integrity_error, rows)

-- `ORDER BY finished_at DESC, started_at DESC`: a null comes first.
abbrev finished_key : PublishRow → List ℕ
finished_key r = elim r.finished_at [
  | none ↦ 1 ∷ r.started_at ∷ []
  | some t ↦ 0 ∷ t ∷ r.started_at ∷ []
]

abbrev head : PublishTable → Option PublishRow
head [] = none
head (r ∷ rs) = some r

unfoldable pub latest_published : PublishTable → Option PublishRow
unfolding is_published
latest_published rows = head (
    order_by (descending (list_order number_order)) finished_key
      (select (λ r. is_published r.status) rows))

abbrev pub new_row : PublishRun → Option ℕ → ℕ → PublishRow
new_row run previous now = record {
  publish_run_id = run.publish_run_id;
  pipeline_name = run.pipeline_name;
  batch_id = run.batch_id;
  dag_run_id = run.dag_run_id;
  dbt_invocation_id = none;
  status = building;
  error_type = none;
  error_message = none;
  previous_publish_run_id = previous;
  mart_hashes = none;
  mart_row_counts = none;
  published_identity = none;
  tests_passed = 0;
  tests_failed = 0;
  failed_path = none;
  started_at = now;
  heartbeat_at = some now;
  finished_at = none;
}

-- The checks come before the keys, and the primary key before the index on the active runs.
unfoldable pub insert_row : PublishRow → Action PublishTable (Unit {0})
insert_row r rows =
    if not (row_check r)
    then (err integrity_error, rows)
    else elim (fetchone (has_id r.publish_run_id) rows) [
      | some x ↦ (err integrity_error, rows)
      | none ↦ elim (fetchone is_active rows) [
        | some x ↦ (err publish_in_progress, rows)
        | none ↦ (ok tt, rows ++ r ∷ [])
      ]
    ]
