-- ===== src/Generator/Commits.antt =====
-- src/generator/core/commits.py: the record of a generator run that is committed with its changes,
-- under the unique key of its inputs in sql/source/004_create_generator_commits.sql.
pub mod Once
use mathlib.Core.Option
use commerce_data_platform.Prelude.{ℕ, String, Bool, ◌&&◌, ◌||◌, Option, List, ◌==◌, str_eq}
use commerce_data_platform.Exceptions.{Result, ok, err}
use commerce_data_platform.Action.{Action}
use commerce_data_platform.Sql.{fetchone, insert}

-- The inputs that make a run deterministic; the seed is counted from its least value.
pub record GeneratorConfig : Type 0 where
  pub source_snapshot_id : String
  pub random_seed : ℕ
  pub logical_date : ℕ
  pub order_count : ℕ
  pub anomaly_profile : String
  pub generator_version : String
  pub progress_time_scale : ℕ

pub record CommittedResult : Type 0 where
  pub generator_run_id : ℕ
  pub result_counts : List (String × ℕ)
  pub logical_content_hash : String

pub record CommitRow : Type 0 where
  pub config : GeneratorConfig
  pub result : CommittedResult

abbrev pub CommitTable : Type 0
CommitTable = List CommitRow

-- The `WHERE` of the look-up, and the unique index.
unfoldable pub same_input : GeneratorConfig → CommitRow → Bool
same_input config r =
    str_eq r.config.source_snapshot_id config.source_snapshot_id
    && r.config.random_seed == config.random_seed
    && r.config.logical_date == config.logical_date
    && r.config.order_count == config.order_count
    && str_eq r.config.anomaly_profile config.anomaly_profile
    && str_eq r.config.generator_version config.generator_version
    && r.config.progress_time_scale == config.progress_time_scale

unfoldable pub committed_result : GeneratorConfig → CommitTable → Option CommittedResult
committed_result config rows =
    Option.map (λ (r : CommitRow). r.result) (fetchone (same_input config) rows)

unfoldable pub commit_conflict : GeneratorConfig → CommittedResult → CommitRow → Bool
commit_conflict config result r =
    r.result.generator_run_id == result.generator_run_id || same_input config r

abbrev kept : CommitTable → Result CommitTable → Result (Unit {0}) × CommitTable
kept rows (ok rows') = (ok tt, rows')
kept rows (err e) = (err e, rows)

unfoldable pub record_source_commit :
    GeneratorConfig → CommittedResult → Action CommitTable (Unit {0})
record_source_commit config result rows =
    kept rows
      (insert (commit_conflict config result) (record { config = config; result = result }) rows)
