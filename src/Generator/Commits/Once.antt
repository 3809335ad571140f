-- ===== src/Generator/Commits/Once.antt =====
-- The records of src/generator/core/commits.py over further runs.
use commerce_data_platform.Prelude.{
  ◌≡◌, refl, ◌∙◌, inl, inr, Bool, true, none, some, [], ◌∷◌, arith, Option-cases, str_eq_iff,
}
use commerce_data_platform.Exceptions.{ok, err, integrity_error}
use commerce_data_platform.Sql.{fetchone, insert}
use commerce_data_platform.Sql.Laws.{fetchone-append_some, fetchone-append_none}
use commerce_data_platform.Generator.Commits.{
  GeneratorConfig, CommittedResult, CommitRow, CommitTable, same_input, committed_result,
  commit_conflict, record_source_commit,
}

-- Further runs that are recorded, with any inputs and whatever the outcome.
pub data Reach (start : CommitTable) : CommitTable → Type 0 where
  here : Reach start start
  next :
      {rows : CommitTable} (config : GeneratorConfig) (result : CommittedResult)
      → Reach start rows
      → Reach start (record_source_commit config result rows).1

same_input_refl :
    (config : GeneratorConfig) (result : CommittedResult)
    → same_input config (record { config = config; result = result }) ≡ true
unfolding same_input
same_input_refl config result = ground (
  arith,
  str_eq_iff config.source_snapshot_id config.source_snapshot_id,
  str_eq_iff config.anomaly_profile config.anomaly_profile,
  str_eq_iff config.generator_version config.generator_version,
)

no_input :
    (config : GeneratorConfig) (result : CommittedResult) (rows : CommitTable)
    → fetchone (commit_conflict config result) rows ≡ none
    → fetchone (same_input config) rows ≡ none
unfolding fetchone commit_conflict
no_input config result [] h = refl
no_input config result (r ∷ rows) h = ground (arith, no_input config result rows)

some_conflict :
    (config : GeneratorConfig) (result : CommittedResult) (rows : CommitTable) (x : CommitRow)
    → fetchone (same_input config) rows ≡ some x
    → (y : CommitRow) × (fetchone (commit_conflict config result) rows ≡ some y)
some_conflict config result rows x found =
    elim (Option-cases (fetchone (commit_conflict config result) rows)) [
      | inl none_there ↦ absurd (ground (arith, no_input config result rows none_there))
      | inr there ↦ there
    ]

fetch_one : (p : CommitRow → Bool) (r : CommitRow) → p r ≡ true → fetchone p (r ∷ []) ≡ some r
unfolding fetchone
fetch_one p r h = ground arith

recorded :
    (config : GeneratorConfig) (result : CommittedResult) (rows : CommitTable)
    → (record_source_commit config result rows).0 ≡ ok tt
    → fetchone (same_input config) (record_source_commit config result rows).1
      ≡ some (record { config = config; result = result })
unfolding record_source_commit insert
recorded config result rows done =
    elim (Option-cases (fetchone (commit_conflict config result) rows)) [
      | inl fresh ↦
          rw (record_source_commit, insert, fresh)
            (fetchone-append_none (same_input config) rows
                (record { config = config; result = result } ∷ [])
                (no_input config result rows fresh)
              ∙ fetch_one (same_input config) (record { config = config; result = result })
                  (same_input_refl config result))
      | inr (x, there) ↦ absurd (ground arith)
    ]

stays :
    (config config' : GeneratorConfig) (result : CommittedResult) (rows : CommitTable)
    (x : CommitRow)
    → fetchone (same_input config) rows ≡ some x
    → fetchone (same_input config) (record_source_commit config' result rows).1 ≡ some x
unfolding record_source_commit insert
stays config config' result rows x found = ground (
  arith,
  fetchone-append_some (same_input config) rows (record { config = config'; result = result } ∷ [])
      x found,
)

stays_Reach :
    (config : GeneratorConfig) (x : CommitRow) {rows later : CommitTable}
    → fetchone (same_input config) rows ≡ some x
    → Reach rows later
    → fetchone (same_input config) later ≡ some x
stays_Reach config x found here = found
stays_Reach config x found (next {rows} config' result run) =
    stays config config' result rows x (stays_Reach config x found run)

-- After a run is recorded, whatever further runs are recorded, the look-up of its inputs gives its
-- result, and a second record of the same inputs is refused and changes nothing.
pub recorded_once :
    (config : GeneratorConfig) (result again : CommittedResult) (rows : CommitTable)
    {later : CommitTable}
    → (record_source_commit config result rows).0 ≡ ok tt
    → Reach (record_source_commit config result rows).1 later
    → (committed_result config later ≡ some result)
      × (record_source_commit config again later ≡ (err integrity_error, later))
unfolding committed_result record_source_commit insert
recorded_once config result again rows {later} done run =
    let found =
      stays_Reach config (record { config = config; result = result })
        (recorded config result rows done) run in
    let (y, there) =
      some_conflict config again later (record { config = config; result = result }) found in
    (ground arith, ground arith)
