-- ===== src/Control/Commit/Effect.antt =====
-- The conditions and the effect of `commit_table_run` of src/ingestion/control/metadata.py.
use commerce_data_platform.Prelude.{ℕ, ◌≡◌, ◌⊎◌, inl, inr, Option, none, [], ◌∷◌, ◌++◌, arith}
use commerce_data_platform.Exceptions.{Exception, Result-cases, ok, err}
use commerce_data_platform.Clock.{DateTime, utc_now}
use commerce_data_platform.Records.{TableCommit, WatermarkRow, Metadata}
use commerce_data_platform.Sql.{fetchone, rowcount, update_where, insert}
use commerce_data_platform.Control.Tables.{is_watermark}
use commerce_data_platform.Control.Runs.{is_running}
use commerce_data_platform.Control.Commit.{
  lease_fence, same_object, insert_quarantine, insert_object, new_object, is_expected, succeeded,
  advanced, advance_watermark, commit_table_run,
}

abbrev pub watermark_of : TableCommit → Metadata → Option WatermarkRow
watermark_of c db =
    fetchone (is_watermark c.expected_watermark.pipeline_name c.expected_watermark.source_table)
      db.watermarks

-- What a commit at time `t` finds in the database.
pub record CanCommit (c : TableCommit) (t : ℕ) (db : Metadata) : Type 0 where
  pub fence : lease_fence c.lease_owner t (watermark_of c db) ≡ ok tt
  pub quarantine : (insert_quarantine c.quarantine t db).0 ≡ ok tt
  pub new_object :
      fetchone (same_object c.object.table_batch_id c.object.object_key) db.bronze_objects ≡ none
  pub run : rowcount (is_running c.run) db.pipeline_runs ≡ 1
  pub watermark : rowcount (is_expected c) db.watermarks ≡ 1

-- The database after it.
abbrev pub after : TableCommit → ℕ → Metadata → Metadata
after c t db = record {
  watermarks = update_where (is_expected c) (advanced c t) db.watermarks;
  pipeline_runs = update_where (is_running c.run) (succeeded c t) db.pipeline_runs;
  bronze_objects = db.bronze_objects ++ new_object c t ∷ [];
  quarantine_batches = (insert_quarantine c.quarantine t db).1.quarantine_batches;
}

module _ (clock t : ℕ) (now : Option DateTime) (time : utc_now clock now ≡ ok t) (c : TableCommit)
    (db : Metadata) where
  -- A commit that finds what it needs goes through: it adds the object and the quarantine batch,
  -- ends the run, and advances the watermark to the object's cursor and the next version, all at
  -- the time of the commit.
  pub CanCommit-commit : CanCommit c t db → commit_table_run clock now c db ≡ (ok tt, after c t db)
  unfolding commit_table_run insert_object insert_quarantine insert advance_watermark
  CanCommit-commit h = rw (time, commit_table_run) (ground arith)

  pub commit-CanCommit : (commit_table_run clock now c db).0 ≡ ok tt → CanCommit c t db
  unfolding commit_table_run insert_object insert_quarantine insert advance_watermark
  commit-CanCommit h =
      let h' = rw (time, commit_table_run) at h in
      record {
        fence = ground arith;
        quarantine = ground arith;
        new_object = ground arith;
        run = ground arith;
        watermark = ground arith;
      }

-- A commit that raises leaves the database as it was.
pub commit_atomic :
    (clock : ℕ) (now : Option DateTime) (c : TableCommit) (db : Metadata) (e : Exception)
    → (commit_table_run clock now c db).0 ≡ err e
    → (commit_table_run clock now c db).1 ≡ db
unfolding commit_table_run
commit_atomic clock now c db e h = ground arith

pub commit_no_time :
    (clock : ℕ) (now : Option DateTime) (c : TableCommit) (db : Metadata) (e : Exception)
    → utc_now clock now ≡ err e
    → (commit_table_run clock now c db).0 ≡ err e
unfolding commit_table_run
commit_no_time clock now c db e h = rw (h, commit_table_run)

-- A commit makes all of its changes, and found what they need, or it makes none.
pub commit_outcome :
    (clock : ℕ) (now : Option DateTime) (c : TableCommit) (db : Metadata)
    → ((commit_table_run clock now c db).1 ≡ db)
      ⊎ ((t : ℕ) × (utc_now clock now ≡ ok t)
          × CanCommit c t db
          × (commit_table_run clock now c db ≡ (ok tt, after c t db)))
commit_outcome clock now c db = elim (Result-cases (commit_table_run clock now c db).0) [
  | inr (e, h) ↦ inl (commit_atomic clock now c db e h)
  | inl (u, h) ↦ elim (Result-cases (utc_now clock now)) [
    | inl (t, time) ↦
        let can = commit-CanCommit clock t now time c db h in
        inr (t, time, can, CanCommit-commit clock t now time c db can)
    | inr (e, late) ↦ absurd (ground (arith, commit_no_time clock now c db e late))
  ]
]
