-- ===== src/Control/History/Staleness.antt =====
-- A commit and the version of the watermark that it expects, with what else rests on that version:
-- another commit, and a renewal of the table lease.
use commerce_data_platform.Prelude.{
  ℕ, ◌+◌, ◌≤◌, ◌<◌, String, true, ◌≡◌, ◌≢◌, refl, inl, inr, Option, some, arith, Option-cases,
}
use commerce_data_platform.Exceptions.{Exception, ok, err, Result-cases}
use commerce_data_platform.Clock.{DateTime, utc_now}
use commerce_data_platform.Cursor.{eq_time_iff, eq_keys_iff}
use commerce_data_platform.Records.{TableCommit, WatermarkRow, Metadata, empty_metadata}
use commerce_data_platform.Sql.{fetchone, rowcount}
use commerce_data_platform.Sql.Laws.{fetchone-update_where, fetchone_sound, rowcount-fetchone}
use commerce_data_platform.Sql.Unique.{fetchone_widen}
use commerce_data_platform.Control.Tables.{is_watermark}
use commerce_data_platform.Control.Commit.{lease_fence, is_expected, advanced, commit_table_run}
use commerce_data_platform.Control.Commit.Effect.{
  watermark_of, after, commit-CanCommit, CanCommit-commit, commit_no_time,
}
use commerce_data_platform.Control.TableLease.{TableLease, renewable, renew_table_lease}
use commerce_data_platform.Control.History.{committed, Reach, here, next}
use commerce_data_platform.Control.History.WatermarkKey.{
  OneWatermark, OneWatermark-Step, one_watermark,
}
use commerce_data_platform.Control.History.Versions.{HasReached, HasReached-Reach, version_of}

-- What a commit at time `t` did to the watermark of its table.
pub record Moved (c : TableCommit) (t : ℕ) (db db' : Metadata) : Type 0 where
  pub row : WatermarkRow
  pub found : watermark_of c db ≡ some row
  pub version : row.version ≡ c.expected_watermark.version
  pub timestamp : row.watermark_timestamp ≡ c.expected_watermark.cursor.timestamp
  pub keys : row.watermark_keys ≡ c.expected_watermark.cursor.keys
  pub owner : row.lease_owner ≡ some c.lease_owner
  pub expiry : (e : ℕ) × (row.lease_expires_at ≡ some e) × (t < e)
  pub result :
      watermark_of c db'
      ≡ some (record row {
        watermark_timestamp = c.object.watermark_after.timestamp;
        watermark_keys = c.object.watermark_after.keys;
        version = row.version + 1;
        updated_at = t;
      })

abbrev OneOf : TableCommit → Metadata → Type 0
OneOf c = OneWatermark c.expected_watermark.pipeline_name c.expected_watermark.source_table

expected_key :
    (c : TableCommit) (r : WatermarkRow)
    → is_expected c r ≡ true
    → is_watermark c.expected_watermark.pipeline_name c.expected_watermark.source_table r ≡ true
unfolding is_expected
expected_key c r h = ground arith

expected_row :
    (c : TableCommit) (db : Metadata) (row : WatermarkRow)
    → OneOf c db
    → rowcount (is_expected c) db.watermarks ≡ 1
    → watermark_of c db ≡ some row
    → is_expected c row ≡ true
expected_row c db row one n found = ground (
  arith,
  rowcount-fetchone (is_expected c)
      (is_watermark c.expected_watermark.pipeline_name c.expected_watermark.source_table)
      db.watermarks row (expected_key c) one found,
)

after_row :
    (c : TableCommit) (t : ℕ) (db : Metadata) (row : WatermarkRow)
    → watermark_of c db ≡ some row
    → is_expected c row ≡ true
    → watermark_of c (after c t db) ≡ some (advanced c t row)
unfolding is_watermark
after_row c t db row found fits = ground (
  arith,
  fetchone-update_where
      (is_watermark c.expected_watermark.pipeline_name c.expected_watermark.source_table)
      (is_expected c) (advanced c t) db.watermarks (λ r _. refl),
)

module _ (clock t : ℕ) (now : Option DateTime) (time : utc_now clock now ≡ ok t) (c : TableCommit)
    (db : Metadata) where
  commit-Moved_row :
      (row : WatermarkRow)
      → OneOf c db
      → (commit_table_run clock now c db).0 ≡ ok tt
      → watermark_of c db ≡ some row
      → Moved c t db (commit_table_run clock now c db).1
  unfolding is_expected lease_fence is_watermark
  commit-Moved_row row one done found =
      let can = commit-CanCommit clock t now time c db done in
      let fits = expected_row c db row one can.watermark found in
      let fence = rw found at can.fence in
      record {
        row = row;
        found = found;
        version = ground arith;
        timestamp =
            ground
              (arith, eq_time_iff row.watermark_timestamp c.expected_watermark.cursor.timestamp);
        keys = ground (arith, eq_keys_iff row.watermark_keys c.expected_watermark.cursor.keys);
        owner = ground arith;
        expiry = ground arith;
        result = rw (CanCommit-commit clock t now time c db can) (after_row c t db row found fits);
      }

  pub commit-Moved :
      OneOf c db
      → (commit_table_run clock now c db).0 ≡ ok tt
      → Moved c t db (commit_table_run clock now c db).1
  unfolding lease_fence
  commit-Moved one done = elim (Option-cases (watermark_of c db)) [
    | inl missing ↦
        let can = commit-CanCommit clock t now time c db done in
        absurd (cc (rw missing at can.fence))
    | inr (row, found) ↦ commit-Moved_row row one done found
  ]

-- In every history that starts from an empty database, a commit that goes through found the table's watermark at the version and the
-- cursor that it expected, leased to its owner past the time of the commit, and left there the
-- object's cursor and the next version.
pub committed_moves :
    (clock t : ℕ) (now : Option DateTime) (c : TableCommit) {db : Metadata}
    → utc_now clock now ≡ ok t
    → Reach empty_metadata db
    → (commit_table_run clock now c db).0 ≡ ok tt
    → Moved c t db (commit_table_run clock now c db).1
committed_moves clock t now c {db} time start done =
    commit-Moved clock t now time c db
      (one_watermark c.expected_watermark.pipeline_name c.expected_watermark.source_table start)
      done

-- The version that a history has reached is at least the one that it started with.
commit-HasReached :
    (clock : ℕ) (now : Option DateTime) (c : TableCommit) (db : Metadata)
    → OneOf c db
    → (commit_table_run clock now c db).0 ≡ ok tt
    → HasReached c.expected_watermark.pipeline_name c.expected_watermark.source_table
        (c.expected_watermark.version + 1)
        (commit_table_run clock now c db).1
commit-HasReached clock now c db one done = elim (Result-cases (utc_now clock now)) [
  | inl (t, time) ↦
      let moved = commit-Moved clock t now time c db one done in
      rw moved.result (omega (arith, moved.version))
  | inr (e, late) ↦ absurd (ground (arith, commit_no_time clock now c db e late))
]

OneWatermark-Reach :
    (p t : String) {db later : Metadata}
    → OneWatermark p t db
    → Reach db later
    → OneWatermark p t later
OneWatermark-Reach p t h here = h
OneWatermark-Reach p t h (next r st) = OneWatermark-Step p t st (OneWatermark-Reach p t h r)

reached_refuses :
    (clock : ℕ) (now : Option DateTime) (c : TableCommit) (db : Metadata) (v : ℕ)
    → OneOf c db
    → HasReached c.expected_watermark.pipeline_name c.expected_watermark.source_table v db
    → c.expected_watermark.version < v
    → (commit_table_run clock now c db).0 ≢ ok tt
reached_refuses clock now c db v one reached old done = elim (Result-cases (utc_now clock now)) [
  | inl (t, time) ↦
      let moved = commit-Moved clock t now time c db one done in
      absurd (omega (arith, rw moved.found at reached, moved.version))
  | inr (e, late) ↦ absurd (ground (arith, commit_no_time clock now c db e late))
]

-- After a commit no later commit of the same pipeline and table goes through that expects the version of
-- before, or an older one, whatever control operations and reconciliations happen in between; the
-- history starts from an empty database.
pub stale_commit_refused :
    (clock clock' : ℕ) (now now' : Option DateTime) (c c' : TableCommit) {db later : Metadata}
    → Reach empty_metadata db
    → (commit_table_run clock now c db).0 ≡ ok tt
    → Reach (commit_table_run clock now c db).1 later
    → c'.expected_watermark.pipeline_name ≡ c.expected_watermark.pipeline_name
    → c'.expected_watermark.source_table ≡ c.expected_watermark.source_table
    → c'.expected_watermark.version ≤ c.expected_watermark.version
    → (commit_table_run clock' now' c' later).0 ≢ ok tt
stale_commit_refused clock clock' now now' c c' {db} {later} start done run pipeline table old =
    let one = λ (p t : String).
      OneWatermark-Reach p t
        (OneWatermark-Step p t (committed clock now c db) (one_watermark p t start)) run in
    let reached =
      HasReached-Reach c.expected_watermark.pipeline_name c.expected_watermark.source_table
        (c.expected_watermark.version + 1)
        (commit-HasReached clock now c db (one_watermark _ _ start) done) run in
    reached_refuses clock' now' c' later (c.expected_watermark.version + 1) (one _ _)
      (rw (pipeline, table) reached) (omega arith)

renewable_key :
    (lease : TableLease) (t : ℕ) (r : WatermarkRow)
    → renewable lease t r ≡ true
    → is_watermark lease.pipeline_name lease.source_table r ≡ true
unfolding renewable
renewable_key lease t r h = ground arith

renewable_version :
    (lease : TableLease) (t : ℕ) (r : WatermarkRow)
    → renewable lease t r ≡ true
    → r.version ≡ lease.watermark_version
unfolding renewable
renewable_version lease t r h = ground arith

renew_finds :
    (clock t : ℕ) (now : Option DateTime) (lease : TableLease) (ttl : ℕ) (db : Metadata)
    (renewed : TableLease)
    → utc_now clock now ≡ ok t
    → (renew_table_lease clock now lease ttl db).0 ≡ ok renewed
    → (r : WatermarkRow) × (fetchone (renewable lease t) db.watermarks ≡ some r)
unfolding renew_table_lease
renew_finds clock t now lease ttl db renewed time done = ground arith

renew_no_time :
    (clock : ℕ) (now : Option DateTime) (lease : TableLease) (ttl : ℕ) (db : Metadata)
    (e : Exception)
    → utc_now clock now ≡ err e
    → (renew_table_lease clock now lease ttl db).0 ≡ err e
unfolding renew_table_lease
renew_no_time clock now lease ttl db e h = rw (h, renew_table_lease)

-- A renewal goes through only while the watermark has the version of the lease.
renew_needs_version :
    (clock : ℕ) (now : Option DateTime) (lease : TableLease) (ttl : ℕ) (db : Metadata)
    (renewed : TableLease)
    → OneWatermark lease.pipeline_name lease.source_table db
    → (renew_table_lease clock now lease ttl db).0 ≡ ok renewed
    → version_of (fetchone (is_watermark lease.pipeline_name lease.source_table) db.watermarks)
      ≡ lease.watermark_version
renew_needs_version clock now lease ttl db renewed one done =
    elim (Result-cases (utc_now clock now)) [
      | inl (t, time) ↦
          let (r, found) = renew_finds clock t now lease ttl db renewed time done in
          rw
            (fetchone_widen (is_watermark lease.pipeline_name lease.source_table)
              (renewable lease t) db.watermarks r (renewable_key lease t) one found)
            (renewable_version lease t r (fetchone_sound (renewable lease t) db.watermarks r found))
      | inr (e, late) ↦ absurd (cc (renew_no_time clock now lease ttl db e late))
    ]

-- The commit of a table takes the table lease's version with it: in a history from an empty
-- database, a lease of the same pipeline and table with the version of before, or an older one,
-- cannot be renewed any more, whatever control operations and reconciliations happen in between.
pub lease_spent_by_commit :
    (clock clock' : ℕ) (now now' : Option DateTime) (c : TableCommit) (lease renewed : TableLease)
    (ttl : ℕ) {db later : Metadata}
    → Reach empty_metadata db
    → (commit_table_run clock now c db).0 ≡ ok tt
    → Reach (commit_table_run clock now c db).1 later
    → lease.pipeline_name ≡ c.expected_watermark.pipeline_name
    → lease.source_table ≡ c.expected_watermark.source_table
    → lease.watermark_version ≤ c.expected_watermark.version
    → (renew_table_lease clock' now' lease ttl later).0 ≢ ok renewed
lease_spent_by_commit clock clock' now now' c lease renewed ttl {db} {later} start done run pipeline
      table old again =
    let one = λ (p t : String).
      OneWatermark-Reach p t
        (OneWatermark-Step p t (committed clock now c db) (one_watermark p t start)) run in
    let reached =
      HasReached-Reach c.expected_watermark.pipeline_name c.expected_watermark.source_table
        (c.expected_watermark.version + 1)
        (commit-HasReached clock now c db (one_watermark _ _ start) done) run in
    let same = renew_needs_version clock' now' lease ttl later renewed (one _ _) again in
    absurd (omega (arith, rw (pipeline, table) at same))
