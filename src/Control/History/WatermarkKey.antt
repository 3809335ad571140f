-- ===== src/Control/History/WatermarkKey.antt =====
-- The primary key of the watermarks, in the histories of src/ingestion/control.
use commerce_data_platform.Prelude.{
  ℕ, ◌+◌, String, Bool, true, ◌≡◌, refl, inl, inr, Option, some, arith, str_eq_iff,
}
use commerce_data_platform.Exceptions.{Result-cases}
use commerce_data_platform.Clock.{DateTime, utc, utc_now}
use commerce_data_platform.Cursor.{CursorPosition}
use commerce_data_platform.Records.{TableCommit, WatermarkRow, Metadata, empty_metadata}
use commerce_data_platform.Sql.{rowcount, update_where, insert_or_ignore}
use commerce_data_platform.Sql.Unique.{IsUnique, IsUnique-update_where, IsUnique-insert_or_ignore}
use commerce_data_platform.Control.Tables.{is_watermark}
use commerce_data_platform.Control.Watermarks.{
  new_watermark, get_or_create_watermark, rewind_watermark, fetch_or_create, rewindable, rewound_to,
}
use commerce_data_platform.Control.Runs.{
  record_started_run, record_failed_run, record_success_no_data_run,
  record_skipped_already_committed_run,
}
use commerce_data_platform.Control.Commit.{is_expected, advanced, commit_table_run}
use commerce_data_platform.Control.Commit.Effect.{commit_outcome}
use commerce_data_platform.Control.TableLease.{
  TableLease, acquirable, leased_by, renewable, extended_to, releasable, unleased,
  acquire_table_lease, renew_table_lease, release_table_lease,
}
use commerce_data_platform.Bronze.Orphan.{
  Evidence, OrphanCandidate, at_version, moved_up, reconcile_orphan,
}
use commerce_data_platform.Bronze.Reconciled.{reconcile_outcome}
use commerce_data_platform.Control.History.{
  Step, created, rewound, started, ended_failed, ended_no_data, ended_skipped, committed, leased,
  renewed, released, reconciled, Reach, here, next,
}

same_watermark :
    (p t p' t' : String) (now : ℕ)
    → is_watermark p t (new_watermark p' t' now) ≡ true
    → (r : WatermarkRow) → is_watermark p t r ≡ true
    → is_watermark p' t' r ≡ true
unfolding is_watermark
same_watermark p t p' t' now h r q = ground (
  arith,
  str_eq_iff p' p,
  str_eq_iff t' t,
  str_eq_iff r.pipeline_name p,
  str_eq_iff r.source_table t,
  str_eq_iff r.pipeline_name p',
  str_eq_iff r.source_table t',
)

module _ (p t : String) where
  abbrev pub OneWatermark : Metadata → Type 0
  OneWatermark db = IsUnique (is_watermark p t) db.watermarks

  OneWatermark-update :
      (q : WatermarkRow → Bool) (f : WatermarkRow → WatermarkRow) (db : Metadata)
      → ((r : WatermarkRow) → q r ≡ true → is_watermark p t (f r) ≡ is_watermark p t r)
      → OneWatermark db
      → IsUnique (is_watermark p t) (update_where q f db.watermarks)
  OneWatermark-update q f db = IsUnique-update_where (is_watermark p t) q f db.watermarks

  OneWatermark-create :
      (p' t' : String) (now : ℕ) (db : Metadata)
      → OneWatermark db
      → IsUnique
          (is_watermark p t)
          (insert_or_ignore (is_watermark p' t') (new_watermark p' t' now) db.watermarks)
  OneWatermark-create p' t' now db =
      IsUnique-insert_or_ignore (is_watermark p t) (is_watermark p' t') (new_watermark p' t' now)
        db.watermarks (same_watermark p t p' t' now)

  pub fetch_or_create-OneWatermark :
      (p' t' : String) (now : ℕ) (db : Metadata)
      → OneWatermark db
      → OneWatermark (fetch_or_create p' t' now db).1
  unfolding fetch_or_create
  fetch_or_create-OneWatermark p' t' now db h = OneWatermark-create p' t' now db h

  get_or_create-OneWatermark :
      (clock : ℕ) (now : Option DateTime) (p' t' : String) (db : Metadata)
      → OneWatermark db
      → OneWatermark (get_or_create_watermark clock now p' t' db).1
  unfolding get_or_create_watermark
  get_or_create-OneWatermark clock now p' t' db h = elim (Result-cases (utc_now clock now)) [
    | inl (n, time) ↦ ground (arith, fetch_or_create-OneWatermark p' t' n db h)
    | inr (e, late) ↦ ground arith
  ]

  -- The updates of the program leave the names of a watermark alone.
  rewind-OneWatermark :
      (clock : ℕ) (now : Option DateTime) (p' t' : String) (owner version : ℕ)
      (cursor : CursorPosition) (db : Metadata)
      → OneWatermark db
      → OneWatermark (rewind_watermark clock now p' t' owner version cursor db).1
  unfolding rewind_watermark is_watermark
  rewind-OneWatermark clock now p' t' owner version cursor db h =
      elim (Result-cases (utc_now clock now)) [
        | inl (n, time) ↦ ground (
          arith,
          OneWatermark-update (rewindable p' t' version owner n) (rewound_to cursor n)
              (fetch_or_create p' t' n db).1 (λ r _. refl)
              (fetch_or_create-OneWatermark p' t' n db h),
        )
        | inr (e, late) ↦ ground arith
      ]

  commit-OneWatermark :
      (clock : ℕ) (now : Option DateTime) (c : TableCommit) (db : Metadata)
      → OneWatermark db
      → OneWatermark (commit_table_run clock now c db).1
  unfolding is_watermark
  commit-OneWatermark clock now c db h = elim (commit_outcome clock now c db) [
    | inl same ↦ rw same h
    | inr (n, time, can, e) ↦
        rw e (OneWatermark-update (is_expected c) (advanced c n) db (λ r _. refl) h)
  ]

  acquire-OneWatermark :
      (clock : ℕ) (now : Option DateTime) (p' t' : String) (owner ttl : ℕ) (db : Metadata)
      → OneWatermark db
      → OneWatermark (acquire_table_lease clock now p' t' owner ttl db).1
  unfolding acquire_table_lease is_watermark
  acquire-OneWatermark clock now p' t' owner ttl db h = elim (Result-cases (utc_now clock now)) [
    | inl (n, time) ↦ ground (
      arith,
      get_or_create-OneWatermark clock (some (utc n)) p' t' db h,
      OneWatermark-update (acquirable p' t' owner n) (leased_by owner (n + ttl))
          (get_or_create_watermark clock (some (utc n)) p' t' db).1 (λ r _. refl)
          (get_or_create-OneWatermark clock (some (utc n)) p' t' db h),
    )
    | inr (e, late) ↦ ground arith
  ]

  renew-OneWatermark :
      (clock : ℕ) (now : Option DateTime) (lease : TableLease) (ttl : ℕ) (db : Metadata)
      → OneWatermark db
      → OneWatermark (renew_table_lease clock now lease ttl db).1
  unfolding renew_table_lease is_watermark
  renew-OneWatermark clock now lease ttl db h = elim (Result-cases (utc_now clock now)) [
    | inl (n, time) ↦
        ground (
          arith,
          OneWatermark-update (renewable lease n) (extended_to (n + ttl)) db (λ r _. refl) h,
        )
    | inr (e, late) ↦ ground arith
  ]

  release-OneWatermark :
      (clock : ℕ) (now : Option DateTime) (lease : TableLease) (db : Metadata)
      → OneWatermark db
      → OneWatermark (release_table_lease clock now lease db).1
  unfolding release_table_lease is_watermark
  release-OneWatermark clock now lease db h =
      ground (arith, OneWatermark-update (releasable lease) unleased db (λ r _. refl) h)

  reconcile-OneWatermark :
      (evidence : Evidence) (clock : ℕ) (now : Option DateTime) (candidate : OrphanCandidate)
      (db : Metadata)
      → OneWatermark db
      → OneWatermark (reconcile_orphan evidence clock now candidate db).1
  unfolding is_watermark
  reconcile-OneWatermark evidence clock now candidate db h =
      elim (reconcile_outcome evidence clock now candidate db) [
        | inl same ↦ rw same h
        | inr (m, key, time, run, watermark, read, looked, has_key, at, can, done, effect) ↦
            rw done (
              OneWatermark-update (at_version run.pipeline_name m.source_table watermark.version)
                (moved_up m time) db (λ r _. refl) h)
      ]

  pub OneWatermark-Step : {db db' : Metadata} → Step db db' → OneWatermark db → OneWatermark db'
  unfolding record_started_run record_failed_run record_success_no_data_run
      record_skipped_already_committed_run
  OneWatermark-Step (created clock now pipeline table db) h =
      get_or_create-OneWatermark clock now pipeline table db h
  OneWatermark-Step (rewound clock now pipeline table owner version cursor db) h =
      rewind-OneWatermark clock now pipeline table owner version cursor db h
  OneWatermark-Step (started clock now run db) h = ground arith
  OneWatermark-Step (ended_failed clock now run error_type message db) h = ground arith
  OneWatermark-Step (ended_no_data clock now run db) h = ground arith
  OneWatermark-Step (ended_skipped clock now run row_count db) h = ground arith
  OneWatermark-Step (committed clock now c db) h = commit-OneWatermark clock now c db h
  OneWatermark-Step (leased clock now pipeline table owner ttl db) h =
      acquire-OneWatermark clock now pipeline table owner ttl db h
  OneWatermark-Step (renewed clock now lease ttl db) h = renew-OneWatermark clock now lease ttl db h
  OneWatermark-Step (released clock now lease db) h = release-OneWatermark clock now lease db h
  OneWatermark-Step (reconciled evidence clock now candidate db) h =
      reconcile-OneWatermark evidence clock now candidate db h

-- In every history that starts from an empty database a table has one watermark at most.
pub one_watermark : (p t : String) {db : Metadata} → Reach empty_metadata db → OneWatermark p t db
unfolding rowcount
one_watermark p t here = omega arith
one_watermark p t (next r st) = OneWatermark-Step p t st (one_watermark p t r)
