-- ===== src/Control/History/Versions.antt =====
-- The version of a watermark, in the histories of src/ingestion/control.
use commerce_data_platform.Prelude.{
  ℕ, ◌+◌, ◌≤◌, String, Bool, true, ◌≡◌, refl, inl, inr, Option, none, some, [], ◌∷◌, arith,
  Option-cases,
}
use commerce_data_platform.Exceptions.{Result-cases}
use commerce_data_platform.Clock.{DateTime, utc, utc_now}
use commerce_data_platform.Cursor.{CursorPosition}
use commerce_data_platform.Records.{TableCommit, WatermarkRow, Metadata}
use commerce_data_platform.Sql.{fetchone, update_where, insert_or_ignore}
use commerce_data_platform.Sql.Laws.{fetchone-update_where, fetchone-append_some}
use commerce_data_platform.Control.Tables.{is_watermark}
use commerce_data_platform.Control.Watermarks.{
  new_watermark, get_or_create_watermark, rewind_watermark, fetch_or_create, rewindable, rewound_to,
}
use commerce_data_platform.Control.Runs.{
  record_started_run, record_failed_run, record_success_no_data_run,
  record_skipped_already_committed_run,
}
use commerce_data_platform.Control.Commit.{is_expected, advanced, commit_table_run}
use commerce_data_platform.Control.Commit.Effect.{commit_outcome}
use commerce_data_platform.Control.TableLease.{
  TableLease, acquirable, leased_by, renewable, extended_to, releasable, unleased,
  acquire_table_lease, renew_table_lease, release_table_lease,
}
use commerce_data_platform.Bronze.Orphan.{
  Evidence, OrphanCandidate, at_version, moved_up, reconcile_orphan,
}
use commerce_data_platform.Bronze.Reconciled.{reconcile_outcome}
use commerce_data_platform.Control.History.{
  Step, created, rewound, started, ended_failed, ended_no_data, ended_skipped, committed, leased,
  renewed, released, reconciled, Reach, here, next,
}

abbrev pub version_of : Option WatermarkRow → ℕ
version_of none = 0
version_of (some r) = r.version

module _ (p t : String) (v : ℕ) where
  -- The version of the table's watermark has come to `v`.
  abbrev pub HasReached : Metadata → Type 0
  HasReached db = v ≤ version_of (fetchone (is_watermark p t) db.watermarks)

  HasReached-update :
      (q : WatermarkRow → Bool) (f : WatermarkRow → WatermarkRow) (db : Metadata)
      → ((r : WatermarkRow) → q r ≡ true → is_watermark p t (f r) ≡ is_watermark p t r)
      → ((r : WatermarkRow) → r.version ≤ (f r).version)
      → HasReached db
      → v ≤ version_of (fetchone (is_watermark p t) (update_where q f db.watermarks))
  HasReached-update q f db keeps grows h =
      elim (Option-cases (fetchone (is_watermark p t) db.watermarks)) [
        | inl e ↦ ground (arith, fetchone-update_where (is_watermark p t) q f db.watermarks keeps)
        | inr (r, e) ↦
            ground
              (arith, fetchone-update_where (is_watermark p t) q f db.watermarks keeps, grows r)
      ]

  HasReached-create :
      (p' t' : String) (now : ℕ) (db : Metadata)
      → HasReached db
      → v
        ≤ version_of (
            fetchone
              (is_watermark p t)
              (insert_or_ignore (is_watermark p' t') (new_watermark p' t' now) db.watermarks))
  unfolding insert_or_ignore
  HasReached-create p' t' now db h =
      elim (Option-cases (fetchone (is_watermark p t) db.watermarks)) [
        | inl e ↦ ground arith
        | inr (r, e) ↦ ground (
          arith,
          fetchone-append_some (is_watermark p t) db.watermarks (new_watermark p' t' now ∷ []) r e,
        )
      ]

  fetch_or_create-HasReached :
      (p' t' : String) (now : ℕ) (db : Metadata)
      → HasReached db
      → HasReached (fetch_or_create p' t' now db).1
  unfolding fetch_or_create
  fetch_or_create-HasReached p' t' now db h = HasReached-create p' t' now db h

  get_or_create-HasReached :
      (clock : ℕ) (now : Option DateTime) (p' t' : String) (db : Metadata)
      → HasReached db
      → HasReached (get_or_create_watermark clock now p' t' db).1
  unfolding get_or_create_watermark
  get_or_create-HasReached clock now p' t' db h = elim (Result-cases (utc_now clock now)) [
    | inl (n, time) ↦ ground (arith, fetch_or_create-HasReached p' t' n db h)
    | inr (e, late) ↦ ground arith
  ]

  rewind-HasReached :
      (clock : ℕ) (now : Option DateTime) (p' t' : String) (owner version : ℕ)
      (cursor : CursorPosition) (db : Metadata)
      → HasReached db
      → HasReached (rewind_watermark clock now p' t' owner version cursor db).1
  unfolding rewind_watermark is_watermark
  rewind-HasReached clock now p' t' owner version cursor db h =
      elim (Result-cases (utc_now clock now)) [
        | inl (n, time) ↦ ground (
          arith,
          HasReached-update (rewindable p' t' version owner n) (rewound_to cursor n)
              (fetch_or_create p' t' n db).1 (λ r _. refl) (λ r. omega arith)
              (fetch_or_create-HasReached p' t' n db h),
        )
        | inr (e, late) ↦ ground arith
      ]

  commit-HasReached :
      (clock : ℕ) (now : Option DateTime) (c : TableCommit) (db : Metadata)
      → HasReached db
      → HasReached (commit_table_run clock now c db).1
  unfolding is_watermark
  commit-HasReached clock now c db h = elim (commit_outcome clock now c db) [
    | inl same ↦ rw same h
    | inr (n, time, can, e) ↦
        rw e
          (HasReached-update (is_expected c) (advanced c n) db (λ r _. refl) (λ r. omega arith) h)
  ]

  acquire-HasReached :
      (clock : ℕ) (now : Option DateTime) (p' t' : String) (owner ttl : ℕ) (db : Metadata)
      → HasReached db
      → HasReached (acquire_table_lease clock now p' t' owner ttl db).1
  unfolding acquire_table_lease is_watermark
  acquire-HasReached clock now p' t' owner ttl db h = elim (Result-cases (utc_now clock now)) [
    | inl (n, time) ↦ ground (
      arith,
      get_or_create-HasReached clock (some (utc n)) p' t' db h,
      HasReached-update (acquirable p' t' owner n) (leased_by owner (n + ttl))
          (get_or_create_watermark clock (some (utc n)) p' t' db).1 (λ r _. refl) (λ r. omega arith)
          (get_or_create-HasReached clock (some (utc n)) p' t' db h),
    )
    | inr (e, late) ↦ ground arith
  ]

  renew-HasReached :
      (clock : ℕ) (now : Option DateTime) (lease : TableLease) (ttl : ℕ) (db : Metadata)
      → HasReached db
      → HasReached (renew_table_lease clock now lease ttl db).1
  unfolding renew_table_lease is_watermark
  renew-HasReached clock now lease ttl db h = elim (Result-cases (utc_now clock now)) [
    | inl (n, time) ↦ ground (
      arith,
      HasReached-update (renewable lease n) (extended_to (n + ttl)) db (λ r _. refl)
          (λ r. omega arith) h,
    )
    | inr (e, late) ↦ ground arith
  ]

  release-HasReached :
      (clock : ℕ) (now : Option DateTime) (lease : TableLease) (db : Metadata)
      → HasReached db
      → HasReached (release_table_lease clock now lease db).1
  unfolding release_table_lease is_watermark
  release-HasReached clock now lease db h =
      ground
        (arith, HasReached-update (releasable lease) unleased db (λ r _. refl) (λ r. omega arith) h)

  reconcile-HasReached :
      (evidence : Evidence) (clock : ℕ) (now : Option DateTime) (candidate : OrphanCandidate)
      (db : Metadata)
      → HasReached db
      → HasReached (reconcile_orphan evidence clock now candidate db).1
  unfolding is_watermark
  reconcile-HasReached evidence clock now candidate db h =
      elim (reconcile_outcome evidence clock now candidate db) [
        | inl same ↦ rw same h
        | inr (m, key, time, run, watermark, read, looked, has_key, at, can, done, effect) ↦
            rw done (
              HasReached-update (at_version run.pipeline_name m.source_table watermark.version)
                (moved_up m time) db (λ r _. refl) (λ r. omega arith) h)
      ]

  pub HasReached-Step : {db db' : Metadata} → Step db db' → HasReached db → HasReached db'
  unfolding record_started_run record_failed_run record_success_no_data_run
      record_skipped_already_committed_run
  HasReached-Step (created clock now pipeline table db) h =
      get_or_create-HasReached clock now pipeline table db h
  HasReached-Step (rewound clock now pipeline table owner version cursor db) h =
      rewind-HasReached clock now pipeline table owner version cursor db h
  HasReached-Step (started clock now run db) h = ground arith
  HasReached-Step (ended_failed clock now run error_type message db) h = ground arith
  HasReached-Step (ended_no_data clock now run db) h = ground arith
  HasReached-Step (ended_skipped clock now run row_count db) h = ground arith
  HasReached-Step (committed clock now c db) h = commit-HasReached clock now c db h
  HasReached-Step (leased clock now pipeline table owner ttl db) h =
      acquire-HasReached clock now pipeline table owner ttl db h
  HasReached-Step (renewed clock now lease ttl db) h = renew-HasReached clock now lease ttl db h
  HasReached-Step (released clock now lease db) h = release-HasReached clock now lease db h
  HasReached-Step (reconciled evidence clock now candidate db) h =
      reconcile-HasReached evidence clock now candidate db h

pub HasReached-Reach :
    (p t : String) (v : ℕ) {db later : Metadata}
    → HasReached p t v db
    → Reach db later
    → HasReached p t v later
HasReached-Reach p t v h here = h
HasReached-Reach p t v h (next r st) = HasReached-Step p t v st (HasReached-Reach p t v h r)
