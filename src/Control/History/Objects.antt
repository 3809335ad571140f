-- ===== src/Control/History/Objects.antt =====
-- The catalogue of bronze objects, in the histories of src/ingestion/control.
use commerce_data_platform.Prelude.{
  ℕ, String, Bool, true, ◌≡◌, ◌≢◌, ◌⊎◌, inl, inr, Option, some, [], ◌∷◌, arith, str_eq_iff,
}
use commerce_data_platform.Exceptions.{ok, Result-cases}
use commerce_data_platform.Clock.{DateTime, utc_now}
use commerce_data_platform.Records.{TableCommit, BronzeRow, Metadata}
use commerce_data_platform.Sql.{fetchone}
use commerce_data_platform.Sql.Laws.{fetchone-append_some, fetchone-append_last}
use commerce_data_platform.Control.Watermarks.{
  get_or_create_watermark, rewind_watermark, fetch_or_create,
}
use commerce_data_platform.Control.Runs.{
  record_started_run, record_failed_run, record_success_no_data_run,
  record_skipped_already_committed_run,
}
use commerce_data_platform.Control.Commit.{same_object, new_object, commit_table_run}
use commerce_data_platform.Control.Commit.Effect.{
  commit_outcome, commit-CanCommit, CanCommit-commit, commit_no_time,
}
use commerce_data_platform.Control.TableLease.{
  acquire_table_lease, renew_table_lease, release_table_lease,
}
use commerce_data_platform.Bronze.Orphan.{Evidence, OrphanCandidate, adopted, reconcile_orphan}
use commerce_data_platform.Bronze.Reconciled.{reconcile_outcome}
use commerce_data_platform.Control.History.{
  Step, created, rewound, started, ended_failed, ended_no_data, ended_skipped, committed, leased,
  renewed, released, reconciled, Reach, here, next,
}

module _ (p : BronzeRow → Bool) (r : BronzeRow) where
  abbrev Finds : Metadata → Type 0
  Finds db = fetchone p db.bronze_objects ≡ some r

  reconcile-Finds :
      (evidence : Evidence) (clock : ℕ) (now : Option DateTime) (candidate : OrphanCandidate)
      (db : Metadata)
      → Finds db
      → Finds (reconcile_orphan evidence clock now candidate db).1
  reconcile-Finds evidence clock now candidate db h =
      elim (reconcile_outcome evidence clock now candidate db) [
        | inl same ↦ rw same h
        | inr (m, key, time, run, watermark, read, looked, has_key, at, can, done, effect) ↦
            rw done
              (fetchone-append_some p db.bronze_objects (adopted m candidate key time ∷ []) r h)
      ]

  Finds-Step : {db db' : Metadata} → Step db db' → Finds db → Finds db'
  unfolding get_or_create_watermark rewind_watermark fetch_or_create record_started_run
      record_failed_run record_success_no_data_run record_skipped_already_committed_run
      acquire_table_lease renew_table_lease release_table_lease
  Finds-Step (created clock now pipeline table db) h = ground arith
  Finds-Step (rewound clock now pipeline table owner version cursor db) h = ground arith
  Finds-Step (started clock now run db) h = ground arith
  Finds-Step (ended_failed clock now run error_type message db) h = ground arith
  Finds-Step (ended_no_data clock now run db) h = ground arith
  Finds-Step (ended_skipped clock now run row_count db) h = ground arith
  Finds-Step (committed clock now c db) h = elim (commit_outcome clock now c db) [
    | inl same ↦ rw same h
    | inr (t, time, can, e) ↦
        rw e (fetchone-append_some p db.bronze_objects (new_object c t ∷ []) r h)
  ]
  Finds-Step (leased clock now pipeline table owner ttl db) h = ground arith
  Finds-Step (renewed clock now lease ttl db) h = ground arith
  Finds-Step (released clock now lease db) h = ground arith
  Finds-Step (reconciled evidence clock now candidate db) h =
      reconcile-Finds evidence clock now candidate db h

  Finds-Reach : {db db' : Metadata} → Finds db → Reach db db' → Finds db'
  Finds-Reach h here = h
  Finds-Reach h (next r st) = Finds-Step st (Finds-Reach h r)

same_object_of :
    (a b : String) (r : BronzeRow)
    → (a ≡ r.table_batch_id) ⊎ (b ≡ r.object_key)
    → same_object a b r ≡ true
unfolding same_object
same_object_of a b r same = ground (arith, str_eq_iff r.table_batch_id a, str_eq_iff r.object_key b)

commit-Finds :
    (clock : ℕ) (now : Option DateTime) (c : TableCommit) (db : Metadata) (a b : String)
    → (commit_table_run clock now c db).0 ≡ ok tt
    → (a ≡ c.object.table_batch_id) ⊎ (b ≡ c.object.object_key)
    → (r : BronzeRow) × Finds (same_object a b) r (commit_table_run clock now c db).1
commit-Finds clock now c db a b done same = elim (Result-cases (utc_now clock now)) [
  | inl (t, time) ↦
      rw (CanCommit-commit clock t now time c db (commit-CanCommit clock t now time c db done)) (
        fetchone-append_last (same_object a b) db.bronze_objects (new_object c t)
          (same_object_of a b (new_object c t) same))
  | inr (e, late) ↦ absurd (ground (arith, commit_no_time clock now c db e late))
]

commit_refused :
    (clock : ℕ) (now : Option DateTime) (c : TableCommit) (db : Metadata) (r : BronzeRow)
    → Finds (same_object c.object.table_batch_id c.object.object_key) r db
    → (commit_table_run clock now c db).0 ≢ ok tt
commit_refused clock now c db r there done = elim (Result-cases (utc_now clock now)) [
  | inl (t, time) ↦
      let can = commit-CanCommit clock t now time c db done in cc (there, can.new_object)
  | inr (e, late) ↦ absurd (ground (arith, commit_no_time clock now c db e late))
]

-- Once a table batch is committed, no later commit of the same batch or the same object goes
-- through, whatever control operations and reconciliations happen in between.
pub commit_once :
    (clock clock' : ℕ) (now now' : Option DateTime) (c c' : TableCommit) (db : Metadata)
    {later : Metadata}
    → (commit_table_run clock now c db).0 ≡ ok tt
    → Reach (commit_table_run clock now c db).1 later
    → (c'.object.table_batch_id ≡ c.object.table_batch_id)
      ⊎ (c'.object.object_key ≡ c.object.object_key)
    → (commit_table_run clock' now' c' later).0 ≢ ok tt
commit_once clock clock' now now' c c' db done run same =
    let (r, found) =
      commit-Finds clock now c db c'.object.table_batch_id c'.object.object_key done same in
    commit_refused clock' now' c' _ r
      (Finds-Reach (same_object c'.object.table_batch_id c'.object.object_key) r found run)
