-- ===== src/Ingestion/Reuse.antt =====
-- src/ingestion/service.py: a request whose batch is committed.
use commerce_data_platform.Prelude.{ℕ, String, ◌≡◌, Option, none, some, List, arith}
use commerce_data_platform.Exceptions.{Result, ok, err}
use commerce_data_platform.Action.{Action, pure, raise, lift, ◌>>◌}
use commerce_data_platform.Action.Keeps.{Keeps, >>=-Keeps}
use commerce_data_platform.Clock.{DateTime, utc}
use commerce_data_platform.Records.{
  Metadata, Watermark, PipelineRun, BronzeRow, QuarantineRow, RunRow, check_run,
}
use commerce_data_platform.Control.Watermarks.{get_or_create_watermark, fetch_or_create}
use commerce_data_platform.Control.Runs.{
  record_started_run, record_failed_run, record_skipped_already_committed_run, finish_run,
}
use commerce_data_platform.Control.Batch.{CommittedTableBatch}
use commerce_data_platform.Bronze.Storage.{Client}
use commerce_data_platform.Ingestion.World.{
  World, on_metadata, TableIngestionRequest, skipped_already_committed, TableIngestionResult,
  Outside,
}
use commerce_data_platform.Ingestion.Recording.{run_of, skipped_result, reuse_or_reject_by}

-- The committed objects and the quarantine batches stay as they are.
abbrev Stays : List BronzeRow → List QuarantineRow → Metadata → Type 0
Stays objects quarantine db = (db.bronze_objects ≡ objects) × (db.quarantine_batches ≡ quarantine)

module _ (objects : List BronzeRow) (quarantine : List QuarantineRow) (clock : ℕ)
    (now : Option DateTime) where
  finish_run-Stays :
      (run : PipelineRun) (f : RunRow → RunRow)
      → Keeps (Stays objects quarantine) (finish_run run f)
  finish_run-Stays run f db stays = ground (arith, stays)

  record_started_run-Stays :
      (run : PipelineRun) → Keeps (Stays objects quarantine) (record_started_run clock now run)
  unfolding record_started_run
  record_started_run-Stays run db stays = ground (arith, stays)

  record_failed_run-Stays :
      (run : PipelineRun) (kind : String) (message : Option String)
      → Keeps (Stays objects quarantine) (record_failed_run clock now run kind message)
  unfolding record_failed_run
  record_failed_run-Stays run kind message db stays = ground (arith, stays)

  record_skipped-Stays :
      (run : PipelineRun) (n : ℕ)
      → Keeps (Stays objects quarantine) (record_skipped_already_committed_run clock now run n)
  unfolding record_skipped_already_committed_run
  record_skipped-Stays run n db stays = ground (arith, stays)

  pub get_or_create_watermark-Stays :
      (pipeline table : String)
      → Keeps (Stays objects quarantine) (get_or_create_watermark clock now pipeline table)
  unfolding get_or_create_watermark fetch_or_create
  get_or_create_watermark-Stays pipeline table db stays = ground (arith, stays)

-- All but the watermarks and the runs is as in the first state.
abbrev pub IsAsIn : {S : Type 0} → World S → World S → Type 0
IsAsIn w u =
    (u.leases ≡ w.leases)
    × (u.objects ≡ w.objects)
    × (u.metadata.bronze_objects ≡ w.metadata.bronze_objects)
    × (u.metadata.quarantine_batches ≡ w.metadata.quarantine_batches)

-- A result that says that the batch was committed before.
abbrev pub IsSkipped : CommittedTableBatch → TableIngestionResult → Type 0
IsSkipped batch result =
    (result.status ≡ skipped_already_committed)
    × (result.object_key ≡ some batch.object_key)
    × (result.manifest_key ≡ some batch.manifest_key)
    × (result.row_count ≡ batch.row_count)

module _ {S : Type 0} (client : Client S) (outside : Outside) (clock time : ℕ) (w : World S) where
  pub on_metadata-AsIn :
      {A : Type 0} (m : Action Metadata A)
      → Keeps (Stays w.metadata.bronze_objects w.metadata.quarantine_batches) m
      → Keeps (IsAsIn w) (on_metadata m)
  on_metadata-AsIn m keeps u (leases, objects, bronze, quarantine) =
      let (bronze_after, quarantine_after) = keeps u.metadata (bronze, quarantine) in
      (leases, objects, bronze_after, quarantine_after)

  started-AsIn :
      (run : PipelineRun)
      → Keeps (IsAsIn w) (on_metadata (record_started_run clock (some (utc time)) run))
  started-AsIn run =
      on_metadata-AsIn (record_started_run clock (some (utc time)) run)
        (record_started_run-Stays _ _ clock (some (utc time)) run)

  pub reuse-AsIn :
      (request : TableIngestionRequest) (watermark : Watermark) (existing : CommittedTableBatch)
      (test : Result (Unit {0}))
      → Keeps
          (IsAsIn w)
          (reuse_or_reject_by client outside clock time request watermark existing test)
  unfolding reuse_or_reject_by
  reuse-AsIn request watermark existing (err e) =
      let kept = record_failed_run clock (some (utc time)) in
      >>=-Keeps (IsAsIn w) (lift (check_run (run_of request watermark.cursor none)))
        (λ run.
          on_metadata (record_started_run clock (some (utc time)) run)
          >> (on_metadata (kept run "BATCH_IDENTITY_CONFLICT" (some (outside.message e)))
              >> raise {A = TableIngestionResult} e))
        (λ u q. q)
        (λ run.
          >>=-Keeps (IsAsIn w) (on_metadata (record_started_run clock (some (utc time)) run))
            (λ _.
              on_metadata (kept run "BATCH_IDENTITY_CONFLICT" (some (outside.message e)))
              >> raise {A = TableIngestionResult} e)
            (started-AsIn run)
            (λ x.
              >>=-Keeps (IsAsIn w)
                (on_metadata (kept run "BATCH_IDENTITY_CONFLICT" (some (outside.message e))))
                (λ _. raise {A = TableIngestionResult} e)
                (on_metadata-AsIn (kept run "BATCH_IDENTITY_CONFLICT" (some (outside.message e))) (
                  record_failed_run-Stays _ _ clock (some (utc time)) run "BATCH_IDENTITY_CONFLICT"
                    (some (outside.message e))))
                (λ y u q. q)))
  reuse-AsIn request watermark existing (ok t) =
      let skip = record_skipped_already_committed_run clock (some (utc time)) in
      >>=-Keeps (IsAsIn w)
        (lift
          (check_run (run_of request existing.watermark_before (some existing.watermark_after))))
        (λ run.
          on_metadata (record_started_run clock (some (utc time)) run)
          >> (on_metadata (skip run existing.row_count)
              >> pure (skipped_result client outside clock time run existing)))
        (λ u q. q)
        (λ run.
          >>=-Keeps (IsAsIn w) (on_metadata (record_started_run clock (some (utc time)) run))
            (λ _.
              on_metadata (skip run existing.row_count)
              >> pure (skipped_result client outside clock time run existing))
            (started-AsIn run)
            (λ x.
              >>=-Keeps (IsAsIn w) (on_metadata (skip run existing.row_count))
                (λ _. pure (skipped_result client outside clock time run existing))
                (on_metadata-AsIn (skip run existing.row_count)
                  (record_skipped-Stays _ _ clock (some (utc time)) run existing.row_count))
                (λ y u q. q)))
