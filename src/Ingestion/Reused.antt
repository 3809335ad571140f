-- ===== src/Ingestion/Reused.antt =====
-- src/ingestion/service.py: a request whose batch is committed, from the request to the result.
use commerce_data_platform.Prelude.{ℕ, ◌≡◌, Option, some}
use mathlib.Core.Option
use commerce_data_platform.Exceptions.{Result, ok}
use commerce_data_platform.Action.{Action, gets, ◌>>=◌}
use commerce_data_platform.Lease.{SourceMutationLease}
use commerce_data_platform.Records.{Watermark}
use commerce_data_platform.Control.Batch.{CommittedTableBatch, get_committed_table_batch}
use commerce_data_platform.Contract.Columns.{TableConfig}
use commerce_data_platform.Bronze.Storage.{Client}
use commerce_data_platform.Ingestion.World.{
  World, TableIngestionRequest, table_batch_id, TableIngestionResult, Outside,
}
use commerce_data_platform.Ingestion.Service.{ingest_or_reuse}
use commerce_data_platform.Ingestion.Reuse.{IsAsIn, IsSkipped}

module _ {S : Type 0} (client : Client S) (outside : Outside) (clock : ℕ)
    (given : Option SourceMutationLease) (request : TableIngestionRequest) (w : World S)
    (batch : CommittedTableBatch)
    (committed : get_committed_table_batch (table_batch_id request) w.metadata ≡ some batch) where
  -- The look-up of the batch and what comes after it.
  abbrev looked_up : ℕ → TableConfig → Watermark → Action (World S) TableIngestionResult
  looked_up time config watermark =
      gets (λ u. get_committed_table_batch (table_batch_id request) u.metadata) >>= λ existing.
      ingest_or_reuse client outside clock time given request config watermark existing

  abbrev Ends : Result TableIngestionResult × World S → Type 0
  Ends end = IsAsIn w (end.1) × ((r : TableIngestionResult) → end.0 ≡ ok r → IsSkipped batch r)
