-- ===== src/Ingestion/Released.antt =====
-- src/ingestion/service.py: the leases after the block of `ingest_table` that runs under them.
use commerce_data_platform.Control.TableLease.{TableLease}
use commerce_data_platform.Ingestion.World.{World}
