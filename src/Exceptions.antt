-- ===== src/Exceptions.antt =====
-- The exception classes that the platform raises or catches, and the result of a call that may
-- raise. A constructor stands for the class; the message is left out.
use commerce_data_platform.Prelude.{ℕ, String, Option, ◌≡◌, refl, ◌⊎◌, inl, inr}

pub data Exception : Type 0 where
  -- src/common/lease.py
  lease_unavailable lease_ownership_lost : Exception
  -- src/ingestion/control/lease.py, src/ingestion/control/metadata.py
  table_lease_unavailable table_lease_ownership_lost : Exception
  watermark_conflict watermark_rewind pipeline_run_state : Exception
  -- src/ingestion/control/batch.py, src/ingestion/bronze, src/ingestion/extraction
  batch_identity_conflict bronze_commit_verification orphan_reconciliation : Exception
  schema_contract batch_contract reject_rate_exceeded : Exception
  -- src/generator/core/errors.py
  cursor_regression : Exception
  -- src/warehouse/errors.py; a build error carries its error type
  warehouse_build : String → Exception
  published_wal publish_in_progress publish_state : Exception
  -- psycopg: a lost connection, a broken constraint
  operational_error integrity_error : Exception
  -- botocore: a client error carries the HTTP status of its response, if it has one
  client_error : Option ℕ → Exception
  boto_core_error : Exception
  -- Python's own classes
  connection_error timeout_error value_error type_error key_error runtime_error : Exception
  file_exists other : Exception

pub data Result {ℓ} (A : Type ℓ) : Type ℓ where
  ok : A → Result A
  err : Exception → Result A

-- To split on an outcome and keep the equation.
pub Result-cases {ℓ} :
    {A : Type ℓ} (r : Result A) → ((a : A) × (r ≡ ok a)) ⊎ ((e : Exception) × (r ≡ err e))
Result-cases (ok a) = inl (a, refl)
Result-cases (err e) = inr (e, refl)
