-- ===== src/Errors.antt =====
-- src/ingestion/errors.py: which error type an exception has, and whether a task retries it.
pub mod Retry
mod Tests
use commerce_data_platform.Prelude.{
  ℕ, String, Bool, true, false, ◌&&◌, ◌||◌, Option, none, some, leb, ◌==◌, str_eq, if◌then◌else◌,
}
use commerce_data_platform.Exceptions.{
  Exception, lease_unavailable, lease_ownership_lost, table_lease_unavailable,
  table_lease_ownership_lost, watermark_conflict, batch_identity_conflict,
  bronze_commit_verification, schema_contract, batch_contract, reject_rate_exceeded,
  cursor_regression, warehouse_build, published_wal, publish_in_progress, operational_error,
  client_error, boto_core_error, connection_error, timeout_error,
}

-- `classify_error`. No class of the list is a subclass of one before it, so one clause each gives
-- what the chain of tests gives.
unfoldable pub classify_error : Exception → String
classify_error lease_unavailable = "LEASE_UNAVAILABLE"
classify_error table_lease_unavailable = "LEASE_UNAVAILABLE"
classify_error publish_in_progress = "LEASE_UNAVAILABLE"
classify_error lease_ownership_lost = "LEASE_OWNERSHIP_LOST"
classify_error table_lease_ownership_lost = "LEASE_OWNERSHIP_LOST"
classify_error operational_error = "SOURCE_CONNECTION_ERROR"
classify_error connection_error = "SOURCE_CONNECTION_ERROR"
classify_error timeout_error = "SOURCE_CONNECTION_ERROR"
classify_error schema_contract = "SOURCE_CONTRACT_ERROR"
classify_error batch_contract = "SOURCE_CONTRACT_ERROR"
classify_error cursor_regression = "SOURCE_CONTRACT_ERROR"
classify_error reject_rate_exceeded = "VALIDATION_THRESHOLD_EXCEEDED"
classify_error bronze_commit_verification = "OBJECT_VERIFICATION_ERROR"
classify_error watermark_conflict = "WATERMARK_CONFLICT"
classify_error batch_identity_conflict = "BATCH_IDENTITY_CONFLICT"
classify_error (warehouse_build error_type) = error_type
classify_error published_wal = "CONFIGURATION_ERROR"
classify_error (client_error status) = "OBJECT_STORAGE_ERROR"
classify_error boto_core_error = "OBJECT_STORAGE_ERROR"
classify_error e = "UNKNOWN_ERROR"

-- `_object_storage_http_status`: only a client error has a response.
abbrev http_status : Exception → Option ℕ
http_status (client_error status) = status
http_status e = none

-- `status in _RETRYABLE_HTTP_STATUS`
abbrev retryable_status : Option ℕ → Bool
retryable_status none = false
retryable_status (some status) = status == 429 || leb 500 status && leb status 599

-- `error_type in RETRYABLE_ERROR_TYPES`
abbrev retryable_type : String → Bool
retryable_type t = str_eq t "SOURCE_CONNECTION_ERROR" || str_eq t "LEASE_UNAVAILABLE"

unfoldable pub is_retryable : Exception → Bool
unfolding classify_error
is_retryable e =
    if str_eq (classify_error e) "OBJECT_STORAGE_ERROR"
    then retryable_status (http_status e)
    else retryable_type (classify_error e)
