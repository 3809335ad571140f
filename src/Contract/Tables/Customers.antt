-- ===== src/Contract/Tables/Customers.antt =====
-- src/ingestion/contract/tables.py: the tables of the customers and their subscriptions.
use commerce_data_platform.Prelude.{ℕ, true, false, [], ◌∷◌}
use commerce_data_platform.Prelude.Integers.{pos}
use commerce_data_platform.Contract.Columns.{
  TableConfig, text_column, uuid_column, integer_column, boolean_column, timestamp_column,
  decimal_column,
}

-- `BRONZE_SCHEMA_VERSION`
abbrev pub bronze_schema_version : ℕ
bronze_schema_version = 3

abbrev pub customers_table : TableConfig
customers_table = record {
  source_table = "customers";
  primary_key_columns = "customer_id" ∷ [];
  cursor_timestamp_column = "created_at";
  cursor_key_columns = "customer_id" ∷ [];
  source_columns =
      text_column "customer_id" false
      ∷ text_column "customer_unique_id" false
      ∷ text_column "customer_city" true
      ∷ text_column "customer_state" true
      ∷ timestamp_column "created_at" false
      ∷ [];
  status_domains = [];
  numeric_minimums = [];
  append_only = false;
  schema_version = bronze_schema_version;
}

abbrev pub customer_subscriptions_table : TableConfig
customer_subscriptions_table = record {
  source_table = "customer_subscriptions";
  primary_key_columns = "subscription_id" ∷ [];
  cursor_timestamp_column = "updated_at";
  cursor_key_columns = "subscription_id" ∷ [];
  source_columns =
      uuid_column "subscription_id" false
      ∷ text_column "customer_unique_id" false
      ∷ text_column "subscription_status" false
      ∷ boolean_column "auto_renew_enabled" false
      ∷ timestamp_column "subscription_started_at" false
      ∷ timestamp_column "current_period_started_at" true
      ∷ timestamp_column "current_period_ends_at" true
      ∷ timestamp_column "billing_due_at" true
      ∷ timestamp_column "next_payment_attempt_at" true
      ∷ timestamp_column "payment_failed_at" true
      ∷ timestamp_column "cancel_requested_at" true
      ∷ timestamp_column "ended_at" true
      ∷ timestamp_column "status_changed_at" false
      ∷ timestamp_column "created_at" false
      ∷ timestamp_column "updated_at" false
      ∷ [];
  status_domains =
      ("subscription_status", "ACTIVE" ∷ "PAYMENT_FAILED" ∷ "CANCEL_REQUESTED" ∷ "CHURNED" ∷ [])
      ∷ [];
  numeric_minimums = [];
  append_only = false;
  schema_version = bronze_schema_version;
}

abbrev pub customer_membership_tiers_table : TableConfig
customer_membership_tiers_table = record {
  source_table = "customer_membership_tiers";
  primary_key_columns = "customer_unique_id" ∷ [];
  cursor_timestamp_column = "updated_at";
  cursor_key_columns = "customer_unique_id" ∷ [];
  source_columns =
      text_column "customer_unique_id" false
      ∷ text_column "membership_tier" false
      ∷ timestamp_column "created_at" false
      ∷ timestamp_column "updated_at" false
      ∷ [];
  status_domains = ("membership_tier", "BRONZE" ∷ "SILVER" ∷ "GOLD" ∷ []) ∷ [];
  numeric_minimums = [];
  append_only = false;
  schema_version = bronze_schema_version;
}

abbrev pub subscription_payments_table : TableConfig
subscription_payments_table = record {
  source_table = "subscription_payments";
  primary_key_columns = "payment_id" ∷ [];
  cursor_timestamp_column = "updated_at";
  cursor_key_columns = "payment_id" ∷ [];
  source_columns =
      uuid_column "payment_id" false
      ∷ uuid_column "subscription_id" false
      ∷ integer_column "billing_cycle_sequence" false
      ∷ integer_column "attempt_sequence" false
      ∷ text_column "payment_status" false
      ∷ timestamp_column "payment_at" false
      ∷ decimal_column "payment_value" false
      ∷ text_column "currency_code" false
      ∷ timestamp_column "billing_period_start_at" false
      ∷ timestamp_column "billing_period_end_at" false
      ∷ text_column "payment_method_type" true
      ∷ text_column "payment_provider" true
      ∷ text_column "provider_payment_id" true
      ∷ text_column "failure_code" true
      ∷ timestamp_column "created_at" false
      ∷ timestamp_column "updated_at" false
      ∷ [];
  status_domains = ("payment_status", "completed" ∷ "failed" ∷ []) ∷ [];
  numeric_minimums =
      ("billing_cycle_sequence", pos 1)
      ∷ ("attempt_sequence", pos 1)
      ∷ ("payment_value", pos 0)
      ∷ [];
  append_only = true;
  schema_version = bronze_schema_version;
}
