-- ===== src/Contract/Tables/Orders.antt =====
-- src/ingestion/contract/tables.py: the tables of the products, sellers and orders.
use commerce_data_platform.Prelude.{true, false, [], ◌∷◌}
use commerce_data_platform.Prelude.Integers.{pos}
use commerce_data_platform.Contract.Columns.{
  TableConfig, text_column, integer_column, timestamp_column, decimal_column,
}
use commerce_data_platform.Contract.Tables.Customers.{bronze_schema_version}

abbrev pub products_table : TableConfig
products_table = record {
  source_table = "products";
  primary_key_columns = "product_id" ∷ [];
  cursor_timestamp_column = "updated_at";
  cursor_key_columns = "product_id" ∷ [];
  source_columns =
      text_column "product_id" false
      ∷ text_column "product_category_name" true
      ∷ integer_column "product_weight_g" true
      ∷ integer_column "product_length_cm" true
      ∷ integer_column "product_height_cm" true
      ∷ integer_column "product_width_cm" true
      ∷ timestamp_column "created_at" false
      ∷ timestamp_column "updated_at" false
      ∷ [];
  status_domains = [];
  numeric_minimums = [];
  append_only = false;
  schema_version = bronze_schema_version;
}

abbrev pub sellers_table : TableConfig
sellers_table = record {
  source_table = "sellers";
  primary_key_columns = "seller_id" ∷ [];
  cursor_timestamp_column = "updated_at";
  cursor_key_columns = "seller_id" ∷ [];
  source_columns =
      text_column "seller_id" false
      ∷ text_column "seller_city" true
      ∷ text_column "seller_state" true
      ∷ timestamp_column "created_at" false
      ∷ timestamp_column "updated_at" false
      ∷ [];
  status_domains = [];
  numeric_minimums = [];
  append_only = false;
  schema_version = bronze_schema_version;
}

abbrev pub orders_table : TableConfig
orders_table = record {
  source_table = "orders";
  primary_key_columns = "order_id" ∷ [];
  cursor_timestamp_column = "updated_at";
  cursor_key_columns = "order_id" ∷ [];
  source_columns =
      text_column "order_id" false
      ∷ text_column "customer_id" false
      ∷ text_column "order_status" false
      ∷ timestamp_column "order_purchase_timestamp" false
      ∷ timestamp_column "order_approved_at" true
      ∷ timestamp_column "order_delivered_carrier_date" true
      ∷ timestamp_column "order_delivered_customer_date" true
      ∷ timestamp_column "order_estimated_delivery_date" true
      ∷ timestamp_column "created_at" false
      ∷ timestamp_column "updated_at" false
      ∷ [];
  status_domains =
      (
        "order_status",
        "created" ∷ "approved" ∷ "processing" ∷ "invoiced" ∷ "shipped" ∷ "delivered" ∷ "canceled"
            ∷ "unavailable" ∷ [],
      )
      ∷ [];
  numeric_minimums = [];
  append_only = false;
  schema_version = bronze_schema_version;
}

abbrev pub order_items_table : TableConfig
order_items_table = record {
  source_table = "order_items";
  primary_key_columns = "order_id" ∷ "order_item_id" ∷ [];
  cursor_timestamp_column = "created_at";
  cursor_key_columns = "order_id" ∷ "order_item_id" ∷ [];
  source_columns =
      text_column "order_id" false
      ∷ integer_column "order_item_id" false
      ∷ text_column "product_id" false
      ∷ text_column "seller_id" false
      ∷ timestamp_column "shipping_limit_date" false
      ∷ decimal_column "price" false
      ∷ decimal_column "freight_value" false
      ∷ timestamp_column "created_at" false
      ∷ [];
  status_domains = [];
  numeric_minimums = ("order_item_id", pos 1) ∷ ("price", pos 0) ∷ ("freight_value", pos 0) ∷ [];
  append_only = true;
  schema_version = bronze_schema_version;
}

abbrev pub order_payments_table : TableConfig
order_payments_table = record {
  source_table = "order_payments";
  primary_key_columns = "order_id" ∷ "payment_sequential" ∷ [];
  cursor_timestamp_column = "updated_at";
  cursor_key_columns = "order_id" ∷ "payment_sequential" ∷ [];
  source_columns =
      text_column "order_id" false
      ∷ integer_column "payment_sequential" false
      ∷ text_column "payment_type" false
      ∷ integer_column "payment_installments" true
      ∷ decimal_column "payment_value" false
      ∷ text_column "payment_status" false
      ∷ timestamp_column "payment_initiated_at" true
      ∷ timestamp_column "payment_completed_at" true
      ∷ timestamp_column "payment_failed_at" true
      ∷ timestamp_column "payment_refunded_at" true
      ∷ timestamp_column "created_at" false
      ∷ timestamp_column "updated_at" false
      ∷ [];
  status_domains = ("payment_status", "pending" ∷ "completed" ∷ "failed" ∷ "refunded" ∷ []) ∷ [];
  numeric_minimums =
      ("payment_sequential", pos 1)
      ∷ ("payment_installments", pos 0)
      ∷ ("payment_value", pos 0)
      ∷ [];
  append_only = false;
  schema_version = bronze_schema_version;
}
