-- ===== src/Contract/Tables.antt =====
-- src/ingestion/contract/tables.py: the nine source tables and the look-up of one by its name.
pub mod Customers
pub mod Orders
use commerce_data_platform.Prelude.{String, List, [], ◌∷◌, str_eq, if◌then◌else◌}
use commerce_data_platform.Exceptions.{Result, ok, err, value_error}
use commerce_data_platform.Contract.Columns.{TableConfig}
use commerce_data_platform.Contract.Tables.Customers.{
  customers_table, customer_subscriptions_table, customer_membership_tiers_table,
  subscription_payments_table,
}
use commerce_data_platform.Contract.Tables.Orders.{
  products_table, sellers_table, orders_table, order_items_table, order_payments_table,
}

-- `TABLE_CONFIGS`; each table stands under its `source_table`.
abbrev pub table_configs : List TableConfig
table_configs =
    customers_table ∷ customer_subscriptions_table ∷ customer_membership_tiers_table
    ∷ subscription_payments_table ∷ products_table ∷ sellers_table ∷ orders_table
    ∷ order_items_table ∷ order_payments_table ∷ []

unfoldable pub config_named : String → List TableConfig → Result TableConfig
config_named name [] = err value_error
config_named name (c ∷ cs) = if str_eq c.source_table name then ok c else config_named name cs

-- `table_config`
unfoldable pub table_config : String → Result TableConfig
unfolding config_named
table_config name = config_named name table_configs
