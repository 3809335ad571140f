-- ===== src/Contract/Tests.antt =====
-- The configuration of a table by its name, and a configuration that its constructor refuses.
use commerce_data_platform.Prelude.{◌≡◌, refl, [], ◌∷◌, is_space, is_blank, str_mem}
use commerce_data_platform.Exceptions.{err, value_error, schema_contract}
use commerce_data_platform.Contract.Columns.{
  field_of, check_table_config, source_column_names, source_schema, cursor_columns, all_distinct,
  all_in, assert_supported_schema_version,
}
use commerce_data_platform.Contract.Tables.{config_named, table_config}
use commerce_data_platform.Contract.Tables.Orders.{order_items_table}
use commerce_data_platform.Contract.Supported.{IsSound, table_config-IsSound}

program : Unit {0}
unfolding check_table_config all_distinct all_in is_blank is_space assert_supported_schema_version
    source_column_names source_schema field_of str_mem config_named table_config cursor_columns
program = tt

unknown_table : table_config "refunds" ≡ err value_error
unfolding program
unknown_table = refl

order_items_cursor :
    cursor_columns order_items_table ≡ "created_at" ∷ "order_id" ∷ "order_item_id" ∷ []
unfolding program
order_items_cursor = refl

partial_key_refused :
    check_table_config (record order_items_table { cursor_key_columns = "order_id" ∷ [] })
    ≡ err value_error
unfolding program
partial_key_refused = refl

old_version_refused :
    check_table_config (record order_items_table { schema_version = 2 }) ≡ err schema_contract
unfolding program
old_version_refused = refl

table_config-IsSound_example :
    (order_items_table.source_table ≡ "order_items") × IsSound order_items_table
unfolding program
table_config-IsSound_example = table_config-IsSound "order_items" order_items_table refl
