-- ===== src/Generator/Transitions/Orders.antt =====
-- `persist_order_transition` of src/generator/orders/transitions.py, on the columns of `orders` that
-- it reads or writes.
use commerce_data_platform.Prelude.{String, Bool, List, str_eq, if◌then◌else◌}
use commerce_data_platform.Exceptions.{value_error}
use commerce_data_platform.Action.{Action, pure, lift, gets, or_raise, modify, ◌>>=◌, ◌>>◌}
use commerce_data_platform.Sql.{fetchone, update_where}
use commerce_data_platform.Generator.Transitions.{
  OrderState, OrderTransition, TransitionResult, one_updated, one_skipped, is_replay,
  assert_expected_order, order_state_after,
}

abbrev pub OrderTable : Type 0
OrderTable = List OrderState

unfoldable pub is_order : String → OrderState → Bool
is_order order_id r = str_eq r.order_id order_id

-- The columns that the update sets.
abbrev pub set_order : OrderState → OrderState → OrderState
set_order desired r = record desired { order_id = r.order_id }

abbrev pub update_order : OrderState → OrderTransition → Action OrderTable TransitionResult
update_order current transition = do
  lift (assert_expected_order current transition)
  desired ← lift (order_state_after current transition)
  modify (update_where (is_order desired.order_id) (set_order desired))
  pure one_updated

unfoldable pub persist_order_transition : OrderTransition → Action OrderTable TransitionResult
persist_order_transition transition = do
  row ← gets (fetchone (is_order transition.order_id))
  current ← or_raise row value_error
  replay ← lift (is_replay current transition)
  if replay then pure one_skipped else update_order current transition
