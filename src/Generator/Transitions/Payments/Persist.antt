-- ===== src/Generator/Transitions/Payments/Persist.antt =====
-- `persist_payment_transition` of src/generator/orders/transitions.py.
use commerce_data_platform.Prelude.{ℕ, String, Bool, ◌&&◌, List, ◌==◌, str_eq, if◌then◌else◌}
use commerce_data_platform.Exceptions.{value_error}
use commerce_data_platform.Action.{Action, pure, lift, gets, or_raise, modify, ◌>>=◌, ◌>>◌}
use commerce_data_platform.Sql.{fetchone, update_where}
use commerce_data_platform.Generator.Transitions.{TransitionResult, one_updated, one_skipped}
use commerce_data_platform.Generator.Transitions.Payments.{
  PaymentState, PaymentTransition, is_payment_replay, assert_expected_payment, payment_state_after,
}

abbrev pub PaymentTable : Type 0
PaymentTable = List PaymentState

unfoldable pub is_payment : String → ℕ → PaymentState → Bool
is_payment order_id sequential r = str_eq r.order_id order_id && r.payment_sequential == sequential

-- The columns that the update sets; the time of initiation stays.
abbrev pub set_payment : PaymentState → PaymentState → PaymentState
set_payment desired r = record r {
  payment_status = desired.payment_status;
  completed_at = desired.completed_at;
  failed_at = desired.failed_at;
  refunded_at = desired.refunded_at;
  updated_at = desired.updated_at;
}

abbrev pub update_payment : PaymentState → PaymentTransition → Action PaymentTable TransitionResult
update_payment current transition = do
  lift (assert_expected_payment current transition)
  desired ← lift (payment_state_after current transition)
  modify
      (update_where (is_payment desired.order_id desired.payment_sequential) (set_payment desired))
  pure one_updated

unfoldable pub persist_payment_transition : PaymentTransition → Action PaymentTable TransitionResult
persist_payment_transition transition = do
  row ← gets (fetchone (is_payment transition.order_id transition.payment_sequential))
  current ← or_raise row value_error
  replay ← lift (is_payment_replay current transition)
  if replay then pure one_skipped else update_payment current transition
