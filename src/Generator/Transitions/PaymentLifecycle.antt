-- ===== src/Generator/Transitions/PaymentLifecycle.antt =====
-- What a transition of a payment does to its row, against the life of a payment.
use commerce_data_platform.Prelude.{ℕ, ◌<◌, String, ◌≡◌, ◌≢◌, ◌⊎◌, false, some}
use commerce_data_platform.Exceptions.{ok}
use commerce_data_platform.Sql.{fetchone}
use commerce_data_platform.Generator.Transitions.{
  PaymentStatus, pending, completed, failed, refunded, event_time,
}
use commerce_data_platform.Generator.Transitions.Payments.{
  PaymentState, PaymentTransition, is_payment_replay, assert_expected_payment, payment_state_after,
  paid,
}
use commerce_data_platform.Generator.Transitions.Payments.Persist.{PaymentTable, is_payment}

-- The life of a payment.
pub data NextPayment : PaymentStatus → PaymentStatus → Type 0 where
  complete : NextPayment pending completed
  fail : NextPayment pending failed
  refund : NextPayment completed refunded

abbrev pub paid_by : PaymentTransition → PaymentState → PaymentState
paid_by t row =
    paid row t.next_status (event_time t.business_event_time t.mutation_time) t.mutation_time

-- The checks that an update passes.
pub record PassesPayment (t : PaymentTransition) (row : PaymentState) : Type 0 where
  pub new : is_payment_replay row t ≡ ok false
  pub expected : assert_expected_payment row t ≡ ok tt
  pub after : payment_state_after row t ≡ ok (paid_by t row)

-- What an update of a payment found and did.
pub record MovedPayment (t : PaymentTransition) (table table' : PaymentTable) : Type 0 where
  pub row : PaymentState
  pub found : fetchone (is_payment t.order_id t.payment_sequential) table ≡ some row
  pub status : row.payment_status ≡ t.expected_status
  pub version : row.updated_at ≡ t.expected_updated_at
  pub life : NextPayment row.payment_status t.next_status
  pub later : row.updated_at < t.mutation_time
  pub result : fetchone (is_payment t.order_id t.payment_sequential) table' ≡ some (paid_by t row)
  pub others :
      (order_id : String) (n : ℕ)
      → (order_id ≢ t.order_id) ⊎ (n ≢ t.payment_sequential)
      → fetchone (is_payment order_id n) table' ≡ fetchone (is_payment order_id n) table
