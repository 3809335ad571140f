-- ===== src/Generator/Transitions/Payments.antt =====
-- The payments of src/generator/orders/transitions.py, on the columns of `order_payments` that
-- their transitions read or write.
pub mod Persist
use commerce_data_platform.Prelude.{
  ℕ, String, Bool, true, false, ◌&&◌, Option, none, some, List, ltb, ◌==◌, str_eq, if◌then◌else◌,
}
use commerce_data_platform.Exceptions.{Result, ok, err, value_error, key_error}
use commerce_data_platform.Clock.{DateTime}
use commerce_data_platform.Records.{require, ◌>>=◌, ◌>>◌}
use commerce_data_platform.Generator.Transitions.{
  PaymentStatus, pending, completed, failed, refunded, eq_payment_status, assert_allowed_payment,
  assert_increasing, assert_event, assert_event_status, event_time, same_time,
}

pub record PaymentState : Type 0 where
  pub order_id : String
  pub payment_sequential : ℕ
  pub payment_status : PaymentStatus
  pub initiated_at : Option ℕ
  pub completed_at : Option ℕ
  pub failed_at : Option ℕ
  pub refunded_at : Option ℕ
  pub updated_at : ℕ

pub record PaymentTransition : Type 0 where
  pub order_id : String
  pub payment_sequential : ℕ
  pub expected_status : PaymentStatus
  pub expected_updated_at : ℕ
  pub next_status : PaymentStatus
  pub mutation_time : ℕ
  pub business_event_time : Option ℕ

abbrev has_payment_event : PaymentStatus → Bool
has_payment_event pending = false
has_payment_event status = true

unfoldable pub plan_payment_transition :
    PaymentState → PaymentStatus → DateTime → Option DateTime → Result PaymentTransition
plan_payment_transition current next mutation_time event = do
  assert_allowed_payment current.payment_status next
  t ← assert_increasing current.updated_at mutation_time
  e ← assert_event event t
  assert_event_status e (has_payment_event next)
  ok (record {
    order_id = current.order_id;
    payment_sequential = current.payment_sequential;
    expected_status = current.payment_status;
    expected_updated_at = current.updated_at;
    next_status = next;
    mutation_time = t;
    business_event_time = e;
  })

-- `_payment_event_at`: a pending payment has no event.
unfoldable pub payment_event_at : PaymentState → PaymentStatus → Result (Option ℕ)
payment_event_at current pending = err key_error
payment_event_at current completed = ok current.completed_at
payment_event_at current failed = ok current.failed_at
payment_event_at current refunded = ok current.refunded_at

abbrev same_event : ℕ → Option ℕ → Result Bool
same_event t recorded = if same_time recorded t then ok true else err value_error

-- The first test of `persist_payment_transition`.
unfoldable pub is_payment_replay : PaymentState → PaymentTransition → Result Bool
is_payment_replay current transition =
    if eq_payment_status current.payment_status transition.next_status
      && current.updated_at == transition.mutation_time
    then payment_event_at current transition.next_status
      >>= same_event (event_time transition.business_event_time transition.mutation_time)
    else ok false

unfoldable pub assert_expected_payment : PaymentState → PaymentTransition → Result (Unit {0})
assert_expected_payment current transition = require (
    eq_payment_status current.payment_status transition.expected_status
    && current.updated_at == transition.expected_updated_at)

abbrev pub paid : PaymentState → PaymentStatus → ℕ → ℕ → PaymentState
paid current completed event t = record current {
  completed_at = some event;
  payment_status = completed;
  updated_at = t;
}
paid current failed event t = record current {
  failed_at = some event;
  payment_status = failed;
  updated_at = t;
}
paid current status event t = record current {
  refunded_at = some event;
  payment_status = status;
  updated_at = t;
}

-- From the check of the transition to the row that is written. Unlike an order's, a payment's
-- event time is not checked again.
unfoldable pub payment_state_after : PaymentState → PaymentTransition → Result PaymentState
payment_state_after current transition = do
  assert_allowed_payment current.payment_status transition.next_status
  require (ltb current.updated_at transition.mutation_time)
  ok (
      paid current transition.next_status
        (event_time transition.business_event_time transition.mutation_time)
        transition.mutation_time)
