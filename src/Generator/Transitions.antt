-- ===== src/Generator/Transitions.antt =====
-- src/generator/orders/transitions.py: the changes of state of orders and payments in the source.
-- A time is UTC by its type once a plan has checked it. A status is one of those that the table's
-- check allows; any other text is refused as a status without transitions is.
pub mod Orders
pub mod Payments
pub mod OrderLifecycle
pub mod OrderReplay
pub mod OrderHistory
pub mod PaymentLifecycle
use commerce_data_platform.Prelude.{
  ℕ, String, Bool, true, false, not, ◌&&◌, ◌||◌, Option, none, some, List, [], ◌∷◌, ltb, leb, ◌==◌,
  str_eq, if◌then◌else◌,
}
use commerce_data_platform.Exceptions.{Result, ok, err, value_error, key_error}
use commerce_data_platform.Clock.{DateTime, assert_utc}
use commerce_data_platform.Records.{require, ◌>>=◌, ◌>>◌}

pub data OrderStatus : Type 0 where
  created approved processing invoiced shipped delivered canceled unavailable : OrderStatus

pub data PaymentStatus : Type 0 where
  pending completed failed refunded : PaymentStatus

abbrev order_code : OrderStatus → ℕ
order_code created = 0
order_code approved = 1
order_code processing = 2
order_code invoiced = 3
order_code shipped = 4
order_code delivered = 5
order_code canceled = 6
order_code unavailable = 7

abbrev payment_code : PaymentStatus → ℕ
payment_code pending = 0
payment_code completed = 1
payment_code failed = 2
payment_code refunded = 3

unfoldable pub eq_order_status : OrderStatus → OrderStatus → Bool
eq_order_status a b = order_code a == order_code b

unfoldable pub eq_payment_status : PaymentStatus → PaymentStatus → Bool
eq_payment_status a b = payment_code a == payment_code b

-- `ORDER_TRANSITIONS.get(status)`
abbrev order_transitions : OrderStatus → Option (List OrderStatus)
order_transitions created = some (approved ∷ canceled ∷ [])
order_transitions approved = some (shipped ∷ canceled ∷ [])
order_transitions shipped = some (delivered ∷ [])
order_transitions delivered = some []
order_transitions canceled = some []
order_transitions processing = none
order_transitions invoiced = none
order_transitions unavailable = none

-- `PAYMENT_TRANSITIONS.get(status)`
abbrev payment_transitions : PaymentStatus → Option (List PaymentStatus)
payment_transitions pending = some (completed ∷ failed ∷ [])
payment_transitions completed = some (refunded ∷ [])
payment_transitions failed = some []
payment_transitions refunded = some []

abbrev elem : {S : Type 0} → (S → S → Bool) → S → List S → Bool
elem eq s [] = false
elem eq s (x ∷ xs) = eq s x || elem eq s xs

abbrev allowed : {S : Type 0} → (S → S → Bool) → Option (List S) → S → Bool
allowed eq none next = false
allowed eq (some targets) next = elem eq next targets

unfoldable pub assert_allowed_order : OrderStatus → OrderStatus → Result (Unit {0})
unfolding eq_order_status
assert_allowed_order current next =
    require (allowed eq_order_status (order_transitions current) next)

unfoldable pub assert_allowed_payment : PaymentStatus → PaymentStatus → Result (Unit {0})
unfolding eq_payment_status
assert_allowed_payment current next =
    require (allowed eq_payment_status (payment_transitions current) next)

-- The mutation time, when it is UTC and later than the row's.
unfoldable pub assert_increasing : ℕ → DateTime → Result ℕ
unfolding assert_utc
assert_increasing updated_at mutation_time = do
  t ← assert_utc mutation_time
  require (ltb updated_at t)
  ok t

-- `_assert_business_event_time`, where there is one.
unfoldable pub assert_event : Option DateTime → ℕ → Result (Option ℕ)
unfolding assert_utc
assert_event none mutation_time = ok none
assert_event (some event) mutation_time = do
  t ← assert_utc event
  require (leb t mutation_time)
  ok (some t)

abbrev pub event_time : Option ℕ → ℕ → ℕ
event_time none mutation_time = mutation_time
event_time (some t) mutation_time = t

pub record OrderState : Type 0 where
  pub order_id : String
  pub order_status : OrderStatus
  pub approved_at : Option ℕ
  pub carrier_date : Option ℕ
  pub customer_date : Option ℕ
  pub updated_at : ℕ

pub record OrderTransition : Type 0 where
  pub order_id : String
  pub expected_status : OrderStatus
  pub expected_updated_at : ℕ
  pub next_status : OrderStatus
  pub mutation_time : ℕ
  pub business_event_time : Option ℕ

pub record TransitionResult : Type 0 where
  pub updated : ℕ
  pub skipped : ℕ

abbrev pub one_updated : TransitionResult
one_updated = record { updated = 1; skipped = 0 }

abbrev pub one_skipped : TransitionResult
one_skipped = record { updated = 0; skipped = 1 }

abbrev pub has_order_event : OrderStatus → Bool
has_order_event approved = true
has_order_event shipped = true
has_order_event delivered = true
has_order_event status = false

abbrev pub assert_event_status : Option ℕ → Bool → Result (Unit {0})
assert_event_status none supported = ok tt
assert_event_status (some t) supported = require supported

unfoldable pub plan_order_transition :
    OrderState → OrderStatus → DateTime → Option DateTime → Result OrderTransition
plan_order_transition current next mutation_time event = do
  assert_allowed_order current.order_status next
  t ← assert_increasing current.updated_at mutation_time
  e ← assert_event event t
  assert_event_status e (has_order_event next)
  ok (record {
    order_id = current.order_id;
    expected_status = current.order_status;
    expected_updated_at = current.updated_at;
    next_status = next;
    mutation_time = t;
    business_event_time = e;
  })

abbrev pub stamped : OrderState → OrderStatus → ℕ → ℕ → OrderState
stamped current approved event t = record current {
  order_status = approved;
  approved_at = some event;
  updated_at = t;
}
stamped current shipped event t = record current {
  order_status = shipped;
  carrier_date = some event;
  updated_at = t;
}
stamped current delivered event t = record current {
  order_status = delivered;
  customer_date = some event;
  updated_at = t;
}
stamped current status event t = record current { order_status = status; updated_at = t }

-- The time of the event is checked again here.
abbrev assert_event_order : Option ℕ → ℕ → Result (Unit {0})
assert_event_order none t = ok tt
assert_event_order (some e) t = require (leb e t)

unfoldable pub order_state_after : OrderState → OrderTransition → Result OrderState
order_state_after current transition = do
  assert_allowed_order current.order_status transition.next_status
  require (ltb current.updated_at transition.mutation_time)
  assert_event_order transition.business_event_time transition.mutation_time
  ok (
      stamped current transition.next_status
        (event_time transition.business_event_time transition.mutation_time)
        transition.mutation_time)

abbrev pub same_time : Option ℕ → ℕ → Bool
same_time none t = false
same_time (some s) t = s == t

abbrev pub order_event : OrderState → OrderStatus → ℕ → Bool
order_event current approved t = same_time current.approved_at t
order_event current shipped t = same_time current.carrier_date t
order_event current delivered t = same_time current.customer_date t
order_event current status t = true

-- `_is_idempotent_order_transition`
unfoldable pub is_replay : OrderState → OrderTransition → Result Bool
is_replay current transition =
    if eq_order_status current.order_status transition.next_status
      && current.updated_at == transition.mutation_time
    then (if order_event current transition.next_status
          (event_time transition.business_event_time transition.mutation_time)
        then ok true
        else err value_error)
    else ok false

unfoldable pub assert_expected_order : OrderState → OrderTransition → Result (Unit {0})
assert_expected_order current transition = require (
    eq_order_status current.order_status transition.expected_status
    && current.updated_at == transition.expected_updated_at)
