-- ===== src/Generator/Progress.antt =====
-- src/generator/orders/order_progress.py: the next step of an order that the generator made, when
-- its time has come, and how src/generator/orders/existing_orders.py puts it into the source.
-- `choice seed order_id stage` stands for the number that the SHA-256 of hashlib gives.
pub mod Accepted
use Prim.Native.Nat.{◌*◌, ◌/◌, ◌%◌}
use mathlib.Core.Option
use commerce_data_platform.Prelude.{
  ℕ, ◌+◌, String, Bool, ◌&&◌, ◌||◌, Option, none, some, ltb, leb, ◌==◌, if◌then◌else◌,
}
use commerce_data_platform.Exceptions.{Result, ok, err}
use commerce_data_platform.Action.{Action, pure, lift, gets, or_raise, ◌>>=◌, ◌>>◌}
use commerce_data_platform.Clock.{DateTime, utc}
use commerce_data_platform.Lease.{LeaseTable, SourceMutationLease, check}
use commerce_data_platform.Generator.Transitions.{
  OrderStatus, created, approved, shipped, delivered, canceled, PaymentStatus, completed, failed,
  refunded, OrderState, TransitionResult, plan_order_transition,
}
use commerce_data_platform.Generator.Transitions.Orders.{OrderTable, persist_order_transition}

pub record OrderProgressPlan : Type 0 where
  pub next_status : OrderStatus
  pub business_event_time : Option ℕ
  pub payment_status : Option PaymentStatus
  pub payment_event_time : Option ℕ

-- `timedelta / int`: the nearest microsecond, and the even one of two.
unfoldable pub divided : ℕ → ℕ → ℕ
divided delay scale =
    let q = delay / scale in
    let r = delay % scale in if ltb (2 * r) scale || 2 * r == scale && q % 2 == 0 then q else q + 1

abbrev minutes : ℕ → ℕ
minutes n = n * 60000000

abbrev hours : ℕ → ℕ
hours n = n * 3600000000

abbrev or_else : Option ℕ → ℕ → ℕ
or_else none t = t
or_else (some s) t = s

module _ (choice : ℕ → String → String → ℕ) where
  -- `_stage_delays`
  unfoldable pub stage_delays : ℕ → String → ℕ × ℕ × ℕ
  stage_delays seed order_id = (
    minutes (10 + choice seed order_id "approved-at" % 21),
    hours (36 + choice seed order_id "shipped-at" % 25),
    hours (120 + choice seed order_id "delivered-at" % 97),
  )

  unfoldable pub planned_order_times : ℕ → String → ℕ → ℕ → Option ℕ → Option ℕ → ℕ × ℕ × ℕ
  unfolding stage_delays divided
  planned_order_times seed order_id created_at scale approved_at shipped_at =
      let (approval, shipping, delivery) = stage_delays seed order_id in
      let planned_approved = created_at + divided approval scale in
      let planned_shipped = or_else approved_at planned_approved + divided shipping scale in
      let planned_delivered = or_else shipped_at planned_shipped + divided delivery scale in
      (planned_approved, planned_shipped, planned_delivered)

  abbrev canceled_with : PaymentStatus → ℕ → OrderProgressPlan
  canceled_with payment t = record {
    next_status = canceled;
    business_event_time = none;
    payment_status = some payment;
    payment_event_time = some t;
  }

  abbrev step_at : OrderStatus → ℕ → OrderProgressPlan
  step_at status t = record {
    next_status = status;
    business_event_time = some t;
    payment_status = none;
    payment_event_time = none;
  }

  abbrev approved_with_payment : ℕ → OrderProgressPlan
  approved_with_payment t = record {
    next_status = approved;
    business_event_time = some t;
    payment_status = some completed;
    payment_event_time = some t;
  }

  -- The step from each status, where its planned time has come.
  abbrev pub due_step : ℕ → String → OrderStatus → ℕ → ℕ × ℕ × ℕ → Option OrderProgressPlan
  due_step seed order_id created logical_date (approval, shipping, delivery) =
      if leb approval logical_date
      then (if ltb (choice seed order_id "created-cancel" % 1000) 4
          then some (canceled_with failed approval)
          else some (approved_with_payment approval))
      else none
  due_step seed order_id approved logical_date (approval, shipping, delivery) =
      if leb shipping logical_date
      then (if ltb (choice seed order_id "approved-cancel" % 1000) 2
          then some (canceled_with refunded shipping)
          else some (step_at shipped shipping))
      else none
  due_step seed order_id shipped logical_date (approval, shipping, delivery) =
      if leb delivery logical_date then some (step_at delivered delivery) else none
  due_step seed order_id status logical_date times = none

  unfoldable pub plan_order_progress :
      ℕ → String → OrderStatus → ℕ → ℕ → ℕ → Option ℕ → Option ℕ → Option OrderProgressPlan
  unfolding planned_order_times
  plan_order_progress seed order_id status created_at logical_date scale approved_at shipped_at =
      due_step seed order_id status logical_date
        (planned_order_times seed order_id created_at scale approved_at shipped_at)

-- The lease stands in the metadata database and the orders in the source database.
module _ {A : Type 0} where
  abbrev pub on_lease : Action LeaseTable A → Action (LeaseTable × OrderTable) A
  on_lease m s = let (r, leases) = m (s.0) in (r, (leases, s.1))

  abbrev pub on_orders : Action OrderTable A → Action (LeaseTable × OrderTable) A
  on_orders m s = let (r, orders) = m (s.1) in (r, (s.0, orders))

-- The order's half of one turn of the loop over the candidates: the plan becomes a transition at
-- the logical date, which is saved if the source lease is still held.
unfoldable pub progress_order :
    ℕ
    → SourceMutationLease
    → OrderState
    → OrderProgressPlan
    → ℕ
    → Action (LeaseTable × OrderTable) TransitionResult
progress_order clock lease current plan logical_date = do
  transition ← lift (
      plan_order_transition current plan.next_status (utc logical_date)
        (Option.map utc plan.business_event_time))
  on_lease (check clock none lease)
  on_orders (persist_order_transition transition)
