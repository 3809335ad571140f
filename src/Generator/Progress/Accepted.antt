-- ===== src/Generator/Progress/Accepted.antt =====
-- The plans of src/generator/orders/order_progress.py before the transitions.
use mathlib.Core.Option
use commerce_data_platform.Prelude.{ℕ, ◌<◌, String, ◌≡◌, ◌⊎◌, inl, inr, none, some, arith}
use commerce_data_platform.Exceptions.{Exception, ok, err, Result-cases}
use commerce_data_platform.Lease.{LeaseTable, SourceMutationLease, check}
use commerce_data_platform.Clock.{utc, assert_utc}
use commerce_data_platform.Sql.{fetchone}
use commerce_data_platform.Generator.Transitions.{
  OrderStatus, created, approved, shipped, OrderState, OrderTransition, one_updated,
  plan_order_transition, assert_increasing, assert_event, assert_allowed_order, eq_order_status,
  assert_event_status, has_order_event,
}
use commerce_data_platform.Generator.Transitions.Orders.{OrderTable, is_order}
use commerce_data_platform.Generator.Transitions.OrderReplay.{planned_update}
use commerce_data_platform.Generator.Progress.{
  OrderProgressPlan, due_step, plan_order_progress, progress_order, planned_order_times,
}

-- What a plan needs to be made into a transition.
record IsDue (status : OrderStatus) (logical_date : ℕ) (plan : OrderProgressPlan) : Type 0 where
  allowed : assert_allowed_order status plan.next_status ≡ ok tt
  event :
      assert_event (Option.map utc plan.business_event_time) logical_date
      ≡ ok plan.business_event_time
  supported :
      assert_event_status plan.business_event_time (has_order_event plan.next_status) ≡ ok tt

module _ (choice : ℕ → String → String → ℕ) (seed : ℕ) (order_id : String) (logical_date : ℕ) where
  due_step-IsDue :
      (status : OrderStatus) (times : ℕ × ℕ × ℕ) (plan : OrderProgressPlan)
      → due_step choice seed order_id status logical_date times ≡ some plan
      → IsDue status logical_date plan
  unfolding assert_allowed_order eq_order_status assert_event assert_utc
  due_step-IsDue created times plan h = record {
    allowed = ground arith;
    event = ground arith;
    supported = ground arith;
  }
  due_step-IsDue approved times plan h = record {
    allowed = ground arith;
    event = ground arith;
    supported = ground arith;
  }
  due_step-IsDue shipped times plan h = record {
    allowed = ground arith;
    event = ground arith;
    supported = ground arith;
  }
  due_step-IsDue status times plan h = absurd (ground arith)

IsDue-transition :
    (current : OrderState) (logical_date : ℕ) (plan : OrderProgressPlan)
    → current.updated_at < logical_date
    → IsDue current.order_status logical_date plan
    → (t : OrderTransition) × (plan_order_transition current plan.next_status
          (utc logical_date)
          (Option.map utc plan.business_event_time)
        ≡ ok t)
unfolding plan_order_transition assert_increasing assert_utc
IsDue-transition current logical_date plan later due = (
  record {
    order_id = current.order_id;
    expected_status = current.order_status;
    expected_updated_at = current.updated_at;
    next_status = plan.next_status;
    mutation_time = logical_date;
    business_event_time = plan.business_event_time;
  },
  ground (arith, due.allowed, due.event, due.supported),
)

-- Whatever the hash chooses, a step that the progress rules plan for an order whose version is
-- older than the logical date is accepted by the transitions: it updates the order, unless the
-- source lease is not held any more, which raises the lease's error and leaves the orders alone.
pub progress_accepted :
    (choice : ℕ → String → String → ℕ) (seed created_at logical_date scale clock : ℕ)
    (lease : SourceMutationLease) (current : OrderState) (plan : OrderProgressPlan)
    (leases : LeaseTable) (table : OrderTable)
    → plan_order_progress choice seed current.order_id current.order_status created_at logical_date
        scale current.approved_at current.carrier_date
      ≡ some plan
    → current.updated_at < logical_date
    → fetchone (is_order current.order_id) table ≡ some current
    → (((check clock none lease leases).0 ≡ ok tt)
        × ((progress_order clock lease current plan logical_date (leases, table)).0
            ≡ ok one_updated))
      ⊎ ((e : Exception) × ((check clock none lease leases).0 ≡ err e)
          × ((progress_order clock lease current plan logical_date (leases, table)).0 ≡ err e)
          × (((progress_order clock lease current plan logical_date (leases, table)).1).1 ≡ table))
unfolding plan_order_progress progress_order
progress_accepted choice seed created_at logical_date scale clock lease current plan leases table
      planned later found =
    let due =
      due_step-IsDue choice seed current.order_id logical_date current.order_status
        (planned_order_times choice seed current.order_id created_at scale current.approved_at
          current.carrier_date)
        plan planned in
    let (t, made) = IsDue-transition current logical_date plan later due in
    elim (Result-cases (check clock none lease leases).0) [
      | inl (u, held) ↦ inl (
        held,
        ground (
          arith,
          made,
          held,
          planned_update current plan.next_status (utc logical_date)
              (Option.map utc plan.business_event_time) t table made found,
        ),
      )
      | inr (e, lost) ↦ inr (e, lost, ground (arith, made, lost), ground (arith, made, lost))
    ]
