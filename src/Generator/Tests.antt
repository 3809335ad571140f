-- ===== src/Generator/Tests.antt =====
-- An order from its creation to its delivery, and the theorems of its transitions at it.
use commerce_data_platform.Prelude.{◌≡◌, ◌≢◌, ◌⊎◌, refl, inl, none, some, [], ◌∷◌, arith}
use commerce_data_platform.Exceptions.{
  Exception, ok, err, value_error, integrity_error, lease_ownership_lost,
}
use commerce_data_platform.Clock.{utc, zoned, assert_utc, utc_now}
use commerce_data_platform.Lease.{LeaseTable, SourceMutationLease, check}
use commerce_data_platform.Sql.{fetchone, update_where, insert}
use commerce_data_platform.Generator.Transitions.{
  created, approved, shipped, delivered, OrderState, OrderTransition, one_updated, is_replay,
  assert_expected_order, order_state_after, assert_allowed_order, eq_order_status,
  plan_order_transition, assert_increasing, assert_event,
}
use commerce_data_platform.Generator.Transitions.Orders.{
  OrderTable, is_order, set_order, persist_order_transition,
}
use commerce_data_platform.Generator.Transitions.OrderLifecycle.{desired}
use commerce_data_platform.Generator.Transitions.OrderReplay.{planned_update, second_plan_refused}
use commerce_data_platform.Generator.Transitions.OrderHistory.{
  here, next, Lived, order_life, closed_order_is_final,
}
use commerce_data_platform.Generator.Transitions.{completed}
use commerce_data_platform.Generator.Progress.{
  OrderProgressPlan, divided, stage_delays, planned_order_times, plan_order_progress,
  progress_order,
}
use commerce_data_platform.Generator.Progress.Accepted.{progress_accepted}
use commerce_data_platform.Generator.Commits.{
  GeneratorConfig, CommittedResult, same_input, committed_result, commit_conflict,
  record_source_commit,
}
use commerce_data_platform.Generator.Commits.Once
use commerce_data_platform.Generator.Commits.Once.{recorded_once}
use commerce_data_platform.Generator.Transitions.{
  pending, eq_payment_status, assert_allowed_payment,
}
use commerce_data_platform.Generator.Transitions.Payments.{
  PaymentState, PaymentTransition, plan_payment_transition,
}

program : Unit {0}
unfolding is_replay assert_expected_order order_state_after assert_allowed_order eq_order_status
    plan_order_transition assert_increasing assert_event assert_utc is_order
    persist_order_transition fetchone update_where divided stage_delays planned_order_times
    plan_order_progress progress_order
program = tt

abbrev new_order : OrderState
new_order = record {
  order_id = "o1";
  order_status = created;
  approved_at = none;
  carrier_date = none;
  customer_date = none;
  updated_at = 10;
}

abbrev approval : OrderTransition
approval = record {
  order_id = "o1";
  expected_status = created;
  expected_updated_at = 10;
  next_status = approved;
  mutation_time = 20;
  business_event_time = some 15;
}

abbrev orders : OrderTable
orders = record new_order { order_id = "o0" } ∷ new_order ∷ []

abbrev approved_orders : OrderTable
approved_orders = (persist_order_transition approval orders).1

plan_approval : plan_order_transition new_order approved (utc 20) (some (utc 15)) ≡ ok approval
unfolding program
plan_approval = refl

plan_skip : plan_order_transition new_order shipped (utc 20) none ≡ err value_error
unfolding program
plan_skip = refl

plan_zoned : plan_order_transition new_order approved (zoned 20) none ≡ err value_error
unfolding program
plan_zoned = refl

planned_update_example :
    persist_order_transition approval orders
    ≡ (ok one_updated, update_where (is_order "o1") (set_order (desired approval new_order)) orders)
unfolding program
planned_update_example =
    planned_update new_order approved (utc 20) (some (utc 15)) approval orders refl refl

second_plan_refused_example :
    (persist_order_transition (record approval { mutation_time = 30 }) approved_orders).0
    ≢ ok one_updated
unfolding program
second_plan_refused_example =
    second_plan_refused approval (record approval { mutation_time = 30 }) orders refl refl refl

order_life_example : Lived "o1" new_order approved_orders
unfolding program
order_life_example = order_life "o1" new_order {table = orders} refl (next approval here)

abbrev closed : OrderState
closed = record new_order { order_status = delivered; customer_date = some 9 }

closed_order_is_final_example :
    fetchone (is_order "o1") (persist_order_transition approval (closed ∷ [])).1 ≡ some closed
unfolding program
closed_order_is_final_example =
    closed_order_is_final "o1" closed {table = closed ∷ []} (inl refl) refl (next approval here)

abbrev approval_plan : OrderProgressPlan
approval_plan = record {
  next_status = approved;
  business_event_time = some 900000010;
  payment_status = some completed;
  payment_event_time = some 900000010;
}

abbrev generator_lease : SourceMutationLease
generator_lease = record {
  owner_type = "GENERATOR";
  owner_id = 7;
  lease_expires_at = 2000000000;
  version = 3;
}

abbrev lease_table : LeaseTable
lease_table = some (record {
  owner_type = some "GENERATOR";
  owner_id = some 7;
  lease_expires_at = some 2000000000;
  version = 3;
  updated_at = 0;
})

progress_held :
    (progress_order 1000000000 generator_lease new_order approval_plan 1000000000
      (lease_table, orders)).0
    ≡ ok one_updated
unfolding program check utc_now
progress_held = refl

progress_late :
    progress_order 2000000000 generator_lease new_order approval_plan 1000000000
      (lease_table, orders)
    ≡ (err lease_ownership_lost, (lease_table, orders))
unfolding program check utc_now
progress_late = refl

-- With a hash that is 5 everywhere, approval is due fifteen minutes after the creation.
progress_accepted_example :
    (((check 1000000000 none generator_lease lease_table).0 ≡ ok tt)
      × ((progress_order 1000000000 generator_lease new_order approval_plan 1000000000
            (lease_table, orders)).0
          ≡ ok one_updated))
    ⊎ ((e : Exception) × ((check 1000000000 none generator_lease lease_table).0 ≡ err e)
        × ((progress_order 1000000000 generator_lease new_order approval_plan 1000000000
              (lease_table, orders)).0
            ≡ err e)
        × (((progress_order 1000000000 generator_lease new_order approval_plan 1000000000
                (lease_table, orders)).1
              ).1
            ≡ orders))
unfolding program
progress_accepted_example =
    progress_accepted (λ seed order_id stage. 5) 42 10 1000000000 1 1000000000 generator_lease
      new_order approval_plan lease_table orders refl (omega arith) refl

abbrev config : GeneratorConfig
config = record {
  source_snapshot_id = "olist";
  random_seed = 42;
  logical_date = 100;
  order_count = 5;
  anomaly_profile = "none";
  generator_version = "v1";
  progress_time_scale = 1;
}

abbrev result : CommittedResult
result = record { generator_run_id = 1; result_counts = []; logical_content_hash = "h" }

recorded_once_example :
    let later = (record_source_commit config result []).1 in
    (committed_result config later ≡ some result)
    × (record_source_commit config (record result { generator_run_id = 2 }) later
        ≡ (err integrity_error, later))
unfolding record_source_commit commit_conflict same_input fetchone insert
recorded_once_example =
    recorded_once config result (record result { generator_run_id = 2 }) [] refl Once.here

abbrev pending_payment : PaymentState
pending_payment = record {
  order_id = "o1";
  payment_sequential = 1;
  payment_status = pending;
  initiated_at = some 10;
  completed_at = none;
  failed_at = none;
  refunded_at = none;
  updated_at = 10;
}

abbrev completion : PaymentTransition
completion = record {
  order_id = "o1";
  payment_sequential = 1;
  expected_status = pending;
  expected_updated_at = 10;
  next_status = completed;
  mutation_time = 20;
  business_event_time = none;
}

plan_completion : plan_payment_transition pending_payment completed (utc 20) none ≡ ok completion
unfolding plan_payment_transition assert_allowed_payment eq_payment_status assert_increasing
    assert_event assert_utc
plan_completion = refl
