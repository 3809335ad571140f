-- ===== src/Generator/Transitions/OrderReplay.antt =====
-- Plans of transitions of orders that are saved on a changed table, or twice.
use commerce_data_platform.Prelude.{
  ℕ, ◌<◌, ◌≤◌, ◌≡◌, ◌≢◌, refl, sym, ◌∙◌, inl, inr, ◌⊎◌, true, false, Option, some, arith,
  Option-cases,
}
use commerce_data_platform.Exceptions.{ok, Result-cases}
use commerce_data_platform.Clock.{DateTime}
use commerce_data_platform.Sql.{fetchone, update_where}
use commerce_data_platform.Generator.Transitions.{
  OrderStatus, delivered, OrderState, OrderTransition, one_updated, one_skipped, is_replay,
  assert_expected_order, order_state_after, assert_allowed_order, eq_order_status,
  plan_order_transition, assert_increasing, assert_event, event_time, stamped, order_event, created,
  approved, shipped,
}
use commerce_data_platform.Generator.Transitions.Orders.{
  OrderTable, is_order, set_order, persist_order_transition,
}
use commerce_data_platform.Generator.Transitions.OrderLifecycle.{
  Passes, Passes-updated, update_moves, desired,
}

-- What a plan takes from the row that it was made from, and what it checked.
record Planned (row : OrderState) (t : OrderTransition) : Type 0 where
  order_id : t.order_id ≡ row.order_id
  status : t.expected_status ≡ row.order_status
  version : t.expected_updated_at ≡ row.updated_at
  allowed : assert_allowed_order row.order_status t.next_status ≡ ok tt
  later : row.updated_at < t.mutation_time
  event : (e : ℕ) → t.business_event_time ≡ some e → e ≤ t.mutation_time

plan-Planned :
    (row : OrderState) (next : OrderStatus) (time : DateTime) (event : Option DateTime)
    (t : OrderTransition)
    → plan_order_transition row next time event ≡ ok t
    → Planned row t
unfolding plan_order_transition assert_increasing assert_event
plan-Planned row next time event t h = record {
  order_id = ground arith;
  status = ground arith;
  version = ground arith;
  allowed = ground arith;
  later = ground arith;
  event = λ e q. ground arith;
}

eq_order_status_refl : (a : OrderStatus) → eq_order_status a a ≡ true
unfolding eq_order_status
eq_order_status_refl a = ground arith

Planned-Passes : (row : OrderState) (t : OrderTransition) → Planned row t → Passes t row
unfolding is_replay assert_expected_order order_state_after
Planned-Passes row t h = record {
  new = ground (arith, h.later);
  expected = ground (arith, h.status, h.version, eq_order_status_refl row.order_status);
  after = elim (Option-cases t.business_event_time) [
    | inl e ↦ ground (arith, h.allowed, h.later)
    | inr (event, e) ↦ ground (arith, h.allowed, h.later, h.event event e)
  ];
}

-- A plan goes through on a table in which its order's row is still the one of the plan.
pub planned_update :
    (row : OrderState) (next : OrderStatus) (time : DateTime) (event : Option DateTime)
    (t : OrderTransition) (table : OrderTable)
    → plan_order_transition row next time event ≡ ok t
    → fetchone (is_order row.order_id) table ≡ some row
    → persist_order_transition t table
      ≡ (ok one_updated, update_where (is_order t.order_id) (set_order (desired t row)) table)
planned_update row next time event t table h found =
    let planned = plan-Planned row next time event t h in
    Passes-updated t table row (rw planned.order_id found) (Planned-Passes row t planned)

abbrev HasEvent : OrderTransition → OrderState → Type 0
HasEvent t row = is_replay (desired t row) t ≡ ok true

pub desired_replay :
    (status : OrderStatus) (row : OrderState) (event t : ℕ)
    → (eq_order_status (stamped row status event t).order_status status ≡ true)
      × ((stamped row status event t).updated_at ≡ t)
      × (order_event (stamped row status event t) status event ≡ true)
unfolding eq_order_status
desired_replay created row event t = (refl, refl, refl)
desired_replay approved row event t = (refl, refl, ground arith)
desired_replay shipped row event t = (refl, refl, ground arith)
desired_replay delivered row event t = (refl, refl, ground arith)
desired_replay status row event t = (refl, refl, refl)

desired-HasEvent : (t : OrderTransition) (row : OrderState) → HasEvent t row
unfolding is_replay
desired-HasEvent t row = ground (
  arith,
  desired_replay t.next_status row (event_time t.business_event_time t.mutation_time)
      t.mutation_time,
)

-- A transition that comes a second time is skipped, and changes nothing.
pub replay_skipped :
    (t : OrderTransition) (table : OrderTable)
    → (persist_order_transition t table).0 ≡ ok one_updated
    → persist_order_transition t (persist_order_transition t table).1
      ≡ (ok one_skipped, (persist_order_transition t table).1)
unfolding persist_order_transition
replay_skipped t table done =
    let moved = update_moves t table done in
    rw (persist_order_transition, moved.result, desired-HasEvent t moved.row) refl

stamped-updated_at :
    (row : OrderState) (status : OrderStatus) (event t : ℕ)
    → (stamped row status event t).updated_at ≡ t
stamped-updated_at row status event t = (desired_replay status row event t).1

stamp :
    (t : OrderTransition) (row row' : OrderState)
    → ◌≡◌ {A = Option OrderState} (some (desired t row)) (some row')
    → row'.updated_at ≡ t.mutation_time
stamp t row row' e = ground (
  arith,
  stamped-updated_at row t.next_status (event_time t.business_event_time t.mutation_time)
      t.mutation_time,
)

-- Of two plans that were made from the same row at different times, the one that comes second
-- does not update it.
pub second_plan_refused :
    (t u : OrderTransition) (table : OrderTable)
    → (persist_order_transition t table).0 ≡ ok one_updated
    → u.order_id ≡ t.order_id
    → u.expected_updated_at ≡ t.expected_updated_at
    → (persist_order_transition u (persist_order_transition t table).1).0 ≢ ok one_updated
second_plan_refused t u table done same version again =
    let first = update_moves t table done in
    let second = update_moves u (persist_order_transition t table).1 again in
    let same_row = sym first.result ∙ (rw same at second.found) in
    absurd (
      omega (
        arith,
        first.later,
        first.version,
        second.version,
        version,
        stamp t first.row second.row same_row,
      ))

pub persist_outcome :
    (t : OrderTransition) (table : OrderTable)
    → ((persist_order_transition t table).1 ≡ table)
      ⊎ ((persist_order_transition t table).0 ≡ ok one_updated)
unfolding persist_order_transition
persist_outcome t table = elim (Option-cases (fetchone (is_order t.order_id) table)) [
  | inl missing ↦ inl (ground arith)
  | inr (row, found) ↦ elim (Result-cases (is_replay row t)) [
    | inl (true, replay) ↦ inl (ground arith)
    | inl (false, replay) ↦ elim (Result-cases (assert_expected_order row t)) [
      | inl (u, expected) ↦ elim (Result-cases (order_state_after row t)) [
        | inl (d, after) ↦ inr (ground arith)
        | inr (e, after) ↦ inl (ground arith)
      ]
      | inr (e, expected) ↦ inl (ground arith)
    ]
    | inr (e, replay) ↦ inl (ground arith)
  ]
]
