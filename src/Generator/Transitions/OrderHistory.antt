-- ===== src/Generator/Transitions/OrderHistory.antt =====
-- Orders over many transitions.
use commerce_data_platform.Prelude.{
  ◌≤◌, String, ◌≡◌, ◌≢◌, ap, sym, subst, ◌∙◌, inl, inr, ◌⊎◌, Option, some, arith, str_eq,
  str_eq_iff, Bool-cases,
}
use commerce_data_platform.Sql.{fetchone}
use commerce_data_platform.Generator.Transitions.{
  OrderStatus, delivered, canceled, OrderState, OrderTransition, event_time,
}
use commerce_data_platform.Generator.Transitions.Orders.{
  OrderTable, is_order, persist_order_transition,
}
use commerce_data_platform.Generator.Transitions.OrderLifecycle.{
  Next, approve, ship, deliver, cancel_new, cancel_approved, eq_order_status_iff, Moved,
  update_moves, desired,
}
use commerce_data_platform.Generator.Transitions.OrderReplay.{desired_replay, persist_outcome}

-- Any transitions, planned at any time, by any process and whatever their outcome.
pub data Reach (start : OrderTable) : OrderTable → Type 0 where
  here : Reach start start
  next :
      {table : OrderTable} (t : OrderTransition)
      → Reach start table
      → Reach start (persist_order_transition t table).1

-- From one status to another along the life of an order.
pub data Life : OrderStatus → OrderStatus → Type 0 where
  stay : {a : OrderStatus} → Life a a
  step : {a b c : OrderStatus} → Life a b → Next b c → Life a c

-- The row of the order that `row` was the row of.
pub record Lived (order_id : String) (row : OrderState) (table : OrderTable) : Type 0 where
  pub now : OrderState
  pub found : fetchone (is_order order_id) table ≡ some now
  pub life : Life row.order_status now.order_status
  pub version : row.updated_at ≤ now.updated_at

found_as :
    (i j : String) (table : OrderTable) (r : OrderState)
    → i ≡ j
    → fetchone (is_order i) table ≡ some r
    → fetchone (is_order j) table ≡ some r
found_as i j table r e = subst (λ (k : String). fetchone (is_order k) table ≡ some r) e

same_row : (a b : OrderState) → ◌≡◌ {A = Option OrderState} (some a) (some b) → a ≡ b
same_row a b e = ground arith

desired_row :
    (t : OrderTransition) (row : OrderState)
    → ((desired t row).order_status ≡ t.next_status)
      × ((desired t row).updated_at ≡ t.mutation_time)
desired_row t row =
    let stamp =
      desired_replay t.next_status row (event_time t.business_event_time t.mutation_time)
        t.mutation_time in
    (eq_order_status_iff (desired t row).order_status t.next_status stamp.0, stamp.1)

closed_stays : {a b : OrderStatus} → Next a b → (a ≡ delivered) ⊎ (a ≡ canceled) → ⊥
closed_stays approve (inl e) = cc
closed_stays approve (inr e) = cc
closed_stays ship (inl e) = cc
closed_stays ship (inr e) = cc
closed_stays deliver (inl e) = cc
closed_stays deliver (inr e) = cc
closed_stays cancel_new (inl e) = cc
closed_stays cancel_new (inr e) = cc
closed_stays cancel_approved (inl e) = cc
closed_stays cancel_approved (inr e) = cc

Lived-Moved :
    (order_id : String) (row : OrderState) (t : OrderTransition) (table : OrderTable)
    → Moved t table (persist_order_transition t table).1
    → Lived order_id row table
    → (t.order_id ≡ order_id) ⊎ (order_id ≢ t.order_id)
    → Lived order_id row (persist_order_transition t table).1
Lived-Moved order_id row t table moved lived (inr apart) = record {
  now = lived.now;
  found = moved.others order_id apart ∙ lived.found;
  life = lived.life;
  version = lived.version;
}
Lived-Moved order_id row t table moved lived (inl same) =
    let was =
      same_row lived.now moved.row
        (sym lived.found ∙ found_as t.order_id order_id table moved.row same moved.found) in
    record {
      now = desired t moved.row;
      found =
          found_as t.order_id order_id (persist_order_transition t table).1 (desired t moved.row)
            same moved.result;
      life = subst (Life row.order_status) (sym (desired_row t moved.row).0) (
          step (subst (λ (r : OrderState). Life row.order_status r.order_status) was lived.life)
            moved.life);
      version = omega (
        arith,
        (desired_row t moved.row).1,
        moved.later,
        lived.version,
        ap (λ (r : OrderState). r.updated_at) was,
      );
    }

-- Through any sequence of transitions, planned and saved in any order, an order goes on from the
-- status that it had along the life of an order, and its version does not go down.
pub order_life :
    (order_id : String) (row : OrderState) {table later : OrderTable}
    → fetchone (is_order order_id) table ≡ some row
    → Reach table later
    → Lived order_id row later
order_life order_id row found here = record {
  now = row;
  found = found;
  life = stay;
  version = omega arith;
}
order_life order_id row found (next {table} t run) =
    let lived = order_life order_id row found run in
    elim (persist_outcome t table) [
      | inl same ↦ rw same lived
      | inr done ↦ elim (Bool-cases (str_eq t.order_id order_id)) [
        | inl e ↦
            Lived-Moved order_id row t table (update_moves t table done) lived
              (inl ((str_eq_iff t.order_id order_id).0 e))
        | inr e ↦
            Lived-Moved order_id row t table (update_moves t table done) lived
              (inr λ p. ground (arith, str_eq_iff t.order_id order_id))
      ]
    ]

-- An order that is delivered or canceled keeps its row as it is.
pub closed_order_is_final :
    (order_id : String) (row : OrderState) {table later : OrderTable}
    → (row.order_status ≡ delivered) ⊎ (row.order_status ≡ canceled)
    → fetchone (is_order order_id) table ≡ some row
    → Reach table later
    → fetchone (is_order order_id) later ≡ some row
closed_order_is_final order_id row closed found here = found
closed_order_is_final order_id row closed found (next {table} t run) =
    let still = closed_order_is_final order_id row closed found run in
    elim (persist_outcome t table) [
      | inl same ↦ rw same still
      | inr done ↦ elim (Bool-cases (str_eq t.order_id order_id)) [
        | inl e ↦
            let moved = update_moves t table done in
            let was = same_row row moved.row (
              sym still
              ∙ found_as t.order_id order_id table moved.row ((str_eq_iff t.order_id order_id).0 e)
                  moved.found) in
            absurd (closed_stays moved.life (rw was at closed))
        | inr e ↦
            (update_moves t table done).others order_id
              (λ p. ground (arith, str_eq_iff t.order_id order_id))
            ∙ still
      ]
    ]
