-- ===== src/Generator/Transitions/OrderLifecycle.antt =====
-- What a transition of an order does to its row, against the life of an order.
use commerce_data_platform.Prelude.{
  ℕ, ◌<◌, String, ◌≡◌, ◌≢◌, refl, inl, inr, true, false, none, some, arith, str_eq_iff,
  Option-cases,
}
use commerce_data_platform.Exceptions.{ok, err, value_error}
use commerce_data_platform.Sql.{fetchone, update_where}
use commerce_data_platform.Sql.Laws.{
  fetchone-update_where, fetchone-update_where_other, fetchone_sound,
}
use commerce_data_platform.Generator.Transitions.{
  OrderStatus, created, approved, shipped, delivered, canceled, OrderState, OrderTransition,
  one_updated, is_replay, assert_expected_order, order_state_after, assert_allowed_order,
  eq_order_status, event_time, stamped,
}
use commerce_data_platform.Generator.Transitions.Orders.{
  OrderTable, is_order, set_order, persist_order_transition,
}

-- The life of an order.
pub data Next : OrderStatus → OrderStatus → Type 0 where
  approve : Next created approved
  ship : Next approved shipped
  deliver : Next shipped delivered
  cancel_new : Next created canceled
  cancel_approved : Next approved canceled

assert_allowed-Next : (a b : OrderStatus) → assert_allowed_order a b ≡ ok tt → Next a b
unfolding assert_allowed_order eq_order_status
assert_allowed-Next created approved h = approve
assert_allowed-Next created canceled h = cancel_new
assert_allowed-Next approved shipped h = ship
assert_allowed-Next approved canceled h = cancel_approved
assert_allowed-Next shipped delivered h = deliver
assert_allowed-Next a b h = absurd (ground arith)

Next-assert_allowed : {a b : OrderStatus} → Next a b → assert_allowed_order a b ≡ ok tt
unfolding assert_allowed_order eq_order_status
Next-assert_allowed approve = refl
Next-assert_allowed ship = refl
Next-assert_allowed deliver = refl
Next-assert_allowed cancel_new = refl
Next-assert_allowed cancel_approved = refl

pub eq_order_status_iff : (a b : OrderStatus) → eq_order_status a b ≡ true → a ≡ b
unfolding eq_order_status
eq_order_status_iff a b h = ground arith

stamped-order_id :
    (row : OrderState) (status : OrderStatus) (event t : ℕ)
    → (stamped row status event t).order_id ≡ row.order_id
stamped-order_id row created event t = refl
stamped-order_id row approved event t = refl
stamped-order_id row shipped event t = refl
stamped-order_id row delivered event t = refl
stamped-order_id row status event t = refl

found_id :
    (order_id : String) (table : OrderTable) (row : OrderState)
    → fetchone (is_order order_id) table ≡ some row
    → row.order_id ≡ order_id
unfolding is_order
found_id order_id table row found =
    ground (arith, fetchone_sound (is_order order_id) table row, str_eq_iff row.order_id order_id)

abbrev pub desired : OrderTransition → OrderState → OrderState
desired t row =
    stamped row t.next_status (event_time t.business_event_time t.mutation_time) t.mutation_time

-- The checks that an update passes.
pub record Passes (t : OrderTransition) (row : OrderState) : Type 0 where
  pub new : is_replay row t ≡ ok false
  pub expected : assert_expected_order row t ≡ ok tt
  pub after : order_state_after row t ≡ ok (desired t row)

updated-Passes :
    (t : OrderTransition) (table : OrderTable) (row : OrderState)
    → fetchone (is_order t.order_id) table ≡ some row
    → (persist_order_transition t table).0 ≡ ok one_updated
    → Passes t row
unfolding persist_order_transition order_state_after
updated-Passes t table row found done = record {
  new = ground arith;
  expected = ground arith;
  after = ground arith;
}

pub Passes-updated :
    (t : OrderTransition) (table : OrderTable) (row : OrderState)
    → fetchone (is_order t.order_id) table ≡ some row
    → Passes t row
    → persist_order_transition t table
      ≡ (ok one_updated, update_where (is_order t.order_id) (set_order (desired t row)) table)
unfolding persist_order_transition
Passes-updated t table row found h = ground (
  arith,
  h.new,
  h.expected,
  h.after,
  found_id t.order_id table row found,
  stamped-order_id row t.next_status (event_time t.business_event_time t.mutation_time)
      t.mutation_time,
)

Passes-Next :
    (t : OrderTransition) (row : OrderState) → Passes t row → Next row.order_status t.next_status
unfolding order_state_after
Passes-Next t row h = assert_allowed-Next row.order_status t.next_status (ground (arith, h.after))

Passes-later :
    (t : OrderTransition) (row : OrderState) → Passes t row → row.updated_at < t.mutation_time
unfolding order_state_after
Passes-later t row h = ground (arith, h.after)

pub found_desired :
    (t : OrderTransition) (table : OrderTable) (row : OrderState)
    → fetchone (is_order t.order_id) table ≡ some row
    → fetchone
        (is_order t.order_id)
        (update_where (is_order t.order_id) (set_order (desired t row)) table)
      ≡ some (desired t row)
unfolding is_order
found_desired t table row found = ground (
  arith,
  fetchone-update_where (is_order t.order_id) (is_order t.order_id) (set_order (desired t row))
      table (λ r _. refl),
  fetchone_sound (is_order t.order_id) table row,
  stamped-order_id row t.next_status (event_time t.business_event_time t.mutation_time)
      t.mutation_time,
)

other_order :
    (t : OrderTransition) (order_id : String) (row : OrderState) (table : OrderTable)
    → order_id ≢ t.order_id
    → fetchone
        (is_order order_id)
        (update_where (is_order t.order_id) (set_order (desired t row)) table)
      ≡ fetchone (is_order order_id) table
unfolding is_order
other_order t order_id row table apart =
    fetchone-update_where_other (is_order order_id) (is_order t.order_id)
      (set_order (desired t row)) table
      (λ r h. ground (arith, str_eq_iff r.order_id t.order_id, str_eq_iff r.order_id order_id))
      (λ r h. ground (arith, str_eq_iff r.order_id t.order_id, str_eq_iff r.order_id order_id))

-- What an update of an order found and did.
pub record Moved (t : OrderTransition) (table table' : OrderTable) : Type 0 where
  pub row : OrderState
  pub found : fetchone (is_order t.order_id) table ≡ some row
  pub status : row.order_status ≡ t.expected_status
  pub version : row.updated_at ≡ t.expected_updated_at
  pub life : Next row.order_status t.next_status
  pub later : row.updated_at < t.mutation_time
  pub result : fetchone (is_order t.order_id) table' ≡ some (desired t row)
  pub others :
      (order_id : String)
      → order_id ≢ t.order_id
      → fetchone (is_order order_id) table' ≡ fetchone (is_order order_id) table

update_moves_row :
    (t : OrderTransition) (table : OrderTable) (row : OrderState)
    → fetchone (is_order t.order_id) table ≡ some row
    → Passes t row
    → Moved t table (persist_order_transition t table).1
unfolding assert_expected_order
update_moves_row t table row found h = record {
  row = row;
  found = found;
  status = eq_order_status_iff row.order_status t.expected_status (ground (arith, h.expected));
  version = ground (arith, h.expected);
  life = Passes-Next t row h;
  later = Passes-later t row h;
  result = rw (Passes-updated t table row found h) (found_desired t table row found);
  others = λ order_id apart.
      rw (Passes-updated t table row found h) (other_order t order_id row table apart);
}

pub not_found :
    (t : OrderTransition) (table : OrderTable)
    → fetchone (is_order t.order_id) table ≡ none
    → persist_order_transition t table ≡ (err value_error, table)
unfolding persist_order_transition
not_found t table missing = rw (persist_order_transition, missing) refl

pub update_moves :
    (t : OrderTransition) (table : OrderTable)
    → (persist_order_transition t table).0 ≡ ok one_updated
    → Moved t table (persist_order_transition t table).1
update_moves t table done = elim (Option-cases (fetchone (is_order t.order_id) table)) [
  | inl missing ↦ absurd (ground (arith, not_found t table missing))
  | inr (row, found) ↦ update_moves_row t table row found (updated-Passes t table row found done)
]
