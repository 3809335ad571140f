-- ===== src/Sql/OrderBy/First.antt =====
-- The first row of an `ORDER BY`, where rows may have the same key.
use commerce_data_platform.Prelude.{◌≡◌, inl, inr, false, List, [], ◌∷◌, Bool-cases, All, All-map}
use commerce_data_platform.Order.{StrictOrder, lt-asymm}
use commerce_data_platform.Sql.OrderBy.{
  insert_by, order_by, All-insert_by, All-order_by, ordered-All,
}

module _ {K R : Type 0} (o : StrictOrder K) (key : R → K) where
  -- No row that follows comes before the row.
  abbrev IsSorted : List R → Type 0
  IsSorted [] = Unit
  IsSorted (r ∷ rs) = All (λ x. o.lt (key x) (key r) ≡ false) rs × IsSorted rs

  not_before :
      (r x y : R)
      → o.lt (key x) (key r) ≡ false
      → o.lt (key y) (key x) ≡ false
      → o.lt (key y) (key r) ≡ false
  not_before r x y p q = elim (Bool-cases (o.lt (key y) (key r))) [
    | inr other ↦ other
    | inl below ↦ elim (Bool-cases (o.lt (key x) (key y))) [
      | inl lower ↦ absurd (cc (p, o.trans (key x) (key y) (key r) lower below))
      | inr same ↦ absurd (cc (p, below, o.total (key x) (key y) same q))
    ]
  ]

  insert_by-IsSorted : (r : R) (xs : List R) → IsSorted xs → IsSorted (insert_by o key r xs)
  unfolding insert_by
  insert_by-IsSorted r [] h = (tt, tt)
  insert_by-IsSorted r (x ∷ xs) h = elim (Bool-cases (o.lt (key x) (key r))) [
    | inl lower ↦ rw lower (
      All-insert_by o key (λ y. o.lt (key y) (key x) ≡ false) r xs
          (lt-asymm o (key x) (key r) lower) h.0,
      insert_by-IsSorted r xs h.1,
    )
    | inr other ↦ rw other ((other, All-map (λ y below. not_before r x y other below) xs h.0), h)
  ]

  order_by-IsSorted : (rs : List R) → IsSorted (order_by o key rs)
  unfolding order_by
  order_by-IsSorted [] = tt
  order_by-IsSorted (r ∷ rs) = insert_by-IsSorted r (order_by o key rs) (order_by-IsSorted rs)

  -- What holds of the rows holds of the first of the ordered rows.
  pub order_by-head :
      (P : R → Type 0) (rs rest : List R) (r : R) → order_by o key rs ≡ r ∷ rest → All P rs → P r
  order_by-head P rs rest r e h = let ordered = rw e at (All-order_by o key P rs h) in ordered.0

  -- None of the rows comes before the first of the ordered rows.
  pub order_by-first :
      (rs rest : List R) (r : R)
      → order_by o key rs ≡ r ∷ rest
      → All (λ x. o.lt (key x) (key r) ≡ false) rs
  order_by-first rs rest r e =
      let sorted = rw e at (order_by-IsSorted rs) in
      ordered-All o key (λ x. o.lt (key x) (key r) ≡ false) rs (rw e (o.irrefl (key r), sorted.0))
