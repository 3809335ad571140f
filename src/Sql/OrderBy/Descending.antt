-- ===== src/Sql/OrderBy/Descending.antt =====
-- The first row of a descending `ORDER BY`.
use commerce_data_platform.Prelude.{
  ◌≡◌, ◌≢◌, refl, sym, subst, inl, inr, Bool, true, false, List, [], ◌∷◌, Bool-cases, All,
}
use commerce_data_platform.Order.{StrictOrder, lt-asymm}
use commerce_data_platform.Sql.{select}
use commerce_data_platform.Sql.OrderBy.{
  descending, order_by, IsAscending, IsDistinct, order_by-IsAscending, All-select, ordered-All,
}

module _ {K R : Type 0} (o : StrictOrder K) (key : R → K) where
  select-IsDistinct :
      (p : R → Bool) (xs : List R) → IsDistinct o key xs → IsDistinct o key (select p xs)
  unfolding select
  select-IsDistinct p [] h = tt
  select-IsDistinct p (x ∷ xs) h = elim (Bool-cases (p x)) [
    | inl e ↦ rw e (All-select o key (λ y. key x ≢ key y) p xs h.0, select-IsDistinct p xs h.1)
    | inr e ↦ rw e (select-IsDistinct p xs h.1)
  ]

  descending-IsDistinct : (xs : List R) → IsDistinct o key xs → IsDistinct (descending o) key xs
  descending-IsDistinct [] h = tt
  descending-IsDistinct (x ∷ xs) h = (h.0, descending-IsDistinct xs h.1)

  All-below :
      (r : R) (xs : List R)
      → All (λ x. o.lt (key x) (key r) ≡ true) xs
      → All (λ x. o.lt (key r) (key x) ≡ false) xs
  All-below r [] h = tt
  All-below r (x ∷ xs) h = (lt-asymm o (key x) (key r) h.0, All-below r xs h.1)

  -- No row is above the first of the rows in descending order.
  pub first_descending :
      (p : R → Bool) (xs : List R) (r : R) (rs : List R)
      → IsDistinct o key xs
      → order_by (descending o) key (select p xs) ≡ r ∷ rs
      → All (λ x. o.lt (key r) (key x) ≡ false) (select p xs)
  first_descending p xs r rs distinct e =
      ordered-All (descending o) key (λ x. o.lt (key r) (key x) ≡ false) (select p xs)
        (rw e (
          o.irrefl (key r),
          All-below r rs
              (subst (IsAscending (descending o) key) e (
                order_by-IsAscending (descending o) key (select p xs)
                  (descending-IsDistinct (select p xs) (select-IsDistinct p xs distinct)))).0,
        ))

  pub order_by-none : (xs : List R) → order_by o key xs ≡ [] → xs ≡ []
  order_by-none [] e = refl
  order_by-none (x ∷ xs) e =
      absurd ((ordered-All o key (λ r. ⊥) (x ∷ xs) (subst (All (λ r. ⊥)) (sym e) tt)).0)
