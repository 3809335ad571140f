-- ===== src/Sql/OrderBy.antt =====
-- `ORDER BY`: the rows sorted by a key, as an insertion sort.
pub mod Descending
pub mod First
use mathlib.Core.List.Perm
use mathlib.Core.List.{Perm}
use commerce_data_platform.Prelude.{
  ℕ, ◌≡◌, ◌≢◌, refl, sym, subst, ◌⊎◌, inl, inr, Bool, true, false, ◌&&◌, List, [], ◌∷◌, ◌++◌, arith,
  if◌then◌else◌, Bool-cases, All,
}
use commerce_data_platform.Order.{StrictOrder, lt-asymm}
use commerce_data_platform.Sql.{select}

module _ {K : Type 0} (o : StrictOrder K) where
  flip_irrefl : (a : K) → o.lt a a ≡ false
  flip_irrefl = o.irrefl

  pub flip_trans : (a b c : K) → o.lt b a ≡ true → o.lt c b ≡ true → o.lt c a ≡ true
  flip_trans a b c p q = o.trans c b a q p

  pub flip_total : (a b : K) → o.lt b a ≡ false → o.lt a b ≡ false → a ≡ b
  flip_total a b p q = o.total a b q p

  -- `DESC`
  abbrev pub descending : StrictOrder K
  descending = record {
    lt = λ a b. o.lt b a;
    irrefl = o.irrefl;
    trans = flip_trans;
    total = flip_total;
  }

module _ {R : Type 0} where
  pub select-All : (p : R → Bool) (xs : List R) → All (λ x. p x ≡ true) xs → select p xs ≡ xs
  unfolding select
  select-All p [] h = refl
  select-All p (x ∷ xs) h = ground (arith, select-All p xs h.1)

  pub select_narrow :
      (p q : R → Bool) (xs : List R)
      → ((r : R) → p r ≡ true → q r ≡ true)
      → select p (select q xs) ≡ select p xs
  unfolding select
  select_narrow p q [] sub = refl
  select_narrow p q (x ∷ xs) sub = ground (arith, sub x, select_narrow p q xs sub)

  pub select_and :
      (p q : R → Bool) (xs : List R) → select (λ r. p r && q r) xs ≡ select p (select q xs)
  unfolding select
  select_and p q [] = refl
  select_and p q (x ∷ xs) = ground (arith, select_and p q xs)

  pub select_bounded :
      (p q : R → Bool) (xs : List R)
      → All (λ x. q x ≡ true) (select p xs)
      → select (λ r. p r && q r) xs ≡ select p xs
  unfolding select
  select_bounded p q [] h = refl
  select_bounded p q (x ∷ xs) h = elim (Bool-cases (p x)) [
    | inl e ↦
        let bounds =
          subst (λ c. All (λ y. q y ≡ true) (if c then x ∷ select p xs else select p xs)) e h in
        rw (e, bounds.0, select_bounded p q xs bounds.1)
    | inr e ↦
        let bounds =
          subst (λ c. All (λ y. q y ≡ true) (if c then x ∷ select p xs else select p xs)) e h in
        rw (e, select_bounded p q xs bounds)
  ]

  pub All-selected : (p : R → Bool) (xs : List R) → All (λ x. p x ≡ true) (select p xs)
  unfolding select
  All-selected p [] = tt
  All-selected p (x ∷ xs) = elim (Bool-cases (p x)) [
    | inl e ↦ rw e (e, All-selected p xs)
    | inr e ↦ rw e (All-selected p xs)
  ]

  pub All-middle : (P : R → Type 0) (q : List R) (x : R) (ys : List R) → All P (q ++ x ∷ ys) → P x
  All-middle P [] x ys h = h.0
  All-middle P (y ∷ q) x ys h = All-middle P q x ys h.1

module _ {K R : Type 0} (o : StrictOrder K) (key : R → K) where
  unfoldable pub insert_by : R → List R → List R
  insert_by r [] = r ∷ []
  insert_by r (x ∷ xs) =
      let rest = insert_by r xs in if o.lt (key x) (key r) then x ∷ rest else r ∷ x ∷ xs

  unfoldable pub order_by : List R → List R
  unfolding insert_by
  order_by [] = []
  order_by (r ∷ rs) = insert_by r (order_by rs)

  pub insert_by-perm : (r : R) (xs : List R) → Perm (insert_by r xs) (r ∷ xs)
  unfolding insert_by
  insert_by-perm r [] = Perm.refl (r ∷ [])
  insert_by-perm r (x ∷ xs) = elim (Bool-cases (o.lt (key x) (key r))) [
    | inl e ↦ rw e (Perm.trans (Perm.cons x (insert_by-perm r xs)) (Perm.swap r x xs))
    | inr e ↦ rw e (Perm.refl (r ∷ x ∷ xs))
  ]

  -- The ordered rows are the rows.
  pub order_by-perm : (rs : List R) → Perm (order_by rs) rs
  unfolding order_by
  order_by-perm [] = Perm.refl []
  order_by-perm (r ∷ rs) =
      Perm.trans (insert_by-perm r (order_by rs)) (Perm.cons r (order_by-perm rs))

  -- Every row comes strictly before all that follow it.
  abbrev pub IsAscending : List R → Type 0
  IsAscending [] = Unit
  IsAscending (r ∷ rs) = All (λ x. o.lt (key r) (key x) ≡ true) rs × IsAscending rs

  -- No two rows have the same key.
  abbrev pub IsDistinct : List R → Type 0
  IsDistinct [] = Unit
  IsDistinct (r ∷ rs) = All (λ x. key r ≢ key x) rs × IsDistinct rs

  pub All-insert_by :
      (P : R → Type 0) (r : R) (xs : List R) → P r → All P xs → All P (insert_by r xs)
  unfolding insert_by
  All-insert_by P r [] p h = (p, tt)
  All-insert_by P r (x ∷ xs) p h = elim (Bool-cases (o.lt (key x) (key r))) [
    | inl e ↦ rw e (h.0, All-insert_by P r xs p h.1)
    | inr e ↦ rw e (p, h)
  ]

  pub All-order_by : (P : R → Type 0) (rs : List R) → All P rs → All P (order_by rs)
  unfolding order_by
  All-order_by P [] h = tt
  All-order_by P (r ∷ rs) h = All-insert_by P r (order_by rs) h.0 (All-order_by P rs h.1)

  All-above :
      (r x : R) (xs : List R)
      → o.lt (key r) (key x) ≡ true
      → All (λ y. o.lt (key x) (key y) ≡ true) xs
      → All (λ y. o.lt (key r) (key y) ≡ true) xs
  All-above r x [] p h = tt
  All-above r x (y ∷ ys) p h = (o.trans (key r) (key x) (key y) p h.0, All-above r x ys p h.1)

  insert_by-IsAscending :
      (r : R) (xs : List R)
      → All (λ x. key r ≢ key x) xs
      → IsAscending xs
      → IsAscending (insert_by r xs)
  unfolding insert_by
  insert_by-IsAscending r [] new h = (tt, tt)
  insert_by-IsAscending r (x ∷ xs) new h = elim (Bool-cases (o.lt (key x) (key r))) [
    | inl e ↦ rw e (
      All-insert_by (λ y. o.lt (key x) (key y) ≡ true) r xs e h.0,
      insert_by-IsAscending r xs new.1 h.1,
    )
    | inr e ↦ elim (Bool-cases (o.lt (key r) (key x))) [
      | inl lower ↦ rw e ((lower, All-above r x xs lower h.0), h)
      | inr same ↦ absurd (new.0 (o.total (key r) (key x) same e))
    ]
  ]

  -- Rows of distinct keys come out in strictly ascending order.
  pub order_by-IsAscending : (rs : List R) → IsDistinct rs → IsAscending (order_by rs)
  unfolding order_by
  order_by-IsAscending [] h = tt
  order_by-IsAscending (r ∷ rs) h =
      insert_by-IsAscending r (order_by rs) (All-order_by (λ x. key r ≢ key x) rs h.0)
        (order_by-IsAscending rs h.1)

  inserted-All : (P : R → Type 0) (r : R) (xs : List R) → All P (insert_by r xs) → P r × All P xs
  unfolding insert_by
  inserted-All P r [] = λ h. h
  inserted-All P r (x ∷ xs) = elim (Bool-cases (o.lt (key x) (key r))) [
    | inl e ↦ rw e (λ h. let rest = inserted-All P r xs h.1 in (rest.0, (h.0, rest.1)))
    | inr e ↦ rw e (λ h. h)
  ]

  pub ordered-All : (P : R → Type 0) (rs : List R) → All P (order_by rs) → All P rs
  unfolding order_by
  ordered-All P [] h = tt
  ordered-All P (r ∷ rs) h =
      let found = inserted-All P r (order_by rs) h in (found.0, ordered-All P rs found.1)

  pub All-select : (P : R → Type 0) (p : R → Bool) (xs : List R) → All P xs → All P (select p xs)
  unfolding select
  All-select P p [] h = tt
  All-select P p (x ∷ xs) h = elim (Bool-cases (p x)) [
    | inl e ↦ rw e (h.0, All-select P p xs h.1)
    | inr e ↦ rw e (All-select P p xs h.1)
  ]

  pub select-IsAscending : (p : R → Bool) (xs : List R) → IsAscending xs → IsAscending (select p xs)
  unfolding select
  select-IsAscending p [] h = tt
  select-IsAscending p (x ∷ xs) h = elim (Bool-cases (p x)) [
    | inl e ↦
        rw e (All-select (λ y. o.lt (key x) (key y) ≡ true) p xs h.0, select-IsAscending p xs h.1)
    | inr e ↦ rw e (select-IsAscending p xs h.1)
  ]

  insert_by_front :
      (r : R) (xs : List R) → All (λ x. o.lt (key r) (key x) ≡ true) xs → insert_by r xs ≡ r ∷ xs
  unfolding insert_by
  insert_by_front r [] h = refl
  insert_by_front r (x ∷ xs) h = rw (lt-asymm o (key r) (key x) h.0)

  select-insert_by :
      (p : R → Bool) (r : R) (xs : List R)
      → All (λ x. key r ≢ key x) xs
      → IsAscending xs
      → select p (insert_by r xs) ≡ (if p r then insert_by r (select p xs) else select p xs)
  unfolding insert_by select
  select-insert_by p r [] new h = refl
  select-insert_by p r (x ∷ xs) new h = elim (Bool-cases (o.lt (key x) (key r))) [
    | inl e ↦ ground (arith, select-insert_by p r xs new.1 h.1)
    | inr e ↦ elim (Bool-cases (o.lt (key r) (key x))) [
      | inl lower ↦ ground (
        arith,
        insert_by_front r (select p xs)
            (All-select (λ y. o.lt (key r) (key y) ≡ true) p xs (All-above r x xs lower h.0)),
      )
      | inr same ↦ absurd (new.0 (o.total (key r) (key x) same e))
    ]
  ]

  -- A condition can be tested before the rows are ordered or after it.
  pub order_by-select :
      (p : R → Bool) (rs : List R) → IsDistinct rs → order_by (select p rs) ≡ select p (order_by rs)
  unfolding order_by select
  order_by-select p [] h = refl
  order_by-select p (r ∷ rs) h = ground (
    arith,
    order_by-select p rs h.1,
    select-insert_by p r (order_by rs) (All-order_by (λ x. key r ≢ key x) rs h.0)
        (order_by-IsAscending rs h.1),
  )

  -- What comes after a row of an ascending list is the rest of the list.
  pub select_above :
      (q : List R) (x : R) (ys : List R)
      → IsAscending (q ++ x ∷ ys)
      → select (λ r. o.lt (key x) (key r)) (q ++ x ∷ ys) ≡ ys
  unfolding select
  select_above [] x ys h = rw (o.irrefl (key x)) (select-All (λ r. o.lt (key x) (key r)) ys h.0)
  select_above (y ∷ q) x ys h =
      rw (lt-asymm o (key y) (key x) (All-middle (λ z. o.lt (key y) (key z) ≡ true) q x ys h.0))
        (select_above q x ys h.1)
