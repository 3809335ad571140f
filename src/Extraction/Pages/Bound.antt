-- ===== src/Extraction/Pages/Bound.antt =====
-- The upper bound of a snapshot, with the pages that are read up to it.
use commerce_data_platform.Prelude.{
  ℕ, suc, ◌≤◌, ◌<◌, ◌≡◌, refl, sym, ◌∙◌, ap, inl, inr, Bool, true, false, ◌&&◌, none, some, List,
  [], ◌∷◌, arith, length, concat, Bool-cases, List-cases, All,
}
use commerce_data_platform.Cursor.{Position, CursorPosition, lt_position, position_order}
use commerce_data_platform.Order.{StrictOrder}
use commerce_data_platform.Sql.{select}
use commerce_data_platform.Sql.OrderBy.{
  insert_by, order_by, descending, IsDistinct, order_by-select, select_bounded, select_and,
}
use commerce_data_platform.Sql.OrderBy.Descending.{first_descending, order_by-none}
use commerce_data_platform.Extraction.Pages.{cursor_at, after, up_to, fetch_upper_bound, pages}
use commerce_data_platform.Extraction.Pages.Complete.{IsPage, reads}

length-select : {R : Type 0} (p : R → Bool) (xs : List R) → length (select p xs) ≤ length xs
unfolding select
length-select p [] = omega arith
length-select p (x ∷ xs) = ground (arith, length-select p xs)

module _ {K R : Type 0} (o : StrictOrder K) (key : R → K) where
  length-insert_by : (r : R) (xs : List R) → length (insert_by o key r xs) ≡ suc (length xs)
  unfolding insert_by
  length-insert_by r [] = refl
  length-insert_by r (x ∷ xs) = elim (Bool-cases (o.lt (key x) (key r))) [
    | inl e ↦ rw e (ap suc (length-insert_by r xs))
    | inr e ↦ rw e refl
  ]

  length-order_by : (xs : List R) → length (order_by o key xs) ≡ length xs
  unfolding order_by
  length-order_by [] = refl
  length-order_by (x ∷ xs) = length-insert_by x (order_by o key xs) ∙ ap suc (length-order_by xs)

module _ {R : Type 0} (position : R → Position) (lower : CursorPosition) (table : List R)
    (distinct : IsDistinct position_order position table) where
  -- The rows that a run has to read.
  abbrev pub pending : List R
  pending = order_by position_order position (select (after position lower) table)

  up_to_first :
      (r : R) (xs : List R)
      → All (λ x. lt_position (position r) (position x) ≡ false) xs
      → All (λ x. up_to position (cursor_at (position r)) x ≡ true) xs
  unfolding up_to
  up_to_first r [] h = tt
  up_to_first r (x ∷ xs) h = (ground (arith, h.0), up_to_first r xs h.1)

  remaining_pending :
      (r : R) (rs : List R)
      → order_by (descending position_order) position (select (after position lower) table) ≡ r ∷ rs
      → select (after position lower) (
          select (up_to position (cursor_at (position r))) (order_by position_order position table))
        ≡ pending
  remaining_pending r rs e =
      sym (
        select_and (after position lower) (up_to position (cursor_at (position r)))
          (order_by position_order position table))
      ∙ sym (
          order_by-select position_order position
            (λ x. after position lower x && up_to position (cursor_at (position r)) x) table
            distinct)
      ∙ ap (order_by position_order position) (
          select_bounded (after position lower) (up_to position (cursor_at (position r))) table (
            up_to_first r (select (after position lower) table) (
              first_descending position_order position (after position lower) table r rs distinct
                e)))

  pending_none :
      order_by (descending position_order) position (select (after position lower) table) ≡ []
      → pending ≡ []
  unfolding order_by
  pending_none e =
      rw
        (order_by-none (descending position_order) position (select (after position lower) table) e)

  bound_none :
      order_by (descending position_order) position (select (after position lower) table) ≡ []
      → fetch_upper_bound position lower table ≡ none
  unfolding fetch_upper_bound
  bound_none e = rw (fetch_upper_bound, e) refl

  bound_some :
      (r : R) (rs : List R)
      → order_by (descending position_order) position (select (after position lower) table) ≡ r ∷ rs
      → fetch_upper_bound position lower table ≡ some (cursor_at (position r))
  unfolding fetch_upper_bound
  bound_some r rs e = rw (fetch_upper_bound, e) refl

  length-pending : length pending ≤ length table
  length-pending = omega (
    arith,
    length-order_by position_order position (select (after position lower) table),
    length-select (after position lower) table,
  )

  abbrev pub ReadsAll : ℕ → ℕ → Type 0
  ReadsAll fuel n =
      (ps : List (List R)) × (pages position fuel lower (fetch_upper_bound position lower table) n
          table
        ≡ some ps)
      × (concat ps ≡ pending)
      × All (IsPage n) ps

  -- Whatever the page size, if it is positive, and with more fuel than the table has rows, the
  -- loop over the pages ends. When no two rows share a cursor position, its pages put together
  -- are all the rows above the watermark, in the order of the cursor: none is left out and none
  -- comes twice. No page is empty, and none is longer than the page size.
  pub pages_complete : (fuel n : ℕ) → 0 < n → length table < fuel → ReadsAll fuel n
  unfolding pages
  pages_complete fuel n positive enough =
      elim (List-cases
        (order_by (descending position_order) position (select (after position lower) table))) [
          | inl e ↦ ([], rw (bound_none e) refl, sym (pending_none e), tt)
          | inr (r, rs, e) ↦
              let (ps, done, rows, sizes) =
                reads position table distinct (cursor_at (position r)) n positive fuel lower
                  (rw (remaining_pending r rs e) (omega (arith, length-pending, enough))) in
              (ps, rw (bound_some r rs e) done, rows ∙ remaining_pending r rs e, sizes)
        ]
