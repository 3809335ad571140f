-- ===== src/Extraction/Pages/Complete.antt =====
-- The pages of src/ingestion/extraction/extract.py against the ordered rows up to a bound.
use mathlib.Core.List.{append-nil}
use commerce_data_platform.Prelude.{
  ℕ, zero, suc, ◌≤◌, ◌<◌, ◌≡◌, ◌≢◌, sym, subst, ◌∙◌, ap, inl, inr, true, false, ◌&&◌, some, List,
  [], ◌∷◌, ◌++◌, arith, ltb, lt→ltb, ltb→lt, length, take, drop, concat, Bool-cases, Option-cases,
  All, List-cases,
}
use commerce_data_platform.Cursor.{Position, CursorPosition, lt_position_trans, position_order}
use commerce_data_platform.Sql.{select}
use commerce_data_platform.Sql.OrderBy.{
  order_by, IsAscending, IsDistinct, order_by-IsAscending, order_by-select, select-IsAscending,
  select_above, select_narrow, select_and, All-selected, All-middle,
}
use commerce_data_platform.Extraction.Pages.{cursor_at, after, up_to, fetch_page, last, pages_from}
use commerce_data_platform.Extraction.Pages.Split.{
  init, split_page, take-append-drop, length-take-le, short_take, take_none, length-drop-lt,
}

-- A page has rows, and no more than the page size.
abbrev pub IsPage : {R : Type 0} → ℕ → List R → Type 0
IsPage n page = (page ≢ []) × (length page ≤ n)

module _ {R : Type 0} (position : R → Position) (table : List R)
    (distinct : IsDistinct position_order position table) (upper : CursorPosition) (n : ℕ)
    (positive : 0 < n) where
  -- The rows up to the bound, in order.
  abbrev pub bounded : List R
  bounded = select (up_to position upper) (order_by position_order position table)

  abbrev pub remaining : CursorPosition → List R
  remaining lower = select (after position lower) bounded

  bounded-IsAscending : IsAscending position_order position bounded
  bounded-IsAscending =
      select-IsAscending position_order position (up_to position upper)
        (order_by position_order position table)
        (order_by-IsAscending position_order position table distinct)

  page_of :
      (lower : CursorPosition) → fetch_page position lower upper n table ≡ take n (remaining lower)
  unfolding fetch_page
  page_of lower = ap (take n) (
      order_by-select position_order position
        (λ r. after position lower r && up_to position upper r) table distinct
      ∙ select_and (after position lower) (up_to position upper)
          (order_by position_order position table))

  after_trans :
      (lower : CursorPosition) (x r : R)
      → after position lower x ≡ true
      → after position (cursor_at (position x)) r ≡ true
      → after position lower r ≡ true
  unfolding after
  after_trans lower x r p q = elim (Option-cases lower.timestamp) [
    | inl e ↦ ground arith
    | inr (t, e) ↦ ground (
      arith,
      lt_position_trans (record { time = t; keys = lower.keys }) (position x) (position r),
    )
  ]

  -- After the last row of a page comes what the page left.
  remaining_after :
      (lower : CursorPosition) (q : List R) (x : R) (ys : List R)
      → remaining lower ≡ q ++ x ∷ ys
      → remaining (cursor_at (position x)) ≡ ys
  unfolding after
  remaining_after lower q x ys e =
      let found =
        All-middle (λ r. after position lower r ≡ true) q x ys
          (subst (All (λ r. after position lower r ≡ true)) e
            (All-selected (after position lower) bounded)) in
      let ascending = subst (IsAscending position_order position) e (
        select-IsAscending position_order position (after position lower) bounded
          bounded-IsAscending) in
      sym (
        select_narrow (after position (cursor_at (position x))) (after position lower) bounded
          (λ r. after_trans lower x r found))
      ∙ ap (select (after position (cursor_at (position x)))) e
      ∙ select_above position_order position q x ys ascending

  abbrev pub Reads : ℕ → CursorPosition → Type 0
  Reads fuel lower =
      (ps : List (List R)) × (pages_from position fuel lower upper n table ≡ some ps)
      × (concat ps ≡ remaining lower)
      × All (IsPage n) ps

  last_page :
      (lower : CursorPosition) (r : R) (rs : List R)
      → take n (remaining lower) ≡ r ∷ rs
      → length (r ∷ rs) < n
      → concat ((r ∷ rs) ∷ []) ≡ remaining lower
  last_page lower r rs e h = append-nil (r ∷ rs) ∙ sym e ∙ short_take n (remaining lower) (rw e h)

  next_remaining :
      (lower : CursorPosition) (r : R) (rs : List R)
      → take n (remaining lower) ≡ r ∷ rs
      → remaining (cursor_at (position (last r rs))) ≡ drop n (remaining lower)
  next_remaining lower r rs e =
      remaining_after lower (init r rs) (last r rs) (drop n (remaining lower))
        (split_page n (remaining lower) r rs e)

  page_length :
      (lower : CursorPosition) (r : R) (rs : List R)
      → take n (remaining lower) ≡ r ∷ rs
      → length (r ∷ rs) ≤ n
  page_length lower r rs e =
      subst (λ (t : List R). length t ≤ n) e (length-take-le n (remaining lower))

  read_none :
      (fuel : ℕ) (lower : CursorPosition) → take n (remaining lower) ≡ [] → Reads (suc fuel) lower
  unfolding pages_from
  read_none fuel lower e =
      ([], rw (page_of lower, e, pages_from), sym (take_none n (remaining lower) positive e), tt)

  read_last :
      (fuel : ℕ) (lower : CursorPosition) (r : R) (rs : List R)
      → take n (remaining lower) ≡ r ∷ rs
      → length (r ∷ rs) < n
      → Reads (suc fuel) lower
  unfolding pages_from
  read_last fuel lower r rs e short = (
    (r ∷ rs) ∷ [],
    rw (page_of lower, e, lt→ltb _ _ short, pages_from),
    last_page lower r rs e short,
    (((λ p. cc), page_length lower r rs e), tt),
  )

  read_more :
      (fuel : ℕ) (lower : CursorPosition) (r : R) (rs : List R)
      → take n (remaining lower) ≡ r ∷ rs
      → ltb (length (r ∷ rs)) n ≡ false
      → Reads fuel (cursor_at (position (last r rs)))
      → Reads (suc fuel) lower
  unfolding pages_from
  read_more fuel lower r rs e full (ps, done, rows, sizes) = (
    (r ∷ rs) ∷ ps,
    rw (page_of lower, e, full, done, pages_from),
    ap (λ (t : List R). (r ∷ rs) ++ t) (rows ∙ next_remaining lower r rs e)
        ∙ ap (λ (t : List R). t ++ drop n (remaining lower)) (sym e)
        ∙ sym (take-append-drop n (remaining lower)),
    (((λ p. cc), page_length lower r rs e), sizes),
  )

  next_length :
      (lower : CursorPosition) (r : R) (rs : List R)
      → take n (remaining lower) ≡ r ∷ rs
      → length (remaining (cursor_at (position (last r rs)))) < length (remaining lower)
  next_length lower r rs e =
      rw (next_remaining lower r rs e) (length-drop-lt n (remaining lower) r rs e)

  pub reads :
      (fuel : ℕ) (lower : CursorPosition) → length (remaining lower) < fuel → Reads fuel lower
  reads zero lower h = absurd (omega arith)
  reads (suc fuel) lower h = elim (List-cases (take n (remaining lower))) [
    | inl e ↦ read_none fuel lower e
    | inr (r, rs, e) ↦ elim (Bool-cases (ltb (length (r ∷ rs)) n)) [
      | inl short ↦ read_last fuel lower r rs e (ltb→lt _ _ short)
      | inr full ↦ read_more fuel lower r rs e full (
          reads fuel (cursor_at (position (last r rs)))
            (omega (arith, h, next_length lower r rs e)))
    ]
  ]
