-- ===== src/Sql/Unique.antt =====
-- Keys that find one row at most, through the statements of `Sql`.
use commerce_data_platform.Prelude.{
  ◌≤◌, ◌≡◌, inl, inr, Bool, true, none, some, List, [], ◌∷◌, ◌++◌, arith, Bool-cases, Option-cases,
  if◌then◌else◌,
}
use commerce_data_platform.Exceptions.{ok}
use commerce_data_platform.Sql.{fetchone, rowcount, update_where, insert, insert_or_ignore}
use commerce_data_platform.Sql.Laws.{
  rowcount-update_where, rowcount-append, rowcount-fetchone-none, rowcount_mono,
  fetchone-rowcount_zero,
}

module _ {A : Type 0} (q : A → Bool) where
  abbrev pub IsUnique : List A → Type 0
  IsUnique rows = rowcount q rows ≤ 1

  pub IsUnique-update_where :
      (p : A → Bool) (f : A → A) (rows : List A)
      → ((r : A) → p r ≡ true → q (f r) ≡ q r)
      → IsUnique rows
      → IsUnique (update_where p f rows)
  IsUnique-update_where p f rows keeps h = omega (arith, rowcount-update_where q p f rows keeps)

  rowcount_one : (r : A) → rowcount q (r ∷ []) ≡ (if q r then 1 else 0)
  unfolding rowcount
  rowcount_one r = ground arith

  -- The row has another key, or every row with its key is a conflict.
  IsUnique-append :
      (c : A → Bool) (r : A) (rows : List A)
      → (q r ≡ true → (x : A) → q x ≡ true → c x ≡ true)
      → fetchone c rows ≡ none
      → IsUnique rows
      → IsUnique (rows ++ r ∷ [])
  IsUnique-append c r rows sub free h = elim (Bool-cases (q r)) [
    | inl e ↦ ground (
      arith,
      rowcount-append q rows (r ∷ []),
      rowcount_one r,
      rowcount-fetchone-none c rows free,
      rowcount_mono q c rows (sub e),
    )
    | inr e ↦ ground (arith, rowcount-append q rows (r ∷ []), rowcount_one r)
  ]

  pub IsUnique-insert_or_ignore :
      (c : A → Bool) (r : A) (rows : List A)
      → (q r ≡ true → (x : A) → q x ≡ true → c x ≡ true)
      → IsUnique rows
      → IsUnique (insert_or_ignore c r rows)
  unfolding insert_or_ignore
  IsUnique-insert_or_ignore c r rows sub h = elim (Option-cases (fetchone c rows)) [
    | inl e ↦ rw (e, insert_or_ignore) (IsUnique-append c r rows sub e h)
    | inr (x, e) ↦ rw (e, insert_or_ignore) h
  ]

  pub IsUnique-insert :
      (c : A → Bool) (r : A) (rows rows' : List A)
      → (q r ≡ true → (x : A) → q x ≡ true → c x ≡ true)
      → insert c r rows ≡ ok rows'
      → IsUnique rows
      → IsUnique rows'
  unfolding insert
  IsUnique-insert c r rows rows' sub done h = elim (Option-cases (fetchone c rows)) [
    | inl e ↦ ground (arith, IsUnique-append c r rows sub e h)
    | inr (x, e) ↦ ground arith
  ]

  -- The row that a condition on the key finds is the row of the key.
  pub fetchone_widen :
      (p : A → Bool) (rows : List A) (r : A)
      → ((x : A) → p x ≡ true → q x ≡ true)
      → IsUnique rows
      → fetchone p rows ≡ some r
      → fetchone q rows ≡ some r
  unfolding fetchone rowcount
  fetchone_widen p [] r sub one h = cc
  fetchone_widen p (x ∷ rows) r sub one h = ground (
    arith,
    sub x,
    rowcount_mono p q rows sub,
    fetchone-rowcount_zero p rows,
    fetchone_widen p rows r sub,
  )
