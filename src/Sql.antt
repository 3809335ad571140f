-- ===== src/Sql.antt =====
-- Tables as lists of rows, and the statements that the program runs on them.
pub mod Laws
pub mod Unique
pub mod OrderBy
pub mod Members
use commerce_data_platform.Prelude.{
  ℕ, ◌+◌, Bool, true, false, Option, none, some, List, [], ◌∷◌, ◌++◌, if◌then◌else◌,
}
use commerce_data_platform.Exceptions.{Result, ok, err, integrity_error}

module _ {A : Type 0} where
  -- `SELECT … WHERE p`
  unfoldable pub select : (A → Bool) → List A → List A
  select p [] = []
  select p (r ∷ rs) = let rest = select p rs in if p r then r ∷ rest else rest

  -- `SELECT … WHERE p` and `fetchone()`
  unfoldable pub fetchone : (A → Bool) → List A → Option A
  fetchone p [] = none
  fetchone p (r ∷ rs) = let rest = fetchone p rs in if p r then some r else rest

  -- The number of rows that `WHERE p` finds.
  unfoldable pub rowcount : (A → Bool) → List A → ℕ
  rowcount p [] = 0
  rowcount p (r ∷ rs) = (if p r then 1 else 0) + rowcount p rs

  -- `UPDATE … SET f WHERE p`
  abbrev pub update_row : (A → Bool) → (A → A) → A → A
  update_row p f r = if p r then f r else r

  unfoldable pub update_where : (A → Bool) → (A → A) → List A → List A
  update_where p f [] = []
  update_where p f (r ∷ rs) = update_row p f r ∷ update_where p f rs

  -- `INSERT`, where `conflict` finds the rows that have the new row's primary or unique key.
  unfoldable pub insert : (A → Bool) → A → List A → Result (List A)
  insert conflict r rows = elim (fetchone conflict rows) [
    | none ↦ ok (rows ++ r ∷ [])
    | some _ ↦ err integrity_error
  ]

  -- `INSERT … ON CONFLICT (key) DO NOTHING`
  unfoldable pub insert_or_ignore : (A → Bool) → A → List A → List A
  insert_or_ignore conflict r rows = elim (fetchone conflict rows) [
    | none ↦ rows ++ r ∷ []
    | some _ ↦ rows
  ]
