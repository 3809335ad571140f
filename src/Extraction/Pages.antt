-- ===== src/Extraction/Pages.antt =====
-- src/ingestion/extraction/extract.py: a fixed snapshot of a source table, read in pages by keyset.
-- The rows are of any type with a cursor position; within the read-only snapshot the table is fixed.
pub mod Split
pub mod Complete
pub mod Bound
use mathlib.Core.Option
use commerce_data_platform.Prelude.{
  ℕ, zero, suc, Bool, true, false, not, ◌&&◌, Option, none, some, List, [], ◌∷◌, ltb, if◌then◌else◌,
  length, take,
}
use commerce_data_platform.Cursor.{
  Position, CursorPosition, initial_cursor, lt_position, position_order,
}
use commerce_data_platform.Sql.{select}
use commerce_data_platform.Sql.OrderBy.{order_by, descending}

abbrev pub cursor_at : Position → CursorPosition
cursor_at p = record { timestamp = some p.time; keys = p.keys }

abbrev pub last {ℓ} : {A : Type ℓ} → A → List A → A
last r [] = r
last r (x ∷ xs) = last x xs

module _ {R : Type 0} (position : R → Position) where
  -- `_lower_bound_clause`: no timestamp, no condition.
  unfoldable pub after : CursorPosition → R → Bool
  after lower r = elim lower.timestamp [
    | none ↦ true
    | some t ↦ lt_position (record { time = t; keys = lower.keys }) (position r)
  ]

  -- `cursor <= upper`; a null timestamp there is not true.
  unfoldable pub up_to : CursorPosition → R → Bool
  up_to upper r = elim upper.timestamp [
    | none ↦ false
    | some t ↦ not (lt_position (record { time = t; keys = upper.keys }) (position r))
  ]

  -- `_fetch_upper_bound`
  unfoldable pub fetch_upper_bound : CursorPosition → List R → Option CursorPosition
  fetch_upper_bound lower table =
      elim (order_by (descending position_order) position (select (after lower) table)) [
        | [] ↦ none
        | r ∷ rs ↦ some (cursor_at (position r))
      ]

  -- `_fetch_page`
  unfoldable pub fetch_page : CursorPosition → CursorPosition → ℕ → List R → List R
  fetch_page lower upper page_size table =
      take page_size
        (order_by position_order position (select (λ r. after lower r && up_to upper r) table))

  -- The loop of `TableSnapshot.pages`; `none` means that the fuel ran out.
  unfoldable pub pages_from :
      ℕ → CursorPosition → CursorPosition → ℕ → List R → Option (List (List R))
  pages_from zero lower upper page_size table = none
  pages_from (suc fuel) lower upper page_size table =
      elim (fetch_page lower upper page_size table) [
        | [] ↦ some []
        | r ∷ rs ↦
            let rest =
              Option.map (λ ps. (r ∷ rs) ∷ ps)
                (pages_from fuel (cursor_at (position (last r rs))) upper page_size table) in
            if ltb (length (r ∷ rs)) page_size then some ((r ∷ rs) ∷ []) else rest
      ]

  -- `TableSnapshot.pages`
  unfoldable pub pages :
      ℕ → CursorPosition → Option CursorPosition → ℕ → List R → Option (List (List R))
  unfolding pages_from
  pages fuel watermark none page_size table = some []
  pages fuel watermark (some upper) page_size table =
      pages_from fuel watermark upper page_size table
