-- ===== src/Extraction/Tests.antt =====
-- Pages of a small table.
use commerce_data_platform.Prelude.{ℕ, ◌≡◌, ◌≢◌, refl, some, List, [], ◌∷◌, true, arith}
use commerce_data_platform.Cursor.{
  Position, num, initial_cursor, lt_position, lt_position_irrefl, lt_key, position_order,
}
use commerce_data_platform.Order.{lex}
use commerce_data_platform.Sql.{select}
use commerce_data_platform.Sql.OrderBy.{order_by, insert_by, IsDistinct}
use commerce_data_platform.Extraction.Pages.{
  pages, pages_from, fetch_page, fetch_upper_bound, after, up_to,
}
use commerce_data_platform.Extraction.Pages.Bound.{ReadsAll, pages_complete}

program : Unit {0}
unfolding pages pages_from fetch_page fetch_upper_bound after up_to select order_by insert_by
    lt_position lex lt_key
program = tt

abbrev at_time : (t : ℕ) (id : ℕ) → Position
at_time t id = record { time = t; keys = num id ∷ [] }

abbrev rows : List Position
rows = at_time 20 1 ∷ at_time 10 3 ∷ at_time 10 2 ∷ []

rows-pages :
    pages (λ p. p) 5 initial_cursor (fetch_upper_bound (λ p. p) initial_cursor rows) 2 rows
    ≡ some ((at_time 10 2 ∷ at_time 10 3 ∷ []) ∷ (at_time 20 1 ∷ []) ∷ [])
unfolding program
rows-pages = refl

above-apart : (a b : Position) → lt_position b a ≡ true → a ≢ b
above-apart a b h e = ground (arith, lt_position_irrefl a)

rows-IsDistinct : IsDistinct position_order (λ p. p) rows
unfolding program
rows-IsDistinct = (
  (
    above-apart (at_time 20 1) (at_time 10 3) refl,
    (above-apart (at_time 20 1) (at_time 10 2) refl, tt),
  ),
  ((above-apart (at_time 10 3) (at_time 10 2) refl, tt), (tt, tt)),
)

pages_complete_example : ReadsAll (λ p. p) initial_cursor rows rows-IsDistinct 4 2
pages_complete_example =
    pages_complete (λ p. p) initial_cursor rows rows-IsDistinct 4 2 (omega arith) (omega arith)
