-- ===== src/Warehouse/PublishRuns/Invariants.antt =====
-- What holds of the publish runs in every history.
use mathlib.Core.Option
use commerce_data_platform.Prelude.{
  ℕ, ◌≤◌, ◌≡◌, subst, inl, inr, Bool, true, none, some, List, [], ◌∷◌, ◌++◌, arith, All, Bool-cases,
  ◌==◌, ◌∙◌, ap,
}
use commerce_data_platform.Sql.{fetchone, rowcount, update_where, update_row}
use commerce_data_platform.Sql.Unique.{IsUnique}
use commerce_data_platform.Sql.Laws.{
  rowcount-append, rowcount-fetchone-none, fetchone-append_some, fetchone-update_where,
}
use commerce_data_platform.Warehouse.PublishRuns.{
  PublishRow, PublishTable, is_building, is_publishing, is_published, is_failed, is_active_status,
  is_active, has_id, row_check, updates_pass, new_row,
}
use commerce_data_platform.Warehouse.PublishRuns.Changes.{Step-Change}
use commerce_data_platform.Warehouse.PublishRuns.History.{
  Reach, here, next, Change, same, added, updated, Keeps,
}

rowcount-update_where_le :
    (q p : PublishRow → Bool) (f : PublishRow → PublishRow) (rows : PublishTable)
    → ((r : PublishRow) → p r ≡ true → q (f r) ≡ true → q r ≡ true)
    → rowcount q (update_where p f rows) ≤ rowcount q rows
unfolding rowcount update_where
rowcount-update_where_le q p f [] sub = omega arith
rowcount-update_where_le q p f (r ∷ rows) sub =
    ground (arith, sub r, rowcount-update_where_le q p f rows sub)

one_active-Change :
    {rows rows' : PublishTable}
    → Change rows rows'
    → IsUnique is_active rows
    → IsUnique is_active rows'
unfolding rowcount
one_active-Change same h = h
one_active-Change {rows} (added run previous now check idle fresh) h = ground (
  arith,
  rowcount-append is_active rows (new_row run previous now ∷ []),
  rowcount-fetchone-none is_active rows idle,
)
one_active-Change {rows} (updated p f k pass) h =
    omega (arith, rowcount-update_where_le is_active p f rows k.active)

-- In every history one publish run at most is building or publishing.
pub one_active : {rows : PublishTable} → Reach [] rows → IsUnique is_active rows
unfolding rowcount
one_active here = omega arith
one_active (next r st) = one_active-Change (Step-Change st) (one_active r)

updates_pass-All :
    (p : PublishRow → Bool) (f : PublishRow → PublishRow) (rows : PublishTable)
    → updates_pass p f rows ≡ true
    → All (λ r. row_check r ≡ true) rows
    → All (λ r. row_check r ≡ true) (update_where p f rows)
unfolding updates_pass update_where
updates_pass-All p f [] pass h = tt
updates_pass-All p f (r ∷ rows) pass h = elim (Bool-cases (p r)) [
  | inl e ↦ rw e (ground arith, updates_pass-All p f rows (ground arith) h.1)
  | inr e ↦ rw e (h.0, updates_pass-All p f rows (ground arith) h.1)
]

All-append :
    (P : PublishRow → Type 0) (rows : PublishTable) (r : PublishRow)
    → All P rows
    → P r
    → All P (rows ++ r ∷ [])
All-append P [] r h p = (p, tt)
All-append P (x ∷ rows) r h p = (h.0, All-append P rows r h.1 p)

checked-Change :
    {rows rows' : PublishTable}
    → Change rows rows'
    → All (λ r. row_check r ≡ true) rows
    → All (λ r. row_check r ≡ true) rows'
checked-Change same h = h
checked-Change {rows} (added run previous now check idle fresh) h =
    All-append (λ r. row_check r ≡ true) rows (new_row run previous now) h check
checked-Change {rows} (updated p f k pass) h = updates_pass-All p f rows pass h

pub rows_checked : {rows : PublishTable} → Reach [] rows → All (λ r. row_check r ≡ true) rows
rows_checked here = tt
rows_checked (next r st) = checked-Change (Step-Change st) (rows_checked r)

first_found :
    (p : PublishRow → Bool) (x : PublishRow) (rows : PublishTable) (r : PublishRow)
    → p x ≡ true
    → fetchone p (x ∷ rows) ≡ some r
    → x ≡ r
unfolding fetchone
first_found p x rows r e found = ground arith

found-All :
    (P : PublishRow → Type 0) (p : PublishRow → Bool) (rows : PublishTable) (r : PublishRow)
    → All P rows
    → fetchone p rows ≡ some r
    → P r
unfolding fetchone
found-All P p [] r h found = cc
found-All P p (x ∷ rows) r h found = elim (Bool-cases (p x)) [
  | inl e ↦ subst P (first_found p x rows r e found) h.0
  | inr e ↦ found-All P p rows r h.1 (ground arith)
]

-- What a run has when it is published.
pub record IsComplete (r : PublishRow) : Type 0 where
  pub hashes : (h : List _) × (r.mart_hashes ≡ some h)
  pub counts : (c : List _) × (r.mart_row_counts ≡ some c)
  pub finished : (t : ℕ) × (r.finished_at ≡ some t)
  pub no_error : r.error_type ≡ none

row_check-IsComplete :
    (r : PublishRow) → row_check r ≡ true → is_published r.status ≡ true → IsComplete r
unfolding row_check is_published is_publishing is_active_status is_building is_failed
row_check-IsComplete r check done = record {
  hashes = ground arith;
  counts = ground arith;
  finished = ground arith;
  no_error = ground arith;
}

-- In every history a published run has the hashes and the row counts of its marts and the time of
-- its end, and no error.
pub published-IsComplete :
    (run_id : ℕ) (row : PublishRow) {rows : PublishTable}
    → Reach [] rows
    → fetchone (has_id run_id) rows ≡ some row
    → is_published row.status ≡ true
    → IsComplete row
published-IsComplete run_id row {rows} run found done =
    row_check-IsComplete row
      (found-All (λ r. row_check r ≡ true) (has_id run_id) rows row (rows_checked run) found) done

has_id-Keeps :
    (run_id : ℕ) (p : PublishRow → Bool) (f : PublishRow → PublishRow)
    → Keeps p f
    → (r : PublishRow) → p r ≡ true
    → has_id run_id (f r) ≡ has_id run_id r
unfolding has_id
has_id-Keeps run_id p f k r h = ap (λ i. i == run_id) (k.id r h)

final-Change :
    (run_id : ℕ) (row : PublishRow) {rows rows' : PublishTable}
    → is_published row.status ≡ true
    → Change rows rows'
    → fetchone (has_id run_id) rows ≡ some row
    → fetchone (has_id run_id) rows' ≡ some row
final-Change run_id row over same found = found
final-Change run_id row {rows} over (added run previous now check idle fresh) found =
    fetchone-append_some (has_id run_id) rows (new_row run previous now ∷ []) row found
final-Change run_id row {rows} over (updated p f k pass) found = ground (
  arith,
  fetchone-update_where (has_id run_id) p f rows (has_id-Keeps run_id p f k),
  k.published row,
)

-- A run that is published keeps its row as it is in every further history.
pub published_run_is_final :
    (run_id : ℕ) (row : PublishRow) {rows later : PublishTable}
    → is_published row.status ≡ true
    → fetchone (has_id run_id) rows ≡ some row
    → Reach rows later
    → fetchone (has_id run_id) later ≡ some row
published_run_is_final run_id row over found here = found
published_run_is_final run_id row over found (next r st) =
    final-Change run_id row over (Step-Change st) (published_run_is_final run_id row over found r)

abbrev pub HasFailed : ℕ → PublishTable → Type 0
HasFailed run_id rows =
    (row : PublishRow) × (fetchone (has_id run_id) rows ≡ some row) × (is_failed row.status ≡ true)

failed-Change :
    (run_id : ℕ) {rows rows' : PublishTable}
    → Change rows rows'
    → HasFailed run_id rows
    → HasFailed run_id rows'
failed-Change run_id same h = h
failed-Change run_id {rows} (added run previous now check idle fresh) (row, found, over) =
    (row, fetchone-append_some (has_id run_id) rows (new_row run previous now ∷ []) row found, over)
failed-Change run_id {rows} (updated p f k pass) (row, found, over) = (
  update_row p f row,
  fetchone-update_where (has_id run_id) p f rows (has_id-Keeps run_id p f k)
      ∙ ap (Option.map (update_row p f)) found,
  ground (arith, k.failed row),
)

-- A run that has failed is never active or published again.
pub failed_run_stays_failed :
    (run_id : ℕ) {rows later : PublishTable}
    → HasFailed run_id rows
    → Reach rows later
    → HasFailed run_id later
failed_run_stays_failed run_id h here = h
failed_run_stays_failed run_id h (next r st) =
    failed-Change run_id (Step-Change st) (failed_run_stays_failed run_id h r)
