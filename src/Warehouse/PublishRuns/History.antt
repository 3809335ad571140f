-- ===== src/Warehouse/PublishRuns/History.antt =====
-- Every operation on the table of publish runs, by any process and whatever its outcome, and the
-- two changes that they come down to.
use commerce_data_platform.Prelude.{
  ℕ, String, ◌≡◌, Bool, true, false, Option, none, List, [], ◌∷◌, ◌++◌,
}
use commerce_data_platform.Sql.{fetchone, update_where}
use commerce_data_platform.Warehouse.PublishRuns.{
  PublishRun, PublishRow, PublishTable, is_published, is_failed, is_active, has_id, row_check,
  updates_pass, new_row,
}
use commerce_data_platform.Warehouse.PublishRuns.Operations.{
  start_publish_run, record_dbt_result, mark_publishing, mark_published, mark_failed,
  touch_publish_run, close_stale_run, close_dag_run_building, record_failed_path,
}

pub data Step : PublishTable → PublishTable → Type 0 where
  started :
      (run : PublishRun) (now : ℕ) (rows : PublishTable)
      → Step rows (start_publish_run run now rows).1
  tested :
      (run_id : ℕ) (invocation_id : Option String) (passed fails : ℕ) (rows : PublishTable)
      → Step rows (record_dbt_result run_id invocation_id passed fails rows).1
  replacing :
      (run_id : ℕ) (hashes : List (String × String)) (counts : List (String × ℕ)) (identity : ℕ × ℕ)
      (rows : PublishTable)
      → Step rows (mark_publishing run_id hashes counts identity rows).1
  replaced : (run_id now : ℕ) (rows : PublishTable) → Step rows (mark_published run_id now rows).1
  broken :
      (run_id : ℕ) (error_type message : String) (path : Option String) (now : ℕ)
      (rows : PublishTable)
      → Step rows (mark_failed run_id error_type message path now rows).1
  touched : (run_id now : ℕ) (rows : PublishTable) → Step rows (touch_publish_run run_id now rows).1
  closed :
      (run_id : ℕ) (as_published : Bool) (stale_before now : ℕ) (rows : PublishTable)
      → Step rows (close_stale_run run_id as_published stale_before now rows).1
  taken_back :
      (pipeline dag_run_id : String) (now : ℕ) (rows : PublishTable)
      → Step rows (close_dag_run_building pipeline dag_run_id now rows).1
  filed :
      (run_id : ℕ) (path : String) (rows : PublishTable)
      → Step rows (record_failed_path run_id path rows).1

pub data Reach (start : PublishTable) : PublishTable → Type 0 where
  here : Reach start start
  next : {t u : PublishTable} → Reach start t → Step t u → Reach start u

-- What every update respects: the identifier, the end of a run, and a published row.
pub record Keeps (p : PublishRow → Bool) (f : PublishRow → PublishRow) : Type 0 where
  pub id : (r : PublishRow) → p r ≡ true → (f r).publish_run_id ≡ r.publish_run_id
  pub active : (r : PublishRow) → p r ≡ true → is_active (f r) ≡ true → is_active r ≡ true
  pub published : (r : PublishRow) → p r ≡ true → is_published r.status ≡ false
  pub failed :
      (r : PublishRow) → p r ≡ true → is_failed r.status ≡ true → is_failed (f r).status ≡ true

pub data Change (rows : PublishTable) : PublishTable → Type 0 where
  same : Change rows rows
  added :
      (run : PublishRun) (previous : Option ℕ) (now : ℕ)
      → row_check (new_row run previous now) ≡ true
      → fetchone is_active rows ≡ none
      → fetchone (has_id run.publish_run_id) rows ≡ none
      → Change rows (rows ++ new_row run previous now ∷ [])
  updated :
      (p : PublishRow → Bool) (f : PublishRow → PublishRow)
      → Keeps p f
      → updates_pass p f rows ≡ true
      → Change rows (update_where p f rows)
