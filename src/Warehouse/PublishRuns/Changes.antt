-- ===== src/Warehouse/PublishRuns/Changes.antt =====
-- Each operation on the publish runs as one of the changes of `History`.
use mathlib.Core.Option
use commerce_data_platform.Prelude.{
  ℕ, String, ◌≡◌, refl, inl, inr, ◌⊎◌, Bool, true, false, ◌&&◌, Option, none, List, [], ◌∷◌, ◌++◌,
  arith, Bool-cases,
}
use commerce_data_platform.Sql.{fetchone}
use commerce_data_platform.Warehouse.PublishRuns.{
  PublishStatus, PublishRun, PublishRow, PublishTable, is_building, is_publishing, is_published,
  is_failed, is_active_status, is_active, has_id, row_check, updates_pass, update_checked, new_row,
  insert_row, latest_published,
}
use commerce_data_platform.Warehouse.PublishRuns.Operations.{
  start_publish_run, transition, record_dbt_result, mark_publishing, mark_published, mark_failed,
  is_stale, touch_publish_run, close_stale_run, reclaimable, close_dag_run_building,
  record_failed_path, closed_as, reclaimed, tested_with, replacing_with, published_at, ended_failed,
  seen_at, filed_at, text_take,
}
use commerce_data_platform.Warehouse.PublishRuns.History.{
  Step, started, tested, replacing, replaced, broken, touched, closed, taken_back, filed, Keeps,
  Change, same, added, updated,
}

update_checked-Change :
    (p : PublishRow → Bool) (f : PublishRow → PublishRow) (rows : PublishTable)
    → Keeps p f
    → Change rows (update_checked p f rows).1
unfolding update_checked
update_checked-Change p f rows k = elim (Bool-cases (updates_pass p f rows)) [
  | inl e ↦ rw (update_checked, e) (updated p f k e)
  | inr e ↦ rw (update_checked, e) same
]

transition_outcome :
    (run_id : ℕ) (expected : PublishStatus → Bool) (f : PublishRow → PublishRow)
    (rows : PublishTable)
    → let p = λ (r : PublishRow). has_id run_id r && expected r.status in
      ((transition run_id expected f rows).1 ≡ rows)
      ⊎ ((transition run_id expected f rows).1 ≡ (update_checked p f rows).1)
unfolding transition
transition_outcome run_id expected f rows = ground arith

transition-Change :
    (run_id : ℕ) (expected : PublishStatus → Bool) (f : PublishRow → PublishRow)
    (rows : PublishTable)
    → Keeps (λ r. has_id run_id r && expected r.status) f
    → Change rows (transition run_id expected f rows).1
transition-Change run_id expected f rows k = elim (transition_outcome run_id expected f rows) [
  | inl e ↦ rw e same
  | inr e ↦ rw e (update_checked-Change (λ r. has_id run_id r && expected r.status) f rows k)
]

insert_outcome :
    (r : PublishRow) (rows : PublishTable)
    → ((insert_row r rows).1 ≡ rows)
      ⊎ ((row_check r ≡ true)
          × (fetchone is_active rows ≡ none)
          × (fetchone (has_id r.publish_run_id) rows ≡ none)
          × ((insert_row r rows).1 ≡ rows ++ r ∷ []))
unfolding insert_row
insert_outcome r rows = ground arith

start_table :
    (run : PublishRun) (now : ℕ) (rows : PublishTable)
    → (start_publish_run run now rows).1
      ≡ (insert_row
          (new_row run
            (Option.map (λ (r : PublishRow). r.publish_run_id) (latest_published rows))
            now)
          rows).1
unfolding start_publish_run
start_table run now rows = ground arith

start-Change :
    (run : PublishRun) (now : ℕ) (rows : PublishTable)
    → Change rows (start_publish_run run now rows).1
start-Change run now rows =
    let previous = Option.map (λ (r : PublishRow). r.publish_run_id) (latest_published rows) in
    elim (insert_outcome (new_row run previous now) rows) [
      | inl e ↦ rw (start_table run now rows, e) same
      | inr (check, idle, fresh, e) ↦
          rw (start_table run now rows, e) (added run previous now check idle fresh)
    ]

tested-Keeps :
    (run_id : ℕ) (invocation_id : Option String) (passed fails : ℕ)
    → Keeps (λ r. has_id run_id r && is_building r.status) (tested_with invocation_id passed fails)
unfolding is_active is_active_status is_building is_publishing is_published is_failed reclaimable
tested-Keeps run_id invocation_id passed fails = record {
  id = λ r h. refl;
  active = λ r h a. ground arith;
  published = λ r h. ground arith;
  failed = λ r h b. ground arith;
}

replacing-Keeps :
    (run_id : ℕ) (hashes : List (String × String)) (counts : List (String × ℕ)) (identity : ℕ × ℕ)
    → Keeps (λ r. has_id run_id r && is_building r.status) (replacing_with hashes counts identity)
unfolding is_active is_active_status is_building is_publishing is_published is_failed reclaimable
replacing-Keeps run_id hashes counts identity = record {
  id = λ r h. refl;
  active = λ r h a. ground arith;
  published = λ r h. ground arith;
  failed = λ r h b. ground arith;
}

replaced-Keeps :
    (run_id now : ℕ) → Keeps (λ r. has_id run_id r && is_publishing r.status) (published_at now)
unfolding is_active is_active_status is_building is_publishing is_published is_failed reclaimable
replaced-Keeps run_id now = record {
  id = λ r h. refl;
  active = λ r h a. ground arith;
  published = λ r h. ground arith;
  failed = λ r h b. ground arith;
}

broken-Keeps :
    (run_id : ℕ) (error_type message : String) (path : Option String) (now : ℕ)
    → Keeps
        (λ r. has_id run_id r && is_active_status r.status)
        (ended_failed error_type message path now)
unfolding is_active is_active_status is_building is_publishing is_published is_failed reclaimable
broken-Keeps run_id error_type message path now = record {
  id = λ r h. refl;
  active = λ r h a. ground arith;
  published = λ r h. ground arith;
  failed = λ r h b. ground arith;
}

touched-Keeps : (run_id now : ℕ) → Keeps (λ r. has_id run_id r && is_active r) (seen_at now)
unfolding is_active is_active_status is_building is_publishing is_published is_failed reclaimable
touched-Keeps run_id now = record {
  id = λ r h. refl;
  active = λ r h a. ground arith;
  published = λ r h. ground arith;
  failed = λ r h b. ground arith;
}

taken_back-Keeps :
    (pipeline dag_run_id : String) (now : ℕ)
    → Keeps (reclaimable pipeline dag_run_id) (reclaimed now)
unfolding is_active is_active_status is_building is_publishing is_published is_failed reclaimable
taken_back-Keeps pipeline dag_run_id now = record {
  id = λ r h. refl;
  active = λ r h a. ground arith;
  published = λ r h. ground arith;
  failed = λ r h b. ground arith;
}

filed-Keeps :
    (run_id : ℕ) (path : String)
    → Keeps (λ r. has_id run_id r && is_failed r.status) (filed_at path)
unfolding is_active is_active_status is_building is_publishing is_published is_failed reclaimable
filed-Keeps run_id path = record {
  id = λ r h. refl;
  active = λ r h a. ground arith;
  published = λ r h. ground arith;
  failed = λ r h b. ground arith;
}

closed-Keeps :
    (run_id : ℕ) (as_published : Bool) (stale_before now : ℕ)
    → Keeps
        (λ r. has_id run_id r && is_active r && is_stale stale_before r)
        (closed_as as_published now)
unfolding is_active is_active_status is_building is_publishing is_published is_failed
closed-Keeps run_id true stale_before now = record {
  id = λ r h. refl;
  active = λ r h a. ground arith;
  published = λ r h. ground arith;
  failed = λ r h b. ground arith;
}
closed-Keeps run_id false stale_before now = record {
  id = λ r h. refl;
  active = λ r h a. ground arith;
  published = λ r h. ground arith;
  failed = λ r h b. ground arith;
}

touch_table :
    (run_id now : ℕ) (rows : PublishTable)
    → (touch_publish_run run_id now rows).1
      ≡ (update_checked (λ r. has_id run_id r && is_active r) (seen_at now) rows).1
unfolding touch_publish_run
touch_table run_id now rows = ground arith

close_table :
    (run_id : ℕ) (as_published : Bool) (stale_before now : ℕ) (rows : PublishTable)
    → (close_stale_run run_id as_published stale_before now rows).1
      ≡ (update_checked
          (λ r. has_id run_id r && is_active r && is_stale stale_before r)
          (closed_as as_published now)
          rows).1
unfolding close_stale_run
close_table run_id as_published stale_before now rows = ground arith

reclaim_table :
    (pipeline dag_run_id : String) (now : ℕ) (rows : PublishTable)
    → (close_dag_run_building pipeline dag_run_id now rows).1
      ≡ (update_checked (reclaimable pipeline dag_run_id) (reclaimed now) rows).1
unfolding close_dag_run_building
reclaim_table pipeline dag_run_id now rows = ground arith

pub Step-Change : {t u : PublishTable} → Step t u → Change t u
unfolding record_dbt_result mark_publishing mark_published mark_failed record_failed_path
Step-Change (started run now rows) = start-Change run now rows
Step-Change (tested run_id invocation_id passed fails rows) =
    transition-Change run_id is_building (tested_with invocation_id passed fails) rows
      (tested-Keeps run_id invocation_id passed fails)
Step-Change (replacing run_id hashes counts identity rows) =
    transition-Change run_id is_building (replacing_with hashes counts identity) rows
      (replacing-Keeps run_id hashes counts identity)
Step-Change (replaced run_id now rows) =
    transition-Change run_id is_publishing (published_at now) rows (replaced-Keeps run_id now)
Step-Change (broken run_id error_type message path now rows) =
    transition-Change run_id is_active_status
      (ended_failed error_type (text_take 4000 message) path now) rows
      (broken-Keeps run_id error_type (text_take 4000 message) path now)
Step-Change (touched run_id now rows) = rw (touch_table run_id now rows) (
    update_checked-Change (λ r. has_id run_id r && is_active r) (seen_at now) rows
      (touched-Keeps run_id now))
Step-Change (closed run_id as_published stale_before now rows) =
    rw (close_table run_id as_published stale_before now rows) (
      update_checked-Change (λ r. has_id run_id r && is_active r && is_stale stale_before r)
        (closed_as as_published now) rows (closed-Keeps run_id as_published stale_before now))
Step-Change (taken_back pipeline dag_run_id now rows) =
    rw (reclaim_table pipeline dag_run_id now rows) (
      update_checked-Change (reclaimable pipeline dag_run_id) (reclaimed now) rows
        (taken_back-Keeps pipeline dag_run_id now))
Step-Change (filed run_id path rows) =
    transition-Change run_id is_failed (filed_at path) rows (filed-Keeps run_id path)
