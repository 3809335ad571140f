-- ===== src/Validation/Outcome.antt =====
-- The files of a batch: what follows for their rows, and for the reject rate of
-- src/ingestion/extraction/quarantine.py.
use commerce_data_platform.Prelude.{
  ℕ, zero, suc, String, ◌≡◌, refl, sym, ap, subst, ◌∙◌, ◌⊎◌, ◌<◌, ◌≤◌, false, Option, none, some,
  List, [], ◌∷◌, ◌++◌, ◌+◌, ◌-◌, ◌*◌, length, All, All-map, arith,
}
use commerce_data_platform.Exceptions.{ok, err, reject_rate_exceeded}
use commerce_data_platform.Records.{ok-injective}
use commerce_data_platform.Cursor.{CursorPosition}
use commerce_data_platform.Contract.Columns.{TableConfig}
use commerce_data_platform.Validation.Values.{Value, SourceRecord}
use commerce_data_platform.Validation.Pipeline.{RejectedRecord, key_mem, primary_key}
use commerce_data_platform.Validation.Corruption.{CorruptionPlan}
use commerce_data_platform.Validation.Batch.{
  LocalArtifacts, write_local_artifacts, assert_reject_rate,
}
use commerce_data_platform.Validation.Split.{
  IsClean, Split, done, keep, reject, length-Split, keys_onto,
}
use commerce_data_platform.Validation.Pages.{quarantine_rows, injected}
use commerce_data_platform.Validation.Accounted.{batch-Split}

-- The record at an index.
unfoldable pub record_at : ℕ → List SourceRecord → Option SourceRecord
record_at n [] = none
record_at zero (r ∷ rs) = some r
record_at (suc n) (r ∷ rs) = record_at n rs

-- The rejected record is the record of the batch at its ordinal.
abbrev pub IsAt : ℕ → List SourceRecord → RejectedRecord → Type 0
IsAt n records j =
    (n ≤ j.ordinal)
    × (j.ordinal < n + length records)
    × (record_at (j.ordinal - n) records ≡ some j.rejected)

record_at-next :
    (r : SourceRecord) (rs : List SourceRecord) (n m : ℕ)
    → suc n ≤ m
    → record_at (m - n) (r ∷ rs) ≡ record_at (m - suc n) rs
unfolding record_at
record_at-next r rs n m below = rw (at) refl
  where
    at : m - n ≡ suc (m - suc n)
    at = omega (arith, below)

record_at-here :
    (r : SourceRecord) (rs : List SourceRecord) (n : ℕ) → record_at (n - n) (r ∷ rs) ≡ some r
unfolding record_at
record_at-here r rs n = rw (none_before) refl
  where
    none_before : n - n ≡ 0
    none_before = omega arith

IsAt-next :
    (r : SourceRecord) (rs : List SourceRecord) (n : ℕ) (j : RejectedRecord)
    → IsAt (suc n) rs j
    → IsAt n (r ∷ rs) j
IsAt-next r rs n j (above, below, found) =
    (omega (arith, above), omega (arith, below), record_at-next r rs n j.ordinal above ∙ found)

heads : {a b : SourceRecord} {xs ys : List SourceRecord} → a ∷ xs ≡ b ∷ ys → (a ≡ b) × (xs ≡ ys)
heads h = (cc, cc)

module _ (snapshot : String → String → List Value) (config : TableConfig)
    (lower upper : CursorPosition) where
  Split-IsClean :
      {keys : List (List Value)} {n : ℕ} {rs vs : List SourceRecord} {js : List RejectedRecord}
      → Split snapshot config lower upper keys n rs vs js
      → All (IsClean snapshot config lower upper) vs
  Split-IsClean done = tt
  Split-IsClean (keep r clean new split) = (clean, Split-IsClean split)
  Split-IsClean (reject r code codes split) = Split-IsClean split

  Split-IsAt :
      {keys : List (List Value)} {rs vs : List SourceRecord} {js : List RejectedRecord} (n : ℕ)
      → Split snapshot config lower upper keys n rs vs js
      → All (IsAt n rs) js
  unfolding record_at
  Split-IsAt n done = tt
  Split-IsAt n (keep r clean new split) = All-map (IsAt-next r _ n) _ (Split-IsAt (suc n) split)
  Split-IsAt n (reject r code codes split) = (
    (omega arith, omega arith, record_at-here r _ n),
    All-map (IsAt-next r _ n) _ (Split-IsAt (suc n) split),
  )

  -- A row that comes later in the file has another key.
  Split-differ :
      {keys : List (List Value)} {n : ℕ} {rs vs : List SourceRecord} {js : List RejectedRecord}
      (us ws : List SourceRecord) (r : SourceRecord)
      → Split snapshot config lower upper keys n rs vs js
      → vs ≡ us ++ r ∷ ws
      → key_mem (primary_key config r.values) (keys_onto snapshot config lower upper us keys)
        ≡ false
  Split-differ [] ws r done h = absurd (cc)
  Split-differ (u ∷ us) ws r done h = absurd (cc)
  Split-differ {keys = keys} [] ws r (keep v clean new split) h =
      subst (λ x. key_mem (primary_key config x.values) keys ≡ false) ((heads h).0) new
  Split-differ {keys = keys} (u ∷ us) ws r (keep v clean new split) h =
      subst
        (λ x.
          key_mem (primary_key config r.values)
            (keys_onto snapshot config lower upper us (primary_key config x.values ∷ keys))
          ≡ false)
        ((heads h).0) (Split-differ us ws r split ((heads h).1))
  Split-differ us ws r (reject v code codes split) h = Split-differ us ws r split h

module _ (snapshot : String → String → List Value) (plan : Option CorruptionPlan)
    (config : TableConfig) (lower upper : CursorPosition) (pages : List (List SourceRecord))
    (files : LocalArtifacts)
    (wrote : write_local_artifacts snapshot plan config lower upper pages ≡ ok files) where
  -- Every row of the bronze file keeps the contract of its table: its columns, types, domains and
  -- minimums fit, its key is complete, its cursor is in the range of the batch, and its parents are
  -- in the snapshot.
  pub bronze_rows-IsClean : All (IsClean snapshot config lower upper) files.bronze
  bronze_rows-IsClean =
      let (records, made, split, extracted, refused) =
        batch-Split snapshot plan config lower upper pages files wrote in
      Split-IsClean snapshot config lower upper split

  -- No row of the bronze file has the primary key of a row before it.
  pub bronze_keys_differ :
      (before rest : List SourceRecord) (r : SourceRecord)
      → files.bronze ≡ before ++ r ∷ rest
      → key_mem (primary_key config r.values) (keys_onto snapshot config lower upper before [])
        ≡ false
  bronze_keys_differ before rest r h =
      let (records, made, split, extracted, refused) =
        batch-Split snapshot plan config lower upper pages files wrote in
      Split-differ snapshot config lower upper before rest r split h

  -- Every row of the quarantine file has an ordinal below the number of extracted rows, and is the
  -- record of the batch at that ordinal.
  pub quarantine_ordinals :
      (records : List SourceRecord)
      → injected plan 0 pages ≡ ok records
      → All
          (λ j.
            (j.ordinal < files.rows_extracted) × (record_at j.ordinal records ≡ some j.rejected))
          (quarantine_rows files.quarantine)
  quarantine_ordinals records made =
      let (found, made1, split, extracted, refused) =
        batch-Split snapshot plan config lower upper pages files wrote in
      All-map
        (λ j (above, below, at). (
          omega (arith, below, extracted),
          ap (λ n. record_at n records) (whole j.ordinal)
              ∙ ap (record_at (j.ordinal - 0)) (ok-injective (sym made ∙ made1))
              ∙ at,
        ))
        (quarantine_rows files.quarantine) (Split-IsAt snapshot config lower upper 0 split)
    where
      whole : (n : ℕ) → n ≡ n - 0
      whole n = omega arith

  -- The reject rate of a batch never finds impossible counts: it passes if at most a twentieth of
  -- the rows is in the quarantine, and raises the error of the rate if more are.
  pub batch_rate :
      (assert_reject_rate files.rows_extracted files.rows_rejected ≡ ok tt)
        × (20 * length (quarantine_rows files.quarantine)
            ≤ length files.bronze + length (quarantine_rows files.quarantine))
      ⊎ (assert_reject_rate files.rows_extracted files.rows_rejected ≡ err reject_rate_exceeded)
        × (length files.bronze + length (quarantine_rows files.quarantine)
            < 20 * length (quarantine_rows files.quarantine))
  unfolding assert_reject_rate
  batch_rate =
      let (records, made, split, extracted, refused) =
        batch-Split snapshot plan config lower upper pages files wrote in
      ground (arith, length-Split snapshot config lower upper split, extracted, refused)
