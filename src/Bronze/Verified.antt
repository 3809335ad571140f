-- ===== src/Bronze/Verified.antt =====
-- src/ingestion/bronze/verification.py: what a batch that is verified has.
use Prim.Native.String.{◌++◌ as ◌+++◌}
use mathlib.Core.Option
use mathlib.Core.List.{Mem}
use commerce_data_platform.Prelude.{
  ◌≤◌, String, ◌≡◌, ◌≢◌, refl, sym, subst, ◌⊎◌, inl, inr, true, Option, none, some, List, [], ◌∷◌,
  ◌==◌, Bool-cases, false, ℕ, All, All-map, arith, str_eq_iff,
}
use commerce_data_platform.Exceptions.{ok, bronze_commit_verification}
use commerce_data_platform.Order.{number_order}
use commerce_data_platform.Sql.{select, fetchone}
use commerce_data_platform.Sql.Laws.{fetchone_sound}
use commerce_data_platform.Sql.OrderBy.{descending, All-selected, All-select}
use commerce_data_platform.Sql.Members.{All-Mem, fetchone-Mem, fetchone-none-All, select-All_if}
use commerce_data_platform.Sql.OrderBy.First.{order_by-head, order_by-first}
use commerce_data_platform.Records.{
  Metadata, BronzeRow, RunRow, RunStatus, committed, is_committed_status, success_no_data,
  raise_unless, >>=-ok, ok-injective,
}
use commerce_data_platform.Control.Batch.{
  committed_batch, is_committed_batch, get_committed_table_batch,
}
use commerce_data_platform.Contract.Columns.{TableConfig, assert_supported_schema_version}
use commerce_data_platform.Contract.Tables.{table_config}
use commerce_data_platform.Bronze.Verification.{
  VerifiedTableBatch, id_of_table, is_run_of, latest_run_status, status_of_first, is_no_data,
  verify_existing, verify_table, verify_bronze_commit,
}

module _ (batch_id : String) (db : Metadata) where
  -- A committed object of the table's batch that has the schema version of the table's contract.
  pub record IsCommitted (table : String) (config : TableConfig) (v : VerifiedTableBatch)
      : Type 0 where
    pub row : BronzeRow
    pub member : Mem row db.bronze_objects
    pub batch : row.table_batch_id ≡ batch_id +++ ("__" +++ table)
    pub status : row.status ≡ committed
    pub version : row.schema_version ≡ config.schema_version
    pub verified : v ≡ record {
      source_table = table;
      object_key = some row.object_key;
      row_count = row.row_count;
    }

  -- A run of the table's batch that found no data, and no run of the batch that started later.
  pub record IsEmpty (table : String) (v : VerifiedTableBatch) : Type 0 where
    pub uncommitted :
        All
          (λ r. r.table_batch_id ≡ batch_id +++ ("__" +++ table) → r.status ≢ committed)
          db.bronze_objects
    pub run : RunRow
    pub member : Mem run db.pipeline_runs
    pub batch : run.batch_id ≡ batch_id
    pub source : run.source_table ≡ table
    pub no_data : run.status ≡ success_no_data
    pub latest :
        All
          (λ r. r.batch_id ≡ batch_id → r.source_table ≡ table → r.started_at ≤ run.started_at)
          db.pipeline_runs
    pub verified : v ≡ record { source_table = table; object_key = none; row_count = 0 }

  abbrev pub IsVerified : String → VerifiedTableBatch → Type 0
  IsVerified table v =
      (config : TableConfig) × (table_config table ≡ ok config)
      × (IsCommitted table config v ⊎ IsEmpty table v)

  abbrev pub AllVerified : List String → List VerifiedTableBatch → Type 0
  AllVerified [] [] = Unit
  AllVerified (table ∷ tables) (v ∷ vs) = IsVerified table v × AllVerified tables vs
  AllVerified _ _ = ⊥

  no_data_status : (o : Option RunStatus) → is_no_data o ≡ true → o ≡ some success_no_data
  unfolding is_no_data
  no_data_status o h = ground arith

  committed-facts :
      (table : String) (r : BronzeRow)
      → is_committed_batch (id_of_table batch_id table) r ≡ true
      → (r.table_batch_id ≡ batch_id +++ ("__" +++ table)) × (r.status ≡ committed)
  unfolding is_committed_batch is_committed_status id_of_table
  committed-facts table r h =
      ground (arith, str_eq_iff r.table_batch_id (batch_id +++ ("__" +++ table)))

  passed_over :
      (table : String) (r : BronzeRow)
      → r.table_batch_id ≡ batch_id +++ ("__" +++ table)
      → r.status ≡ committed
      → is_committed_batch (id_of_table batch_id table) r ≢ false
  unfolding is_committed_batch is_committed_status id_of_table
  passed_over table r same status h =
      ground (arith, str_eq_iff r.table_batch_id (batch_id +++ ("__" +++ table)))

  run-facts :
      (table : String) (r : RunRow)
      → is_run_of batch_id table r ≡ true
      → (r.batch_id ≡ batch_id) × (r.source_table ≡ table)
  unfolding is_run_of
  run-facts table r h =
      ground (arith, str_eq_iff r.batch_id batch_id, str_eq_iff r.source_table table)

  is_run_of_facts :
      (table : String) (r : RunRow)
      → r.batch_id ≡ batch_id
      → r.source_table ≡ table
      → is_run_of batch_id table r ≡ true
  unfolding is_run_of
  is_run_of_facts table r h k =
      ground (arith, str_eq_iff r.batch_id batch_id, str_eq_iff r.source_table table)

  status_of_first-row :
      (rows : List RunRow)
      → status_of_first rows ≡ some success_no_data
      → (run : RunRow) × (rest : List RunRow) × (rows ≡ run ∷ rest) × (run.status ≡ success_no_data)
  unfolding status_of_first
  status_of_first-row [] h = absurd (cc)
  status_of_first-row (r ∷ rs) h = (r, rs, refl, cc)

  not_later : (a b : ℕ) → (descending number_order).lt a b ≡ false → a ≤ b
  not_later a b h = ground arith

  no_data-IsEmpty :
      (table : String)
      → fetchone (is_committed_batch (id_of_table batch_id table)) db.bronze_objects ≡ none
      → latest_run_status batch_id table db ≡ some success_no_data
      → IsEmpty table (record { source_table = table; object_key = none; row_count = 0 })
  unfolding latest_run_status
  no_data-IsEmpty table missing empty =
      let p = is_run_of batch_id table in
      let started = λ (r : RunRow). r.started_at in
      let (run, rest, first, no_data) = status_of_first-row _ empty in
      let (batch, source) = run-facts table run (
        order_by-head (descending number_order) started (λ r. p r ≡ true)
          (select p db.pipeline_runs) rest run first (All-selected p db.pipeline_runs)) in
      record {
        uncommitted =
            All-map (λ r other same status. absurd (passed_over table r same status other))
              db.bronze_objects
              (fetchone-none-All (is_committed_batch (id_of_table batch_id table)) db.bronze_objects
                missing);
        run = run;
        member =
            order_by-head (descending number_order) started (λ r. Mem r db.pipeline_runs)
              (select p db.pipeline_runs) rest run first
              (All-select number_order started (λ r. Mem r db.pipeline_runs) p db.pipeline_runs
                (All-Mem db.pipeline_runs));
        batch = batch;
        source = source;
        no_data = no_data;
        latest =
            All-map
              (λ r below same_batch same_table.
                not_later r.started_at run.started_at
                  (below (is_run_of_facts table r same_batch same_table)))
              db.pipeline_runs
              (select-All_if (λ r. (descending number_order).lt r.started_at run.started_at ≡ false)
                p db.pipeline_runs
                (order_by-first (descending number_order) started (select p db.pipeline_runs) rest
                  run first));
        verified = refl;
      }

  verify_existing-IsVerified :
      (table : String) (config : TableConfig) (found : Option BronzeRow) (v : VerifiedTableBatch)
      → table_config table ≡ ok config
      → fetchone (is_committed_batch (id_of_table batch_id table)) db.bronze_objects ≡ found
      → verify_existing batch_id table db config (Option.map committed_batch found) ≡ ok v
      → IsVerified table v
  unfolding verify_existing
  verify_existing-IsVerified table config none v known missing h =
      elim (Bool-cases (is_no_data (latest_run_status batch_id table db))) [
        | inl empty ↦ (
          config,
          known,
          inr (
              subst (IsEmpty table) (ok-injective (rw empty at h))
                (no_data-IsEmpty table missing (no_data_status _ empty))),
        )
        | inr other ↦ absurd (ground (arith, other))
      ]
  verify_existing-IsVerified table config (some row) v known at h =
      let (u, h2, h3) = >>=-ok (assert_supported_schema_version row.schema_version) _ v h in
      let (u1, h4, h5) =
        >>=-ok
          (raise_unless (row.schema_version == config.schema_version) bronze_commit_verification) _
          v h3 in
      let (batch, status) = committed-facts table row (
        fetchone_sound (is_committed_batch (id_of_table batch_id table)) db.bronze_objects row
          at) in
      (
        config,
        known,
        inl (record {
          row = row;
          member =
              fetchone-Mem (is_committed_batch (id_of_table batch_id table)) db.bronze_objects row
                at;
          batch = batch;
          status = status;
          version = ground (arith, h4);
          verified = sym (ok-injective h5);
        }),
      )

  -- A batch that is verified is verified for each table in turn, which the contracts know: either it
  -- has a committed object with the schema version of the table's contract, and the result has the
  -- key and the row count of that object; or it has no committed object, and a run of the batch that
  -- found no data, no run of the batch and the table having started later.
  pub verify_bronze_commit-AllVerified :
      (tables : List String) (verified : List VerifiedTableBatch)
      → verify_bronze_commit batch_id tables db ≡ ok verified
      → AllVerified tables verified
  unfolding verify_bronze_commit verify_table get_committed_table_batch
  verify_bronze_commit-AllVerified [] verified h = subst (AllVerified []) (ok-injective h) tt
  verify_bronze_commit-AllVerified (table ∷ tables) verified h =
      let (v, h0, h1) = >>=-ok (verify_table batch_id db table) _ verified h in
      let (vs, h2, h3) = >>=-ok (verify_bronze_commit batch_id tables db) _ verified h1 in
      let (config, h4, h5) = >>=-ok (table_config table) _ v h0 in
      subst (AllVerified (table ∷ tables)) (ok-injective h3) (
        verify_existing-IsVerified table config _ v h4 refl h5,
        verify_bronze_commit-AllVerified tables vs h2,
      )
