-- ===== src/Lease.antt =====
-- src/common/lease.py: the global lease on changes of the source database.
pub mod Exclusion
pub mod Fencing
mod Tests
use commerce_data_platform.Prelude.{
  ℕ, ◌+◌, String, Bool, not, ◌&&◌, ◌||◌, Option, none, some, ltb, ◌==◌, str_eq, if◌then◌else◌,
}
use commerce_data_platform.Exceptions.{
  Result, ok, err, lease_unavailable, lease_ownership_lost, value_error, runtime_error,
}
use commerce_data_platform.Action.{
  Action, pure, raise, lift, raise_if, modify, transaction, ◌>>=◌, ◌>>◌,
}
use commerce_data_platform.Clock.{DateTime, utc_now}

abbrev pub generator_owner_type : String
generator_owner_type = "GENERATOR"

abbrev pub warehouse_owner_type : String
warehouse_owner_type = "WAREHOUSE"

pub record SourceMutationLease : Type 0 where
  pub owner_type : String
  pub owner_id : ℕ
  pub lease_expires_at : ℕ
  pub version : ℕ

-- A row of source_mutation_leases, with its nullable columns.
pub record LeaseRow : Type 0 where
  pub owner_type : Option String
  pub owner_id : Option ℕ
  pub lease_expires_at : Option ℕ
  pub version : ℕ
  pub updated_at : ℕ

-- The table's check allows one resource name, so it holds one row at most.
abbrev pub LeaseTable : Type 0
LeaseTable = Option LeaseRow

-- An owner of no type, the zero UUID and the least datetime stand for a row with no owner.
abbrev pub lease_from_columns : Option String → Option ℕ → Option ℕ → ℕ → SourceMutationLease
lease_from_columns (some t) (some o) (some e) v = record {
  owner_type = t;
  owner_id = o;
  lease_expires_at = e;
  version = v;
}
lease_from_columns _ _ _ v = record {
  owner_type = "";
  owner_id = 0;
  lease_expires_at = 0;
  version = v;
}

unfoldable pub lease_from_row : LeaseRow → SourceMutationLease
lease_from_row r = lease_from_columns r.owner_type r.owner_id r.lease_expires_at r.version

unfoldable pub is_active : SourceMutationLease → ℕ → Bool
is_active lease now = not (str_eq lease.owner_type "") && ltb now lease.lease_expires_at

unfoldable pub lease_of : SourceMutationLease → String → ℕ → Bool
lease_of lease owner_type owner_id =
    str_eq lease.owner_type owner_type && lease.owner_id == owner_id

abbrev pub assert_owner_type : String → Result (Unit {0})
assert_owner_type owner_type =
    if str_eq owner_type generator_owner_type || str_eq owner_type warehouse_owner_type
    then ok tt
    else err value_error

-- A time to live of zero stands for every one that is not positive.
abbrev pub assert_positive_ttl : ℕ → Result (Unit {0})
assert_positive_ttl ttl = if ltb 0 ttl then ok tt else err value_error

-- `INSERT … ON CONFLICT (resource_name) DO NOTHING`
abbrev insert_row : ℕ → LeaseTable → LeaseTable
insert_row now none = some (record {
  owner_type = none;
  owner_id = none;
  lease_expires_at = none;
  version = 0;
  updated_at = now;
})
insert_row now (some r) = some r

-- `UPDATE … WHERE resource_name = … AND version = …`
abbrev update_row : ℕ → (LeaseRow → LeaseRow) → LeaseTable → LeaseTable
update_row version f none = none
update_row version f (some r) = if r.version == version then some (f r) else some r

-- `_locked_lease` and `_read_lease`: a row that is missing is an error.
unfoldable pub read_lease : Action LeaseTable SourceMutationLease
unfolding lease_from_row
read_lease none = raise runtime_error none
read_lease (some r) = pure (lease_from_row r) (some r)

unfoldable pub assert_current_lease :
    SourceMutationLease → SourceMutationLease → ℕ → Result (Unit {0})
unfolding lease_of is_active
assert_current_lease current expected now =
    if not (lease_of current expected.owner_type expected.owner_id)
    then err lease_ownership_lost
    else if not (current.version == expected.version)
    then err lease_ownership_lost
    else if not (is_active current now)
    then err lease_ownership_lost
    else ok tt

-- The branch of `acquire` for a lease that is free or has expired.
grant : SourceMutationLease → String → ℕ → ℕ → ℕ → Action LeaseTable SourceMutationLease
grant current owner_type owner_id now ttl = do
  modify (
      update_row current.version λ r. record r {
        owner_type = some owner_type;
        owner_id = some owner_id;
        lease_expires_at = some (now + ttl);
        version = current.version + 1;
        updated_at = now;
      })
  pure (record {
    owner_type = owner_type;
    owner_id = owner_id;
    lease_expires_at = now + ttl;
    version = current.version + 1;
  })

-- The clock's time and the injected one come first.
unfoldable pub acquire :
    ℕ → Option DateTime → String → ℕ → ℕ → Action LeaseTable SourceMutationLease
unfolding read_lease grant
acquire clock now owner_type owner_id ttl = do
  lift (assert_owner_type owner_type)
  current_time ← lift (utc_now clock now)
  lift (assert_positive_ttl ttl)
  transaction do
    modify (insert_row current_time)
    current ← read_lease
    if is_active current current_time
        then (if lease_of current owner_type owner_id
            then pure current
            else raise lease_unavailable)
        else grant current owner_type owner_id current_time ttl

unfoldable pub renew :
    ℕ → Option DateTime → SourceMutationLease → ℕ → Action LeaseTable SourceMutationLease
unfolding read_lease assert_current_lease
renew clock now lease ttl = do
  current_time ← lift (utc_now clock now)
  lift (assert_positive_ttl ttl)
  transaction do
    current ← read_lease
    lift (assert_current_lease current lease current_time)
    modify (
        update_row lease.version
          λ r. record r { lease_expires_at = some (current_time + ttl); updated_at = current_time })
  pure (record lease { lease_expires_at = current_time + ttl })

-- `assert_source_mutation_lease`
unfoldable pub check : ℕ → Option DateTime → SourceMutationLease → Action LeaseTable (Unit {0})
unfolding read_lease assert_current_lease
check clock now lease = do
  current_time ← lift (utc_now clock now)
  current ← read_lease
  lift (assert_current_lease current lease current_time)

-- `fenced_source_commit`: the share lock keeps the row as it is while the block runs, so the block
-- works on another state.
unfoldable pub fenced :
    {S A : Type 0}
    → ℕ
    → Option DateTime
    → SourceMutationLease
    → LeaseTable
    → Action S A
    → Action S A
unfolding read_lease assert_current_lease
fenced clock now lease table block = do
  current ← lift (read_lease table).0
  current_time ← lift (utc_now clock now)
  lift (assert_current_lease current lease current_time)
  block

unfoldable pub release : ℕ → Option DateTime → SourceMutationLease → Action LeaseTable (Unit {0})
unfolding read_lease lease_of
release clock now lease = do
  current_time ← lift (utc_now clock now)
  transaction do
    current ← read_lease
    raise_if (not (lease_of current lease.owner_type lease.owner_id)) lease_ownership_lost
    raise_if (not (current.version == lease.version)) lease_ownership_lost
    modify (
        update_row lease.version λ r. record r {
          owner_type = none;
          owner_id = none;
          lease_expires_at = none;
          version = lease.version + 1;
          updated_at = current_time;
        })
