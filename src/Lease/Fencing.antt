-- ===== src/Lease/Fencing.antt =====
-- The lease of src/common/lease.py after it was released, or after another owner got in.
use commerce_data_platform.Prelude.{
  ℕ, ◌≤◌, ◌<◌, String, ◌≡◌, ◌≢◌, ◌⊎◌, Option, none, some, true, false, arith, str_eq_iff,
}
use commerce_data_platform.Exceptions.{ok}
use commerce_data_platform.Clock.{DateTime}
use commerce_data_platform.Lease.{
  SourceMutationLease, LeaseRow, LeaseTable, acquire, renew, check, release, lease_of,
  lease_from_row,
}

-- What any process may do to the table, at any time and whatever the outcome.
pub data Step : LeaseTable → LeaseTable → Type 0 where
  acquired :
      (clock : ℕ) (now : Option DateTime) (owner_type : String) (owner_id ttl : ℕ)
      (table : LeaseTable)
      → Step table (acquire clock now owner_type owner_id ttl table).1
  renewed :
      (clock : ℕ) (now : Option DateTime) (lease : SourceMutationLease) (ttl : ℕ)
      (table : LeaseTable)
      → Step table (renew clock now lease ttl table).1
  released :
      (clock : ℕ) (now : Option DateTime) (lease : SourceMutationLease) (table : LeaseTable)
      → Step table (release clock now lease table).1

pub data Reach (start : LeaseTable) : LeaseTable → Type 0 where
  here : Reach start start
  next : {t u : LeaseTable} → Reach start t → Step t u → Reach start u

-- The row has gone on to another version, or names another owner, or nobody.
abbrev pub IsLost : SourceMutationLease → LeaseTable → Type 0
IsLost lease none = ⊥
IsLost lease (some r) =
    (lease.version < r.version)
    ⊎ ((lease.version ≡ r.version)
        × (lease_of (lease_from_row r) lease.owner_type lease.owner_id ≡ false))

IsLost-acquire :
    (lease : SourceMutationLease) (clock : ℕ) (now : Option DateTime) (owner_type : String)
    (owner_id ttl : ℕ) (table : LeaseTable)
    → IsLost lease table
    → IsLost lease (acquire clock now owner_type owner_id ttl table).1
unfolding acquire
IsLost-acquire lease clock now owner_type owner_id ttl (some r) h = ground arith
IsLost-acquire lease clock now owner_type owner_id ttl none h = absurd h

IsLost-renew :
    (lease : SourceMutationLease) (clock : ℕ) (now : Option DateTime) (other : SourceMutationLease)
    (ttl : ℕ) (table : LeaseTable)
    → IsLost lease table
    → IsLost lease (renew clock now other ttl table).1
unfolding renew
IsLost-renew lease clock now other ttl (some r) h = ground arith
IsLost-renew lease clock now other ttl none h = absurd h

IsLost-release :
    (lease : SourceMutationLease) (clock : ℕ) (now : Option DateTime) (other : SourceMutationLease)
    (table : LeaseTable)
    → IsLost lease table
    → IsLost lease (release clock now other table).1
unfolding release
IsLost-release lease clock now other (some r) h = ground arith
IsLost-release lease clock now other none h = absurd h

IsLost-Step :
    (lease : SourceMutationLease) {t u : LeaseTable} → Step t u → IsLost lease t → IsLost lease u
IsLost-Step lease (acquired clock now o i ttl table) h =
    IsLost-acquire lease clock now o i ttl table h
IsLost-Step lease (renewed clock now other ttl table) h =
    IsLost-renew lease clock now other ttl table h
IsLost-Step lease (released clock now other table) h = IsLost-release lease clock now other table h

IsLost-Reach :
    (lease : SourceMutationLease) {t u : LeaseTable} → IsLost lease t → Reach t u → IsLost lease u
IsLost-Reach lease h here = h
IsLost-Reach lease h (next r st) = IsLost-Step lease st (IsLost-Reach lease h r)

check-IsLost :
    (lease : SourceMutationLease) (clock : ℕ) (now : Option DateTime) (table : LeaseTable)
    → IsLost lease table
    → (check clock now lease table).0 ≢ ok tt
unfolding check
check-IsLost lease clock now (some r) h p = ground arith
check-IsLost lease clock now none h p = absurd h

IsLost-released :
    (lease : SourceMutationLease) (clock : ℕ) (now : Option DateTime) (table : LeaseTable)
    → (release clock now lease table).0 ≡ ok tt
    → IsLost lease (release clock now lease table).1
unfolding release
IsLost-released lease clock now none h = ground arith
IsLost-released lease clock now (some r) h = ground arith

lease_of_one :
    (current : SourceMutationLease) (o o' : String) (i i' : ℕ)
    → lease_of current o i ≡ true
    → (o' ≢ o) ⊎ (i' ≢ i)
    → lease_of current o' i' ≡ false
unfolding lease_of
lease_of_one current o o' i i' h other =
    ground (arith, str_eq_iff current.owner_type o, str_eq_iff current.owner_type o')

IsLost-overtaken :
    (lease taken : SourceMutationLease) (clock : ℕ) (now : Option DateTime) (owner_type : String)
    (owner_id ttl : ℕ) (r : LeaseRow)
    → lease.version ≤ r.version
    → (lease.owner_type ≢ owner_type) ⊎ (lease.owner_id ≢ owner_id)
    → (acquire clock now owner_type owner_id ttl (some r)).0 ≡ ok taken
    → IsLost lease (acquire clock now owner_type owner_id ttl (some r)).1
unfolding acquire
IsLost-overtaken lease taken clock now owner_type owner_id ttl r old other done =
    ground
      (arith, lease_of_one (lease_from_row r) owner_type lease.owner_type owner_id lease.owner_id)

-- A released lease never passes the fence again, whatever is done to the table afterwards.
pub released_stays_fenced :
    (lease : SourceMutationLease) (clock clock' : ℕ) (now now' : Option DateTime)
    (table : LeaseTable) {later : LeaseTable}
    → (release clock now lease table).0 ≡ ok tt
    → Reach (release clock now lease table).1 later
    → (check clock' now' lease later).0 ≢ ok tt
released_stays_fenced lease clock clock' now now' table done run =
    check-IsLost lease clock' now' _
      (IsLost-Reach lease (IsLost-released lease clock now table done) run)

-- Once another owner has the lease, the former holder never passes the fence again.
pub overtaken_stays_fenced :
    (lease taken : SourceMutationLease) (clock clock' : ℕ) (now now' : Option DateTime)
    (owner_type : String) (owner_id ttl : ℕ) (r : LeaseRow) {later : LeaseTable}
    → lease.version ≤ r.version
    → (lease.owner_type ≢ owner_type) ⊎ (lease.owner_id ≢ owner_id)
    → (acquire clock now owner_type owner_id ttl (some r)).0 ≡ ok taken
    → Reach (acquire clock now owner_type owner_id ttl (some r)).1 later
    → (check clock' now' lease later).0 ≢ ok tt
overtaken_stays_fenced lease taken clock clock' now now' owner_type owner_id ttl r old other done
      run =
    check-IsLost lease clock' now' _ (
      IsLost-Reach lease
        (IsLost-overtaken lease taken clock now owner_type owner_id ttl r old other done) run)
