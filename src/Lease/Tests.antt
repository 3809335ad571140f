-- ===== src/Lease/Tests.antt =====
-- Runs of the global lease, and its theorems at concrete tables.
use mathlib.Core.Bool.{false≢true}
use commerce_data_platform.Prelude.{
  ℕ, ◌<◌, String, ◌≡◌, ◌≢◌, refl, inr, none, some, arith, str_eq_iff,
}
use commerce_data_platform.Exceptions.{ok, err, lease_unavailable, value_error}
use commerce_data_platform.Clock.{utc, naive, utc_now}
use commerce_data_platform.Lease.{
  SourceMutationLease, LeaseRow, LeaseTable, acquire, renew, check, release, lease_of, is_active,
}
use commerce_data_platform.Lease.Exclusion.{Holds, granted_row, acquire_excludes, acquire_grants}
use commerce_data_platform.Lease.Fencing.{
  here, next, acquired, released_stays_fenced, overtaken_stays_fenced,
}

abbrev warehouse_row : LeaseRow
warehouse_row = record {
  owner_type = some "WAREHOUSE";
  owner_id = some 7;
  lease_expires_at = some 1800;
  version = 3;
  updated_at = 0;
}

abbrev warehouse_lease : SourceMutationLease
warehouse_lease = record {
  owner_type = "WAREHOUSE";
  owner_id = 7;
  lease_expires_at = 1800;
  version = 3;
}

program : Unit {0}
unfolding acquire renew check release lease_of is_active utc_now
program = tt

acquire-empty :
    (acquire 5 none "WAREHOUSE" 7 1800 none).0
    ≡ ok (record warehouse_lease { lease_expires_at = 1805; version = 1 })
unfolding program
acquire-empty = refl

acquire_bad_owner : (acquire 5 none "ANALYST" 7 1800 none).0 ≡ err value_error
unfolding program
acquire_bad_owner = refl

acquire_naive : (acquire 5 (some (naive 5)) "WAREHOUSE" 7 1800 none).0 ≡ err value_error
unfolding program
acquire_naive = refl

warehouse_row-Holds : Holds warehouse_row warehouse_lease 100
warehouse_row-Holds = record {
  owner_type = refl;
  owner_id = refl;
  expiry = (1800, refl, omega arith);
  version = refl;
}

acquire_excludes_example :
    acquire 100 none "GENERATOR" 9 1800 (some warehouse_row)
    ≡ (err lease_unavailable, some warehouse_row)
unfolding utc_now
acquire_excludes_example =
    acquire_excludes 100 100 none refl warehouse_row warehouse_lease "GENERATOR" 9 1800
      (λ p. no_text p) warehouse_row-Holds refl (omega arith) (inr (omega arith))
  where
    no_text : ◌≢◌ {A = String} "WAREHOUSE" ""
    no_text p = false≢true ((str_eq_iff "WAREHOUSE" "").1 p)

acquire_grants_example :
    let table = some (granted_row warehouse_row "GENERATOR" 9 2000 60) in
    (lease : SourceMutationLease) × (acquire 2000 none "GENERATOR" 9 60 (some warehouse_row)
      ≡ (ok lease, table))
    × (lease.version ≡ 4)
    × ((clock' t' : ℕ) → t' < 2060 → check clock' (some (utc t')) lease table ≡ (ok tt, table))
unfolding utc_now
acquire_grants_example =
    acquire_grants 2000 2000 none warehouse_row "GENERATOR" 9 60 refl refl (omega arith)
      (inr (1800, refl, omega arith))

abbrev freed : LeaseTable
freed = (release 50 none warehouse_lease (some warehouse_row)).1

released_stays_fenced_example :
    (check 70 none warehouse_lease (acquire 60 none "WAREHOUSE" 7 1800 freed).1).0 ≢ ok tt
unfolding program
released_stays_fenced_example =
    released_stays_fenced warehouse_lease 50 70 none none (some warehouse_row) refl
      (next here (acquired 60 none "WAREHOUSE" 7 1800 freed))

overtaken_stays_fenced_example :
    (check 2010 none warehouse_lease (acquire 2000 none "GENERATOR" 9 60 (some warehouse_row)).1).0
    ≢ ok tt
unfolding program
overtaken_stays_fenced_example =
    overtaken_stays_fenced warehouse_lease
      (record { owner_type = "GENERATOR"; owner_id = 9; lease_expires_at = 2060; version = 4 }) 2000
      2010 none none "GENERATOR" 9 60 warehouse_row (omega arith) (inr (omega arith)) refl here
