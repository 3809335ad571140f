-- ===== src/Lease/Exclusion.antt =====
-- Who holds the lease of src/common/lease.py, and what an acquisition makes of it.
use commerce_data_platform.Prelude.{
  ℕ, ◌+◌, ◌≤◌, ◌<◌, String, ◌≡◌, ◌≢◌, ◌⊎◌, refl, ap, Option, none, some, false, arith, str_eq,
  str_eq_iff, subst, Bool-cases, Option-cases, inl, inr,
}
use commerce_data_platform.Exceptions.{Result, ok, err, lease_unavailable}
use commerce_data_platform.Clock.{DateTime, utc, utc_now}
use commerce_data_platform.Lease.{
  SourceMutationLease, LeaseRow, LeaseTable, acquire, check, assert_current_lease,
  assert_owner_type, is_active, lease_of, lease_from_row,
}

-- The row names this owner and version, and its time is not over.
pub record Holds (r : LeaseRow) (lease : SourceMutationLease) (now : ℕ) : Type 0 where
  pub owner_type : r.owner_type ≡ some lease.owner_type
  pub owner_id : r.owner_id ≡ some lease.owner_id
  pub expiry : (e : ℕ) × (r.lease_expires_at ≡ some e) × (now < e)
  pub version : r.version ≡ lease.version

-- The fence passes exactly for the lease that holds.
assert_current-Holds :
    (r : LeaseRow) (lease : SourceMutationLease) (t : ℕ)
    → lease.owner_type ≢ ""
    → assert_current_lease (lease_from_row r) lease t ≡ ok tt
    → Holds r lease t
unfolding assert_current_lease lease_from_row
assert_current-Holds r lease t named h = elim (Option-cases r.owner_type) [
  | inl e ↦ absurd (ground (arith, str_eq_iff "" lease.owner_type))
  | inr (o, e) ↦ record {
    owner_type = ground (arith, str_eq_iff o lease.owner_type, str_eq_iff "" lease.owner_type);
    owner_id = ground (arith, str_eq_iff o lease.owner_type, str_eq_iff "" lease.owner_type);
    expiry = ground (arith, str_eq_iff o lease.owner_type, str_eq_iff "" lease.owner_type);
    version = ground (arith, str_eq_iff o lease.owner_type, str_eq_iff "" lease.owner_type);
  }
]

module _ (clock t : ℕ) (now : Option DateTime) (time : utc_now clock now ≡ ok t) where
  pub check-Holds :
      (r : LeaseRow) (lease : SourceMutationLease)
      → lease.owner_type ≢ ""
      → check clock now lease (some r) ≡ (ok tt, some r)
      → Holds r lease t
  unfolding check
  check-Holds r lease named h =
      assert_current-Holds r lease t named
        (ap (λ (p : Result (Unit {0}) × LeaseTable). p.0) (rw (time, check) at h))

  pub Holds-check :
      (r : LeaseRow) (lease : SourceMutationLease)
      → lease.owner_type ≢ ""
      → Holds r lease t
      → check clock now lease (some r) ≡ (ok tt, some r)
  unfolding check
  Holds-check r lease named h =
      rw (time, check)
        (ground
          (arith, str_eq_iff lease.owner_type "", str_eq_iff lease.owner_type lease.owner_type))

  -- While a lease holds, another owner's attempt is refused and changes nothing.
  pub acquire_excludes :
      (r : LeaseRow) (lease : SourceMutationLease) (owner_type : String) (owner_id ttl : ℕ)
      → lease.owner_type ≢ ""
      → Holds r lease t
      → assert_owner_type owner_type ≡ ok tt
      → 0 < ttl
      → (lease.owner_type ≢ owner_type) ⊎ (lease.owner_id ≢ owner_id)
      → acquire clock now owner_type owner_id ttl (some r) ≡ (err lease_unavailable, some r)
  unfolding acquire is_active lease_of
  acquire_excludes r lease owner_type owner_id ttl named h valid positive other =
      rw (time, valid, acquire)
        (ground (arith, str_eq_iff lease.owner_type "", str_eq_iff lease.owner_type owner_type))

  -- An owner that still holds the lease gets the same lease again.
  pub acquire_reenters :
      (r : LeaseRow) (lease : SourceMutationLease) (ttl : ℕ)
      → lease.owner_type ≢ ""
      → Holds r lease t
      → assert_owner_type lease.owner_type ≡ ok tt
      → 0 < ttl
      → acquire clock now lease.owner_type lease.owner_id ttl (some r)
        ≡ (ok (lease_from_row r), some r)
  unfolding acquire is_active lease_of
  acquire_reenters r lease ttl named h valid positive =
      rw (time, valid, acquire)
        (ground
          (arith, str_eq_iff lease.owner_type "", str_eq_iff lease.owner_type lease.owner_type))

-- Nobody holds the row, or its time is over.
abbrev pub IsFree : LeaseRow → ℕ → Type 0
IsFree r now = (r.owner_type ≡ none) ⊎ ((e : ℕ) × (r.lease_expires_at ≡ some e) × (e ≤ now))

is_active-IsFree : (r : LeaseRow) (t : ℕ) → IsFree r t → is_active (lease_from_row r) t ≡ false
unfolding is_active lease_from_row
is_active-IsFree r t (inl h) = rw h
is_active-IsFree r t (inr (e, h, over)) = elim (Option-cases r.owner_type) [
  | inl n ↦ rw n
  | inr (o, p) ↦ elim (Option-cases r.owner_id) [
    | inl n ↦ rw (p, n)
    | inr (i, q) ↦ rw (p, q, h) (ground (arith, str_eq_iff o ""))
  ]
]

owner_named : (o : String) → assert_owner_type o ≡ ok tt → str_eq o "" ≡ false
owner_named o h = elim (Bool-cases (str_eq o "")) [
  | inl e ↦
      let empty : o ≡ "" = (str_eq_iff o "").0 e in
      absurd (cc (subst (λ (x : String). assert_owner_type x ≡ ok tt) empty h))
  | inr e ↦ e
]

abbrev pub granted_row : LeaseRow → String → ℕ → ℕ → ℕ → LeaseRow
granted_row r owner_type owner_id t ttl = record r {
  owner_type = some owner_type;
  owner_id = some owner_id;
  lease_expires_at = some (t + ttl);
  version = r.version + 1;
  updated_at = t;
}

version-lease_from_row : (r : LeaseRow) → (lease_from_row r).version ≡ r.version
unfolding lease_from_row
version-lease_from_row r = ground arith

granted_check :
    (r : LeaseRow) (owner_type : String) (owner_id t ttl clock t' : ℕ)
    → str_eq owner_type "" ≡ false
    → t' < t + ttl
    → let table = some (granted_row r owner_type owner_id t ttl) in
      check clock
        (some (utc t'))
        (record {
          owner_type = owner_type;
          owner_id = owner_id;
          lease_expires_at = t + ttl;
          version = r.version + 1;
        })
        table
      ≡ (ok tt, table)
unfolding check is_active lease_of utc_now
granted_check r owner_type owner_id t ttl clock t' named h =
    ground (arith, str_eq_iff owner_type owner_type)

-- A valid owner gets a free lease, with the next version and the whole time to live; the fence
-- then lets it pass until that time is over.
pub acquire_grants :
    (clock t : ℕ) (now : Option DateTime) (r : LeaseRow) (owner_type : String) (owner_id ttl : ℕ)
    → utc_now clock now ≡ ok t
    → assert_owner_type owner_type ≡ ok tt
    → 0 < ttl
    → IsFree r t
    → let table = some (granted_row r owner_type owner_id t ttl) in
      (lease : SourceMutationLease) × (acquire clock now owner_type owner_id ttl (some r)
        ≡ (ok lease, table))
      × (lease.version ≡ r.version + 1)
      × ((clock' t' : ℕ) → t' < t + ttl → check clock' (some (utc t')) lease table ≡ (ok tt, table))
unfolding acquire
acquire_grants clock t now r owner_type owner_id ttl time valid positive free = (
  record {
    owner_type = owner_type;
    owner_id = owner_id;
    lease_expires_at = t + ttl;
    version = r.version + 1;
  },
  rw (time, valid, acquire) (ground (arith, is_active-IsFree r t free, version-lease_from_row r)),
  refl,
  λ clock' t' h.
      granted_check r owner_type owner_id t ttl clock' t' (owner_named owner_type valid) h,
)
