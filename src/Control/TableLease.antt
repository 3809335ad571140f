-- ===== src/Control/TableLease.antt =====
-- src/ingestion/control/lease.py: the lease on one table's watermark.
use mathlib.Core.Option
use commerce_data_platform.Prelude.{
  ℕ, ◌+◌, String, Bool, true, false, not, ◌&&◌, ◌||◌, Option, none, some, leb, ◌==◌, if◌then◌else◌,
}
use commerce_data_platform.Exceptions.{
  Exception, Result, ok, err, table_lease_unavailable, table_lease_ownership_lost, type_error,
}
use commerce_data_platform.Action.{Action, pure, lift, gets, or_raise, transaction, ◌>>=◌, ◌>>◌}
use commerce_data_platform.Clock.{DateTime, utc, utc_now}
use commerce_data_platform.Lease.{assert_positive_ttl}
use commerce_data_platform.Records.{WatermarkRow, Metadata}
use commerce_data_platform.Sql.{fetchone}
use commerce_data_platform.Control.Tables.{is_watermark, update_watermarks}
use commerce_data_platform.Control.Watermarks.{get_or_create_watermark, leased}

pub record TableLease : Type 0 where
  pub pipeline_name : String
  pub source_table : String
  pub owner_id : ℕ
  pub lease_expires_at : ℕ
  pub watermark_version : ℕ

-- `lease_owner IS NULL OR lease_expires_at <= now OR lease_owner = owner`
unfoldable pub lease_free : ℕ → ℕ → WatermarkRow → Bool
lease_free owner now r = elim r.lease_owner [
  | none ↦ true
  | some o ↦ elim r.lease_expires_at [ none ↦ false | some e ↦ leb e now ] || o == owner
]

-- `WHERE` of the acquisition.
unfoldable pub acquirable : String → String → ℕ → ℕ → WatermarkRow → Bool
acquirable pipeline table owner now r = is_watermark pipeline table r && lease_free owner now r

abbrev pub leased_by : ℕ → ℕ → WatermarkRow → WatermarkRow
leased_by owner expiry r = record r { lease_owner = some owner; lease_expires_at = some expiry }

abbrev pub extended_to : ℕ → WatermarkRow → WatermarkRow
extended_to expiry r = record r { lease_expires_at = some expiry }

abbrev pub unleased : WatermarkRow → WatermarkRow
unleased r = record r { lease_owner = none; lease_expires_at = none }

-- `UPDATE … WHERE p RETURNING version` and `fetchone()`: no update here changes a version.
abbrev update_returning :
    (WatermarkRow → Bool) → (WatermarkRow → WatermarkRow) → Exception → Action Metadata ℕ
update_returning p f missing = do
  row ← gets (λ db. fetchone p db.watermarks)
  update_watermarks p f
  or_raise (Option.map (λ (r : WatermarkRow). r.version) row) missing

unfoldable pub acquire_table_lease :
    ℕ → Option DateTime → String → String → ℕ → ℕ → Action Metadata TableLease
acquire_table_lease clock now pipeline table owner ttl = do
  current_time ← lift (utc_now clock now)
  lift (assert_positive_ttl ttl)
  get_or_create_watermark clock (some (utc current_time)) pipeline table
  version ← transaction (
      update_returning (acquirable pipeline table owner current_time)
        (leased_by owner (current_time + ttl)) table_lease_unavailable)
  pure (record {
    pipeline_name = pipeline;
    source_table = table;
    owner_id = owner;
    lease_expires_at = current_time + ttl;
    watermark_version = version;
  })

-- `WHERE` of the renewal: the key, the owner, a lease that has not ended, and the version.
unfoldable pub renewable : TableLease → ℕ → WatermarkRow → Bool
renewable lease now r =
    is_watermark lease.pipeline_name lease.source_table r
    && leased lease.owner_id now r
    && r.version == lease.watermark_version

unfoldable pub renew_table_lease : ℕ → Option DateTime → TableLease → ℕ → Action Metadata TableLease
renew_table_lease clock now lease ttl = do
  current_time ← lift (utc_now clock now)
  lift (assert_positive_ttl ttl)
  version ← transaction (
      update_returning (renewable lease current_time) (extended_to (current_time + ttl))
        table_lease_ownership_lost)
  pure (record lease { lease_expires_at = current_time + ttl; watermark_version = version })

-- An owner that fits beside a null expiry would fail to compare; the table's check rules it out.
abbrev lease_columns : TableLease → ℕ → ℕ → Option ℕ → Option ℕ → Result (Unit {0})
lease_columns lease now version none e = err table_lease_ownership_lost
lease_columns lease now version (some o) none =
    if o == lease.owner_id then err type_error else err table_lease_ownership_lost
lease_columns lease now version (some o) (some e) =
    if not (o == lease.owner_id) || leb e now || not (version == lease.watermark_version)
    then err table_lease_ownership_lost
    else ok tt

abbrev lease_current : TableLease → ℕ → Option WatermarkRow → Result (Unit {0})
lease_current lease now none = err table_lease_ownership_lost
lease_current lease now (some r) =
    lease_columns lease now r.version r.lease_owner r.lease_expires_at

unfoldable pub assert_table_lease : ℕ → Option DateTime → TableLease → Action Metadata (Unit {0})
assert_table_lease clock now lease = do
  current_time ← lift (utc_now clock now)
  row ← gets (λ db. fetchone (is_watermark lease.pipeline_name lease.source_table) db.watermarks)
  lift (lease_current lease current_time row)

-- `lease_owner = owner`
unfoldable pub owned : ℕ → WatermarkRow → Bool
owned owner r = elim r.lease_owner [ none ↦ false | some o ↦ o == owner ]

-- `WHERE` of the release.
unfoldable pub releasable : TableLease → WatermarkRow → Bool
releasable lease r = is_watermark lease.pipeline_name lease.source_table r && owned lease.owner_id r

unfoldable pub release_table_lease : ℕ → Option DateTime → TableLease → Action Metadata (Unit {0})
release_table_lease clock now lease = do
  current_time ← lift (utc_now clock now)
  transaction do update_returning (releasable lease) unleased table_lease_ownership_lost; pure tt
