-- ===== src/Control/Watermarks.antt =====
-- The watermarks of src/ingestion/control/metadata.py: a cursor and a version for each table.
pub mod Rewind
use mathlib.Core.Option
use commerce_data_platform.Prelude.{
  ℕ, ◌+◌, String, Bool, false, not, ◌&&◌, Option, none, some, [], ltb, ◌==◌,
}
use commerce_data_platform.Exceptions.{
  Result, ok, err, watermark_conflict, watermark_rewind, table_lease_ownership_lost, runtime_error,
}
use commerce_data_platform.Action.{
  Action, pure, lift, raise_if, gets, modify, transaction, ◌>>=◌, ◌>>◌,
}
use commerce_data_platform.Clock.{DateTime, utc, utc_now}
use commerce_data_platform.Cursor.{CursorPosition, cursor_position, cursor_is_earlier}
use commerce_data_platform.Records.{Watermark, WatermarkRow, Metadata, assert_nonempty}
use commerce_data_platform.Sql.{fetchone, insert_or_ignore}
use commerce_data_platform.Control.Tables.{is_watermark, update_watermarks}

abbrev pub new_watermark : String → String → ℕ → WatermarkRow
new_watermark pipeline table now = record {
  pipeline_name = pipeline;
  source_table = table;
  watermark_timestamp = none;
  watermark_keys = [];
  lease_owner = none;
  lease_expires_at = none;
  version = 0;
  updated_at = now;
}

abbrev pub watermark_from_row : String → String → Option WatermarkRow → Result Watermark
watermark_from_row pipeline table none = err runtime_error
watermark_from_row pipeline table (some r) =
    elim (cursor_position (Option.map utc r.watermark_timestamp) r.watermark_keys) [
      | ok cursor ↦ ok (record {
        pipeline_name = pipeline;
        source_table = table;
        cursor = cursor;
        version = r.version;
      })
      | err e ↦ err e
    ]

-- `_get_or_create_watermark`, inside a transaction of the caller.
unfoldable pub fetch_or_create : String → String → ℕ → Action Metadata Watermark
unfolding is_watermark
fetch_or_create pipeline table now = do
  modify (λ db. record db {
    watermarks =
        insert_or_ignore (is_watermark pipeline table) (new_watermark pipeline table now)
          db.watermarks;
  })
  row ← gets (λ db. fetchone (is_watermark pipeline table) db.watermarks)
  lift (watermark_from_row pipeline table row)

unfoldable pub get_or_create_watermark :
    ℕ → Option DateTime → String → String → Action Metadata Watermark
get_or_create_watermark clock now pipeline table = do
  lift (assert_nonempty pipeline (some 128))
  lift (assert_nonempty table (some 64))
  current_time ← lift (utc_now clock now)
  transaction (fetch_or_create pipeline table current_time)

-- `lease_owner = owner AND lease_expires_at > now`: a null is not true.
unfoldable pub leased : ℕ → ℕ → WatermarkRow → Bool
leased owner now r = elim r.lease_owner [
  | none ↦ false
  | some o ↦ elim r.lease_expires_at [ none ↦ false | some e ↦ o == owner && ltb now e ]
]

-- `WHERE` of the rewind: the key, the version, and the lease.
unfoldable pub rewindable : String → String → ℕ → ℕ → ℕ → WatermarkRow → Bool
rewindable pipeline table version owner now r =
    is_watermark pipeline table r && r.version == version && leased owner now r

abbrev pub rewound_to : CursorPosition → ℕ → WatermarkRow → WatermarkRow
rewound_to cursor now r = record r {
  watermark_timestamp = cursor.timestamp;
  watermark_keys = cursor.keys;
  version = r.version + 1;
  updated_at = now;
}

unfoldable pub rewind_watermark :
    ℕ → Option DateTime → String → String → ℕ → ℕ → CursorPosition → Action Metadata Watermark
rewind_watermark clock now pipeline table owner expected_version cursor = do
  lift (assert_nonempty pipeline (some 128))
  lift (assert_nonempty table (some 64))
  current_time ← lift (utc_now clock now)
  transaction do
    current ← fetch_or_create pipeline table current_time
    raise_if (not (current.version == expected_version)) watermark_conflict
    raise_if (not (cursor_is_earlier cursor current.cursor)) watermark_rewind
    updated ←
        update_watermarks (rewindable pipeline table expected_version owner current_time)
          (rewound_to cursor current_time)
    raise_if (not (updated == 1)) table_lease_ownership_lost
  pure (record {
    pipeline_name = pipeline;
    source_table = table;
    cursor = cursor;
    version = expected_version + 1;
  })
