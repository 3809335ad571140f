-- ===== src/Control/Watermarks/Rewind.antt =====
-- The conditions and the effect of `rewind_watermark` of src/ingestion/control/metadata.py.
use commerce_data_platform.Prelude.{ℕ, String, true, ◌≡◌, inl, inr, Option, arith}
use commerce_data_platform.Exceptions.{Exception, ok, err, Result-cases}
use commerce_data_platform.Clock.{DateTime, utc_now}
use commerce_data_platform.Cursor.{CursorPosition, cursor_is_earlier}
use commerce_data_platform.Records.{Watermark, Metadata}
use commerce_data_platform.Sql.{rowcount, update_where}
use commerce_data_platform.Control.Watermarks.{
  fetch_or_create, rewindable, rewound_to, rewind_watermark,
}

-- A rewind that raises leaves the metadata as they were.
pub rewind_atomic :
    (clock : ℕ) (now : Option DateTime) (p t : String) (owner version : ℕ) (cursor : CursorPosition)
    (db : Metadata) (e : Exception)
    → (rewind_watermark clock now p t owner version cursor db).0 ≡ err e
    → (rewind_watermark clock now p t owner version cursor db).1 ≡ db
unfolding rewind_watermark
rewind_atomic clock now p t owner version cursor db e h = ground arith

-- What a rewind at time `n` found and did: the watermark had the expected version, its cursor was
-- later than the new one, and the caller's lease was on one row, which got the cursor.
pub record Rewound (p t : String) (owner version : ℕ) (cursor : CursorPosition) (n : ℕ)
    (db db' : Metadata) : Type 0 where
  pub current : Watermark
  pub found : (fetch_or_create p t n db).0 ≡ ok current
  pub expected : current.version ≡ version
  pub earlier : cursor_is_earlier cursor current.cursor ≡ true
  pub one_row :
      rowcount (rewindable p t version owner n) (fetch_or_create p t n db).1.watermarks ≡ 1
  pub result :
      db'.watermarks
      ≡ update_where
          (rewindable p t version owner n)
          (rewound_to cursor n)
          (fetch_or_create p t n db).1.watermarks

-- A rewind goes through only to an earlier cursor, under the lease, and from the expected version.
pub rewind-Rewound :
    (clock n : ℕ) (now : Option DateTime) (p t : String) (owner version : ℕ)
    (cursor : CursorPosition) (db : Metadata) (w : Watermark)
    → utc_now clock now ≡ ok n
    → (rewind_watermark clock now p t owner version cursor db).0 ≡ ok w
    → Rewound p t owner version cursor n db
        (rewind_watermark clock now p t owner version cursor db).1
unfolding rewind_watermark
rewind-Rewound clock n now p t owner version cursor db w time h =
    elim (Result-cases (fetch_or_create p t n db).0) [
      | inl (current, found) ↦ record {
        current = current;
        found = found;
        expected = ground arith;
        earlier = ground arith;
        one_row = ground arith;
        result = ground arith;
      }
      | inr (e, found) ↦ absurd (ground arith)
    ]
