-- ===== src/Control/History/Rewinds.antt =====
-- The effect of `rewind_watermark` of src/ingestion/control/metadata.py, in the histories.
use mathlib.Core.Option
use commerce_data_platform.Prelude.{
  ℕ, ◌+◌, ◌<◌, String, true, ◌≡◌, refl, ◌⊎◌, inl, inr, Option, none, some, arith, Option-cases,
  List, [], ◌∷◌, ◌++◌, ◌≤◌, ap, sym, ◌∙◌,
}
use commerce_data_platform.Exceptions.{ok, Result-cases}
use commerce_data_platform.Clock.{DateTime, utc, assert_utc, utc_now}
use commerce_data_platform.Order.{lex}
use commerce_data_platform.Cursor.{
  CursorPosition, Keys, key_order, cursor_is_earlier, cursor_position, lt_position,
}
use commerce_data_platform.Records.{Watermark, WatermarkRow, Metadata, empty_metadata}
use commerce_data_platform.Sql.{fetchone, rowcount, update_where, insert_or_ignore}
use commerce_data_platform.Sql.Laws.{
  fetchone-update_where, rowcount-fetchone, rowcount-append, rowcount-fetchone-none, rowcount_mono,
}
use commerce_data_platform.Control.Tables.{is_watermark}
use commerce_data_platform.Control.Watermarks.{
  new_watermark, watermark_from_row, fetch_or_create, leased, rewindable, rewound_to,
  rewind_watermark,
}
use commerce_data_platform.Control.Watermarks.Rewind.{rewind-Rewound}
use commerce_data_platform.Control.History.{Reach}
use commerce_data_platform.Control.History.WatermarkKey.{one_watermark}

-- The start, or a time before, or the same time and keys that come before.
abbrev pub IsEarlier : CursorPosition → Option ℕ → Keys → Type 0
IsEarlier cursor none keys = ⊥
IsEarlier cursor (some t) keys =
    (cursor.timestamp ≡ none)
    ⊎ ((u : ℕ) × (cursor.timestamp ≡ some u)
        × ((u < t) ⊎ ((u ≡ t) × (lex key_order cursor.keys keys ≡ true))))

-- What a rewind at time `n` did to the watermark of its table.
pub record HasRewound (p t : String) (owner version n : ℕ) (cursor : CursorPosition)
    (db db' : Metadata) : Type 0 where
  pub row : WatermarkRow
  pub found : fetchone (is_watermark p t) db.watermarks ≡ some row
  pub expected : row.version ≡ version
  pub owned : row.lease_owner ≡ some owner
  pub expiry : (e : ℕ) × (row.lease_expires_at ≡ some e) × (n < e)
  pub earlier : IsEarlier cursor row.watermark_timestamp row.watermark_keys
  pub result :
      fetchone (is_watermark p t) db'.watermarks
      ≡ some (record row {
        watermark_timestamp = cursor.timestamp;
        watermark_keys = cursor.keys;
        version = row.version + 1;
        updated_at = n;
      })

earlier-IsEarlier :
    (cursor : CursorPosition) (at : Option ℕ) (keys : Keys)
    → cursor_is_earlier cursor (record { timestamp = at; keys = keys }) ≡ true
    → IsEarlier cursor at keys
unfolding cursor_is_earlier lt_position
earlier-IsEarlier cursor none keys h = absurd (ground arith)
earlier-IsEarlier cursor (some t) keys h = elim (Option-cases cursor.timestamp) [
  | inl start ↦ inl start
  | inr (u, at) ↦ inr (u, at, ground (arith, at))
]

rewindable_key :
    (p t : String) (version owner n : ℕ) (r : WatermarkRow)
    → rewindable p t version owner n r ≡ true
    → is_watermark p t r ≡ true
unfolding rewindable
rewindable_key p t version owner n r h = ground arith

leased-facts :
    (owner n : ℕ) (r : WatermarkRow)
    → leased owner n r ≡ true
    → (r.lease_owner ≡ some owner) × ((e : ℕ) × (r.lease_expires_at ≡ some e) × (n < e))
unfolding leased
leased-facts owner n r h = elim (Option-cases r.lease_owner) [
  | inl e ↦ absurd (ground (arith, e))
  | inr (o, held) ↦ elim (Option-cases r.lease_expires_at) [
    | inl e ↦ absurd (ground (arith, held, e))
    | inr (x, until) ↦ (ground (arith, held, until), (x, until, ground (arith, held, until)))
  ]
]

cursor_position-reads :
    (at : Option ℕ) (keys : Keys) (cursor : CursorPosition)
    → cursor_position (Option.map utc at) keys ≡ ok cursor
    → cursor ≡ record { timestamp = at; keys = keys }
unfolding cursor_position assert_utc
cursor_position-reads none [] cursor h = ground arith
cursor_position-reads none (k ∷ ks) cursor h = absurd (ground arith)
cursor_position-reads (some t) [] cursor h = absurd (ground arith)
cursor_position-reads (some t) (k ∷ ks) cursor h = ground arith

watermark_from_row-reads :
    (p t : String) (row : WatermarkRow) (current : Watermark)
    → watermark_from_row p t (some row) ≡ ok current
    → (current.version ≡ row.version)
      × (current.cursor ≡ record { timestamp = row.watermark_timestamp; keys = row.watermark_keys })
watermark_from_row-reads p t row current h =
    elim (Result-cases
      (cursor_position (Option.map utc row.watermark_timestamp) row.watermark_keys)) [
        | inl (cursor, e) ↦
            let same = cursor_position-reads row.watermark_timestamp row.watermark_keys cursor e in
            (ground (arith, e), ground (arith, e, same))
        | inr (x, e) ↦ absurd (ground (arith, e))
      ]

module _ (p t : String) (n : ℕ) (db : Metadata) where
  abbrev opened : Metadata
  opened = (fetch_or_create p t n db).1

  opened-row :
      (row : WatermarkRow)
      → fetchone (is_watermark p t) db.watermarks ≡ some row
      → opened.watermarks ≡ db.watermarks
  unfolding fetch_or_create insert_or_ignore
  opened-row row found = ground arith

  -- The watermark that is read is the row.
  opened-reads :
      (row : WatermarkRow) (current : Watermark)
      → fetchone (is_watermark p t) opened.watermarks ≡ some row
      → (fetch_or_create p t n db).0 ≡ ok current
      → (current.version ≡ row.version)
        × (current.cursor
            ≡ record { timestamp = row.watermark_timestamp; keys = row.watermark_keys })
  unfolding fetch_or_create
  opened-reads row current found h = watermark_from_row-reads p t row current (rw found at h)

  opened-fetches :
      (current : Watermark)
      → (fetch_or_create p t n db).0 ≡ ok current
      → (row : WatermarkRow) × (fetchone (is_watermark p t) opened.watermarks ≡ some row)
  unfolding fetch_or_create
  opened-fetches current h = ground arith

  opened-new :
      fetchone (is_watermark p t) db.watermarks ≡ none
      → opened.watermarks ≡ db.watermarks ++ new_watermark p t n ∷ []
  unfolding fetch_or_create insert_or_ignore
  opened-new missing = ground arith

  new_watermark-unleased :
      (owner version : ℕ) → rowcount (rewindable p t version owner n) (new_watermark p t n ∷ []) ≡ 0
  unfolding rowcount rewindable leased
  new_watermark-unleased owner version = ground arith

  -- A table without a watermark gets one that nobody has leased.
  opened-leased :
      (owner version : ℕ)
      → rowcount (rewindable p t version owner n) opened.watermarks ≡ 1
      → (row : WatermarkRow) × (fetchone (is_watermark p t) db.watermarks ≡ some row)
  opened-leased owner version h = elim (Option-cases (fetchone (is_watermark p t) db.watermarks)) [
    | inr found ↦ found
    | inl missing ↦ absurd (
        let h' = rw (opened-new missing) at h in
        omega (
          arith,
          h',
          rowcount-append (rewindable p t version owner n) db.watermarks (new_watermark p t n ∷ []),
          new_watermark-unleased owner version,
          rowcount-fetchone-none (is_watermark p t) db.watermarks missing,
          rowcount_mono (rewindable p t version owner n) (is_watermark p t) db.watermarks
              (rewindable_key p t version owner n),
        ))
  ]

rewindable_row :
    (p t : String) (owner version n : ℕ) (rows : List WatermarkRow) (row : WatermarkRow)
    → rowcount (is_watermark p t) rows ≤ 1
    → rowcount (rewindable p t version owner n) rows ≡ 1
    → fetchone (is_watermark p t) rows ≡ some row
    → rewindable p t version owner n row ≡ true
rewindable_row p t owner version n rows row one h found = ground (
  arith,
  rowcount-fetchone (rewindable p t version owner n) (is_watermark p t) rows row
      (rewindable_key p t version owner n) one found,
)

rewindable-leased :
    (p t : String) (owner version n : ℕ) (r : WatermarkRow)
    → rewindable p t version owner n r ≡ true
    → leased owner n r ≡ true
unfolding rewindable
rewindable-leased p t owner version n r h = ground arith

rewound_row :
    (p t : String) (owner version n : ℕ) (cursor : CursorPosition) (rows : List WatermarkRow)
    (row : WatermarkRow)
    → fetchone (is_watermark p t) rows ≡ some row
    → rewindable p t version owner n row ≡ true
    → fetchone
        (is_watermark p t)
        (update_where (rewindable p t version owner n) (rewound_to cursor n) rows)
      ≡ some (rewound_to cursor n row)
unfolding is_watermark
rewound_row p t owner version n cursor rows row found fits = ground (
  arith,
  fetchone-update_where (is_watermark p t) (rewindable p t version owner n) (rewound_to cursor n)
      rows (λ r _. refl),
)

rewound_result :
    (clock : ℕ) (now : Option DateTime) (p t : String) (owner version : ℕ) (cursor : CursorPosition)
    (db : Metadata) (w : Watermark)
    → (rewind_watermark clock now p t owner version cursor db).0 ≡ ok w
    → w ≡ record { pipeline_name = p; source_table = t; cursor = cursor; version = version + 1 }
unfolding rewind_watermark
rewound_result clock now p t owner version cursor db w h = ground arith

-- In every history that starts from an empty database, a rewind that goes through found the table's
-- watermark at the expected version, at a later cursor, and leased to the caller past the time of
-- the rewind; it left there the new cursor and the next version, and returned them.
pub rewind_moves :
    (clock n : ℕ) (now : Option DateTime) (p t : String) (owner version : ℕ)
    (cursor : CursorPosition) (w : Watermark) {db : Metadata}
    → utc_now clock now ≡ ok n
    → Reach empty_metadata db
    → (rewind_watermark clock now p t owner version cursor db).0 ≡ ok w
    → HasRewound p t owner version n cursor db
        (rewind_watermark clock now p t owner version cursor db).1
      × (w ≡ record { pipeline_name = p; source_table = t; cursor = cursor; version = version + 1 })
rewind_moves clock n now p t owner version cursor w {db} time start done =
    let one = one_watermark p t start in
    let was = rewind-Rewound clock n now p t owner version cursor db w time done in
    let (row, found) = opened-leased p t n db owner version was.one_row in
    let same = opened-row p t n db row found in
    let seen = ap (fetchone (is_watermark p t)) same ∙ found in
    let (at_version, at_cursor) = opened-reads p t n db row was.current seen was.found in
    let fits =
      rewindable_row p t owner version n db.watermarks row one (rw same at was.one_row) found in
    let (owned, expiry) =
      leased-facts owner n row (rewindable-leased p t owner version n row fits) in
    (
      record {
        row = row;
        found = found;
        expected = sym at_version ∙ was.expected;
        owned = owned;
        expiry = expiry;
        earlier =
            earlier-IsEarlier cursor row.watermark_timestamp row.watermark_keys
              (ap (cursor_is_earlier cursor) (sym at_cursor) ∙ was.earlier);
        result =
            ap (fetchone (is_watermark p t)) (
              was.result
              ∙ ap (update_where (rewindable p t version owner n) (rewound_to cursor n)) same)
            ∙ rewound_row p t owner version n cursor db.watermarks row found fits;
      },
      rewound_result clock now p t owner version cursor db w done,
    )
