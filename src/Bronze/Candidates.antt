-- ===== src/Bronze/Candidates.antt =====
-- src/ingestion/bronze/orphan.py: the search for objects that the metadata do not know.
use Prim.Native.Char.{code}
use Prim.Native.String.{◌++◌ as ◌+++◌}
use commerce_data_platform.Prelude.{
  ℕ, String, List, [], ◌∷◌, ◌++◌, map, Bool, true, false, not, ◌&&◌, ◌||◌, Option, none, some,
  Bool-cases, ◌==◌, ◌≡◌, ◌≢◌, inl, inr, refl, sym, ap, subst, if◌then◌else◌, str_eq, str_eq_iff,
  str_mem, All, arith,
}
use commerce_data_platform.Clock.{DateTime}
use commerce_data_platform.Sql.{select}
use commerce_data_platform.Records.{Metadata, BronzeRow, is_committed_status}
use commerce_data_platform.Bronze.Orphan.{OrphanCandidate, Evidence, adopted, reconcile_orphan}
use commerce_data_platform.Bronze.Reconciled.{reconcile_outcome}

-- `text.endswith(suffix)`
unfoldable pub ends_with : String → String → Bool
ends_with suffix String.[] = str_eq String.[] suffix
ends_with suffix (String.◌∷◌ c s) = str_eq (String.◌∷◌ c s) suffix || ends_with suffix s

-- What stands before the last slash.
unfoldable pub before_slash : String → Option String
before_slash String.[] = none
before_slash (String.◌∷◌ c s) = elim (before_slash s) [
  | some rest ↦ some (String.◌∷◌ c rest)
  | none ↦ if code c == 47 then some String.[] else none
]

-- `key.rsplit('/', 1)[0]`
unfoldable pub directory : String → String
directory key = elim (before_slash key) [ some rest ↦ rest | none ↦ key ]

unfoldable pub committed_keys : Metadata → List String
committed_keys db =
    map (λ r. r.object_key) (select (λ r. is_committed_status r.status) db.bronze_objects)

unfoldable pub is_orphan : List String → String → Bool
is_orphan committed key = ends_with "/data.parquet" key && not (str_mem key committed)

unfoldable pub candidate_at : List String → String → OrphanCandidate
candidate_at keys key = record {
  object_key = key;
  manifest_key =
      let manifest = directory key +++ "/manifest.json" in
      if str_mem manifest keys then some manifest else none;
}

-- `find_orphan_candidates`, over the sorted keys of the storage, each of them once.
unfoldable pub find_orphan_candidates : List String → Metadata → List OrphanCandidate
find_orphan_candidates keys db =
    map (candidate_at keys) (select (is_orphan (committed_keys db)) keys)

-- The keys of the committed rows contain a committed row that stands last.
last_is_committed :
    (rows : List BronzeRow) (r : BronzeRow)
    → is_committed_status r.status ≡ true
    → str_mem r.object_key
        (map (λ r. r.object_key) (select (λ r. is_committed_status r.status) (rows ++ r ∷ [])))
      ≡ true
unfolding str_mem select
last_is_committed [] r h = ground (arith, str_eq_iff r.object_key r.object_key)
last_is_committed (x ∷ xs) r h = let rest = last_is_committed xs r h in ground arith

-- A key for which the search stops is not a committed one.
is_orphan-differs :
    (committed : List String) (x key : String)
    → str_mem key committed ≡ true
    → is_orphan committed x ≡ true
    → x ≢ key
unfolding is_orphan
is_orphan-differs committed x key h found same =
    absurd (let known = ap (λ k. str_mem k committed) same in ground (arith, known))

found_differ :
    (keys committed more : List String) (key : String)
    → str_mem key committed ≡ true
    → All (λ c. c.object_key ≢ key) (map (candidate_at keys) (select (is_orphan committed) more))
unfolding select candidate_at
found_differ keys committed [] key h = tt
found_differ keys committed (x ∷ xs) key h =
    let rest = found_differ keys committed xs key h in
    elim (Bool-cases (is_orphan committed x)) [
      | inl found ↦ rw found (is_orphan-differs committed x key h found, rest)
      | inr passed ↦ rw passed rest
    ]

every_orphan_found :
    (keys committed more : List String) (key : String)
    → str_mem key more ≡ true
    → is_orphan committed key ≡ true
    → str_mem key
        (map (λ c. c.object_key) (map (candidate_at keys) (select (is_orphan committed) more)))
      ≡ true
unfolding select candidate_at str_mem
every_orphan_found keys committed [] key h orphan = absurd (ground arith)
every_orphan_found keys committed (x ∷ xs) key h orphan = elim (Bool-cases (str_eq key x)) [
  | inl here ↦
      let same = (str_eq_iff key x).0 here in
      let found = subst (λ k. is_orphan committed k ≡ true) same orphan in
      rw found (ground (arith, here))
  | inr there ↦
      let rest = every_orphan_found keys committed xs key (ground (arith, there)) orphan in
      ground (arith, rest)
]

-- The search that follows a reconciliation that changed the metadata does not find the object of
-- the reconciliation again, and it finds every key of the storage that ends in /data.parquet and
-- that no committed row has.
pub reconciled_is_found_no_more :
    (evidence : Evidence) (clock : ℕ) (now : Option DateTime) (candidate : OrphanCandidate)
    (db : Metadata) (keys : List String)
    → (reconcile_orphan evidence clock now candidate db).1 ≢ db
    → All
        (λ c. c.object_key ≢ candidate.object_key)
        (find_orphan_candidates keys (reconcile_orphan evidence clock now candidate db).1)
      × ((key : String)
          → str_mem key keys ≡ true
          → ends_with "/data.parquet" key ≡ true
          → str_mem key (committed_keys (reconcile_orphan evidence clock now candidate db).1)
            ≡ false
          → str_mem key (
              map
                (λ c. c.object_key)
                (find_orphan_candidates keys (reconcile_orphan evidence clock now candidate db).1))
            ≡ true)
unfolding find_orphan_candidates committed_keys is_committed_status is_orphan
reconciled_is_found_no_more evidence clock now candidate db keys changed = (
  elim (reconcile_outcome evidence clock now candidate db) [
    | inl same ↦ absurd (changed same)
    | inr (m, key, time, run, watermark, read, looked, has_key, at, can, done, effect) ↦
        subst
          (λ end.
            All (λ c. c.object_key ≢ candidate.object_key) (find_orphan_candidates keys (end.1)))
          (sym done)
          (found_differ keys _ keys candidate.object_key
            (last_is_committed db.bronze_objects (adopted m candidate key time) refl))
  ],
  λ key listed is_data unknown.
      every_orphan_found keys _ keys key listed (ground (arith, is_data, unknown)),
)
