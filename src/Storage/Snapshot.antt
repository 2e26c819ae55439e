-- ===== src/Storage/Snapshot.antt =====
-- rstmdb-storage/src/snapshot.rs: the snapshot files, and the index of the latest snapshot of each
-- instance. The directory is a map from snapshot ids to files, and the index file. The JSON of
-- snapshots and of the index, and the checksum in hexadecimal, are parameters. Operations of the
-- operating system succeed.
pub mod Sound
pub mod RoundTrip
use rstmdb.Base.{
  ℕ, String, Bool, true, false, not, Option, none, some, List, [], ◌∷◌, ltb, ◌==◌, string_key,
  if◌then◌else◌, length,
}
use rstmdb.Base.Dict.{Dict, get, insert, remove, contains}
use rstmdb.Base.Result.{Result, ok, err}
use rstmdb.Base.Exec.{Exec, ◌>>=◌, ◌>>◌, pure, raise, lift, gets, modify}
use rstmdb.Core.Instance.{InstanceSnapshot}
use rstmdb.Storage.Error.{StorageError, json, corruption, snapshot_not_found}

pub data SnapshotPolicy : Type 0 where
  never : SnapshotPolicy
  every_n_events every_n_bytes : ℕ → SnapshotPolicy

pub record SnapshotMeta : Type 0 where
  pub snapshot_id : String
  pub instance_id : String
  pub wal_offset : ℕ
  pub created_at : ℕ
  pub size_bytes : ℕ
  pub checksum : String

-- The index is read and written with the bytes put down so far and whether all went well.
pub record SnapshotLibraries (N : Type 0) : Type 0 where
  pub to_vec : InstanceSnapshot N → Option (List ℕ)
  pub from_slice : List ℕ → Option (InstanceSnapshot N)
  pub write_index : Dict String SnapshotMeta → List ℕ × Bool
  pub read_index : List ℕ → Option (Dict String SnapshotMeta)
  pub checksum : List ℕ → String

pub record SnapshotStore : Type 0 where
  pub snapshots : Dict String (List ℕ)
  pub index_file : Option (List ℕ)
  pub index : Dict String SnapshotMeta

abbrev pub Call : Type 0 → Type 0
Call A = Exec SnapshotStore StorageError A

unfoldable pub get_snapshot_meta : SnapshotStore → String → Option SnapshotMeta
get_snapshot_meta s instance_id = get s.index instance_id

-- `index.values()`, cloned: in the order of the map
unfoldable pub values : Dict String SnapshotMeta → List SnapshotMeta
values [] = []
values ((i, m) ∷ index) = m ∷ values index

unfoldable pub list_snapshots : SnapshotStore → List SnapshotMeta
unfolding values
list_snapshots s = values s.index

unfoldable pub snapshot_count : SnapshotStore → ℕ
snapshot_count s = length s.index

-- `Iterator::min` of the offsets
unfoldable pub least_offset : List SnapshotMeta → Option ℕ
least_offset [] = none
least_offset (m ∷ ms) = elim (least_offset ms) [
  | none ↦ some m.wal_offset
  | some n ↦ some (if ltb n m.wal_offset then n else m.wal_offset)
]

unfoldable pub min_wal_offset : SnapshotStore → Option ℕ
unfolding least_offset values
min_wal_offset s = least_offset (values s.index)

unfoldable pub instances_without_snapshots : SnapshotStore → List String → List String
instances_without_snapshots s [] = []
instances_without_snapshots s (id ∷ ids) =
    let rest = instances_without_snapshots s ids in if contains s.index id then rest else id ∷ rest

-- `values().find`
unfoldable pub find_meta : List SnapshotMeta → String → Option SnapshotMeta
find_meta [] snapshot_id = none
find_meta (m ∷ ms) snapshot_id =
    let later = find_meta ms snapshot_id in if m.snapshot_id == snapshot_id then some m else later

-- `retain`: the entries of other snapshots stay.
unfoldable pub without_snapshot : String → Dict String SnapshotMeta → Dict String SnapshotMeta
without_snapshot snapshot_id [] = []
without_snapshot snapshot_id ((i, m) ∷ index) =
    let rest = without_snapshot snapshot_id index in
    if m.snapshot_id == snapshot_id then rest else (i, m) ∷ rest

module _ {N : Type 0} (libraries : SnapshotLibraries N) where
  open libraries use {to_vec, from_slice, write_index, read_index}

  -- `open`, with `load_index`, on what the directory holds
  unfoldable pub open_store :
      Dict String (List ℕ) → Option (List ℕ) → Result StorageError SnapshotStore
  open_store snapshots none = ok (record { snapshots = snapshots; index_file = none; index = [] })
  open_store snapshots (some bytes) = elim (read_index bytes) [
    | none ↦ err json
    | some index ↦ ok (record { snapshots = snapshots; index_file = some bytes; index = index })
  ]

  unfoldable pub save_index : Call (Unit {0})
  save_index s =
      let (bytes, done) = write_index s.index in
      (if done then ok tt else err json, record s { index_file = some bytes })

  unfoldable pub meta_of : InstanceSnapshot N → List ℕ → SnapshotMeta
  meta_of snapshot bytes = record {
    snapshot_id = snapshot.snapshot_id;
    instance_id = snapshot.instance_id;
    wal_offset = snapshot.wal_offset;
    created_at = snapshot.created_at;
    size_bytes = length bytes;
    checksum = libraries.checksum bytes;
  }

  -- The file and the entry of the index, in memory
  unfoldable pub put_snapshot : InstanceSnapshot N → List ℕ → SnapshotStore → SnapshotStore
  unfolding meta_of
  put_snapshot snapshot bytes s = record s {
    snapshots = insert s.snapshots snapshot.snapshot_id bytes;
    index = insert s.index snapshot.instance_id (meta_of snapshot bytes);
  }

  unfoldable pub create_snapshot : InstanceSnapshot N → Call SnapshotMeta
  unfolding put_snapshot save_index
  create_snapshot snapshot s = elim (to_vec snapshot) [
    | none ↦ raise json s
    | some bytes ↦
        (modify (put_snapshot snapshot bytes) >> save_index >> pure (meta_of snapshot bytes)) s
  ]

  -- The test of the checksum, if the index has the snapshot
  unfoldable pub verify : SnapshotStore → String → List ℕ → Bool
  unfolding find_meta values
  verify s snapshot_id bytes = elim (find_meta (values s.index) snapshot_id) [
    | none ↦ true
    | some meta ↦ libraries.checksum bytes == meta.checksum
  ]

  parse : List ℕ → Result StorageError (InstanceSnapshot N)
  parse bytes = elim (from_slice bytes) [ none ↦ err json | some snapshot ↦ ok snapshot ]

  unfoldable pub load_snapshot : SnapshotStore → String → Result StorageError (InstanceSnapshot N)
  unfolding verify parse
  load_snapshot s snapshot_id = elim (get s.snapshots snapshot_id) [
    | none ↦ err (snapshot_not_found snapshot_id)
    | some bytes ↦ if verify s snapshot_id bytes then parse bytes else err (corruption snapshot_id)
  ]

  unfoldable pub get_latest_snapshot :
      SnapshotStore → String → Result StorageError (Option (InstanceSnapshot N))
  unfolding load_snapshot
  get_latest_snapshot s instance_id = elim (get s.index instance_id) [
    | none ↦ ok none
    | some meta ↦ elim (load_snapshot s meta.snapshot_id) [
      | err e ↦ err e
      | ok snapshot ↦ ok (some snapshot)
    ]
  ]

  unfoldable pub delete_snapshot : String → Call (Unit {0})
  unfolding without_snapshot save_index
  delete_snapshot snapshot_id =
      modify (λ s. record s {
        snapshots = remove s.snapshots snapshot_id;
        index = without_snapshot snapshot_id s.index;
      })
      >> save_index
