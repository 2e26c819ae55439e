-- ===== src/Storage/Store.antt =====
-- rstmdb-storage/src/store.rs: the log, the snapshots, the idempotency index, and the machines and
-- instances in memory. A machine file is named by the name and the version of its machine. The
-- clock, new snapshot ids and the JSON of a machine are arguments.
pub mod Calls
pub mod Compacts
use rstmdb.Base.{
  ℕ, ◌+◌, ◌-◌, String, Bool, true, false, Option, none, some, List, [], ◌∷◌, ltb, string_key,
  nat_key, pair_key, if◌then◌else◌, is_empty, length,
}
use rstmdb.Base.Dict.{Dict, get, insert, contains}
use rstmdb.Base.Result.{Result, ok, err, ◌>>=◌}
use rstmdb.Base.Exec.{Exec}
use rstmdb.Base.Exec
use rstmdb.Core.Json.{Value}
use rstmdb.Core.Instance.{
  Instance, InstanceSnapshot, new_instance, apply_transition, soft_delete, from_instance,
  to_instance,
}
use rstmdb.Wal.Entry.{
  WalEntry, Fault, Logged, put_machine, create_instance, apply_event, delete_instance, snapshot,
  checkpoint,
}
use rstmdb.Wal.Log.{
  Wal, LogLibraries, FsyncPolicy, compact_before, total_size, sync_log, earliest_offset,
}
use rstmdb.Wal.Log.Read.{read_from, open_wal}
use rstmdb.Wal.Segment.{File}
use rstmdb.Storage.Error.{StorageError, json, instance_not_found}
use rstmdb.Storage.Error
use rstmdb.Storage.Snapshot.{
  SnapshotStore, SnapshotMeta, SnapshotLibraries, create_snapshot, load_snapshot, list_snapshots,
  get_latest_snapshot, instances_without_snapshots, min_wal_offset, open_store,
}
use rstmdb.Storage.Index.{
  IdempotencyIndex, IdempotencyEntry, IndexLibraries, get_entry, put_entry, persist,
  with_persistence,
}

pub record StoredMachine (N : Type 0) : Type 0 where
  pub name : String
  pub version : ℕ
  pub definition : Value N
  pub checksum : String

pub record StorageLibraries (N : Type 0) : Type 0 where
  pub log : LogLibraries N
  pub snapshots : SnapshotLibraries N
  pub index : IndexLibraries N
  pub write_machine : StoredMachine N → List ℕ × Bool
  pub read_machine : List ℕ → Option (StoredMachine N)

pub record Storage (N : Type 0) : Type 0 where
  pub wal : Wal
  pub snapshots : SnapshotStore
  pub idempotency : IdempotencyIndex N
  pub machine_files : Dict (String × ℕ) (List ℕ)
  pub machines : Dict (String × ℕ) (StoredMachine N)
  pub instances : Dict String (Instance N)

pub record CompactionResult : Type 0 where
  pub snapshots_created : ℕ
  pub segments_deleted : ℕ
  pub bytes_reclaimed : ℕ

unfoldable pub keys : {V : Type 0} → Dict String V → List String
keys [] = []
keys ((id, v) ∷ d) = id ∷ keys d

abbrev pub Instances : Type 0 → Type 0
Instances N = Dict String (Instance N)

module _ {N : Type 0} where
  -- `get_mut` and a change of what is found
  unfoldable pub update : Instances N → String → (Instance N → Instance N) → Instances N
  update instances id f = elim (get instances id) [
    | none ↦ instances
    | some i ↦ insert instances id (f i)
  ]

  unfoldable pub apply_wal_entry : ℕ → WalEntry N → Instances N → Instances N
  unfolding update
  apply_wal_entry now (put_machine machine version hash definition) instances = instances
  apply_wal_entry now (create_instance id machine version state ctx key) instances =
      if contains instances id
      then instances
      else insert instances id (new_instance id machine version state ctx 0 now)
  apply_wal_entry now (apply_event id event from to payload ctx event_id key) instances =
      update instances id (λ i. apply_transition i to ctx event_id 0 now)
  apply_wal_entry now (delete_instance id key) instances =
      update instances id (λ i. soft_delete i 0 now)
  apply_wal_entry now (snapshot id snapshot_id state ctx) instances = instances
  apply_wal_entry now (checkpoint timestamp) instances = instances

  unfoldable pub apply_wal_entries : ℕ → List (Logged N) → Instances N → Instances N
  unfolding apply_wal_entry
  apply_wal_entries now [] instances = instances
  apply_wal_entries now ((sequence, at, entry) ∷ entries) instances =
      apply_wal_entries now entries (apply_wal_entry now entry instances)

  -- The methods that read
  unfoldable pub get_machine : Storage N → String → ℕ → Option (Value N)
  get_machine s name version = elim (get s.machines (name, version)) [
    | none ↦ none
    | some m ↦ some m.definition
  ]

  unfoldable pub get_instance : Storage N → String → Option (Instance N)
  get_instance s id = get s.instances id

  unfoldable pub check_idempotency :
      Storage N → Option String → String → Option (IdempotencyEntry N)
  check_idempotency s instance_id key = get_entry s.idempotency instance_id key

  unfoldable pub put_instance : Instance N → Storage N → Storage N
  put_instance i s = record s { instances = insert s.instances i.id i }

  unfoldable pub wal_size : Storage N → ℕ
  wal_size s = total_size s.wal

  unfoldable pub wal_segment_count : Storage N → ℕ
  wal_segment_count s = length s.wal.segments

  module _ (libraries : StorageLibraries N) where
    open libraries use {write_machine, read_machine}

    -- The first loop of `recover`: a snapshot that does not load is passed over.
    unfoldable pub load_snapshots : SnapshotStore → List SnapshotMeta → Instances N → Instances N
    load_snapshots store [] instances = instances
    load_snapshots store (m ∷ ms) instances =
        load_snapshots store ms (elim (load_snapshot libraries.snapshots store m.snapshot_id) [
          | err e ↦ instances
          | ok x ↦ let i = to_instance x in insert instances i.id i
        ])

    -- `unwrap_or(WalOffset::from_u64(0))`
    unfoldable pub start_offset : Option (Result Fault ℕ) → Result StorageError ℕ
    start_offset none = ok 0
    start_offset (some (ok at)) = ok at
    start_offset (some (err x)) = err (Error.wal x)

    unfoldable pub of_wal : {A : Type 0} → Result Fault A → Result StorageError A
    of_wal (ok a) = ok a
    of_wal (err x) = err (Error.wal x)

    unfoldable pub recover : ℕ → Storage N → Result StorageError (Storage N)
    unfolding load_snapshots start_offset of_wal
    recover now s =
        let loaded = load_snapshots s.snapshots (list_snapshots s.snapshots) s.instances in
        start_offset (earliest_offset s.wal) >>= λ from.
        let (entries, wal) = read_from libraries.log from none s.wal in
        of_wal entries >>= λ entries.
        ok (record s { wal = wal; instances = apply_wal_entries now entries loaded })

    unfoldable pub load_machines :
        Dict (String × ℕ) (List ℕ)
        → Dict (String × ℕ) (StoredMachine N)
        → Result StorageError (Dict (String × ℕ) (StoredMachine N))
    load_machines [] machines = ok machines
    load_machines ((k, bytes) ∷ files) machines = elim (read_machine bytes) [
      | none ↦ err json
      | some stored ↦ load_machines files (insert machines (stored.name, stored.version) stored)
    ]

    -- What the directories hold when the storage is opened.
    pub record OnDisk : Type 0 where
      pub segment_files : Dict ℕ File
      pub snapshot_files : Dict String (List ℕ)
      pub snapshot_index : Option (List ℕ)
      pub idempotency_file : Option (List ℕ)
      pub machine_files : Dict (String × ℕ) (List ℕ)

    unfoldable pub open_storage :
        ℕ → FsyncPolicy → ℕ → OnDisk → ℕ → ℕ → Result StorageError (Storage N)
    unfolding recover load_machines of_wal
    open_storage segment_size policy retention_ms d now instant =
        of_wal (open_wal libraries.log segment_size policy d.segment_files) >>= λ wal.
        open_store libraries.snapshots d.snapshot_files d.snapshot_index >>= λ snapshots.
        with_persistence libraries.index retention_ms d.idempotency_file instant >>= λ idempotency.
        load_machines d.machine_files [] >>= λ machines. recover now (record {
          wal = wal;
          snapshots = snapshots;
          idempotency = idempotency;
          machine_files = d.machine_files;
          machines = machines;
          instances = [];
        })
