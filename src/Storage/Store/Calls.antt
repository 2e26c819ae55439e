-- ===== src/Storage/Store/Calls.antt =====
-- rstmdb-storage/src/store.rs: the methods that change the storage, compaction among them. The
-- clock, the ids of new snapshots and the JSON of a machine are arguments.
use rstmdb.Base.{
  ℕ, ◌+◌, ◌-◌, String, Bool, false, Option, none, some, List, [], ◌∷◌, string_key, nat_key,
  pair_key, if◌then◌else◌, is_empty,
}
use rstmdb.Base.Dict.{get, insert}
use rstmdb.Base.Result.{Result, ok, err}
use rstmdb.Base.Exec.{Exec, ◌>>◌, pure, raise}
use rstmdb.Core.Json.{Value}
use rstmdb.Core.Instance.{InstanceSnapshot, from_instance}
use rstmdb.Wal.Log.{compact_before, total_size, sync_log}
use rstmdb.Storage.Error.{StorageError, json, instance_not_found}
use rstmdb.Storage.Snapshot.{
  SnapshotStore, SnapshotMeta, get_latest_snapshot, instances_without_snapshots, min_wal_offset,
}
use rstmdb.Storage.Snapshot
use rstmdb.Storage.Index.{IdempotencyEntry, put_entry, persist}
use rstmdb.Storage.Store.{Storage, StorageLibraries, StoredMachine, CompactionResult, keys, of_wal}

module _ {N : Type 0} (libraries : StorageLibraries N) where
  abbrev pub Call : Type 0 → Type 0
  Call A = Exec (Storage N) StorageError A

  -- The name, the version, the JSON and the checksum of the definition
  unfoldable pub put_machine : String → ℕ → Value N → String → Call (Unit {0})
  put_machine name version definition checksum s =
      let stored : StoredMachine N = record {
        name = name;
        version = version;
        definition = definition;
        checksum = checksum;
      } in
      let (bytes, done) = libraries.write_machine stored in
      let written : Storage N = record s {
        machine_files = insert s.machine_files (name, version) bytes;
      } in
      if done
      then pure tt (record written { machines = insert s.machines (name, version) stored })
      else raise json written

  -- A call of the snapshot store
  unfoldable pub on_snapshots : {A : Type 0} → Exec SnapshotStore StorageError A → Call A
  on_snapshots call s =
      let (r, snapshots) = call s.snapshots in (r, record s { snapshots = snapshots })

  unfoldable pub create_snapshot : String → String → ℕ → Call SnapshotMeta
  unfolding on_snapshots
  create_snapshot instance_id snapshot_id now s = elim (get s.instances instance_id) [
    | none ↦ raise (instance_not_found instance_id) s
    | some i ↦
        on_snapshots
          (Snapshot.create_snapshot libraries.snapshots (from_instance i snapshot_id now)) s
  ]

  unfoldable pub latest_snapshot :
      Storage N → String → Result StorageError (Option (InstanceSnapshot N))
  latest_snapshot s instance_id = get_latest_snapshot libraries.snapshots s.snapshots instance_id

  unfoldable pub record_idempotency : IdempotencyEntry N → ℕ → ℕ → Call (Unit {0})
  record_idempotency e now instant s =
      let (r, index) = put_entry libraries.index e now instant s.idempotency in
      (r, record s { idempotency = index })

  unfoldable pub sync : Call (Unit {0})
  unfolding of_wal
  sync =
      (λ s. let (r, wal) = sync_log s.wal in (of_wal libraries r, record s { wal = wal })) >> (λ s.
        let (r, index) = persist libraries.index s.idempotency in
        (r, record s { idempotency = index }))

  -- `is_ok()` of a call, to count it
  unfoldable pub one_if_ok : {A : Type 0} → Result StorageError A → ℕ
  one_if_ok (ok a) = 1
  one_if_ok (err e) = 0

  -- The loops that create a snapshot for each of some instances
  unfoldable pub snapshot_each : (String → String) → ℕ → List String → Storage N → ℕ × Storage N
  unfolding create_snapshot one_if_ok
  snapshot_each new_id now [] s = (0, s)
  snapshot_each new_id now (id ∷ ids) s =
      let (r, s') = create_snapshot id (new_id id) now s in
      let (count, s'') = snapshot_each new_id now ids s' in (one_if_ok r + count, s'')

  -- `compact` once the snapshots are there
  unfoldable pub compact_log : ℕ → Storage N → CompactionResult × Storage N
  compact_log snapshots_created s = elim (min_wal_offset s.snapshots) [
    | none ↦ (
      record { snapshots_created = snapshots_created; segments_deleted = 0; bytes_reclaimed = 0 },
      s,
    )
    | some offset ↦
        let (deleted, wal) = compact_before offset s.wal in
        (
          record {
            snapshots_created = snapshots_created;
            segments_deleted = deleted;
            bytes_reclaimed = total_size s.wal - total_size wal;
          },
          record s { wal = wal },
        )
  ]

  abbrev nothing_done : CompactionResult
  nothing_done = record { snapshots_created = 0; segments_deleted = 0; bytes_reclaimed = 0 }

  -- `compact`, by the instances that have no snapshot
  unfoldable pub compact_missing :
      Bool → (String → String) → ℕ → List String → Storage N → CompactionResult × Storage N
  unfolding snapshot_each compact_log
  compact_missing force_snapshot new_id now [] s = compact_log 0 s
  compact_missing force_snapshot new_id now (id ∷ ids) s =
      if force_snapshot
      then (let (created, s') = snapshot_each new_id now (id ∷ ids) s in compact_log created s')
      else (nothing_done, s)

  unfoldable pub compact : Bool → (String → String) → ℕ → Storage N → CompactionResult × Storage N
  unfolding compact_missing keys
  compact force_snapshot new_id now s =
      if is_empty (keys s.instances)
      then (nothing_done, s)
      else compact_missing force_snapshot new_id now
          (instances_without_snapshots s.snapshots (keys s.instances)) s

  unfoldable pub snapshot_all_and_compact :
      (String → String) → ℕ → Storage N → CompactionResult × Storage N
  unfolding compact
  snapshot_all_and_compact new_id now s =
      let (created, s') = snapshot_each new_id now (keys s.instances) s in
      let (result, s'') = compact false new_id now s' in
      (record result { snapshots_created = result.snapshots_created + created }, s'')
