-- ===== src/Examples/Snapshots.antt =====
-- A snapshot store with one snapshot, an index of idempotency keys, and compactions of a log of two
-- segments.
use rstmdb.Base.{
  ℕ, ◌+◌, ◌*◌, ◌^◌, ◌≡◌, refl, arith, String, true, false, some, none, [], ◌∷◌, string_key, nat_key,
  inl, inr, List, Bool, ◌==◌, eqb, if◌then◌else◌,
}
use rstmdb.Base.Dict.{get, insert, contains}
use rstmdb.Base.Result.{ok}
use rstmdb.Core.Json.{null}
use rstmdb.Core.Instance.{Instance, InstanceSnapshot, active, from_instance}
use rstmdb.Wal.Offset.{segment_id}
use rstmdb.Storage.Snapshot.{
  SnapshotStore, SnapshotMeta, SnapshotLibraries, create_snapshot, get_latest_snapshot,
  min_wal_offset, instances_without_snapshots, get_snapshot_meta,
}
use rstmdb.Storage.Snapshot.RoundTrip.{Created, create_snapshot-Created}
use rstmdb.Storage.Snapshot.Sound.{Reached, opened, created, Reached-latest}
use rstmdb.Storage.Index.{
  IdempotencyIndex, IdempotencyEntry, IndexLibraries, get_entry, cleanup, put_entry,
}
use rstmdb.Storage.Index.Retention.{cleanup-get, put_entry-get}
use rstmdb.Storage.Store.{Storage, StorageLibraries}
use rstmdb.Storage.Store.Calls.{compact}
use rstmdb.Storage.Store.Compacts.{SameSegment, compact-SameSegment}
use rstmdb.Server.Compaction.{CompactionManager, default_config, run_compaction}
use rstmdb.Server.Compaction.Due.{run_compaction-SameSegment}
use rstmdb.Server.Compaction.Covers.{HasSnapshot, Ready, run_compaction-HasSnapshot}
use rstmdb.Examples.Logs.{log_libraries, two_segments}

abbrev pub an_instance : Instance ℕ
an_instance = record {
  id = "i";
  machine = "order";
  version = 1;
  state = "paid";
  ctx = null;
  instance_state = active;
  last_event_id = none;
  last_wal_offset = 2 * 2 ^ 40 + 9;
  created_at = 5;
  updated_at = 5;
}

unfoldable pub a_snapshot : InstanceSnapshot ℕ
unfolding from_instance
a_snapshot = from_instance an_instance "s" 7

abbrev its_meta : SnapshotMeta
its_meta = record {
  snapshot_id = "s";
  instance_id = "i";
  wal_offset = 2 * 2 ^ 40 + 9;
  created_at = 7;
  size_bytes = 1;
  checksum = "00000000";
}

-- The JSON of every snapshot is `1`, that of every index `2`.
abbrev pub snapshot_libraries : SnapshotLibraries ℕ
snapshot_libraries = record {
  to_vec = λ x. some (49 ∷ []);
  from_slice = λ bytes. some a_snapshot;
  write_index = λ index. (50 ∷ [], true);
  read_index = λ bytes. some (("i", its_meta) ∷ []);
  checksum = λ bytes. "00000000";
}

abbrev empty_store : SnapshotStore
empty_store = record { snapshots = []; index_file = none; index = [] }

abbrev a_store : SnapshotStore
a_store = record {
  snapshots = ("s", 49 ∷ []) ∷ [];
  index_file = some (50 ∷ []);
  index = ("i", its_meta) ∷ [];
}

a_snapshot-created :
    create_snapshot snapshot_libraries a_snapshot empty_store ≡ (ok its_meta, a_store)
unfolding create_snapshot a_snapshot insert
a_snapshot-created = refl

create_snapshot-Created_example :
    Created snapshot_libraries a_snapshot its_meta
      (create_snapshot snapshot_libraries a_snapshot empty_store).1
unfolding create_snapshot a_snapshot insert
create_snapshot-Created_example =
    create_snapshot-Created snapshot_libraries empty_store a_snapshot tt (λ bytes e. refl) refl refl

a_store-Reached : Reached snapshot_libraries a_store
unfolding create_snapshot a_snapshot insert
a_store-Reached =
    created empty_store a_snapshot (49 ∷ []) opened tt (record { written = refl; read = refl })

Reached-latest_example :
    (x : InstanceSnapshot ℕ) × (get_latest_snapshot snapshot_libraries a_store "i" ≡ ok (some x))
    × (x.instance_id ≡ "i")
    × (x.snapshot_id ≡ "s")
    × (x.wal_offset ≡ 2 * 2 ^ 40 + 9)
unfolding get
Reached-latest_example =
    Reached-latest snapshot_libraries a_store "i" {m = its_meta} a_store-Reached refl

abbrev an_entry : IdempotencyEntry ℕ
an_entry = record {
  key = "k";
  instance_id = some "i";
  operation = "apply_event";
  wal_offset = 70;
  result = null;
  created_at = 1000;
}

-- The index cannot be written.
abbrev index_libraries : IndexLibraries ℕ
index_libraries = record { write_entries = λ entries. ([], false); read_entries = λ bytes. none }

abbrev an_index : IdempotencyIndex ℕ
an_index = record {
  entries = (("i", "k"), an_entry) ∷ [];
  retention_ms = 500;
  has_path = true;
  file = none;
  last_cleanup = 0;
}

found_entry : get_entry an_index (some "i") "k" ≡ some an_entry
unfolding get_entry get
found_entry = refl

found_after_cleanup :
    get_entry (cleanup index_libraries 1400 an_index).1 (some "i") "k" ≡ some an_entry
found_after_cleanup =
    cleanup-get index_libraries 1400 an_index (some "i") "k" found_entry (omega arith)

put_entry-get_example :
    get_entry (put_entry index_libraries an_entry 1400 70000000000 an_index).1 (some "i") "k"
    ≡ some an_entry
put_entry-get_example =
    put_entry-get index_libraries an_index an_entry 1400 70000000000 (omega arith)

abbrev storage_libraries : StorageLibraries ℕ
storage_libraries = record {
  log = log_libraries;
  snapshots = snapshot_libraries;
  index = index_libraries;
  write_machine = λ m. ([], true);
  read_machine = λ bytes. none;
}

abbrev a_storage : Storage ℕ
a_storage = record {
  wal = two_segments;
  snapshots = a_store;
  idempotency = an_index;
  machine_files = [];
  machines = [];
  instances = ("i", an_instance) ∷ [];
}

abbrev new_id : String → String
new_id id = "t"

compact-SameSegment_example :
    SameSegment 2 two_segments (compact storage_libraries false new_id 9 a_storage).1.wal
unfolding compact get segment_id instances_without_snapshots contains min_wal_offset
compact-SameSegment_example =
    compact-SameSegment storage_libraries false new_id 9 a_storage "i" 2 {m = its_meta} refl
      (omega arith)

abbrev a_manager : CompactionManager
a_manager = record {
  config = default_config;
  wal = two_segments;
  store = empty_store;
  events_since_compact = 10000;
  last_compact = 0;
  notified = false;
}

-- Two instances; the JSON of the snapshot of `i` is `1`, that of `j` is `2`.
abbrev two_instances : List (Instance ℕ)
two_instances = an_instance ∷ record an_instance { id = "j" } ∷ []

abbrev id_of : String → String
id_of id = if id == "i" then "s" else "t"

unfoldable first_is_one : List ℕ → Bool
first_is_one [] = false
first_is_one (b ∷ bytes) = eqb b 49

unfoldable two_snapshots : SnapshotLibraries ℕ
two_snapshots = record snapshot_libraries {
  to_vec = λ x. some (if x.instance_id == "i" then 49 ∷ [] else 50 ∷ []);
  from_slice = λ bytes. some (
      if first_is_one bytes
      then from_instance an_instance "s" 7
      else from_instance (record an_instance { id = "j" }) "t" 7);
}

apart : false ≡ true → ⊥
apart p = cc

two-Ready : Ready two_snapshots id_of 7 two_instances empty_store
unfolding two_snapshots first_is_one from_instance
two-Ready = (
  (49 ∷ [], record { written = refl; read = refl }),
  tt,
  (λ p. apart ((string_key.same_iff "s" "t").1 p), tt),
  ((50 ∷ [], record { written = refl; read = refl }), tt, tt, tt),
)

run_compaction-HasSnapshot_example :
    HasSnapshot two_snapshots
      (run_compaction two_snapshots id_of 7 90000000000 two_instances a_manager).1.store
      "j"
      (2 * 2 ^ 40 + 9)
run_compaction-HasSnapshot_example =
    run_compaction-HasSnapshot two_snapshots id_of 7 90000000000 two_instances a_manager
      (record an_instance { id = "j" }) opened two-Ready (inr (inl refl))

run_compaction-SameSegment_example :
    SameSegment 2 two_segments
      (run_compaction snapshot_libraries new_id 7 90000000000 (an_instance ∷ []) a_manager).1.wal
unfolding run_compaction create_snapshot from_instance get insert segment_id get_snapshot_meta
run_compaction-SameSegment_example =
    run_compaction-SameSegment snapshot_libraries new_id 7 90000000000 (an_instance ∷ []) a_manager
      "i" 2 {m = record its_meta { snapshot_id = "t" }} refl (omega arith)
