-- ===== src/Server/Compaction.antt =====
-- rstmdb-server/src/compaction.rs, and its part of config.rs: when the log is compacted, and how.
-- The clock is an argument, in nanoseconds; of the engine it takes the instances that are not
-- deleted, `get_all_instances`, and the log. Waiting and the shutdown of the task are left out.
pub mod Due
pub mod Covers
use rstmdb.Base.{
  ℕ, ◌+◌, ◌-◌, ◌*◌, ◌%◌, ◌^◌, ◌≤◌, ◌<◌, ◌≡◌, ◌↔◌, ◌⊎◌, refl, sym, subst, arith, String, Bool, true,
  false, not, ◌&&◌, ◌||◌, Option, none, some, List, [], ◌∷◌, ltb, leb, eqb, string_key,
  if◌then◌else◌, inl, inr, Option-cases, Bool-cases,
}
use rstmdb.Base.Dict.{Dict, get}
use rstmdb.Base.Result.{Result, ok, err}
use rstmdb.Core.Instance.{Instance, from_instance}
use rstmdb.Wal.Offset.{segment_id}
use rstmdb.Wal.Log.{Wal, compact_before, total_size}
use rstmdb.Storage.Snapshot.{
  SnapshotStore, SnapshotMeta, SnapshotLibraries, create_snapshot, get_snapshot_meta,
  min_wal_offset,
}
use rstmdb.Storage.Store.Compacts.{SameSegment, compact_before-SameSegment}

pub record CompactionConfig : Type 0 where
  pub enabled : Bool
  pub events_threshold : ℕ
  pub size_threshold_mb : ℕ
  pub min_interval_secs : ℕ

-- `CompactionConfig::default`
abbrev pub default_config : CompactionConfig
default_config = record {
  enabled = true;
  events_threshold = 10000;
  size_threshold_mb = 100;
  min_interval_secs = 60;
}

unfoldable pub size_threshold : CompactionConfig → ℕ
size_threshold c = c.size_threshold_mb * 1024 * 1024 % 2 ^ 64

unfoldable pub is_disabled : CompactionConfig → Bool
is_disabled c = not c.enabled || (eqb c.events_threshold 0 && eqb c.size_threshold_mb 0)

-- `notified` stands for the waiting task having been woken.
pub record CompactionManager : Type 0 where
  pub config : CompactionConfig
  pub wal : Wal
  pub store : SnapshotStore
  pub events_since_compact : ℕ
  pub last_compact : ℕ
  pub notified : Bool

pub record CompactionResult : Type 0 where
  pub snapshots_created : ℕ
  pub segments_deleted : ℕ

unfoldable pub record_event : CompactionManager → CompactionManager
unfolding is_disabled
record_event s =
    if is_disabled s.config
    then s
    else (let count = (s.events_since_compact + 1) % 2 ^ 64 in
        record s {
          events_since_compact = count;
          notified =
              s.notified
              || (ltb 0 s.config.events_threshold && leb s.config.events_threshold count);
        })

unfoldable pub should_compact : CompactionManager → ℕ → Bool
unfolding is_disabled size_threshold
should_compact s instant =
    if is_disabled s.config
    then false
    else if ltb (instant - s.last_compact) (s.config.min_interval_secs * 1000000000)
    then false
    else if ltb 0 s.config.events_threshold && leb s.config.events_threshold s.events_since_compact
    then true
    else ltb 0 (size_threshold s.config) && leb (size_threshold s.config) (total_size s.wal)

unfoldable pub needs_snapshot : {N : Type 0} → Instance N → SnapshotStore → Bool
needs_snapshot i store = elim (get_snapshot_meta store i.id) [
  | some meta ↦ ltb meta.wal_offset i.last_wal_offset
  | none ↦ true
]

module _ {N : Type 0} (libraries : SnapshotLibraries N) where
  -- The loop over the instances: what it counts, and the store after it
  unfoldable pub snapshot_changed :
      (String → String) → ℕ → List (Instance N) → SnapshotStore → ℕ × SnapshotStore
  unfolding needs_snapshot
  snapshot_changed new_id now [] store = (0, store)
  snapshot_changed new_id now (i ∷ instances) store =
      if needs_snapshot i store
      then (let (r, store') = create_snapshot libraries (from_instance i (new_id i.id) now) store in
          let (count, store'') = snapshot_changed new_id now instances store' in
          (elim r [ ok m ↦ count + 1 | err e ↦ count ], store''))
      else snapshot_changed new_id now instances store

  unfoldable pub compact_wal : SnapshotStore → Wal → ℕ × Wal
  compact_wal store wal = elim (min_wal_offset store) [
    | none ↦ (0, wal)
    | some offset ↦ compact_before offset wal
  ]

  unfoldable pub run_compaction :
      (String → String)
      → ℕ
      → ℕ
      → List (Instance N)
      → CompactionManager
      → CompactionResult × CompactionManager
  unfolding snapshot_changed compact_wal
  run_compaction new_id now instant instances s =
      let (created, store) = snapshot_changed new_id now instances s.store in
      let (deleted, wal) = compact_wal store s.wal in
      (
        record { snapshots_created = created; segments_deleted = deleted },
        record s { wal = wal; store = store; events_since_compact = 0; last_compact = instant },
      )
