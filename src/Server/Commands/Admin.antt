-- ===== src/Server/Commands/Admin.antt =====
-- rstmdb-server/src/handler.rs: snapshots, compaction, reading the log and its numbers, and the
-- subscriptions of a session. What the log does there is an interface; JSON has read the parameters.
use rstmdb.Base.{
  ℕ, ◌+◌, ◌-◌, ◌*◌, ◌%◌, ◌^◌, String, Bool, true, false, Option, none, some, List, [], ◌∷◌, ltb,
  string_key, if◌then◌else◌,
}
use rstmdb.Base.Result.{Result, ok, err}
use rstmdb.Wal.Entry.{WalOps, Logged}
use rstmdb.Wal.Log.{WalStats}
use rstmdb.Core.Instance.{Instance, from_instance}
use rstmdb.Core.Definition.{Libraries}
use rstmdb.Core.Engine.{get_instance, all_instances, of_log}
use rstmdb.Storage.Error.{StorageError}
use rstmdb.Storage.Snapshot.{
  SnapshotStore, SnapshotMeta, SnapshotLibraries, create_snapshot, get_snapshot_meta,
  min_wal_offset, snapshot_count,
}
use rstmdb.Server.Session.{
  Session, add_instance_subscription, add_all_subscription, remove_subscription,
}
use rstmdb.Server.Broadcast.{
  InstanceEvent, EventFilter, Channels, EventBroadcaster, subscribe_instance, subscribe_all,
  unsubscribe,
}
use rstmdb.Server.Commands.{Backend, CommandError, invalid_request, stopped, storage, or_default}

-- What the operations take from the log besides what the engine does.
pub record WalAdmin {N : Type 0} (ops : WalOps N) : Type 0 where
  pub compact_before : ℕ → ops.Wal → ℕ × ops.Wal
  pub segment_count : ops.Wal → ℕ
  pub total_size : ops.Wal → ℕ
  pub next_sequence : ops.Wal → ℕ
  pub latest_offset : ops.Wal → Option ℕ
  pub stats : ops.Wal → WalStats

-- A snapshot that was stored, or what is known without a store
pub data SnapshotAnswer : Type 0 where
  stored : SnapshotMeta → SnapshotAnswer
  not_stored : String → ℕ → SnapshotAnswer

pub record CompactAnswer : Type 0 where
  pub snapshots_created : ℕ
  pub segments_deleted : ℕ
  pub bytes_reclaimed : ℕ
  pub total_snapshots : ℕ
  pub wal_segments : ℕ

pub record WalStatsAnswer : Type 0 where
  pub entry_count : ℕ
  pub segment_count : ℕ
  pub total_size_bytes : ℕ
  pub latest_offset : Option ℕ
  pub io_stats : WalStats

pub record WatchAnswer : Type 0 where
  pub subscription_id : String
  pub instance_id : String
  pub current_state : String
  pub current_wal_offset : ℕ

-- The last offset read, and one
unfoldable pub next_offset : {N : Type 0} → List (Logged N) → Option ℕ
next_offset [] = none
next_offset (e ∷ []) = some (e.1 + 1)
next_offset (e ∷ (f ∷ entries)) = next_offset (f ∷ entries)

-- Whether `compact` makes a snapshot of the instance
unfoldable pub wants_snapshot : {N : Type 0} → Bool → Instance N → SnapshotStore → Bool
wants_snapshot force i store = elim (get_snapshot_meta store i.id) [
  | none ↦ true
  | some meta ↦ if force then ltb meta.wal_offset i.last_wal_offset else false
]

module _ {N : Type 0} (snapshot_libraries : SnapshotLibraries N) where
  -- The loop of `compact`: it ends with the first snapshot that fails.
  unfoldable pub snapshot_wanted :
      Bool
      → (String → String)
      → ℕ
      → List (Instance N)
      → SnapshotStore
      → Result StorageError ℕ × SnapshotStore
  unfolding wants_snapshot
  snapshot_wanted force new_id now [] store = (ok 0, store)
  snapshot_wanted force new_id now (i ∷ instances) store =
      if wants_snapshot force i store
      then (let (r, store') =
            create_snapshot snapshot_libraries (from_instance i (new_id i.id) now) store in
          let (rest, store'') = snapshot_wanted force new_id now instances store' in
          elim r [
            | err e ↦ (err e, store')
            | ok m ↦ (elim rest [ ok n ↦ ok (n + 1) | err e ↦ err e ], store'')
          ])
      else snapshot_wanted force new_id now instances store

module _ (libraries : Libraries) (ops : WalOps libraries.platform.Number) (admin : WalAdmin ops)
    (tokio : Channels (InstanceEvent libraries.platform.Number))
    (snapshot_libraries : SnapshotLibraries libraries.platform.Number) where
  open libraries.platform use {Number}

  abbrev pub Back : Type 0
  Back = Backend libraries ops tokio

  unfoldable pub put_store : SnapshotStore → Back → Back
  put_store store s = record s { snapshot_store = some store }

  unfoldable pub snapshot_found :
      Instance Number → String → ℕ → Back → Result CommandError SnapshotAnswer × Back
  unfolding put_store
  snapshot_found i new_id now s = elim s.snapshot_store [
    | none ↦ (ok (not_stored new_id i.last_wal_offset), s)
    | some store ↦
        let (r, store') = create_snapshot snapshot_libraries (from_instance i new_id now) store in
        (elim r [ ok m ↦ ok (stored m) | err e ↦ err (storage e) ], put_store store' s)
  ]

  unfoldable pub handle_snapshot_instance :
      Option String → String → ℕ → Back → Result CommandError SnapshotAnswer × Back
  unfolding snapshot_found
  handle_snapshot_instance none new_id now s = (err invalid_request, s)
  handle_snapshot_instance (some instance_id) new_id now s =
      elim (get_instance libraries ops instance_id s.engine).0 [
        | err x ↦ (err (stopped x), s)
        | ok i ↦ snapshot_found i new_id now s
      ]

  unfoldable pub delete_before : Option ℕ → ops.Wal → ℕ × ops.Wal
  delete_before none wal = (0, wal)
  delete_before (some offset) wal = admin.compact_before offset wal

  -- The deletion of segments, and the answer of `compact`
  unfoldable pub compact_log : ℕ → SnapshotStore → Back → CompactAnswer × Back
  unfolding put_store delete_before
  compact_log snapshots_created store s =
      let (deleted, wal) = delete_before (min_wal_offset store) s.engine.log in
      (
        record {
          snapshots_created = snapshots_created;
          segments_deleted = deleted;
          bytes_reclaimed = deleted * 64 * 1024 * 1024 % 2 ^ 64;
          total_snapshots = snapshot_count store;
          wal_segments = admin.segment_count wal;
        },
        record (put_store store s) { engine = record s.engine { log = wal } },
      )

  unfoldable pub handle_compact :
      Option Bool → (String → String) → ℕ → Back → Result CommandError CompactAnswer × Back
  unfolding snapshot_wanted compact_log or_default
  handle_compact force_snapshot new_id now s = elim s.snapshot_store [
    | none ↦ (err invalid_request, s)
    | some store ↦
        let (r, store') =
          snapshot_wanted snapshot_libraries (or_default force_snapshot false) new_id now
            (all_instances libraries ops s.engine.instances) store in
        elim r [
          | err e ↦ (err (storage e), put_store store' s)
          | ok n ↦ let (answer, s') = compact_log n store' s in (ok answer, s')
        ]
  ]

  unfoldable pub handle_wal_read :
      Option ℕ → Option ℕ → Back → Result CommandError (List (Logged Number) × Option ℕ) × Back
  unfolding next_offset
  handle_wal_read none limit s = (err invalid_request, s)
  handle_wal_read (some from) limit s =
      let (r, wal) = ops.read_from s.engine.log from limit in
      (
        elim (of_log libraries ops r) [
          | err x ↦ err (stopped x)
          | ok entries ↦ ok (entries, next_offset entries)
        ],
        record s { engine = record s.engine { log = wal } },
      )

  unfoldable pub handle_wal_stats : Back → WalStatsAnswer
  handle_wal_stats s = record {
    entry_count = admin.next_sequence s.engine.log - 1;
    segment_count = admin.segment_count s.engine.log;
    total_size_bytes = admin.total_size s.engine.log;
    latest_offset = admin.latest_offset s.engine.log;
    io_stats = admin.stats s.engine.log;
  }

  -- The answer, the receiver, the session and the server afterwards
  unfoldable pub handle_watch_instance :
      String
      → String
      → Bool
      → Session
      → Back
      → Result CommandError (WatchAnswer × tokio.Receiver) × Session × Back
  handle_watch_instance new_id instance_id include_ctx session s =
      elim (get_instance libraries ops instance_id s.engine).0 [
        | err x ↦ (err (stopped x), session, s)
        | ok i ↦ elim s.broadcaster [
          | none ↦ (err invalid_request, session, s)
          | some b ↦
              let (receiver, b') = subscribe_instance tokio new_id instance_id include_ctx b in
              (
                ok (
                  record {
                    subscription_id = new_id;
                    instance_id = instance_id;
                    current_state = i.state;
                    current_wal_offset = i.last_wal_offset;
                  },
                  receiver,
                ),
                add_instance_subscription session new_id instance_id,
                record s { broadcaster = some b' },
              )
        ]
      ]

  -- The subscription id and the latest offset of the log, the receiver and the filter
  unfoldable pub handle_watch_all :
      String
      → EventFilter
      → Bool
      → Session
      → Back
      → Result CommandError ((String × ℕ) × tokio.Receiver × EventFilter) × Session × Back
  unfolding or_default
  handle_watch_all new_id filter include_ctx session s = elim s.broadcaster [
    | none ↦ (err invalid_request, session, s)
    | some b ↦
        let (receiver, b') = subscribe_all tokio new_id filter include_ctx b in
        (
          ok ((new_id, or_default (admin.latest_offset s.engine.log) 0), receiver, filter),
          add_all_subscription session new_id,
          record s { broadcaster = some b' },
        )
  ]

  unfoldable pub drop_subscription :
      String → Option (EventBroadcaster tokio) → Option (EventBroadcaster tokio)
  drop_subscription id none = none
  drop_subscription id (some b) = some (unsubscribe tokio id b).1

  -- Whether the session had the subscription
  unfoldable pub handle_unwatch : String → Session → Back → Bool × Session × Back
  unfolding drop_subscription
  handle_unwatch id session s =
      let (removed, session') = remove_subscription session id in
      (
        elim removed [ none ↦ false | some t ↦ true ],
        session',
        record s { broadcaster = drop_subscription id s.broadcaster },
      )
