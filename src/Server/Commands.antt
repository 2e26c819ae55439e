-- ===== src/Server/Commands.antt =====
-- rstmdb-server/src/handler.rs: the operations on instances, and the events that they send to the
-- watchers. The parameters come as JSON has read them; new instance ids and the clock are arguments.
-- Metrics are left out.
pub mod Pages
pub mod Notified
pub mod Admin
use rstmdb.Base.{
  ℕ, ◌+◌, String, Bool, true, false, not, ◌&&◌, Option, none, some, List, [], ◌∷◌, ◌==◌, ltb,
  string_key, if◌then◌else◌, length, take, drop,
}
use rstmdb.Base.Result.{Result, ok, err}
use rstmdb.Base.Exec.{Exec}
use rstmdb.Wal.Entry.{WalOps}
use rstmdb.Core.Json.{Value}
use rstmdb.Core.Error.{Stop}
use rstmdb.Core.Instance.{Instance}
use rstmdb.Core.Definition.{Libraries}
use rstmdb.Core.Engine.{
  Engine, Request, ApplyResult, get_instance, create_instance_call, apply_event_call,
  delete_instance_call, all_instances,
}
use rstmdb.Storage.Error.{StorageError}
use rstmdb.Storage.Snapshot.{SnapshotStore}
use rstmdb.Server.Broadcast.{InstanceEvent, Channels, EventBroadcaster, notify}

-- The errors of the operations: a bad request, what ended the call of the engine, of the snapshot
-- store or of the log.
pub data CommandError : Type 0 where
  invalid_request : CommandError
  stopped : Stop → CommandError
  storage : StorageError → CommandError

-- `unwrap_or`
unfoldable pub or_default : {A : Type 0} → Option A → A → A
or_default none d = d
or_default (some a) d = a

unfoldable pub is_wanted : Option String → String → Bool
is_wanted none v = true
is_wanted (some wanted) v = v == wanted

-- A page of a list, the length of the list, and whether there is more
pub record Page (A : Type 0) : Type 0 where
  pub items : List A
  pub total : ℕ
  pub has_more : Bool

unfoldable pub page_of : {A : Type 0} → ℕ → ℕ → List A → Page A
page_of offset limit xs =
    let items = take limit (drop offset xs) in
    record { items = items; total = length xs; has_more = ltb (offset + length items) (length xs) }

pub record ListInstancesParams : Type 0 where
  pub machine : Option String
  pub state : Option String
  pub limit : Option ℕ
  pub offset : Option ℕ

pub record CreateInstanceParams (N : Type 0) : Type 0 where
  pub instance_id : Option String
  pub machine : String
  pub version : ℕ
  pub initial_ctx : Value N
  pub idempotency_key : Option String

module _ {N : Type 0} where
  unfoldable pub filter_instances :
      Option String → Option String → List (Instance N) → List (Instance N)
  unfolding is_wanted
  filter_instances machine state [] = []
  filter_instances machine state (i ∷ instances) =
      let rest = filter_instances machine state instances in
      if is_wanted machine i.machine && is_wanted state i.state then i ∷ rest else rest

  -- `handle_list_instances`, on `get_all_instances`; a summary stands for its instance.
  unfoldable pub list_instances : ListInstancesParams → List (Instance N) → Page (Instance N)
  unfolding filter_instances page_of or_default
  list_instances p all =
      page_of (or_default p.offset 0) (or_default p.limit 100)
        (filter_instances p.machine p.state all)

module _ (libraries : Libraries) (ops : WalOps libraries.platform.Number)
    (tokio : Channels (InstanceEvent libraries.platform.Number)) where
  open libraries.platform use {Number}

  -- The parts of the server that the operations change.
  pub record Backend : Type 0 where
    pub engine : Engine libraries ops
    pub broadcaster : Option (EventBroadcaster tokio)
    pub snapshot_store : Option SnapshotStore

  abbrev pub Command : Type 0 → Type 0
  Command A = Exec Backend CommandError A

  unfoldable pub of_core : {A : Type 0} → Result Stop A → Result CommandError A
  of_core (ok a) = ok a
  of_core (err x) = err (stopped x)

  -- A call of the engine
  unfoldable pub on_engine : {A : Type 0} → Exec (Engine libraries ops) Stop A → Command A
  unfolding of_core
  on_engine call s = let (r, engine) = call s.engine in (of_core r, record s { engine = engine })

  -- The new id is used if the request has none.
  unfoldable pub handle_create_instance :
      String → CreateInstanceParams Number → ℕ → Command (Instance Number × ℕ)
  unfolding on_engine or_default
  handle_create_instance new_id p now = on_engine (
      create_instance_call libraries ops (or_default p.instance_id new_id) p.machine p.version
        p.initial_ctx p.idempotency_key now)

  unfoldable pub handle_get_instance : String → Command (Instance Number)
  unfolding on_engine
  handle_get_instance instance_id = on_engine (get_instance libraries ops instance_id)

  unfoldable pub handle_list_instances : ListInstancesParams → Backend → Page (Instance Number)
  unfolding list_instances
  handle_list_instances p s = list_instances p (all_instances libraries ops s.engine.instances)

  unfoldable pub handle_delete_instance : Option String → Option String → ℕ → Command ℕ
  unfolding on_engine
  handle_delete_instance none key now s = (err invalid_request, s)
  handle_delete_instance (some instance_id) key now s =
      on_engine (delete_instance_call libraries ops instance_id key now) s

  -- The event that the watchers are told of
  unfoldable pub event_of :
      Request libraries ops → Instance Number → ApplyResult Number → InstanceEvent Number
  event_of q i result = record {
    instance_id = q.instance_id;
    machine = i.machine;
    version = i.version;
    wal_offset = result.wal_offset;
    from_state = result.from_state;
    to_state = result.to_state;
    event = q.event;
    payload = q.payload;
    ctx = result.ctx;
  }

  unfoldable pub notify_watchers : InstanceEvent Number → Backend → Backend
  notify_watchers e s = elim s.broadcaster [
    | none ↦ s
    | some b ↦ record s { broadcaster = some (notify tokio e b) }
  ]

  unfoldable pub handle_apply_event : Request libraries ops → ℕ → Command (ApplyResult Number)
  unfolding event_of notify_watchers
  handle_apply_event q now s = elim (get_instance libraries ops q.instance_id s.engine).0 [
    | err x ↦ (err (stopped x), s)
    | ok i ↦
        let (r, engine) = apply_event_call libraries ops q now s.engine in
        let s' : Backend = record s { engine = engine } in
        elim r [
          | err x ↦ (err (stopped x), s')
          | ok result ↦
              (ok result, if result.applied then notify_watchers (event_of q i result) s' else s')
        ]
  ]
