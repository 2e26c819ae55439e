-- ===== src/Core/Instance.antt =====
-- rstmdb-core/src/instance.rs. The clock is an argument: `now`, in milliseconds.
use rstmdb.Base.{ℕ, String, Bool, true, false, Option, none}
use rstmdb.Core.Json.{Value}

pub data InstanceState : Type 0 where
  active deleted : InstanceState

pub record Instance (N : Type 0) : Type 0 where
  pub id : String
  pub machine : String
  pub version : ℕ
  pub state : String
  pub ctx : Value N
  pub instance_state : InstanceState
  pub last_event_id : Option String
  pub last_wal_offset : ℕ
  pub created_at : ℕ
  pub updated_at : ℕ

pub record InstanceSnapshot (N : Type 0) : Type 0 where
  pub snapshot_id : String
  pub instance_id : String
  pub machine : String
  pub version : ℕ
  pub state : String
  pub ctx : Value N
  pub wal_offset : ℕ
  pub created_at : ℕ

module _ {N : Type 0} where
  -- `Instance::new`
  unfoldable pub new_instance : String → String → ℕ → String → Value N → ℕ → ℕ → Instance N
  new_instance id machine version initial_state initial_ctx wal_offset now = record {
    id = id;
    machine = machine;
    version = version;
    state = initial_state;
    ctx = initial_ctx;
    instance_state = active;
    last_event_id = none;
    last_wal_offset = wal_offset;
    created_at = now;
    updated_at = now;
  }

  unfoldable pub apply_transition :
      Instance N → String → Value N → Option String → ℕ → ℕ → Instance N
  apply_transition i new_state new_ctx event_id wal_offset now = record i {
    state = new_state;
    ctx = new_ctx;
    last_event_id = event_id;
    last_wal_offset = wal_offset;
    updated_at = now;
  }

  unfoldable pub soft_delete : Instance N → ℕ → ℕ → Instance N
  soft_delete i wal_offset now = record i {
    instance_state = deleted;
    last_wal_offset = wal_offset;
    updated_at = now;
  }

  unfoldable pub is_active : Instance N → Bool
  is_active i = elim i.instance_state [ active ↦ true | deleted ↦ false ]

  unfoldable pub is_deleted : Instance N → Bool
  is_deleted i = elim i.instance_state [ active ↦ false | deleted ↦ true ]

  unfoldable pub from_instance : Instance N → String → ℕ → InstanceSnapshot N
  from_instance i snapshot_id now = record {
    snapshot_id = snapshot_id;
    instance_id = i.id;
    machine = i.machine;
    version = i.version;
    state = i.state;
    ctx = i.ctx;
    wal_offset = i.last_wal_offset;
    created_at = now;
  }

  unfoldable pub to_instance : InstanceSnapshot N → Instance N
  to_instance s = record {
    id = s.instance_id;
    machine = s.machine;
    version = s.version;
    state = s.state;
    ctx = s.ctx;
    instance_state = active;
    last_event_id = none;
    last_wal_offset = s.wal_offset;
    created_at = s.created_at;
    updated_at = s.created_at;
  }
