-- ===== src/Core/Engine.antt =====
-- rstmdb-core/src/engine.rs: the engine, one call at a time. The log is an interface, and the clock
-- an argument.
pub mod Checks
pub mod Applied
pub mod Idempotent
pub mod Failures
pub mod Replay
pub mod Listing
use rstmdb.Base.{
  ℕ, String, ◌≡◌, Bool, true, false, not, Option, none, some, List, [], ◌∷◌, ◌++◌, ◌==◌, eqb,
  string_key, nat_key, pair_key, if◌then◌else◌,
}
use rstmdb.Base.Dict.{Dict, get, insert, contains}
use rstmdb.Base.Result.{Result, ok, err}
use rstmdb.Base.Exec.{Exec, ◌>>=◌, ◌>>◌, pure, raise, lift, gets, modify}
use rstmdb.Wal.Entry.{
  WalEntry, WalOps, Logged, Fault, put_machine, create_instance, apply_event, delete_instance,
  snapshot, checkpoint,
}
use rstmdb.Wal.Entry
use rstmdb.Core.Json.{Value, is_null, merge_ctx}
use rstmdb.Core.Guard.Expr.{evaluate_opt}
use rstmdb.Core.Error.{
  CoreError, Stop, machine_version_exists, machine_version_not_found, instance_exists,
  instance_not_found, state_conflict, wal_offset_conflict, invalid_transition, guard_failed, wal,
}
use rstmdb.Core.Error
use rstmdb.Core.Definition.{Libraries, MachineDefinition, Expr, from_json, get_transition}
use rstmdb.Core.Instance.{
  Instance, new_instance, apply_transition, soft_delete, is_deleted, deleted,
}

pub record ApplyResult (N : Type 0) : Type 0 where
  pub from_state : String
  pub to_state : String
  pub ctx : Value N
  pub wal_offset : ℕ
  pub sequence : ℕ
  pub applied : Bool

module _ (libraries : Libraries) (ops : WalOps libraries.platform.Number) where
  open libraries.platform use {Number}

  pub record Engine : Type 0 where
    pub definitions : Dict (String × ℕ) (MachineDefinition libraries)
    pub instances : Dict String (Instance Number)
    pub idempotency_cache : Dict (String × String) (ApplyResult Number)
    pub log : ops.Wal

  abbrev pub Call : Type 0 → Type 0
  Call A = Exec Engine Stop A

  -- `self.wal.append(&entry)?`
  abbrev pub stop_of : Fault → Stop
  stop_of (Entry.error e) = Stop.error (wal e)
  stop_of Entry.panicked = Stop.panicked

  abbrev pub of_log {ℓ} : {A : Type ℓ} → Result Fault A → Result Stop A
  of_log (ok a) = ok a
  of_log (err e) = err (stop_of e)

  unfoldable pub append_log : WalEntry Number → Call (ℕ × ℕ)
  append_log entry s = let (r, w) = ops.append s.log entry in (of_log r, record s { log = w })

  unfoldable pub fail : {A : Type 0} → CoreError → Call A
  fail e = raise (Stop.error e)

  -- The result for a definition that is there already.
  unfoldable pub existing_machine :
      String → ℕ → MachineDefinition libraries → MachineDefinition libraries → Call (String × Bool)
  unfolding fail
  existing_machine name version existing new_def =
      if existing.checksum == new_def.checksum
      then pure (existing.checksum, false)
      else fail (machine_version_exists name version)

  unfoldable pub put_machine_call : String → ℕ → Value Number → Call (String × Bool)
  unfolding existing_machine append_log
  put_machine_call name version json s = elim (get s.definitions (name, version)) [
    | some existing ↦
        (lift (from_json libraries name version json) >>= existing_machine name version existing) s
    | none ↦
        (lift (from_json libraries name version json) >>= λ definition.
        append_log (put_machine name version definition.checksum json)
        >> modify (λ t. record t { definitions = insert t.definitions (name, version) definition })
        >> pure (definition.checksum, true))
          s
  ]

  unfoldable pub get_machine : String → ℕ → Call (MachineDefinition libraries)
  unfolding fail
  get_machine name version s = elim (get s.definitions (name, version)) [
    | none ↦ fail (machine_version_not_found name version) s
    | some d ↦ pure d s
  ]

  -- `create_instance` past the look into the idempotency cache
  unfoldable pub create_fresh :
      String → String → ℕ → Value Number → Option String → ℕ → Call (Instance Number × ℕ)
  unfolding get_machine append_log fail
  create_fresh id machine version initial_ctx key now s =
      if contains s.instances id
      then fail (instance_exists id) s
      else (get_machine machine version >>= λ definition.
            append_log (create_instance id machine version definition.initial initial_ctx key)
            >>= λ (at : ℕ × ℕ).
                let instance =
                  new_instance id machine version definition.initial initial_ctx at.1 now in
                modify (λ t. record t { instances = insert t.instances id instance })
                >> pure (instance, at.0))
          s

  unfoldable pub cached : Engine → String → Option String → Option (ApplyResult Number)
  cached s id none = none
  cached s id (some key) = get s.idempotency_cache (id, key)

  unfoldable pub create_instance_call :
      String → String → ℕ → Value Number → Option String → ℕ → Call (Instance Number × ℕ)
  unfolding create_fresh cached
  create_instance_call id machine version initial_ctx key now s = elim (cached s id key) [
    | none ↦ create_fresh id machine version initial_ctx key now s
    | some r ↦ elim (get s.instances id) [
      | none ↦ create_fresh id machine version initial_ctx key now s
      | some instance ↦ pure (instance, instance.last_wal_offset) s
    ]
  ]

  unfoldable pub get_instance : String → Call (Instance Number)
  unfolding fail
  get_instance id s = elim (get s.instances id) [
    | none ↦ fail (instance_not_found id) s
    | some instance ↦ pure instance s
  ]

  pub record Request : Type 0 where
    pub instance_id : String
    pub event : String
    pub payload : Value Number
    pub expected_state : Option String
    pub expected_wal_offset : Option ℕ
    pub event_id : Option String
    pub idempotency_key : Option String

  unfoldable pub check_state : Option String → String → Call (Unit {0})
  unfolding fail
  check_state none actual = pure tt
  check_state (some expected) actual =
      if actual == expected then pure tt else fail (state_conflict expected actual)

  unfoldable pub check_offset : Option ℕ → ℕ → Call (Unit {0})
  unfolding fail
  check_offset none actual = pure tt
  check_offset (some expected) actual =
      if eqb actual expected then pure tt else fail (wal_offset_conflict expected actual)

  unfoldable pub find_transition :
      MachineDefinition libraries → String → String → Call (String × Option (Expr libraries))
  unfolding fail
  find_transition d state event s = elim (get_transition libraries d state event) [
    | none ↦ fail (invalid_transition state event) s
    | some target ↦ pure target s
  ]

  unfoldable pub check_guard :
      Option (Expr libraries) → Instance Number → String → String → Call (Unit {0})
  unfolding fail
  check_guard guard i to event =
      if evaluate_opt libraries.platform guard i.ctx
      then pure tt
      else fail (guard_failed i.state to event)

  unfoldable pub remember : String → Option String → ApplyResult Number → Engine → Engine
  remember id none result s = s
  remember id (some key) result s = record s {
    idempotency_cache = insert s.idempotency_cache (id, key) result;
  }

  -- The transition once all checks have passed: log, update, remember.
  unfoldable pub commit :
      Request → Instance Number → String → Value Number → ℕ → Call (ApplyResult Number)
  unfolding append_log remember
  commit q i to new_ctx now =
      append_log (
        apply_event q.instance_id q.event i.state to q.payload new_ctx q.event_id q.idempotency_key)
      >>= λ (at : ℕ × ℕ).
          let result : ApplyResult Number = record {
            from_state = i.state;
            to_state = to;
            ctx = new_ctx;
            wal_offset = at.1;
            sequence = at.0;
            applied = true;
          } in
          modify (λ t. record t {
            instances =
                insert t.instances q.instance_id
                  (apply_transition i to new_ctx q.event_id at.1 now);
          })
          >> modify (remember q.instance_id q.idempotency_key result)
          >> pure result

  -- The checks of `apply_event`, on the instance that was found.
  unfoldable pub apply_found : Request → Instance Number → ℕ → Call (ApplyResult Number)
  unfolding check_state check_offset find_transition check_guard commit get_machine
  apply_found q i now =
      check_state q.expected_state i.state
      >> check_offset q.expected_wal_offset i.last_wal_offset
      >> (get_machine i.machine i.version >>= λ definition.
          find_transition definition i.state q.event
          >>= λ (target : String × Option (Expr libraries)).
              check_guard target.1 i target.0 q.event
              >> commit q i target.0 (merge_ctx i.ctx q.payload) now)

  unfoldable pub apply_event_call : Request → ℕ → Call (ApplyResult Number)
  unfolding apply_found cached get_instance
  apply_event_call q now s = elim (cached s q.instance_id q.idempotency_key) [
    | some result ↦ pure result s
    | none ↦ (get_instance q.instance_id >>= λ i. apply_found q i now) s
  ]

  unfoldable pub delete_found : String → Option String → Instance Number → ℕ → Call ℕ
  unfolding append_log
  delete_found id key i now =
      if is_deleted i
      then pure i.last_wal_offset
      else (append_log (delete_instance id key) >>= λ (at : ℕ × ℕ).
          modify (λ t. record t { instances = insert t.instances id (soft_delete i at.1 now) })
          >> pure at.1)

  unfoldable pub delete_instance_call : String → Option String → ℕ → Call ℕ
  unfolding delete_found get_instance
  delete_instance_call id key now = get_instance id >>= λ i. delete_found id key i now

  -- `get_all_instances`, in the order of the map
  unfoldable pub all_instances : Dict String (Instance Number) → List (Instance Number)
  all_instances [] = []
  all_instances ((id, i) ∷ rest) =
      let others = all_instances rest in if is_deleted i then others else i ∷ others
