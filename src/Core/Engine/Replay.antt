-- ===== src/Core/Engine/Replay.antt =====
-- rstmdb-core/src/engine.rs: opening an engine on an existing log, and the replay of its entries.
pub mod Durable
pub mod Steps
pub mod Calls
pub mod Recovery
pub mod Acknowledged
use rstmdb.Base.{
  ℕ, String, Bool, true, false, Option, none, some, List, [], ◌∷◌, ◌++◌, string_key, nat_key,
  pair_key, if◌then◌else◌, ◌≡◌, refl,
}
use rstmdb.Base.Dict.{Dict, get, insert, contains}
use rstmdb.Base.Result.{Result, ok, err, ◌>>=◌}
use rstmdb.Wal.Entry.{
  WalEntry, WalOps, Logged, put_machine, create_instance, apply_event, delete_instance, snapshot,
  checkpoint,
}
use rstmdb.Core.Json.{Value, is_null}
use rstmdb.Core.Error.{Stop, panicked, out_of_fuel}
use rstmdb.Core.Error
use rstmdb.Core.Definition.{Libraries, MachineDefinition, from_json}
use rstmdb.Core.Instance.{Instance, new_instance, deleted}
use rstmdb.Core.Engine.{Engine, of_log}

module _ (libraries : Libraries) (ops : WalOps libraries.platform.Number) where
  open libraries.platform use {Number}

  -- A definition that cannot be read again is skipped with a warning.
  keep_definition :
      Engine libraries ops
      → String × ℕ
      → Result Stop (MachineDefinition libraries)
      → Result Stop (Engine libraries ops)
  keep_definition s key (ok d) = ok (record s { definitions = insert s.definitions key d })
  keep_definition s key (err (Error.error e)) = ok s
  keep_definition s key (err panicked) = err panicked
  keep_definition s key (err out_of_fuel) = err out_of_fuel

  pub or_else : Option String → Option String → Option String
  or_else (some id) old = some id
  or_else none old = old

  pub update_instance :
      Engine libraries ops → String → (Instance Number → Instance Number) → Engine libraries ops
  update_instance s id f = elim (get s.instances id) [
    | none ↦ s
    | some i ↦ record s { instances = insert s.instances id (f i) }
  ]

  unfoldable pub replay_entry :
      ℕ → Engine libraries ops → ℕ → WalEntry Number → Result Stop (Engine libraries ops)
  unfolding keep_definition or_else update_instance
  replay_entry now s offset (put_machine machine version hash definition) =
      if is_null definition
      then ok s
      else if contains s.definitions (machine, version)
      then ok s
      else keep_definition s (machine, version) (from_json libraries machine version definition)
  replay_entry now s offset (create_instance id machine version initial_state initial_ctx key) =
      if contains s.instances id
      then ok s
      else ok (record s {
        instances =
            insert s.instances id
              (new_instance id machine version initial_state initial_ctx offset now);
      })
  replay_entry now s offset (apply_event id event from to payload ctx event_id key) = ok (
      update_instance s id (λ i. record i {
        state = to;
        ctx = ctx;
        last_wal_offset = offset;
        last_event_id = or_else event_id i.last_event_id;
      }))
  replay_entry now s offset (delete_instance id key) =
      ok (
        update_instance s id (λ i. record i { instance_state = deleted; last_wal_offset = offset }))
  replay_entry now s offset (snapshot id sid state ctx) = ok s
  replay_entry now s offset (checkpoint timestamp) = ok s

  -- The loop of `replay_wal`.
  unfoldable pub replay_entries :
      ℕ → List (Logged Number) → Engine libraries ops → Result Stop (Engine libraries ops)
  replay_entries now [] s = ok s
  replay_entries now ((sequence, offset, entry) ∷ rest) s =
      replay_entry now s offset entry >>= replay_entries now rest

  -- The engine before the replay.
  unfoldable pub fresh : ops.Wal → Engine libraries ops
  fresh w = record { definitions = []; instances = []; idempotency_cache = []; log = w }

  -- `with_wal`
  unfoldable pub with_wal : ℕ → ops.Wal → Result Stop (Engine libraries ops)
  unfolding replay_entries fresh
  with_wal now w =
      let (entries, w') = ops.read_from w 0 none in
      of_log libraries ops entries >>= λ es. replay_entries now es (fresh w')
