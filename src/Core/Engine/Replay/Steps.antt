-- ===== src/Core/Engine/Replay/Steps.antt =====
-- What the replay of one entry does to an engine with the same tables.
use rstmdb.Base.{
  ℕ, String, ◌≡◌, refl, sym, ◌∙◌, false, Option, none, some, string_key, nat_key, pair_key, inl,
  inr, arith,
}
use rstmdb.Base.Dict.{get, insert, contains-none}
use rstmdb.Base.Result.{ok, Result-cases}
use rstmdb.Base.Exec.{◌>>=◌}
use rstmdb.Wal.Entry.{
  WalEntry, WalOps, WalLaws, put_machine, create_instance, apply_event, delete_instance,
}
use rstmdb.Core.Json.{Value, is_null}
use rstmdb.Core.Definition.{Libraries, MachineDefinition, from_json}
use rstmdb.Core.Instance.{Instance, new_instance, apply_transition, soft_delete, deleted}
use rstmdb.Core.Engine.{Engine, Call, append_log}
use rstmdb.Core.Engine.Replay.{replay_entry, or_else, update_instance}
use rstmdb.Core.Engine.Replay.Durable.{
  Same, IsDurable, Same-none, Same-some, Same-insert, Same-define, failed_append,
}

module _ (libraries : Libraries) (ops : WalOps libraries.platform.Number) where
  open libraries.platform use {Number}

  pub replay_create :
      (s t : Engine libraries ops) (w : ops.Wal) (now later offset version : ℕ)
      (id machine state : String) (ctx : Value Number) (key : Option String)
      → Same libraries ops s t
      → get s.instances id ≡ none
      → (t' : Engine libraries ops) × (replay_entry libraries ops later t offset
            (create_instance id machine version state ctx key)
          ≡ ok t')
        × Same libraries ops
            (record s {
              log = w;
              instances =
                  insert s.instances id (new_instance id machine version state ctx offset now);
            })
            t'
  unfolding replay_entry
  replay_create s t w now later offset version id machine state ctx key same e = (
    record t {
      instances = insert t.instances id (new_instance id machine version state ctx offset later);
    },
    rw (contains-none t.instances id (Same-none libraries ops s t id same e), replay_entry),
    Same-insert libraries ops s t w id (new_instance id machine version state ctx offset now)
        (new_instance id machine version state ctx offset later) same (unfold new_instance in refl),
  )

  pub replay_apply :
      (s t : Engine libraries ops) (w : ops.Wal) (now later offset : ℕ) (id event from to : String)
      (payload ctx : Value Number) (event_id key : Option String) {i : Instance Number}
      → Same libraries ops s t
      → get s.instances id ≡ some i
      → (t' : Engine libraries ops) × (replay_entry libraries ops later t offset
            (apply_event id event from to payload ctx event_id key)
          ≡ ok t')
        × Same libraries ops
            (record s {
              log = w;
              instances = insert s.instances id (apply_transition i to ctx event_id offset now);
            })
            t'
  unfolding replay_entry
  replay_apply s t w now later offset id event from to payload ctx event_id key {i} same e =
      let (j, found, views) = Same-some libraries ops s t id same e in
      let j' : Instance Number = record j {
        state = to;
        ctx = ctx;
        last_wal_offset = offset;
        last_event_id = or_else libraries ops event_id j.last_event_id;
      } in
      (
        record t { instances = insert t.instances id j' },
        rw (found, update_instance),
        Same-insert libraries ops s t w id (apply_transition i to ctx event_id offset now) j' same
            (unfold apply_transition in ground arith),
      )

  pub replay_delete :
      (s t : Engine libraries ops) (w : ops.Wal) (now later offset : ℕ) (id : String)
      (key : Option String) {i : Instance Number}
      → Same libraries ops s t
      → get s.instances id ≡ some i
      → (t' : Engine libraries ops) × (replay_entry libraries ops later t offset
            (delete_instance id key)
          ≡ ok t')
        × Same libraries ops
            (record s { log = w; instances = insert s.instances id (soft_delete i offset now) })
            t'
  unfolding replay_entry
  replay_delete s t w now later offset id key {i} same e =
      let (j, found, views) = Same-some libraries ops s t id same e in
      let j' : Instance Number = record j { instance_state = deleted; last_wal_offset = offset } in
      (
        record t { instances = insert t.instances id j' },
        rw (found, update_instance),
        Same-insert libraries ops s t w id (soft_delete i offset now) j' same
            (unfold soft_delete in ground arith),
      )

  -- `null` is no definition, so a definition that was accepted is not skipped.
  not_null :
      (name : String) (version : ℕ) (json : Value Number) {d : MachineDefinition libraries}
      → libraries.raw_of_json Value.null ≡ none
      → from_json libraries name version json ≡ ok d
      → is_null json ≡ false
  unfolding from_json is_null
  not_null name version Value.null n e = cc
  not_null name version _ n e = refl

  pub replay_put :
      (s t : Engine libraries ops) (w : ops.Wal) (later offset version : ℕ) (name hash : String)
      (json : Value Number) {d : MachineDefinition libraries}
      → libraries.raw_of_json Value.null ≡ none
      → Same libraries ops s t
      → get s.definitions (name, version) ≡ none
      → from_json libraries name version json ≡ ok d
      → (t' : Engine libraries ops) × (replay_entry libraries ops later t offset
            (put_machine name version hash json)
          ≡ ok t')
        × Same libraries ops
            (record s { log = w; definitions = insert s.definitions (name, version) d })
            t'
  unfolding replay_entry
  replay_put s t w later offset version name hash json {d} n same e parsed = (
    record t { definitions = insert t.definitions (name, version) d },
    rw (
      not_null name version json n parsed,
      contains-none t.definitions (name, version) (sym (same.definitions (name, version)) ∙ e),
      parsed,
      replay_entry,
    ),
    Same-define libraries ops s t w (name, version) d same,
  )

  module _ (laws : WalLaws ops) (later : ℕ) where
    pub logged :
        {A : Type 0} (s : Engine libraries ops) (e : WalEntry Number)
        (k : ℕ × ℕ → Call libraries ops A)
        → IsDurable libraries ops laws later s
        → ((q o : ℕ)
            → (ops.append s.log e).0 ≡ ok (q, o)
            → IsDurable libraries ops laws later
                (k (q, o) (record s { log = (ops.append s.log e).1 })).1)
        → IsDurable libraries ops laws later ((append_log libraries ops e >>= k) s).1
    unfolding append_log
    logged s e k d next = elim (Result-cases (ops.append s.log e).0) [
      | inl ((q, o), p) ↦ rw (p, append_log) (next q o p)
      | inr (x, p) ↦ rw (p, append_log) (failed_append libraries ops laws later s e x d p)
    ]
