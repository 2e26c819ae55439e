-- ===== src/Core/Engine/Replay/Calls.antt =====
-- Every call of the engine keeps its log in step with its tables.
use rstmdb.Base.{
  ℕ, String, ◌≡◌, refl, Option, none, some, string_key, nat_key, pair_key, inl, inr, Option-cases,
  Bool-cases, ◌==◌,
}
use rstmdb.Base.Dict.{get, contains-none, contains-some}
use rstmdb.Base.Result.{Result-cases}
use rstmdb.Base.Exec.{◌>>=◌}
use rstmdb.Wal.Entry.{WalOps, WalLaws, put_machine, delete_instance}
use rstmdb.Core.Json.{Value, merge_ctx}
use rstmdb.Core.Definition.{Libraries, MachineDefinition, Expr, from_json}
use rstmdb.Core.Instance.{Instance, is_deleted}
use rstmdb.Core.Engine.{
  Engine, Call, Request, existing_machine, create_fresh, create_instance_call, apply_event_call,
  apply_found, commit, delete_instance_call, delete_found, put_machine_call, check_state,
  check_offset, find_transition, check_guard, get_machine, get_instance, cached, remember,
  ApplyResult,
}
use rstmdb.Core.Engine.Checks.{
  check_state_same, check_offset_same, get_machine_same, find_transition_same, check_guard_same,
}
use rstmdb.Core.Engine.Replay.Durable.{IsDurable, after_append}
use rstmdb.Core.Engine.Replay.Steps.{replay_create, replay_apply, replay_delete, replay_put, logged}

module _ (libraries : Libraries) (ops : WalOps libraries.platform.Number) where
  open libraries.platform use {Number}

  module _ (laws : WalLaws ops) (later : ℕ) where
    create_fresh-IsDurable :
        (s : Engine libraries ops) (id machine : String) (version : ℕ) (ctx : Value Number)
        (key : Option String) (now : ℕ)
        → IsDurable libraries ops laws later s
        → IsDurable libraries ops laws later
            (create_fresh libraries ops id machine version ctx key now s).1
    unfolding create_fresh
    create_fresh-IsDurable s id machine version ctx key now d =
        elim (Option-cases (get s.instances id)) [
          | inr (i, p) ↦ rw (contains-some s.instances id p, create_fresh) d
          | inl p ↦ elim (Option-cases (get s.definitions (machine, version))) [
            | inl n ↦ rw (contains-none s.instances id p, n, create_fresh, get_machine) d
            | inr (m, n) ↦
                rw (contains-none s.instances id p, n, create_fresh, get_machine)
                  (logged libraries ops laws later s _ _ d (λ q o r.
                    after_append libraries ops laws later s _ _ q o d r refl (λ t same.
                      replay_create libraries ops s t _ now later o version id machine m.initial ctx
                        key same p)))
          ]
        ]

    pub create_instance-IsDurable :
        (s : Engine libraries ops) (id machine : String) (version : ℕ) (ctx : Value Number)
        (key : Option String) (now : ℕ)
        → IsDurable libraries ops laws later s
        → IsDurable libraries ops laws later
            (create_instance_call libraries ops id machine version ctx key now s).1
    unfolding create_instance_call
    create_instance-IsDurable s id machine version ctx key now d =
        elim (Option-cases (cached libraries ops s id key)) [
          | inl p ↦
              rw (p, create_instance_call)
                (create_fresh-IsDurable s id machine version ctx key now d)
          | inr (r, p) ↦ elim (Option-cases (get s.instances id)) [
            | inl q ↦
                rw (p, q, create_instance_call)
                  (create_fresh-IsDurable s id machine version ctx key now d)
            | inr (i, q) ↦ rw (p, q, create_instance_call) d
          ]
        ]

    pub delete_instance-IsDurable :
        (s : Engine libraries ops) (id : String) (key : Option String) (now : ℕ)
        → IsDurable libraries ops laws later s
        → IsDurable libraries ops laws later (delete_instance_call libraries ops id key now s).1
    unfolding delete_instance_call
    delete_instance-IsDurable s id key now d = elim (Option-cases (get s.instances id)) [
      | inl p ↦ rw (p, get_instance) d
      | inr (i, p) ↦ elim (Bool-cases (is_deleted i)) [
        | inl gone ↦ rw (p, get_instance, gone, delete_found) d
        | inr live ↦
            rw (p, get_instance, live, delete_found)
              (logged libraries ops laws later s (delete_instance id key) _ d (λ q o r.
                after_append libraries ops laws later s _ _ q o d r refl
                  (λ t same. replay_delete libraries ops s t _ now later o id key same p)))
      ]
    ]

    existing-IsDurable :
        (s : Engine libraries ops) (name : String) (version : ℕ)
        (m new_def : MachineDefinition libraries)
        → IsDurable libraries ops laws later s
        → IsDurable libraries ops laws later
            (existing_machine libraries ops name version m new_def s).1
    unfolding existing_machine
    existing-IsDurable s name version m new_def d =
        elim (Bool-cases (m.checksum == new_def.checksum)) [
          | inl p ↦ rw (p, existing_machine) d
          | inr p ↦ rw (p, existing_machine) d
        ]

    pub put_machine-IsDurable :
        (s : Engine libraries ops) (name : String) (version : ℕ) (json : Value Number)
        → libraries.raw_of_json Value.null ≡ none
        → IsDurable libraries ops laws later s
        → IsDurable libraries ops laws later (put_machine_call libraries ops name version json s).1
    unfolding put_machine_call
    put_machine-IsDurable s name version json n d =
        elim (Option-cases (get s.definitions (name, version))) [
          | inr (m, p) ↦ elim (Result-cases (from_json libraries name version json)) [
            | inr (x, e) ↦ rw (p, e, put_machine_call) d
            | inl (new_def, e) ↦
                rw (p, e, put_machine_call) (existing-IsDurable s name version m new_def d)
          ]
          | inl p ↦ elim (Result-cases (from_json libraries name version json)) [
            | inr (x, e) ↦ rw (p, e, put_machine_call) d
            | inl (m, e) ↦
                rw (p, e, put_machine_call)
                  (logged libraries ops laws later s (put_machine name version m.checksum json) _ d
                    (λ q o r. after_append libraries ops laws later s _ _ q o d r refl (λ t same.
                      replay_put libraries ops s t _ later o version name m.checksum json n same p
                        e)))
          ]
        ]

    remember-IsDurable :
        (s : Engine libraries ops) (id : String) (key : Option String) (r : ApplyResult Number)
        → IsDurable libraries ops laws later s
        → IsDurable libraries ops laws later (remember libraries ops id key r s)
    unfolding remember
    remember-IsDurable s id none r d = d
    remember-IsDurable s id (some key) r d = record {
      valid = d.valid;
      rebuilt = λ w.
          let (t, returns, same) = d.rebuilt w in
          (t, returns, record { definitions = same.definitions; views = same.views });
    }

    commit-IsDurable :
        (s : Engine libraries ops) (q : Request libraries ops) (i : Instance Number) (to : String)
        (ctx : Value Number) (now : ℕ)
        → get s.instances q.instance_id ≡ some i
        → IsDurable libraries ops laws later s
        → IsDurable libraries ops laws later (commit libraries ops q i to ctx now s).1
    unfolding commit
    commit-IsDurable s q i to ctx now e d = logged libraries ops laws later s _ _ d (λ a o r.
        remember-IsDurable _ q.instance_id q.idempotency_key _ (
          after_append libraries ops laws later s _ _ a o d r refl (λ t same.
            replay_apply libraries ops s t _ now later o q.instance_id q.event i.state to q.payload
              ctx q.event_id q.idempotency_key same e)))

    -- A call that reads, and one that follows it.
    bound :
        {A B : Type 0} (m : Call libraries ops A) (k : A → Call libraries ops B)
        (s : Engine libraries ops)
        → (m s).1 ≡ s
        → IsDurable libraries ops laws later s
        → ((a : A) → IsDurable libraries ops laws later (k a s).1)
        → IsDurable libraries ops laws later ((m >>= k) s).1
    bound m k s same d next = elim (Result-cases (m s).0) [
      | inl (a, p) ↦ rw (p, same) (next a)
      | inr (x, p) ↦ rw (p, same) d
    ]

    apply_found-IsDurable :
        (s : Engine libraries ops) (q : Request libraries ops) (i : Instance Number) (now : ℕ)
        → get s.instances q.instance_id ≡ some i
        → IsDurable libraries ops laws later s
        → IsDurable libraries ops laws later (apply_found libraries ops q i now s).1
    unfolding apply_found
    apply_found-IsDurable s q i now e d =
        bound (check_state libraries ops q.expected_state i.state) _ s
          (check_state_same libraries ops q.expected_state i.state s) d
          (λ _.
            bound (check_offset libraries ops q.expected_wal_offset i.last_wal_offset) _ s
              (check_offset_same libraries ops q.expected_wal_offset i.last_wal_offset s) d
              (λ _.
                bound (get_machine libraries ops i.machine i.version) _ s
                  (get_machine_same libraries ops i.machine i.version s) d
                  (λ m.
                    bound (find_transition libraries ops m i.state q.event) _ s
                      (find_transition_same libraries ops m i.state q.event s) d
                      (λ (target : String × Option (Expr libraries)).
                        bound (check_guard libraries ops target.1 i target.0 q.event) _ s
                          (check_guard_same libraries ops target.1 i target.0 q.event s) d
                          (λ _.
                            commit-IsDurable s q i target.0 (merge_ctx i.ctx q.payload) now e d)))))

    pub apply_event-IsDurable :
        (s : Engine libraries ops) (q : Request libraries ops) (now : ℕ)
        → IsDurable libraries ops laws later s
        → IsDurable libraries ops laws later (apply_event_call libraries ops q now s).1
    unfolding apply_event_call
    apply_event-IsDurable s q now d =
        elim (Option-cases (cached libraries ops s q.instance_id q.idempotency_key)) [
          | inr (r, p) ↦ rw (p, apply_event_call) d
          | inl p ↦ elim (Option-cases (get s.instances q.instance_id)) [
            | inl n ↦ rw (p, n, apply_event_call, get_instance) d
            | inr (i, n) ↦
                rw (p, n, apply_event_call, get_instance) (apply_found-IsDurable s q i now n d)
          ]
        ]
