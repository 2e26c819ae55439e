-- ===== src/Core/Engine/Failures.antt =====
-- A call that fails leaves the tables of the engine as they were.
use rstmdb.Base.{
  ℕ, String, ◌≡◌, refl, sym, ◌∙◌, Option, Option-cases, Bool-cases, inl, inr, string_key, nat_key,
  pair_key, ◌==◌,
}
use rstmdb.Base.Dict.{get, contains}
use rstmdb.Base.Result.{ok, err, Result-cases}
use rstmdb.Base.Exec.{◌>>=◌, lift}
use rstmdb.Wal.Entry.{WalOps, WalEntry}
use rstmdb.Core.Json.{Value, merge_ctx}
use rstmdb.Core.Error.{Stop}
use rstmdb.Core.Definition.{Libraries, MachineDefinition, Expr, from_json}
use rstmdb.Core.Instance.{Instance, is_deleted}
use rstmdb.Core.Engine.{
  Engine, Call, Request, apply_event_call, cached, commit, apply_found, check_state, check_offset,
  get_machine, find_transition, check_guard, get_instance, append_log, delete_instance_call,
  delete_found, put_machine_call, existing_machine, create_instance_call, create_fresh, fail,
}
use rstmdb.Core.Engine.Checks.{
  check_state_same, check_offset_same, get_machine_same, find_transition_same, check_guard_same,
}

module _ (libraries : Libraries) (ops : WalOps libraries.platform.Number) where
  open libraries.platform use {Number}

  -- The tables are the same; the log may differ.
  pub record Untouched (s t : Engine libraries ops) : Type 0 where
    pub definitions : t.definitions ≡ s.definitions
    pub instances : t.instances ≡ s.instances
    pub cache : t.idempotency_cache ≡ s.idempotency_cache

  untouched : (s : Engine libraries ops) → Untouched s s
  untouched s = record { definitions = refl; instances = refl; cache = refl }

  then : {s t u : Engine libraries ops} → Untouched s t → Untouched t u → Untouched s u
  then a b = record {
    definitions = b.definitions ∙ a.definitions;
    instances = b.instances ∙ a.instances;
    cache = b.cache ∙ a.cache;
  }

  -- It may fail, and then it leaves the tables.
  abbrev Safe : {A : Type 0} → Call libraries ops A → Type 0
  Safe m = (s : Engine libraries ops) (x : Stop) → (m s).0 ≡ err x → Untouched s (m s).1

  ok_ne : {A : Type 0} {a : A} {x : Stop} → ok a ≡ err x → ⊥
  ok_ne e = cc

  bind-Safe :
      {A B : Type 0} (m : Call libraries ops A) (f : A → Call libraries ops B)
      → ((s : Engine libraries ops) → Untouched s (m s).1)
      → ((a : A) → Safe (f a))
      → Safe (m >>= f)
  bind-Safe m f k h s x e = elim (Result-cases (m s).0) [
    | inl (a, p) ↦ rw p (then (k s) (h a (m s).1 x (rw p at e)))
    | inr (y, p) ↦ rw p (k s)
  ]

  same-Safe :
      {A B : Type 0} (m : Call libraries ops A) (f : A → Call libraries ops B)
      → ((s : Engine libraries ops) → (m s).1 ≡ s)
      → ((a : A) → Safe (f a))
      → Safe (m >>= f)
  same-Safe m f k = bind-Safe m f (λ s. rw (k s) (untouched s))

  -- An entry is logged, and what follows does not fail.
  log-Safe :
      {A : Type 0} (entry : WalEntry Number) (f : ℕ × ℕ → Call libraries ops A)
      → ((at : ℕ × ℕ) (s : Engine libraries ops) → (a : A) × ((f at s).0 ≡ ok a))
      → Safe (append_log libraries ops entry >>= f)
  unfolding append_log
  log-Safe entry f h =
      bind-Safe (append_log libraries ops entry) f
        (λ s. record { definitions = refl; instances = refl; cache = refl })
        (λ at s x e. let (a, p) = h at s in absurd (ok_ne (sym p ∙ e)))

  commit-Safe :
      (q : Request libraries ops) (i : Instance Number) (to : String) (ctx : Value Number) (now : ℕ)
      → Safe (commit libraries ops q i to ctx now)
  unfolding commit
  commit-Safe q i to ctx now = log-Safe _ _ (λ at t. (_, refl))

  apply_found-Safe :
      (q : Request libraries ops) (i : Instance Number) (now : ℕ)
      → Safe (apply_found libraries ops q i now)
  unfolding apply_found
  apply_found-Safe q i now =
      same-Safe (check_state libraries ops q.expected_state i.state) _
        (check_state_same libraries ops q.expected_state i.state)
        (λ _.
          same-Safe (check_offset libraries ops q.expected_wal_offset i.last_wal_offset) _
            (check_offset_same libraries ops q.expected_wal_offset i.last_wal_offset)
            (λ _.
              same-Safe (get_machine libraries ops i.machine i.version) _
                (get_machine_same libraries ops i.machine i.version)
                (λ d.
                  same-Safe (find_transition libraries ops d i.state q.event) _
                    (find_transition_same libraries ops d i.state q.event)
                    (λ (t : String × Option (Expr libraries)).
                      same-Safe (check_guard libraries ops t.1 i t.0 q.event) _
                        (check_guard_same libraries ops t.1 i t.0 q.event)
                        (λ _. commit-Safe q i t.0 (merge_ctx i.ctx q.payload) now)))))

  get_instance_same :
      (id : String) (s : Engine libraries ops) → (get_instance libraries ops id s).1 ≡ s
  unfolding get_instance
  get_instance_same id s = elim (Option-cases (get s.instances id)) [
    | inl p ↦ rw (p, get_instance) refl
    | inr (i, p) ↦ rw (p, get_instance) refl
  ]

  -- An `apply_event` that fails, for whatever reason, leaves all machines, instances and cached
  -- results as they were.
  pub apply_event-Untouched :
      (q : Request libraries ops) (now : ℕ) (s : Engine libraries ops) (x : Stop)
      → (apply_event_call libraries ops q now s).0 ≡ err x
      → Untouched s (apply_event_call libraries ops q now s).1
  unfolding apply_event_call
  apply_event-Untouched q now s x e =
      elim (Option-cases (cached libraries ops s q.instance_id q.idempotency_key)) [
        | inr (r, p) ↦ rw (p, apply_event_call) (untouched s)
        | inl p ↦
            rw (p, apply_event_call)
              (same-Safe (get_instance libraries ops q.instance_id) _
                (get_instance_same q.instance_id) (λ i. apply_found-Safe q i now) s x
                (rw (p, apply_event_call) at e))
      ]

  delete_found-Safe :
      (id : String) (key : Option String) (i : Instance Number) (now : ℕ)
      → Safe (delete_found libraries ops id key i now)
  unfolding delete_found
  delete_found-Safe id key i now s x e = elim (Bool-cases (is_deleted i)) [
    | inl p ↦ rw (p, delete_found) (untouched s)
    | inr p ↦
        rw (p, delete_found) (log-Safe _ _ (λ at t. (_, refl)) s x (rw (p, delete_found) at e))
  ]

  -- A `delete_instance` that fails leaves all machines, instances and cached results as they were.
  pub delete_instance-Untouched :
      (id : String) (key : Option String) (now : ℕ) (s : Engine libraries ops) (x : Stop)
      → (delete_instance_call libraries ops id key now s).0 ≡ err x
      → Untouched s (delete_instance_call libraries ops id key now s).1
  unfolding delete_instance_call
  delete_instance-Untouched id key now s x e =
      same-Safe (get_instance libraries ops id) _ (get_instance_same id)
        (λ i. delete_found-Safe id key i now) s x e

  create_fresh-Safe :
      (id machine : String) (version : ℕ) (ctx : Value Number) (key : Option String) (now : ℕ)
      → Safe (create_fresh libraries ops id machine version ctx key now)
  unfolding create_fresh fail
  create_fresh-Safe id machine version ctx key now s x e =
      elim (Bool-cases (contains s.instances id)) [
        | inl p ↦ rw (p, create_fresh) (untouched s)
        | inr p ↦
            rw (p, create_fresh)
              (same-Safe (get_machine libraries ops machine version) _
                (get_machine_same libraries ops machine version)
                (λ d. log-Safe _ _ (λ at t. (_, refl))) s x (rw (p, create_fresh) at e))
      ]

  -- A `create_instance` that fails leaves all machines, instances and cached results as they were.
  pub create_instance-Untouched :
      (id machine : String) (version : ℕ) (ctx : Value Number) (key : Option String) (now : ℕ)
      (s : Engine libraries ops) (x : Stop)
      → (create_instance_call libraries ops id machine version ctx key now s).0 ≡ err x
      → Untouched s (create_instance_call libraries ops id machine version ctx key now s).1
  unfolding create_instance_call
  create_instance-Untouched id machine version ctx key now s x e =
      elim (Option-cases (cached libraries ops s id key)) [
        | inl p ↦
            rw (p, create_instance_call)
              (create_fresh-Safe id machine version ctx key now s x
                (rw (p, create_instance_call) at e))
        | inr (r, p) ↦ elim (Option-cases (get s.instances id)) [
          | inl g ↦
              rw (p, g, create_instance_call)
                (create_fresh-Safe id machine version ctx key now s x
                  (rw (p, g, create_instance_call) at e))
          | inr (i, g) ↦ rw (p, g, create_instance_call) (untouched s)
        ]
      ]

  existing-Safe :
      (name : String) (version : ℕ) (m d : MachineDefinition libraries)
      → Safe (existing_machine libraries ops name version m d)
  unfolding existing_machine fail
  existing-Safe name version m d s x e = elim (Bool-cases (m.checksum == d.checksum)) [
    | inl p ↦ rw (p, existing_machine) (untouched s)
    | inr p ↦ rw (p, existing_machine) (untouched s)
  ]

  -- A `put_machine` that fails leaves all machines, instances and cached results as they were.
  pub put_machine-Untouched :
      (name : String) (version : ℕ) (json : Value Number) (s : Engine libraries ops) (x : Stop)
      → (put_machine_call libraries ops name version json s).0 ≡ err x
      → Untouched s (put_machine_call libraries ops name version json s).1
  unfolding put_machine_call
  put_machine-Untouched name version json s x e =
      elim (Option-cases (get s.definitions (name, version))) [
        | inr (m, p) ↦
            rw (p, put_machine_call)
              (bind-Safe (lift (from_json libraries name version json)) _ (λ t. untouched t)
                (λ d. existing-Safe name version m d) s x (rw (p, put_machine_call) at e))
        | inl p ↦
            rw (p, put_machine_call)
              (bind-Safe (lift (from_json libraries name version json)) _ (λ t. untouched t)
                (λ d. log-Safe _ _ (λ at t. (_, refl))) s x (rw (p, put_machine_call) at e))
      ]
