-- ===== src/Core/Engine/Applied.antt =====
-- What holds when `apply_event` has returned a result.
use rstmdb.Base.{
  ℕ, String, ◌≡◌, refl, sym, arith, Option, none, some, Option-cases, inl, inr, true, ◌∙◌,
  string_key, nat_key, pair_key, ap,
}
use rstmdb.Base.Dict.{get, insert}
use rstmdb.Base.Result.{ok, Result-cases}
use rstmdb.Base.Exec.{bind_same}
use rstmdb.Wal.Entry.{WalOps, apply_event}
use rstmdb.Core.Json.{merge_ctx}
use rstmdb.Core.Guard.Expr.{evaluate_opt}
use rstmdb.Core.Definition.{Libraries, MachineDefinition, Expr, get_transition}
use rstmdb.Core.Instance.{Instance, apply_transition}
use rstmdb.Core.Engine.{
  Engine, Request, ApplyResult, apply_event_call, cached, remember, commit, apply_found,
  check_state, check_offset, get_machine, find_transition, check_guard, get_instance, append_log,
}
use rstmdb.Core.Engine.Checks.{
  check_state_same, check_offset_same, get_machine_same, find_transition_same, check_guard_same,
}

abbrev pub Expected {ℓ} : {A : Type ℓ} → Option A → A → Type ℓ
Expected none actual = Unit
Expected (some expected) actual = actual ≡ expected

module _ (libraries : Libraries) (ops : WalOps libraries.platform.Number) where
  open libraries.platform use {Number}

  -- The checks of a request on an instance: what is expected is there, the machine has the
  -- transition, and its guard holds.
  pub record Allowed (s : Engine libraries ops) (q : Request libraries ops) (i : Instance Number)
      : Type 0 where
    pub definition : MachineDefinition libraries
    pub target : String × Option (Expr libraries)
    pub state : Expected q.expected_state i.state
    pub offset : Expected q.expected_wal_offset i.last_wal_offset
    pub machine : get s.definitions (i.machine, i.version) ≡ some definition
    pub transition : get_transition libraries definition i.state q.event ≡ some target
    pub guard : evaluate_opt libraries.platform target.1 i.ctx ≡ true

  check_state-Expected :
      (e : Option String) (a : String) (s : Engine libraries ops) {u : Unit}
      → (check_state libraries ops e a s).0 ≡ ok u
      → Expected e a
  unfolding check_state
  check_state-Expected none a s h = tt
  check_state-Expected (some e) a s h = ground (arith, (string_key.same_iff a e))

  check_offset-Expected :
      (e : Option ℕ) (a : ℕ) (s : Engine libraries ops) {u : Unit}
      → (check_offset libraries ops e a s).0 ≡ ok u
      → Expected e a
  unfolding check_offset
  check_offset-Expected none a s h = tt
  check_offset-Expected (some e) a s h = ground arith

  get_machine-found :
      (n : String) (v : ℕ) (s : Engine libraries ops) {d : MachineDefinition libraries}
      → (get_machine libraries ops n v s).0 ≡ ok d
      → get s.definitions (n, v) ≡ some d
  unfolding get_machine
  get_machine-found n v s h = ground arith

  find_transition-found :
      (d : MachineDefinition libraries) (state event : String) (s : Engine libraries ops)
      {t : String × Option (Expr libraries)}
      → (find_transition libraries ops d state event s).0 ≡ ok t
      → get_transition libraries d state event ≡ some t
  unfolding find_transition
  find_transition-found d state event s h = ground arith

  check_guard-holds :
      (g : Option (Expr libraries)) (i : Instance Number) (to event : String)
      (s : Engine libraries ops) {u : Unit}
      → (check_guard libraries ops g i to event s).0 ≡ ok u
      → evaluate_opt libraries.platform g i.ctx ≡ true
  unfolding check_guard
  check_guard-holds g i to event s h = ground arith

  pub apply_found-Allowed :
      (q : Request libraries ops) (i : Instance Number) (now : ℕ) (s : Engine libraries ops)
      {r : ApplyResult Number}
      → (apply_found libraries ops q i now s).0 ≡ ok r
      → (a : Allowed s q i) × (apply_found libraries ops q i now s
          ≡ commit libraries ops q i a.target.0 (merge_ctx i.ctx q.payload) now s)
  unfolding apply_found
  apply_found-Allowed q i now s h =
      let (_, state, e0) =
        bind_same (check_state libraries ops q.expected_state i.state) _ s
          (check_state_same libraries ops q.expected_state i.state s) h in
      let (_, offset, e1) =
        bind_same (check_offset libraries ops q.expected_wal_offset i.last_wal_offset) _ s
          (check_offset_same libraries ops q.expected_wal_offset i.last_wal_offset s)
          (sym (ap (λ x. x.0) e0) ∙ h) in
      let (d, machine, e2) =
        bind_same (get_machine libraries ops i.machine i.version) _ s
          (get_machine_same libraries ops i.machine i.version s)
          (sym (ap (λ x. x.0) (e0 ∙ e1)) ∙ h) in
      let (t, transition, e3) =
        bind_same (find_transition libraries ops d i.state q.event) _ s
          (find_transition_same libraries ops d i.state q.event s)
          (sym (ap (λ x. x.0) (e0 ∙ e1 ∙ e2)) ∙ h) in
      let (_, guard, e4) =
        bind_same (check_guard libraries ops t.1 i t.0 q.event) _ s
          (check_guard_same libraries ops t.1 i t.0 q.event s)
          (sym (ap (λ x. x.0) (e0 ∙ e1 ∙ e2 ∙ e3)) ∙ h) in
      (
        record {
          definition = d;
          target = t;
          state = check_state-Expected q.expected_state i.state s state;
          offset = check_offset-Expected q.expected_wal_offset i.last_wal_offset s offset;
          machine = get_machine-found i.machine i.version s machine;
          transition = find_transition-found d i.state q.event s transition;
          guard = check_guard-holds t.1 i t.0 q.event s guard;
        },
        e0 ∙ e1 ∙ e2 ∙ e3 ∙ e4,
      )

  -- What the call has done: the instance made the transition, and nothing else changed.
  pub record Moved (s t : Engine libraries ops) (q : Request libraries ops) (i : Instance Number)
      (to : String) (now : ℕ) (r : ApplyResult Number) : Type 0 where
    pub from_state : r.from_state ≡ i.state
    pub to_state : r.to_state ≡ to
    pub ctx : r.ctx ≡ merge_ctx i.ctx q.payload
    pub definitions : t.definitions ≡ s.definitions
    pub instances :
        t.instances
        ≡ insert s.instances q.instance_id (apply_transition i to r.ctx q.event_id r.wal_offset now)
    pub cache :
        t.idempotency_cache
        ≡ (remember libraries ops q.instance_id q.idempotency_key r s).idempotency_cache

  -- The cache is all that `remember` touches, and all that it reads.
  remember_only :
      (id : String) (key : Option String) (r : ApplyResult Number) (s t : Engine libraries ops)
      → t.idempotency_cache ≡ s.idempotency_cache
      → ((remember libraries ops id key r t).definitions ≡ t.definitions)
        × ((remember libraries ops id key r t).instances ≡ t.instances)
        × ((remember libraries ops id key r t).idempotency_cache
            ≡ (remember libraries ops id key r s).idempotency_cache)
  unfolding remember
  remember_only id none r s t e = (refl, refl, e)
  remember_only id (some key) r s t e = (refl, refl, rw e refl)

  commit-Moved :
      (q : Request libraries ops) (i : Instance Number) (to : String) (now : ℕ)
      (s : Engine libraries ops) {r : ApplyResult Number}
      → (commit libraries ops q i to (merge_ctx i.ctx q.payload) now s).0 ≡ ok r
      → Moved s (commit libraries ops q i to (merge_ctx i.ctx q.payload) now s).1 q i to now r
  unfolding commit append_log remember
  commit-Moved q i to now s {r} h =
      elim (Result-cases
        (ops.append s.log (
          apply_event q.instance_id q.event i.state to q.payload (merge_ctx i.ctx q.payload)
            q.event_id q.idempotency_key)).0) [
              | inl (at, p) ↦
                  let same : r ≡ record {
                    from_state = i.state;
                    to_state = to;
                    ctx = merge_ctx i.ctx q.payload;
                    wal_offset = at.1;
                    sequence = at.0;
                    applied = true;
                  } =
                    ground (arith, p, h) in
                  let (definitions, instances, cache) =
                    remember_only q.instance_id q.idempotency_key _ s _ refl in
                  rw (same, p, commit)
                    (record {
                      from_state = refl;
                      to_state = refl;
                      ctx = refl;
                      definitions = definitions;
                      instances = instances;
                      cache = cache;
                    })
              | inr (x, p) ↦ absurd (ground (arith, p, h))
            ]

  -- When `apply_event` answers a request that is not in the idempotency cache, the instance was
  -- there, every check of the request held on it, it has made the transition of its machine with
  -- the merged context, and nothing but this instance and the cache entry of the request changed.
  pub apply_event-Moved :
      (q : Request libraries ops) (now : ℕ) (s : Engine libraries ops) (r : ApplyResult Number)
      → cached libraries ops s q.instance_id q.idempotency_key ≡ none
      → (apply_event_call libraries ops q now s).0 ≡ ok r
      → (i : Instance Number) × (get s.instances q.instance_id ≡ some i)
        × (a : Allowed s q i) × Moved s
            (apply_event_call libraries ops q now s).1
            q
            i
            a.target.0
            now
            r
  unfolding apply_event_call get_instance
  apply_event-Moved q now s r fresh h = elim (Option-cases (get s.instances q.instance_id)) [
    | inl p ↦ absurd (ground (arith, fresh, p, h))
    | inr (i, p) ↦
        let run : apply_event_call libraries ops q now s ≡ apply_found libraries ops q i now s =
          rw (fresh, p, get_instance, apply_event_call) refl in
        let (a, e) = apply_found-Allowed q i now s (sym (ap (λ x. x.0) run) ∙ h) in
        (
          i,
          p,
          a,
          rw (run ∙ e) (commit-Moved q i a.target.0 now s (sym (ap (λ x. x.0) (run ∙ e)) ∙ h)),
        )
  ]
