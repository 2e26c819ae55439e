-- ===== src/Core/Definition/Indexes.antt =====
-- The table of a definition holds the transitions of the definition, and no others.
use rstmdb.Base.{
  ℕ, String, ◌≡◌, refl, subst, sym, ap, arith, true, Option, none, some, Bool-cases, ◌⊎◌, inl, inr,
  string_key, pair_key, ◌==◌, List, [], ◌∷◌,
}
use rstmdb.Base.Dict.{get, insert, contains, get-insert_same, get-insert_old, get-insert_inv}
use rstmdb.Base.Result.{Result, ok, err, ◌>>=◌}
use rstmdb.Core.Error.{Stop}
use rstmdb.Core.Definition.{
  Libraries, MachineDefinition, MachineDefinitionRaw, Transition, Expr, Table, has_state,
  add_sources, add_transitions, from_raw, get_transition, parse_optional, checksum_of,
}

-- A transition with this source, event and target, and this text of its guard, is in the list.
abbrev pub Listed : List Transition → String → String → String → Option String → Type 0
Listed [] state event to text = ⊥
Listed (t ∷ ts) state event to text =
    ((has_state t.from state ≡ true) × (t.event ≡ event) × (t.to ≡ to) × (t.guard ≡ text))
    ⊎ Listed ts state event to text

module _ (libraries : Libraries) where
  open libraries.platform use {Number}

  -- What the loop over the sources makes of a table.
  record Added (states froms : List String) (event to : String) (guard : Option (Expr libraries))
      (old new : Table libraries) : Type 0 where
    kept :
        (k : String × String) {v : String × Option (Expr libraries)}
        → get old k ≡ some v
        → get new k ≡ some v
    put : (from : String) → has_state froms from ≡ true → get new (from, event) ≡ some (to, guard)
    only :
        (from e : String) {v : String × Option (Expr libraries)}
        → get new (from, e) ≡ some v
        → (get old (from, e) ≡ some v)
          ⊎ ((has_state froms from ≡ true)
              × (has_state states from ≡ true)
              × (e ≡ event)
              × (v ≡ (to, guard)))

  add_sources-Added :
      (states froms : List String) (event to : String) (guard : Option (Expr libraries))
      (table : Table libraries) {new : Table libraries}
      → add_sources libraries states froms event to guard table ≡ ok new
      → Added states froms event to guard table new
  unfolding add_sources has_state contains
  add_sources-Added states [] event to guard table h = record {
    kept = λ k e. ground (arith, h, e);
    put = λ from e. absurd cc;
    only = λ from e p. inl (ground (arith, h, p));
  }
  add_sources-Added states (f ∷ froms) event to guard table {new} h =
      let listed : has_state states f ≡ true = ground (arith, h) in
      let absent : get table (f, event) ≡ none = ground (arith, h) in
      let rest : add_sources libraries states froms event to guard
            (insert table (f, event) (to, guard))
          ≡ ok new =
        ground (arith, h) in
      let a =
        add_sources-Added states froms event to guard (insert table (f, event) (to, guard)) rest in
      record {
        kept = λ k e. a.kept k (get-insert_old table (f, event) k (to, guard) absent e);
        put = λ from e. elim (Bool-cases (f == from)) [
          | inl same ↦
              a.kept (from, event)
                (subst
                  (λ x. get (insert table (f, event) (to, guard)) (x, event) ≡ some (to, guard))
                  ((string_key.same_iff f from).0 same)
                  (get-insert_same table (f, event) (to, guard)))
          | inr other ↦ a.put from (ground (arith, e, other))
        ];
        only = λ from e p. elim (a.only from e p) [
          | inl old ↦ elim (get-insert_inv table (f, event) (from, e) (to, guard) old) [
            | inl (k, w) ↦ inr (
              ground (arith, string_key.same_iff f from, ap (λ x. x.0) k),
              subst (λ x. has_state states x ≡ true) (ap (λ x. x.0) k) listed,
              sym (ap (λ x. x.1) k),
              sym w,
            )
            | inr before ↦ inl before
          ]
          | inr (m, l, q, w) ↦ inr (ground (arith, m), l, q, w)
        ];
      }

  bind_ok :
      {A B : Type 0} (m : Result Stop A) (f : A → Result Stop B) {b : B}
      → (m >>= f) ≡ ok b
      → (a : A) × (m ≡ ok a) × (f a ≡ ok b)
  bind_ok (ok a) f h = (a, refl, h)
  bind_ok (err x) f h = absurd cc

  -- What the loop over the transitions makes of a table.
  record Built (states : List String) (ts : List Transition) (old new : Table libraries)
      : Type 0 where
    kept :
        (k : String × String) {v : String × Option (Expr libraries)}
        → get old k ≡ some v
        → get new k ≡ some v
    put :
        (state event to : String) (text : Option String)
        → Listed ts state event to text
        → (guard : Option (Expr libraries)) × (parse_optional libraries text ≡ ok guard)
          × (get new (state, event) ≡ some (to, guard))
    only :
        (state event to : String) {guard : Option (Expr libraries)}
        → get new (state, event) ≡ some (to, guard)
        → (get old (state, event) ≡ some (to, guard))
          ⊎ ((text : Option String) × Listed ts state event to text
              × (parse_optional libraries text ≡ ok guard)
              × (has_state states state ≡ true)
              × (has_state states to ≡ true))

  add_transitions-Built :
      (states : List String) (ts : List Transition) (table : Table libraries)
      {new : Table libraries}
      → add_transitions libraries states ts table ≡ ok new
      → Built states ts table new
  unfolding add_transitions
  add_transitions-Built states [] table h = record {
    kept = λ k e. ground (arith, h, e);
    put = λ state event to text e. absurd e;
    only = λ state event to p. inl (ground (arith, h, p));
  }
  add_transitions-Built states (t ∷ ts) table h =
      let listed : has_state states t.to ≡ true = ground (arith, h) in
      let rest : (parse_optional libraries t.guard >>= λ guard.
      add_sources libraries states t.from t.event t.to guard table
      >>= add_transitions libraries states ts)
          ≡ ok _ =
        rw (listed, add_transitions) at h in
      let (guard, parsed, h1) = bind_ok (parse_optional libraries t.guard) _ rest in
      let (mid, added, h2) =
        bind_ok (add_sources libraries states t.from t.event t.to guard table) _ h1 in
      let a = add_sources-Added states t.from t.event t.to guard table added in
      let b = add_transitions-Built states ts mid h2 in
      record {
        kept = λ k e. b.kept k (a.kept k e);
        put = λ state event to text m. elim m [
          | inl (source, same, target, words) ↦ (
            guard,
            rw (← words) parsed,
            b.kept (state, event) (rw (← same, ← target) (a.put state source)),
          )
          | inr later ↦ b.put state event to text later
        ];
        only = λ state event to {guard = g} p. elim (b.only state event to p) [
          | inl before ↦ elim (a.only state event before) [
            | inl old ↦ inl old
            | inr (m, l, e, v) ↦
                let same : to ≡ t.to = ap (λ x. x.0) v in
                let guard_of : g ≡ guard = ap (λ x. x.1) v in
                inr (t.guard, inl (m, sym e, sym same, refl), rw guard_of parsed, l, rw same listed)
          ]
          | inr (text, m, q, l, k) ↦ inr (text, inr m, q, l, k)
        ];
      }

  -- The definition is its raw form, indexed.
  pub record Indexes (raw : MachineDefinitionRaw Number) (d : MachineDefinition libraries)
      : Type 0 where
    pub initial : has_state raw.states d.initial ≡ true
    pub all :
        (state event to : String) (text : Option String)
        → Listed raw.transitions state event to text
        → (guard : Option (Expr libraries)) × (parse_optional libraries text ≡ ok guard)
          × (get_transition libraries d state event ≡ some (to, guard))
    pub only :
        (state event to : String) {guard : Option (Expr libraries)}
        → get_transition libraries d state event ≡ some (to, guard)
        → (text : Option String) × Listed raw.transitions state event to text
          × (parse_optional libraries text ≡ ok guard)
          × (has_state raw.states state ≡ true)
          × (has_state raw.states to ≡ true)

  no_entry :
      (k : String × String) (v : String × Option (Expr libraries))
      → get {V = String × Option (Expr libraries)} [] k ≡ some v
      → ⊥
  unfolding get
  no_entry k v p = cc

  -- A definition that `from_raw` accepts starts in a listed state; each transition of the raw form,
  -- for each of its sources, is what the definition does on its event, under the guard that its
  -- text is parsed to; and the definition does nothing else, between listed states.
  pub from_raw-Indexes :
      (name : String) (version : ℕ) (raw : MachineDefinitionRaw Number)
      (d : MachineDefinition libraries)
      → from_raw libraries name version raw ≡ ok d
      → Indexes raw d
  unfolding from_raw get_transition
  from_raw-Indexes name version raw d h =
      let listed : has_state raw.states raw.initial ≡ true = ground (arith, h) in
      let (table, built, h1) =
        bind_ok (add_transitions libraries raw.states raw.transitions []) _
          (rw (listed, from_raw) at h) in
      let (checksum, _, h2) = bind_ok (checksum_of libraries raw) _ h1 in
      let b = add_transitions-Built raw.states raw.transitions [] built in
      let table_of : table ≡ d.transitions = ground (arith, h2) in
      let initial_of : raw.initial ≡ d.initial = ground (arith, h2) in
      record {
        initial = rw (← initial_of) listed;
        all = λ state event to text m. rw (← table_of) (b.put state event to text m);
        only = λ state event to {guard} p. elim (b.only state event to (rw (← table_of) at p)) [
          | inl none_before ↦ absurd (no_entry (state, event) (to, guard) none_before)
          | inr found ↦ found
        ];
      }
