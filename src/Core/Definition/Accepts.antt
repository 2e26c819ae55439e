-- ===== src/Core/Definition/Accepts.antt =====
-- Definitions that are accepted.
use rstmdb.Base.{
  ℕ, String, ◌≡◌, ◌≢◌, refl, ◌∙◌, true, Option, none, some, List, [], ◌∷◌, ◌++◌, All, string_key,
  pair_key, same_ne,
}
use rstmdb.Base.Dict.{get, insert, get-insert, contains-none}
use rstmdb.Base.Result.{ok}
use rstmdb.Core.Definition.{
  Libraries, MachineDefinition, MachineDefinitionRaw, Transition, Expr, Table, has_state,
  add_sources, add_transitions, from_raw, parse_optional, checksum_of, hex,
}
use rstmdb.Core.Definition.Indexes.{Indexes, from_raw-Indexes}

-- What the transitions are about: a source and an event.
abbrev pub sources_of : List String → String → List (String × String)
sources_of [] event = []
sources_of (from ∷ froms) event = (from, event) ∷ sources_of froms event

abbrev pub keys_of : List Transition → List (String × String)
keys_of [] = []
keys_of (t ∷ ts) = sources_of t.from t.event ++ keys_of ts

abbrev pub IsDistinct : List (String × String) → Type 0
IsDistinct [] = Unit
IsDistinct (k ∷ ks) = All (λ j. k ≢ j) ks × IsDistinct ks

module _ (libraries : Libraries) where
  open libraries.platform use {Number}

  -- The states of the transition are listed, and its guard is parsed.
  pub record IsSound (states : List String) (t : Transition) : Type 0 where
    pub target : has_state states t.to ≡ true
    pub sources : All (λ from. has_state states from ≡ true) t.from
    pub guard : Option (Expr libraries)
    pub parsed : parse_optional libraries t.guard ≡ ok guard

  abbrev Free : Table libraries → List (String × String) → Type 0
  Free table ks = All (λ k. get table k ≡ none) ks

  insert-Free :
      (table : Table libraries) (k : String × String) (v : String × Option (Expr libraries))
      (ks : List (String × String))
      → All (λ j. k ≢ j) ks
      → Free table ks
      → Free (insert table k v) ks
  insert-Free table k v [] h f = tt
  insert-Free table k v (j ∷ ks) h f =
      (get-insert table k j v ∙ rw (same_ne k j h.0) f.0, insert-Free table k v ks h.1 f.1)

  add_sources-accepts :
      (states froms : List String) (event to : String) (guard : Option (Expr libraries))
      (table : Table libraries) (others : List (String × String))
      → All (λ from. has_state states from ≡ true) froms
      → IsDistinct (sources_of froms event ++ others)
      → Free table (sources_of froms event ++ others)
      → (new : Table libraries) × (add_sources libraries states froms event to guard table ≡ ok new)
        × IsDistinct others
        × Free new others
  unfolding add_sources
  add_sources-accepts states [] event to guard table others h d f = (table, refl, d, f)
  add_sources-accepts states (from ∷ froms) event to guard table others h d f =
      let (new, e, d', f') =
        add_sources-accepts states froms event to guard (insert table (from, event) (to, guard))
          others h.1 d.1
          (insert-Free table (from, event) (to, guard) (sources_of froms event ++ others) d.0
            f.1) in
      (new, rw (h.0, contains-none table (from, event) f.0, add_sources) e, d', f')

  add_transitions-accepts :
      (states : List String) (ts : List Transition) (table : Table libraries)
      → All (IsSound states) ts
      → IsDistinct (keys_of ts)
      → Free table (keys_of ts)
      → (new : Table libraries) × (add_transitions libraries states ts table ≡ ok new)
  unfolding add_transitions
  add_transitions-accepts states [] table h d f = (table, refl)
  add_transitions-accepts states (t ∷ ts) table h d f =
      let (mid, e, d', f') =
        add_sources-accepts states t.from t.event t.to h.0.guard table (keys_of ts) h.0.sources d
          f in
      let (new, e') = add_transitions-accepts states ts mid h.1 d' f' in
      (new, rw (h.0.target, add_transitions) (rw (h.0.parsed, e) e'))

  nothing-Free : (ks : List (String × String)) → Free [] ks
  unfolding get
  nothing-Free [] = tt
  nothing-Free (k ∷ ks) = (refl, nothing-Free ks)

  checksum_of-written :
      (raw : MachineDefinitionRaw Number) (bytes : List ℕ)
      → libraries.raw_bytes raw ≡ some bytes
      → checksum_of libraries raw ≡ ok (hex 8 (libraries.crc32c bytes))
  unfolding checksum_of
  checksum_of-written raw bytes e = rw (e, checksum_of) refl

  -- A raw definition whose states of transitions are listed, the initial state too, whose guards
  -- are parsed, with no two transitions on the same event from the same state, and that JSON can
  -- write, is accepted; and the definition is its raw form, indexed.
  pub from_raw-accepts :
      (name : String) (version : ℕ) (raw : MachineDefinitionRaw Number) (bytes : List ℕ)
      → has_state raw.states raw.initial ≡ true
      → All (IsSound raw.states) raw.transitions
      → IsDistinct (keys_of raw.transitions)
      → libraries.raw_bytes raw ≡ some bytes
      → (d : MachineDefinition libraries) × (from_raw libraries name version raw ≡ ok d)
        × Indexes libraries raw d
  unfolding from_raw
  from_raw-accepts name version raw bytes initial sound apart written =
      let (table, e) =
        add_transitions-accepts raw.states raw.transitions [] sound apart
          (nothing-Free (keys_of raw.transitions)) in
      let d : MachineDefinition libraries = record {
        name = name;
        version = version;
        states = raw.states;
        initial = raw.initial;
        transitions = table;
        raw = raw;
        checksum = hex 8 (libraries.crc32c bytes);
      } in
      let accepted : from_raw libraries name version raw ≡ ok d =
        rw (initial, from_raw) (rw (e, checksum_of-written raw bytes written) refl) in
      (d, accepted, from_raw-Indexes libraries name version raw d accepted)
