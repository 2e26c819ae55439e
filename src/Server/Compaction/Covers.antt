-- ===== src/Server/Compaction/Covers.antt =====
-- An automatic compaction leaves a snapshot of every instance that is as new as the instance.
use rstmdb.Base.{
  ℕ, ◌≤◌, ◌≡◌, ◌≢◌, ◌⊎◌, ◌∙◌, refl, ap, subst, arith, String, true, false, some, List, [], ◌∷◌,
  string_key, inl, inr, Option-cases, Bool-cases, ◌==◌, All,
}
use rstmdb.Base.Dict.{get, insert, get-insert, get-insert_same, All-insert}
use rstmdb.Base.Result.{ok}
use rstmdb.Core.Instance.{Instance, InstanceSnapshot, from_instance}
use rstmdb.Storage.Snapshot.{
  SnapshotStore, SnapshotMeta, SnapshotLibraries, create_snapshot, put_snapshot, meta_of,
  get_snapshot_meta, get_latest_snapshot,
}
use rstmdb.Storage.Snapshot.RoundTrip.{Fresh}
use rstmdb.Storage.Snapshot.Sound.{create_snapshot-put, Written, Reached, created, Reached-latest}
use rstmdb.Server.Compaction.{CompactionManager, needs_snapshot, snapshot_changed, run_compaction}

-- The index has a snapshot of the instance, of this offset or a later one.
abbrev IsListed : SnapshotStore → String → ℕ → Type 0
IsListed store id offset =
    (m : SnapshotMeta) × (get store.index id ≡ some m) × (offset ≤ m.wal_offset)

abbrev pub Member : {A : Type 0} → A → List A → Type 0
Member a [] = ⊥
Member a (b ∷ bs) = (b ≡ a) ⊎ Member a bs

module _ {N : Type 0} (libraries : SnapshotLibraries N) where
  -- The snapshot of the instance is loaded, with this offset or a later one.
  abbrev pub HasSnapshot : SnapshotStore → String → ℕ → Type 0
  HasSnapshot store id offset =
      (x : InstanceSnapshot N) × (get_latest_snapshot libraries store id ≡ ok (some x))
      × (x.instance_id ≡ id)
      × (offset ≤ x.wal_offset)

  -- The snapshots of these instances are read back as they are written, and their ids are new: not
  -- in the index, and different from each other.
  abbrev pub Ready : (String → String) → ℕ → List (Instance N) → SnapshotStore → Type 0
  Ready new_id now [] store = Unit
  Ready new_id now (i ∷ instances) store =
      ((bytes : List ℕ) × Written libraries (from_instance i (new_id i.id) now) bytes)
      × Fresh store (new_id i.id)
      × All (λ j. new_id i.id ≢ new_id j.id) instances
      × Ready new_id now instances store

  created_store :
      (x : InstanceSnapshot N) (bytes : List ℕ) (store : SnapshotStore)
      → Written libraries x bytes
      → (create_snapshot libraries x store).1.index
        ≡ insert store.index x.instance_id (meta_of libraries x bytes)
  unfolding put_snapshot
  created_store x bytes store w =
      let (file, p) = create_snapshot-put libraries store x bytes w.written in ap (λ s. s.index) p

  create_snapshot-Fresh :
      (x : InstanceSnapshot N) (bytes : List ℕ) (store : SnapshotStore) (id : String)
      → Written libraries x bytes
      → x.snapshot_id ≢ id
      → Fresh store id
      → Fresh (create_snapshot libraries x store).1 id
  unfolding meta_of
  create_snapshot-Fresh x bytes store id w other f = rw (created_store x bytes store w) (
      All-insert (λ (e : String × SnapshotMeta). e.1.snapshot_id ≢ id) store.index x.instance_id
        (meta_of libraries x bytes) f other)

  create_snapshot-Ready :
      (new_id : String → String) (now : ℕ) (x : InstanceSnapshot N) (bytes : List ℕ)
      (instances : List (Instance N)) (store : SnapshotStore)
      → Written libraries x bytes
      → All (λ j. x.snapshot_id ≢ new_id j.id) instances
      → Ready new_id now instances store
      → Ready new_id now instances (create_snapshot libraries x store).1
  create_snapshot-Ready new_id now x bytes [] store w others h = tt
  create_snapshot-Ready new_id now x bytes (i ∷ instances) store w others (reads, f, apart, rest) =
      (
        reads,
        create_snapshot-Fresh x bytes store (new_id i.id) w others.0 f,
        apart,
        create_snapshot-Ready new_id now x bytes instances store w others.1 rest,
      )

  snapshot_changed-Reached :
      (new_id : String → String) (now : ℕ) (instances : List (Instance N)) (store : SnapshotStore)
      → Ready new_id now instances store
      → Reached libraries store
      → Reached libraries (snapshot_changed libraries new_id now instances store).1
  unfolding snapshot_changed from_instance
  snapshot_changed-Reached new_id now [] store h r = r
  snapshot_changed-Reached new_id now (i ∷ instances) store ((bytes, w), f, apart, rest) r =
      elim (Bool-cases (needs_snapshot i store)) [
        | inl p ↦
            let x : InstanceSnapshot N = from_instance i (new_id i.id) now in
            rw (p, snapshot_changed)
              (snapshot_changed-Reached new_id now instances _
                (create_snapshot-Ready new_id now x bytes instances store w apart rest)
                (created store x bytes r f w))
        | inr p ↦
            rw (p, snapshot_changed) (snapshot_changed-Reached new_id now instances store rest r)
      ]

  create_snapshot-IsListed :
      (x : InstanceSnapshot N) (bytes : List ℕ) (store : SnapshotStore)
      → Written libraries x bytes
      → IsListed (create_snapshot libraries x store).1 x.instance_id x.wal_offset
  unfolding meta_of
  create_snapshot-IsListed x bytes store w = (
    meta_of libraries x bytes,
    rw (created_store x bytes store w) (get-insert_same store.index x.instance_id _),
    omega arith,
  )

  newer :
      (i : Instance N) (snapshot_id : String) (now : ℕ) (bytes : List ℕ) (store : SnapshotStore)
      (id : String) (offset : ℕ)
      → Written libraries (from_instance i snapshot_id now) bytes
      → needs_snapshot i store ≡ true
      → IsListed store id offset
      → IsListed (create_snapshot libraries (from_instance i snapshot_id now) store).1 id offset
  unfolding needs_snapshot get_snapshot_meta from_instance meta_of
  newer i snapshot_id now bytes store id offset w needs (m, e, h) =
      let x : InstanceSnapshot N = from_instance i snapshot_id now in
      let p = created_store x bytes store w in
      let found = get-insert store.index i.id id (meta_of libraries x bytes) in
      elim (Bool-cases (i.id == id)) [
        | inl q ↦
            (meta_of libraries x bytes, rw p (found ∙ rw q refl), ground (arith, needs, there q, h))
        | inr q ↦ (m, rw p (found ∙ rw q e), h)
      ]
    where
      there : (i.id == id) ≡ true → get store.index i.id ≡ some m
      there q = ap (get store.index) ((string_key.same_iff i.id id).0 q) ∙ e

  snapshot_changed-IsListed :
      (new_id : String → String) (now : ℕ) (instances : List (Instance N)) (store : SnapshotStore)
      (id : String) (offset : ℕ)
      → Ready new_id now instances store
      → IsListed store id offset
      → IsListed (snapshot_changed libraries new_id now instances store).1 id offset
  unfolding snapshot_changed from_instance
  snapshot_changed-IsListed new_id now [] store id offset r h = h
  snapshot_changed-IsListed new_id now (i ∷ instances) store id offset ((bytes, w), f, apart, rest)
        h =
      elim (Bool-cases (needs_snapshot i store)) [
        | inl p ↦
            let x : InstanceSnapshot N = from_instance i (new_id i.id) now in
            rw (p, snapshot_changed)
              (snapshot_changed-IsListed new_id now instances _ id offset
                (create_snapshot-Ready new_id now x bytes instances store w apart rest)
                (newer i (new_id i.id) now bytes store id offset w p h))
        | inr p ↦
            rw (p, snapshot_changed)
              (snapshot_changed-IsListed new_id now instances store id offset rest h)
      ]

  no_need :
      (i : Instance N) (store : SnapshotStore)
      → needs_snapshot i store ≡ false
      → IsListed store i.id i.last_wal_offset
  unfolding needs_snapshot get_snapshot_meta
  no_need i store p = elim (Option-cases (get store.index i.id)) [
    | inl e ↦ absurd (ground (arith, e, p))
    | inr (m, e) ↦ (m, e, ground (arith, e, p))
  ]

  snapshot_changed-all :
      (new_id : String → String) (now : ℕ) (instances : List (Instance N)) (store : SnapshotStore)
      (i : Instance N)
      → Ready new_id now instances store
      → Member i instances
      → IsListed (snapshot_changed libraries new_id now instances store).1 i.id i.last_wal_offset
  unfolding snapshot_changed from_instance
  snapshot_changed-all new_id now [] store i r h = absurd h
  snapshot_changed-all new_id now (j ∷ instances) store i ((bytes, w), f, apart, rest) (inl e) =
      let x : InstanceSnapshot N = from_instance j (new_id j.id) now in
      subst
        (λ i.
          IsListed (snapshot_changed libraries new_id now (j ∷ instances) store).1 i.id
            i.last_wal_offset)
        e
        (elim (Bool-cases (needs_snapshot j store)) [
          | inl p ↦
              rw (p, snapshot_changed)
                (snapshot_changed-IsListed new_id now instances _ j.id j.last_wal_offset
                  (create_snapshot-Ready new_id now x bytes instances store w apart rest)
                  (create_snapshot-IsListed x bytes store w))
          | inr p ↦
              rw (p, snapshot_changed)
                (snapshot_changed-IsListed new_id now instances store j.id j.last_wal_offset rest
                  (no_need j store p))
        ])
  snapshot_changed-all new_id now (j ∷ instances) store i ((bytes, w), f, apart, rest) (inr h) =
      let x : InstanceSnapshot N = from_instance j (new_id j.id) now in
      elim (Bool-cases (needs_snapshot j store)) [
        | inl p ↦
            rw (p, snapshot_changed)
              (snapshot_changed-all new_id now instances _ i
                (create_snapshot-Ready new_id now x bytes instances store w apart rest) h)
        | inr p ↦
            rw (p, snapshot_changed) (snapshot_changed-all new_id now instances store i rest h)
      ]

  -- On a store that creations under new ids and deletions lead to, where the snapshots of the
  -- instances are read back as they are written and their ids are new, a run of the automatic
  -- compaction leaves, for each instance that it was given, a snapshot that is loaded without an
  -- error, of the offset of the instance's last change or a later one.
  pub run_compaction-HasSnapshot :
      (new_id : String → String) (now instant : ℕ) (instances : List (Instance N))
      (s : CompactionManager) (i : Instance N)
      → Reached libraries s.store
      → Ready new_id now instances s.store
      → Member i instances
      → HasSnapshot
          (run_compaction libraries new_id now instant instances s).1.store
          i.id
          i.last_wal_offset
  unfolding run_compaction
  run_compaction-HasSnapshot new_id now instant instances s i reached ready h =
      let (m, e, newest) = snapshot_changed-all new_id now instances s.store i ready h in
      let (x, loaded, same, _, offset) =
        Reached-latest libraries _ i.id
          (snapshot_changed-Reached new_id now instances s.store ready reached) e in
      (x, loaded, same, rw offset newest)
