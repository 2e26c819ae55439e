-- ===== src/Storage/Store/Compacts.antt =====
-- What compaction leaves of the log: all that a snapshot still needs.
use rstmdb.Base.{
  ℕ, ◌≡◌, ◌≤◌, ◌∙◌, refl, sym, subst, arith, String, Bool, true, false, none, some, List, [], ◌∷◌,
  inl, inr, ◌⊎◌, ◌==◌, string_key, nat_key, Option-cases, Bool-cases, is_empty,
}
use rstmdb.Base.Dict.{Dict, get, contains, contains-none}
use rstmdb.Wal.Offset.{segment_id}
use rstmdb.Wal.Log.{Wal, compact_before}
use rstmdb.Wal.Log.Compaction.{compact_before-kept}
use rstmdb.Storage.Snapshot.{
  SnapshotStore, SnapshotMeta, min_wal_offset, instances_without_snapshots,
}
use rstmdb.Storage.Snapshot.Sound.{min_wal_offset-bound}
use rstmdb.Storage.Store.{Storage, StorageLibraries, keys}
use rstmdb.Core.Instance.{Instance}
use rstmdb.Storage.Store.Calls.{
  create_snapshot, on_snapshots, snapshot_each, compact_log, compact_missing, compact,
}

-- The segment of an id, and its file, are in both logs or in neither, and the same.
abbrev pub SameSegment : ℕ → Wal → Wal → Type 0
SameSegment j w w' = (get w'.segments j ≡ get w.segments j) × (get w'.files j ≡ get w.files j)

-- Compaction to the least offset of the snapshots keeps every segment from that of a snapshot on.
pub compact_before-SameSegment :
    (store : SnapshotStore) (w : Wal) (i : String) (j n : ℕ) {m : SnapshotMeta}
    → get store.index i ≡ some m
    → segment_id m.wal_offset ≤ j
    → min_wal_offset store ≡ some n
    → SameSegment j w (compact_before n w).1
unfolding segment_id
compact_before-SameSegment store w i j n {m} e h p =
    let (k, q, l) = min_wal_offset-bound store i e in
    let same : n ≡ k = cc (p, q) in compact_before-kept n w j (omega arith)

module _ {N : Type 0} (libraries : StorageLibraries N) where
  create_snapshot-wal :
      (id snapshot_id : String) (now : ℕ) (s : Storage N)
      → (create_snapshot libraries id snapshot_id now s).1.wal ≡ s.wal
  unfolding create_snapshot on_snapshots
  create_snapshot-wal id snapshot_id now s = elim (Option-cases (get s.instances id)) [
    | inl p ↦ rw (p, create_snapshot) refl
    | inr (i, p) ↦ rw (p, create_snapshot) refl
  ]

  snapshot_each-wal :
      (new_id : String → String) (now : ℕ) (ids : List String) (s : Storage N)
      → (snapshot_each libraries new_id now ids s).1.wal ≡ s.wal
  unfolding snapshot_each
  snapshot_each-wal new_id now [] s = refl
  snapshot_each-wal new_id now (id ∷ ids) s =
      snapshot_each-wal new_id now ids _ ∙ create_snapshot-wal id (new_id id) now s

  -- What a compaction leaves of the log `w`: the segments from that of any snapshot on.
  abbrev Keeps : Wal → Storage N → Type 0
  Keeps w s =
      (i : String) (j : ℕ) (m : SnapshotMeta)
      → get s.snapshots.index i ≡ some m
      → segment_id m.wal_offset ≤ j
      → SameSegment j w s.wal

  compact_log-Keeps : (n : ℕ) (s : Storage N) → Keeps s.wal (compact_log libraries n s).1
  unfolding compact_log
  compact_log-Keeps n s i j m = elim (Option-cases (min_wal_offset s.snapshots)) [
    | inl p ↦ rw (p, compact_log) (λ e h. (refl, refl))
    | inr (offset, p) ↦
        rw (p, compact_log) (λ e h. compact_before-SameSegment s.snapshots s.wal i j offset e h p)
  ]

  compact_missing-Keeps :
      (force : Bool) (new_id : String → String) (now : ℕ) (ids : List String) (s : Storage N)
      → Keeps s.wal (compact_missing libraries force new_id now ids s).1
  unfolding compact_missing
  compact_missing-Keeps force new_id now [] s = compact_log-Keeps 0 s
  compact_missing-Keeps false new_id now (id ∷ ids) s = λ i j m e h. (refl, refl)
  compact_missing-Keeps true new_id now (id ∷ ids) s =
      let (created, s') = snapshot_each libraries new_id now (id ∷ ids) s in
      subst (λ w. Keeps w (compact_log libraries created s').1)
        (snapshot_each-wal new_id now (id ∷ ids) s) (compact_log-Keeps created s')

  compact-Keeps :
      (force : Bool) (new_id : String → String) (now : ℕ) (s : Storage N)
      → Keeps s.wal (compact libraries force new_id now s).1
  unfolding compact
  compact-Keeps force new_id now s = elim (Bool-cases (is_empty (keys s.instances))) [
    | inl p ↦ rw (p, compact) (λ i j m e h. (refl, refl))
    | inr p ↦ rw (p, compact) (compact_missing-Keeps force new_id now _ s)
  ]

  -- Compaction, forced or not, keeps every segment of the log, with its file, from that of any
  -- snapshot in the index after it on.
  pub compact-SameSegment :
      (force : Bool) (new_id : String → String) (now : ℕ) (s : Storage N) (i : String) (j : ℕ)
      {m : SnapshotMeta}
      → get (compact libraries force new_id now s).1.snapshots.index i ≡ some m
      → segment_id m.wal_offset ≤ j
      → SameSegment j s.wal (compact libraries force new_id now s).1.wal
  compact-SameSegment force new_id now s i j {m} e h = compact-Keeps force new_id now s i j m e h

  abbrev Listed : String → List String → Type 0
  Listed id [] = ⊥
  Listed id (j ∷ ids) = (j ≡ id) ⊎ Listed id ids

  missing-cons :
      (store : SnapshotStore) (id : String) (ids : List String)
      → get store.index id ≡ none
      → Listed id ids
      → (j : String) × (js : List String) × (instances_without_snapshots store ids ≡ j ∷ js)
  unfolding instances_without_snapshots
  missing-cons store id [] e h = absurd h
  missing-cons store id (k ∷ ids) e (inl h) =
      rw (h, contains-none store.index id e) (id, instances_without_snapshots store ids, refl)
  missing-cons store id (k ∷ ids) e (inr h) = elim (Bool-cases (contains store.index k)) [
    | inl p ↦ rw p (missing-cons store id ids e h)
    | inr p ↦ rw p (k, instances_without_snapshots store ids, refl)
  ]

  keys-Listed :
      (instances : Dict String (Instance N)) (id : String) {i : Instance N}
      → get instances id ≡ some i
      → Listed id (keys instances)
  unfolding get keys
  keys-Listed [] id e = absurd cc
  keys-Listed ((j, k) ∷ instances) id e = elim (Bool-cases (j == id)) [
    | inl p ↦ inl ((string_key.same_iff j id).0 p)
    | inr p ↦ inr (keys-Listed instances id (sym (later p) ∙ e))
  ]
    where
      later : (j == id) ≡ false → get ((j, k) ∷ instances) id ≡ get instances id
      later p = rw (p, get) refl

  -- Without force, compaction does nothing while an instance has no snapshot.
  pub compact-refused :
      (new_id : String → String) (now : ℕ) (s : Storage N) (id : String) {i : Instance N}
      → get s.instances id ≡ some i
      → get s.snapshots.index id ≡ none
      → compact libraries false new_id now s
        ≡ (record { snapshots_created = 0; segments_deleted = 0; bytes_reclaimed = 0 }, s)
  unfolding compact compact_missing
  compact-refused new_id now s id e n =
      let (j, js, p) =
        missing-cons s.snapshots id (keys s.instances) n (keys-Listed s.instances id e) in
      rw p
        (elim (Bool-cases (is_empty (keys s.instances))) [ inl q ↦ rw q refl | inr q ↦ rw q refl ])
