-- ===== src/Storage/Snapshot/RoundTrip.antt =====
-- A snapshot that was created is the latest one of its instance, also after the store is reopened.
use rstmdb.Base.{
  arith, ◌≡◌, refl, sym, subst, String, true, some, List, [], ◌∷◌, ◌==◌, string_key, All, inl, inr,
  ◌≢◌, Bool-cases, Option-cases, same_ne, same_refl, ℕ,
}
use rstmdb.Base.Dict.{Dict, get, insert, get-insert_same}
use rstmdb.Base.Result.{ok}
use rstmdb.Core.Instance.{InstanceSnapshot}
use rstmdb.Storage.Snapshot.{
  SnapshotStore, SnapshotLibraries, SnapshotMeta, create_snapshot, put_snapshot, save_index,
  meta_of, load_snapshot, parse, verify, find_meta, values, get_latest_snapshot, open_store,
}

-- No snapshot of the index has this id.
abbrev pub Fresh : SnapshotStore → String → Type 0
Fresh s snapshot_id = All (λ (e : String × SnapshotMeta). e.1.snapshot_id ≢ snapshot_id) s.index

find_meta-insert :
    (index : Dict String SnapshotMeta) (i : String) (m : SnapshotMeta)
    → All (λ (e : String × SnapshotMeta). e.1.snapshot_id ≢ m.snapshot_id) index
    → find_meta (values (insert index i m)) m.snapshot_id ≡ some m
unfolding find_meta values insert
find_meta-insert [] i m h = rw (same_refl m.snapshot_id) refl
find_meta-insert ((j, n) ∷ index) i m h = elim (Bool-cases (j == i)) [
  | inl p ↦ rw (p, insert) (rw (same_refl m.snapshot_id) refl)
  | inr p ↦
      rw (p, insert) (rw (same_ne n.snapshot_id m.snapshot_id h.0) (find_meta-insert index i m h.1))
]

module _ {N : Type 0} (libraries : SnapshotLibraries N) where
  open libraries use {to_vec, from_slice, write_index, read_index}

  verified :
      (s : SnapshotStore) (x : InstanceSnapshot N) (bytes : List ℕ)
      → Fresh s x.snapshot_id
      → verify libraries (put_snapshot libraries x bytes s) x.snapshot_id bytes ≡ true
  unfolding verify put_snapshot meta_of
  verified s x bytes f =
      rw (find_meta-insert s.index x.instance_id (meta_of libraries x bytes) f, verify)
        (same_refl (libraries.checksum bytes))

  put_snapshot-loads :
      (s : SnapshotStore) (x : InstanceSnapshot N) (bytes : List ℕ)
      → from_slice bytes ≡ some x
      → Fresh s x.snapshot_id
      → load_snapshot libraries (put_snapshot libraries x bytes s) x.snapshot_id ≡ ok x
  unfolding load_snapshot put_snapshot verify parse meta_of
  put_snapshot-loads s x bytes e f =
      rw (get-insert_same s.snapshots x.snapshot_id bytes, load_snapshot)
        (rw (verified s x bytes f) (rw (e, parse) refl))

  saved : InstanceSnapshot N → List ℕ → SnapshotStore → SnapshotStore
  saved x bytes s =
      let t = put_snapshot libraries x bytes s in
      record t { index_file = some (write_index t.index).0 }

  create_snapshot-ok :
      (s : SnapshotStore) (x : InstanceSnapshot N) (bytes : List ℕ) {m : SnapshotMeta}
      → to_vec x ≡ some bytes
      → (create_snapshot libraries x s).0 ≡ ok m
      → (meta_of libraries x bytes ≡ m) × (create_snapshot libraries x s ≡ (ok m, saved x bytes s))
  unfolding create_snapshot save_index saved
  create_snapshot-ok s x bytes {m} p e =
      elim (Bool-cases (write_index (put_snapshot libraries x bytes s).index).1) [
        | inl d ↦ ground (arith, p, e, d)
        | inr d ↦ absurd (ground (arith, p, e, d))
      ]

  -- What a successful `create_snapshot` leaves: `s'` is the store after it.
  pub record Created (x : InstanceSnapshot N) (m : SnapshotMeta) (s' : SnapshotStore) : Type 0 where
    pub offset : m.wal_offset ≡ x.wal_offset
    pub listed : get s'.index x.instance_id ≡ some m
    pub loads : load_snapshot libraries s' x.snapshot_id ≡ ok x
    pub latest : get_latest_snapshot libraries s' x.instance_id ≡ ok (some x)
    pub reopens : open_store libraries s'.snapshots s'.index_file ≡ ok s'

  saved-Created :
      (s : SnapshotStore) (x : InstanceSnapshot N) (bytes : List ℕ)
      → Fresh s x.snapshot_id
      → from_slice bytes ≡ some x
      → (let index = (saved x bytes s).index in read_index (write_index index).0 ≡ some index)
      → Created x (meta_of libraries x bytes) (saved x bytes s)
  unfolding saved put_snapshot get_latest_snapshot open_store meta_of load_snapshot verify parse
  saved-Created s x bytes f e r =
      let found = get-insert_same s.index x.instance_id (meta_of libraries x bytes) in
      record {
        offset = refl;
        listed = found;
        loads = put_snapshot-loads s x bytes e f;
        latest = rw (found, get_latest_snapshot) (rw (put_snapshot-loads s x bytes e f) refl);
        reopens = rw (r, open_store) refl;
      }

  -- Where a snapshot and the index after it are read back as they were written, and no snapshot of
  -- the index has the id of the new one: a snapshot that was created is loaded back by its id and
  -- as the latest of its instance, the index has its offset, and opening the directory again gives
  -- the same store.
  pub create_snapshot-Created :
      (s : SnapshotStore) (x : InstanceSnapshot N) {m : SnapshotMeta}
      → Fresh s x.snapshot_id
      → ((bytes : List ℕ) → to_vec x ≡ some bytes → from_slice bytes ≡ some x)
      → (let index = (create_snapshot libraries x s).1.index in
          read_index (write_index index).0 ≡ some index)
      → (create_snapshot libraries x s).0 ≡ ok m
      → Created x m (create_snapshot libraries x s).1
  unfolding create_snapshot save_index saved
  create_snapshot-Created s x {m} f reads reads_index e = elim (Option-cases (to_vec x)) [
    | inl p ↦ absurd (ground (arith, p, e))
    | inr (bytes, p) ↦
        let (same, all) = create_snapshot-ok s x bytes p e in
        let index =
          subst (λ t. read_index (write_index t.1.index).0 ≡ some t.1.index) all reads_index in
        subst (λ t. Created x m t.1) (sym all)
          (subst (λ m. Created x m (saved x bytes s)) same
            (saved-Created s x bytes f (reads bytes p) index))
  ]
