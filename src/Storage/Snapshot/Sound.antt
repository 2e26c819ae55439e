-- ===== src/Storage/Snapshot/Sound.antt =====
-- The index of the snapshots, and the files it speaks of, over the life of a store; and the offset
-- from which the log is still needed.
use rstmdb.Base.{
  ◌≡◌, ◌≤◌, refl, sym, ap, ◌∙◌, subst, arith, ℕ, String, false, some, none, List, [], ◌∷◌, ◌==◌,
  string_key, All, All-map, ◌⊎◌, inl, inr, ◌≢◌, Bool-cases, Option-cases, Option, same_ne,
  same_refl, ltb,
}
use rstmdb.Base.Dict.{
  Dict, get, insert, remove, get-insert, get-insert_same, get-remove, All-insert, All-get,
}
use rstmdb.Base.Result.{ok}
use rstmdb.Core.Instance.{InstanceSnapshot}
use rstmdb.Storage.Snapshot.{
  SnapshotStore, SnapshotLibraries, SnapshotMeta, create_snapshot, delete_snapshot, put_snapshot,
  save_index, meta_of, load_snapshot, parse, verify, find_meta, values, get_latest_snapshot,
  without_snapshot, least_offset, min_wal_offset,
}
use rstmdb.Storage.Snapshot.RoundTrip.{Fresh}

-- The offset, if there is one, is at most `n`.
abbrev AtMost : ℕ → Option ℕ → Type 0
AtMost n o = (m : ℕ) × (o ≡ some m) × (m ≤ n)

least_offset-AtMost :
    (m : SnapshotMeta) (ms : List SnapshotMeta)
    → AtMost m.wal_offset (least_offset (m ∷ ms))
      × ((n : ℕ) → AtMost n (least_offset ms) → AtMost n (least_offset (m ∷ ms)))
unfolding least_offset
least_offset-AtMost m ms = elim (Option-cases (least_offset ms)) [
  | inl p ↦ (rw p (m.wal_offset, refl, omega arith), λ n (k, e, h). absurd (ground (arith, p, e)))
  | inr (n, p) ↦ elim (Bool-cases (ltb n m.wal_offset)) [
    | inl q ↦ (
      rw (p, q) (n, refl, ground (arith, q)),
      λ j (k, e, h). rw (p, q) (n, refl, ground (arith, p, e, h)),
    )
    | inr q ↦ (
      rw (p, q) (m.wal_offset, refl, omega arith),
      λ j (k, e, h). rw (p, q) (m.wal_offset, refl, ground (arith, p, q, e, h)),
    )
  ]
]

least_offset-All :
    (index : Dict String SnapshotMeta)
    → All (λ (e : String × SnapshotMeta). AtMost e.1.wal_offset (least_offset (values index))) index
unfolding values
least_offset-All [] = tt
least_offset-All ((i, m) ∷ index) =
    let (here, later) = least_offset-AtMost m (values index) in
    (here, All-map index (λ e. later e.1.wal_offset) (least_offset-All index))

-- An instance that has a snapshot has the store give an offset, and the snapshot's offset is not
-- below it.
pub min_wal_offset-bound :
    (s : SnapshotStore) (i : String) {m : SnapshotMeta}
    → get s.index i ≡ some m
    → (n : ℕ) × (min_wal_offset s ≡ some n) × (n ≤ m.wal_offset)
unfolding min_wal_offset
min_wal_offset-bound s i e = All-get _ s.index i (least_offset-All s.index) e

module _ {N : Type 0} (libraries : SnapshotLibraries N) where
  open libraries use {to_vec, from_slice, checksum}

  -- A snapshot that JSON reads back as it was written.
  pub record Written (x : InstanceSnapshot N) (bytes : List ℕ) : Type 0 where
    pub written : to_vec x ≡ some bytes
    pub read : from_slice bytes ≡ some x

  -- The stores that creations under new ids and deletions lead to.
  pub data Reached : SnapshotStore → Type 0 where
    opened : Reached (record { snapshots = []; index_file = none; index = [] })
    created :
        (s : SnapshotStore) (x : InstanceSnapshot N) (bytes : List ℕ)
        → Reached s
        → Fresh s x.snapshot_id
        → Written x bytes
        → Reached (create_snapshot libraries x s).1
    deleted :
        (s : SnapshotStore) (id : String) → Reached s → Reached (delete_snapshot libraries id s).1

  -- The file of an entry of the index.
  record Stored (files : Dict String (List ℕ)) (e : String × SnapshotMeta) : Type 0 where
    bytes : List ℕ
    snapshot : InstanceSnapshot N
    there : get files e.1.snapshot_id ≡ some bytes
    sum : e.1.checksum ≡ checksum bytes
    read : from_slice bytes ≡ some snapshot
    instance_of : snapshot.instance_id ≡ e.0
    id : snapshot.snapshot_id ≡ e.1.snapshot_id
    offset : snapshot.wal_offset ≡ e.1.wal_offset

  Sound : SnapshotStore → Type 0
  Sound s = All (Stored s.snapshots) s.index

  Stored_in :
      {files : Dict String (List ℕ)} (files' : Dict String (List ℕ)) (e : String × SnapshotMeta)
      → get files' e.1.snapshot_id ≡ get files e.1.snapshot_id
      → Stored files e
      → Stored files' e
  Stored_in files' e p h = record {
    bytes = h.bytes;
    snapshot = h.snapshot;
    there = p ∙ h.there;
    sum = h.sum;
    read = h.read;
    instance_of = h.instance_of;
    id = h.id;
    offset = h.offset;
  }

  Stored-insert :
      (files : Dict String (List ℕ)) (id : String) (bytes : List ℕ)
      (index : Dict String SnapshotMeta)
      → All (λ (e : String × SnapshotMeta). e.1.snapshot_id ≢ id) index
      → All (Stored files) index
      → All (Stored (insert files id bytes)) index
  Stored-insert files id bytes [] f h = tt
  Stored-insert files id bytes (e ∷ index) f h =
      let other : get (insert files id bytes) e.1.snapshot_id ≡ get files e.1.snapshot_id =
        get-insert files id e.1.snapshot_id bytes
        ∙ rw (same_ne id e.1.snapshot_id (λ p. f.0 (sym p))) refl in
      (Stored_in _ e other h.0, Stored-insert files id bytes index f.1 h.1)

  Stored-remove :
      (files : Dict String (List ℕ)) (id : String) (index : Dict String SnapshotMeta)
      → All (Stored files) index
      → All (Stored (remove files id)) (without_snapshot id index)
  unfolding without_snapshot
  Stored-remove files id [] h = tt
  Stored-remove files id ((i, m) ∷ index) h = elim (Bool-cases (m.snapshot_id == id)) [
    | inl p ↦ rw (p, without_snapshot) (Stored-remove files id index h.1)
    | inr p ↦
        let other : get (remove files id) m.snapshot_id ≡ get files m.snapshot_id =
          get-remove files id m.snapshot_id ∙ rw (other_id p) refl in
        rw (p, without_snapshot) (Stored_in _ (i, m) other h.0, Stored-remove files id index h.1)
  ]
    where
      other_id : (m.snapshot_id == id) ≡ false → (id == m.snapshot_id) ≡ false
      other_id p = same_ne id m.snapshot_id (λ q. absurd (cc (p, same_refl id, q)))

  pub create_snapshot-put :
      (s : SnapshotStore) (x : InstanceSnapshot N) (bytes : List ℕ)
      → to_vec x ≡ some bytes
      → (f : Option (List ℕ)) × ((create_snapshot libraries x s).1
          ≡ record (put_snapshot libraries x bytes s) { index_file = f })
  unfolding create_snapshot save_index
  create_snapshot-put s x bytes e =
      let (written, done) = libraries.write_index (put_snapshot libraries x bytes s).index in
      elim (Bool-cases done) [
        | inl d ↦ (some written, ground (arith, e, d))
        | inr d ↦ (some written, ground (arith, e, d))
      ]

  create_snapshot-Sound :
      (s : SnapshotStore) (x : InstanceSnapshot N) (bytes : List ℕ)
      → Fresh s x.snapshot_id
      → Written x bytes
      → Sound s
      → Sound (create_snapshot libraries x s).1
  unfolding put_snapshot meta_of Sound
  create_snapshot-Sound s x bytes f w h =
      let (index_file, e) = create_snapshot-put s x bytes w.written in
      let here : Stored (insert s.snapshots x.snapshot_id bytes)
          (x.instance_id, meta_of libraries x bytes) =
        record {
          bytes = bytes;
          snapshot = x;
          there = get-insert_same s.snapshots x.snapshot_id bytes;
          sum = refl;
          read = w.read;
          instance_of = refl;
          id = refl;
          offset = refl;
        } in
      subst Sound (sym e) (
        All-insert _ s.index x.instance_id _
          (Stored-insert s.snapshots x.snapshot_id bytes s.index f h) here)

  Reached-Sound : (s : SnapshotStore) → Reached s → Sound s
  unfolding delete_snapshot save_index Sound
  Reached-Sound _ opened = tt
  Reached-Sound _ (created s x bytes r f w) =
      create_snapshot-Sound s x bytes f w (Reached-Sound s r)
  Reached-Sound _ (deleted s id r) = Stored-remove s.snapshots id s.index (Reached-Sound s r)

  find_meta-All :
      (files : Dict String (List ℕ)) (index : Dict String SnapshotMeta) (id : String)
      {bytes : List ℕ}
      → All (Stored files) index
      → get files id ≡ some bytes
      → (find_meta (values index) id ≡ none)
        ⊎ ((m : SnapshotMeta) × (find_meta (values index) id ≡ some m)
            × (m.checksum ≡ checksum bytes))
  unfolding find_meta values
  find_meta-All files [] id h e = inl refl
  find_meta-All files ((i, m) ∷ index) id {bytes} h e = elim (Bool-cases (m.snapshot_id == id)) [
    | inl p ↦ rw p (inr (m, refl, same_sum ((string_key.same_iff m.snapshot_id id).0 p)))
    | inr p ↦ rw p (find_meta-All files index id h.1 e)
  ]
    where
      same_sum : m.snapshot_id ≡ id → m.checksum ≡ checksum bytes
      same_sum q =
          let found = ap (get files) q ∙ e in
          let same : h.0.bytes ≡ bytes = cc (found, h.0.there) in h.0.sum ∙ ap checksum same

  Stored-loads :
      (s : SnapshotStore) (e : String × SnapshotMeta)
      → Sound s
      → (h : Stored s.snapshots e) → load_snapshot libraries s e.1.snapshot_id ≡ ok h.snapshot
  unfolding load_snapshot verify parse Sound
  Stored-loads s e sound h =
      rw (h.there, load_snapshot)
        (elim (find_meta-All s.snapshots s.index e.1.snapshot_id sound h.there) [
          | inl p ↦ rw (p, verify) (rw (h.read, parse) refl)
          | inr (m, p, q) ↦
              rw (p, verify) (rw (q, same_refl (checksum h.bytes)) (rw (h.read, parse) refl))
        ])

  -- In every store that creations under new ids and deletions lead to, the snapshot that the index
  -- has for an instance is loaded without an error, and has the instance, the id and the log offset
  -- of its entry.
  pub Reached-latest :
      (s : SnapshotStore) (i : String) {m : SnapshotMeta}
      → Reached s
      → get s.index i ≡ some m
      → (x : InstanceSnapshot N) × (get_latest_snapshot libraries s i ≡ ok (some x))
        × (x.instance_id ≡ i)
        × (x.snapshot_id ≡ m.snapshot_id)
        × (x.wal_offset ≡ m.wal_offset)
  unfolding get_latest_snapshot Sound
  Reached-latest s i {m} r e =
      let sound = Reached-Sound s r in
      let h = All-get (Stored s.snapshots) s.index i sound e in
      (
        h.snapshot,
        rw (e, get_latest_snapshot) (rw (Stored-loads s (i, m) sound h) refl),
        h.instance_of,
        h.id,
        h.offset,
      )
