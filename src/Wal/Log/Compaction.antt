-- ===== src/Wal/Log/Compaction.antt =====
-- What `compact_before` removes and what it keeps.
use rstmdb.Base.{
  ℕ, ◌<◌, ◌≤◌, ◌≡◌, refl, ◌∙◌, arith, true, false, none, some, inl, inr, ◌⊎◌, List, [], ◌∷◌, All,
  nat_key, eqb, ltb, Option-cases, Bool-cases,
}
use rstmdb.Base.Dict.{Dict, get, remove, get-remove}
use rstmdb.Wal.Offset.{segment_id}
use rstmdb.Wal.Log.{Wal, compact_before, delete_segments, ids_below}

abbrev Listed : ℕ → List ℕ → Type 0
Listed j [] = ⊥
Listed j (id ∷ ids) = (id ≡ j) ⊎ Listed j ids

ids_below-All : {V : Type 0} (bound : ℕ) (d : Dict ℕ V) → All (λ id. id < bound) (ids_below bound d)
unfolding ids_below
ids_below-All bound [] = tt
ids_below-All bound ((id, v) ∷ d) = elim (Bool-cases (ltb id bound)) [
  | inl p ↦ rw (p, ids_below) (ground arith, ids_below-All bound d)
  | inr p ↦ rw (p, ids_below) (ids_below-All bound d)
]

ids_below-Listed :
    {V : Type 0} (bound : ℕ) (d : Dict ℕ V) (j : ℕ) (v : V)
    → j < bound
    → get d j ≡ some v
    → Listed j (ids_below bound d)
unfolding ids_below get
ids_below-Listed bound [] j v h e = absurd cc
ids_below-Listed bound ((id, w) ∷ d) j v h e = elim (Bool-cases (eqb id j)) [
  | inl p ↦
      let small : ltb id bound ≡ true = ground (arith, p) in
      rw (small, ids_below) (inl (ground (arith, p)))
  | inr p ↦
      let later = ids_below-Listed bound d j v h (ground (arith, p, e)) in
      elim (Bool-cases (ltb id bound)) [
        | inl q ↦ rw (q, ids_below) (inr later)
        | inr q ↦ rw (q, ids_below) later
      ]
]

delete_segments-kept :
    (ids : List ℕ) (n : ℕ) (w : Wal) (bound j : ℕ)
    → All (λ id. id < bound) ids
    → bound ≤ j
    → (get (delete_segments ids n w).1.segments j ≡ get w.segments j)
      × (get (delete_segments ids n w).1.files j ≡ get w.files j)
unfolding delete_segments
delete_segments-kept [] n w bound j a h = (refl, refl)
delete_segments-kept (id ∷ ids) n w bound j a h =
    let (segments, files) = delete_segments-kept ids _ _ bound j a.1 h in
    let other : eqb id j ≡ false = ground (arith, a.0) in
    (
      segments ∙ get-remove w.segments id j ∙ rw other refl,
      files ∙ get-remove w.files id j ∙ rw other refl,
    )

delete_segments-gone :
    (ids : List ℕ) (n : ℕ) (w : Wal) (j : ℕ)
    → (get w.segments j ≡ none) ⊎ Listed j ids
    → get (delete_segments ids n w).1.segments j ≡ none
unfolding delete_segments
delete_segments-gone [] n w j (inl e) = e
delete_segments-gone [] n w j (inr e) = absurd e
delete_segments-gone (id ∷ ids) n w j e =
    delete_segments-gone ids _ _ j (elim (Bool-cases (eqb id j)) [
      | inl p ↦ inl (get-remove w.segments id j ∙ rw p refl)
      | inr p ↦ left p e
    ])
  where
    left :
        eqb id j ≡ false
        → (get w.segments j ≡ none) ⊎ Listed j (id ∷ ids)
        → (get (remove w.segments id) j ≡ none) ⊎ Listed j ids
    left p (inl absent) = inl (get-remove w.segments id j ∙ rw p absent)
    left p (inr (inl same)) = absurd (ground (arith, p, same))
    left p (inr (inr later)) = inr later

-- Compaction to an offset keeps every segment from that of the offset on, and its file.
pub compact_before-kept :
    (before : ℕ) (w : Wal) (j : ℕ)
    → segment_id before ≤ j
    → (get (compact_before before w).1.segments j ≡ get w.segments j)
      × (get (compact_before before w).1.files j ≡ get w.files j)
unfolding compact_before
compact_before-kept before w j h =
    delete_segments-kept (ids_below (segment_id before) w.segments) 0 w (segment_id before) j
      (ids_below-All (segment_id before) w.segments) h

delete_segments-removed :
    (ids : List ℕ) (n : ℕ) (w : Wal) (j : ℕ)
    → (get w.files j ≡ none) ⊎ Listed j ids
    → get (delete_segments ids n w).1.files j ≡ none
unfolding delete_segments
delete_segments-removed [] n w j (inl e) = e
delete_segments-removed [] n w j (inr e) = absurd e
delete_segments-removed (id ∷ ids) n w j e =
    delete_segments-removed ids _ _ j (elim (Bool-cases (eqb id j)) [
      | inl p ↦ inl (get-remove w.files id j ∙ rw p refl)
      | inr p ↦ left p e
    ])
  where
    left :
        eqb id j ≡ false
        → (get w.files j ≡ none) ⊎ Listed j (id ∷ ids)
        → (get (remove w.files id) j ≡ none) ⊎ Listed j ids
    left p (inl absent) = inl (get-remove w.files id j ∙ rw p absent)
    left p (inr (inl same)) = absurd (ground (arith, p, same))
    left p (inr (inr later)) = inr later

-- Compaction to an offset leaves no segment before that of the offset, and deletes the file of each
-- segment before it that the log had.
pub compact_before-gone :
    (before : ℕ) (w : Wal) (j : ℕ)
    → j < segment_id before
    → (get (compact_before before w).1.segments j ≡ none)
      × ((get w.segments j ≡ none) ⊎ (get (compact_before before w).1.files j ≡ none))
unfolding compact_before
compact_before-gone before w j h =
    let ids = ids_below (segment_id before) w.segments in
    elim (Option-cases (get w.segments j)) [
      | inl p ↦ (delete_segments-gone ids 0 w j (inl p), inl p)
      | inr (v, p) ↦
          let there = ids_below-Listed (segment_id before) w.segments j v h p in
          (
            delete_segments-gone ids 0 w j (inr there),
            inr (delete_segments-removed ids 0 w j (inr there)),
          )
    ]
