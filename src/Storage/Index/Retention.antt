-- ===== src/Storage/Index/Retention.antt =====
-- How long the idempotency index remembers.
use rstmdb.Base.{
  ℕ, ◌+◌, ◌<◌, ◌≡◌, refl, sym, ◌∙◌, arith, String, Bool, true, false, Option, some, [], ◌∷◌, ltb,
  string_key, pair_key, if◌then◌else◌, inl, inr, Bool-cases, All, ◌==◌,
}
use rstmdb.Base.Dict.{get, insert, get-insert_same, All-get}
use rstmdb.Base.Result.{Result, ok, err}
use rstmdb.Base.Exec.{continue, modify}
use rstmdb.Storage.Error.{StorageError}
use rstmdb.Storage.Index.{
  IdempotencyIndex, IdempotencyEntry, IndexLibraries, Entries, or_empty, get_entry, retain,
  is_retained, persist, cleanup, maybe_cleanup, put_entry,
}

module _ {N : Type 0} where
  abbrev Retained : ℕ → ℕ → (String × String) × IdempotencyEntry N → Type 0
  Retained now retention_ms e = now < e.1.created_at + retention_ms

  retain-All :
      (now retention_ms : ℕ) (entries : Entries N)
      → All (Retained now retention_ms) (retain now retention_ms entries)
  unfolding retain is_retained
  retain-All now retention_ms [] = tt
  retain-All now retention_ms ((k, e) ∷ entries) =
      elim (Bool-cases (is_retained now retention_ms e)) [
        | inl p ↦ rw (p, retain) (ground (arith, p), retain-All now retention_ms entries)
        | inr p ↦ rw (p, retain) (retain-All now retention_ms entries)
      ]

  retain-get :
      (now retention_ms : ℕ) (entries : Entries N) (k : String × String) {e : IdempotencyEntry N}
      → get entries k ≡ some e
      → now < e.created_at + retention_ms
      → get (retain now retention_ms entries) k ≡ some e
  unfolding retain is_retained get
  retain-get now retention_ms [] k h r = absurd cc
  retain-get now retention_ms ((j, d) ∷ entries) k {e} h r = elim (Bool-cases (j == k)) [
    | inl q ↦ ground (arith, q, h, r)
    | inr q ↦
        drop_other q (is_retained now retention_ms d)
          (retain-get now retention_ms entries k (past q) r)
  ]
    where
      past : (j == k) ≡ false → get entries k ≡ some e
      past q = sym (rw (q, get) refl) ∙ h

      drop_other :
          (j == k) ≡ false
          → (b : Bool) → get (retain now retention_ms entries) k ≡ some e
          → get
              (if b
                then (j, d) ∷ retain now retention_ms entries
                else retain now retention_ms entries)
              k
            ≡ some e
      drop_other q true later = rw (q, get) later
      drop_other q false later = later

  module _ (libraries : IndexLibraries N) where
    touched :
        (instant : ℕ) (r : Result StorageError (Unit {0})) (s : IdempotencyIndex N)
        → (continue r (λ _. modify (λ t. record t { last_cleanup = instant })) s).1.entries
          ≡ s.entries
    touched instant (ok tt) s = refl
    touched instant (err x) s = refl

    persist-entries : (s : IdempotencyIndex N) → (persist libraries s).1.entries ≡ s.entries
    unfolding persist
    persist-entries s = elim (Bool-cases s.has_path) [ inl p ↦ rw p refl | inr p ↦ rw p refl ]

    cleanup-entries :
        (now : ℕ) (s : IdempotencyIndex N)
        → (cleanup libraries now s).1.entries ≡ retain now s.retention_ms s.entries
    unfolding cleanup
    cleanup-entries now s =
        persist-entries (record s { entries = retain now s.retention_ms s.entries })

    -- A cleanup keeps every result that is younger than the retention time, whether the index could
    -- be written or not.
    pub cleanup-get :
        (now : ℕ) (s : IdempotencyIndex N) (id : Option String) (key : String)
        {e : IdempotencyEntry N}
        → get_entry s id key ≡ some e
        → now < e.created_at + s.retention_ms
        → get_entry (cleanup libraries now s).1 id key ≡ some e
    unfolding get_entry
    cleanup-get now s id key h r =
        rw (cleanup-entries now s) (retain-get now s.retention_ms s.entries _ h r)

    -- After a cleanup no result is found that is as old as the retention time.
    pub cleanup-Retained :
        (now : ℕ) (s : IdempotencyIndex N) (id : Option String) (key : String)
        {e : IdempotencyEntry N}
        → get_entry (cleanup libraries now s).1 id key ≡ some e
        → now < e.created_at + s.retention_ms
    unfolding get_entry
    cleanup-Retained now s id key {e} =
        rw (cleanup-entries now s) (λ h.
          All-get (Retained now s.retention_ms) _ _ (retain-All now s.retention_ms s.entries) h)

    -- A result that is put and is younger than the retention time is found under its key, even if
    -- the put sets off a cleanup, and even if that fails to write the index.
    pub put_entry-get :
        (s : IdempotencyIndex N) (e : IdempotencyEntry N) (now instant : ℕ)
        → now < e.created_at + s.retention_ms
        → get_entry (put_entry libraries e now instant s).1 e.instance_id e.key ≡ some e
    unfolding get_entry put_entry maybe_cleanup
    put_entry-get s e now instant h =
        let k : String × String = (or_empty e.instance_id, e.key) in
        let t : IdempotencyIndex N = record s { entries = insert s.entries k e } in
        let there : get t.entries k ≡ some e = get-insert_same s.entries k e in
        elim (Bool-cases (ltb (s.last_cleanup + 60000000000) instant)) [
          | inl p ↦ rw p (
              rw
                (
                  touched instant (cleanup libraries now t).0 (cleanup libraries now t).1,
                  cleanup-entries now t,
                )
                (retain-get now s.retention_ms t.entries k there h))
          | inr p ↦ rw p there
        ]
