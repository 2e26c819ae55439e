-- ===== src/Server/Machines/Limit.antt =====
-- No machine gets more versions than the limit.
use rstmdb.Base.{
  ℕ, suc, ◌≡◌, ◌≤◌, ◌<◌, ◌∙◌, ◌⊎◌, refl, sym, ap, arith, String, true, false, none, List, [], ◌∷◌,
  ◌==◌, eqb, length, if◌then◌else◌, inl, inr, Bool-cases, Option-cases, string_key, nat_key,
  pair_key,
}
use rstmdb.Base.Dict.{Dict, get, insert}
use rstmdb.Base.Result.{Result-cases}
use rstmdb.Wal.Entry.{WalOps, put_machine}
use rstmdb.Core.Json.{Value}
use rstmdb.Core.Definition.{Libraries, MachineDefinition, from_json}
use rstmdb.Core.Engine.{Engine, put_machine_call, existing_machine, append_log, fail}
use rstmdb.Core.Engine.Listing.{get_machine_versions, versions_of, sort, insert_ordered}
use rstmdb.Server.Machines.{has_version, limit_exceeded, handle_put_machine}

length-insert_ordered : (v : ℕ) (ws : List ℕ) → length (insert_ordered v ws) ≡ suc (length ws)
unfolding insert_ordered
length-insert_ordered v [] = refl
length-insert_ordered v (w ∷ ws) = ground (arith, length-insert_ordered v ws)

length-sort : (vs : List ℕ) → length (sort vs) ≡ length vs
unfolding sort
length-sort [] = refl
length-sort (v ∷ vs) = length-insert_ordered v (sort vs) ∙ ap suc (length-sort vs)

has_version-insert_ordered :
    (v : ℕ) (ws : List ℕ) (u : ℕ)
    → has_version (insert_ordered v ws) u ≡ (if eqb v u then true else has_version ws u)
unfolding insert_ordered has_version
has_version-insert_ordered v [] u = refl
has_version-insert_ordered v (w ∷ ws) u = ground (arith, has_version-insert_ordered v ws u)

has_version-sort : (vs : List ℕ) (u : ℕ) → has_version (sort vs) u ≡ has_version vs u
unfolding sort has_version
has_version-sort [] u = refl
has_version-sort (v ∷ vs) u =
    has_version-insert_ordered v (sort vs) u ∙ rw (has_version-sort vs u) refl

module _ {D : Type 0} where
  -- A version that is not in the table is not in the list.
  versions_of-absent :
      (d : Dict (String × ℕ) D) (name : String) (v : ℕ)
      → get d (name, v) ≡ none
      → has_version (versions_of d name) v ≡ false
  unfolding get versions_of has_version
  versions_of-absent [] name v h = refl
  versions_of-absent ((k, x) ∷ d) name v h = ground (arith, h, versions_of-absent d name v)

  length-versions_of-insert :
      (d : Dict (String × ℕ) D) (k : String × ℕ) (x : D) (name : String)
      → get d k ≡ none
      → length (versions_of (insert d k x) name)
        ≡ (if k.0 == name then suc (length (versions_of d name)) else length (versions_of d name))
  unfolding get versions_of insert
  length-versions_of-insert [] k x name h = ground arith
  length-versions_of-insert ((j, y) ∷ d) k x name h =
      ground (arith, h, length-versions_of-insert d k x name)

module _ (libraries : Libraries) (ops : WalOps libraries.platform.Number) where
  open libraries.platform use {Number}

  -- The engine changes its table of machines only by a new entry.
  put_machine-table :
      (name : String) (version : ℕ) (json : Value Number) (s : Engine libraries ops)
      → ((put_machine_call libraries ops name version json s).1.definitions ≡ s.definitions)
        ⊎ ((get s.definitions (name, version) ≡ none)
            × ((d : MachineDefinition libraries) × ((put_machine_call libraries ops name version
                    json s).1.definitions
                  ≡ insert s.definitions (name, version) d)))
  unfolding put_machine_call existing_machine append_log fail
  put_machine-table name version json s = elim (Option-cases (get s.definitions (name, version))) [
    | inr (existing, p) ↦ inl (
        rw (p, put_machine_call)
          (elim (Result-cases (from_json libraries name version json)) [
            | inl (d, q) ↦ rw q (elim (Bool-cases (existing.checksum == d.checksum)) [
              | inl c ↦ rw c refl
              | inr c ↦ rw c refl
            ])
            | inr (x, q) ↦ rw q refl
          ]))
    | inl p ↦
        rw (p, put_machine_call)
          (elim (Result-cases (from_json libraries name version json)) [
            | inl (d, q) ↦
                rw q
                  (elim (Result-cases
                    (ops.append s.log (put_machine name version d.checksum json)).0) [
                      | inl (at, l) ↦ rw l (inr (refl, (d, refl)))
                      | inr (x, l) ↦ rw l (inl refl)
                    ])
            | inr (x, q) ↦ inl (rw q refl)
          ])
  ]

  -- The machine has at most so many versions.
  abbrev Within : ℕ → String → Engine libraries ops → Type 0
  Within limit name s = length (versions_of s.definitions name) ≤ limit

  put_machine-Within :
      (limit : ℕ) (machine : String) (version : ℕ) (json : Value Number) (s : Engine libraries ops)
      (name : String)
      → limit_exceeded libraries ops limit s machine version ≡ false
      → 0 < limit
      → Within limit name s
      → Within limit name (put_machine_call libraries ops machine version json s).1
  unfolding limit_exceeded get_machine_versions
  put_machine-Within limit machine version json s name e pos h =
      elim (put_machine-table machine version json s) [
        | inl same ↦ rw same h
        | inr (absent, (d, added)) ↦
            let unlisted =
              has_version-sort (versions_of s.definitions machine) version
              ∙ versions_of-absent s.definitions machine version absent in
            let room : length (versions_of s.definitions machine) < limit =
              ground (arith, e, pos, unlisted, length-sort (versions_of s.definitions machine)) in
            rw (added, length-versions_of-insert s.definitions (machine, version) d name absent)
              (elim (Bool-cases (machine == name)) [
                | inl p ↦ rw (p, sym ((string_key.same_iff machine name).0 p)) (omega (arith, room))
                | inr p ↦ rw p h
              ])
      ]

  -- Where a limit is set, a machine that has no more versions than it does not get more, whatever
  -- machine is put.
  pub handle_put_machine-limit :
      (limit : ℕ) (machine : String) (version : ℕ) (json : Value Number) (s : Engine libraries ops)
      (name : String)
      → 0 < limit
      → length (get_machine_versions s.definitions name) ≤ limit
      → length (
          get_machine_versions
            (handle_put_machine libraries ops limit machine version json s).1.definitions
            name)
        ≤ limit
  unfolding handle_put_machine get_machine_versions
  handle_put_machine-limit limit machine version json s name pos =
      let before = length-sort (versions_of s.definitions name) in
      let after = length-sort (
        versions_of (handle_put_machine libraries ops limit machine version json s).1.definitions
          name) in
      rw (before, after)
        (λ h. elim (Bool-cases (limit_exceeded libraries ops limit s machine version)) [
          | inl p ↦ rw (p, handle_put_machine) h
          | inr p ↦
              rw (p, handle_put_machine)
                (put_machine-Within limit machine version json s name p pos h)
        ])
