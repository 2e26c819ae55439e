-- ===== src/Base/Dict.antt =====
-- Dictionaries with one entry for each key, as the standard maps are used: `get`, `contains_key`,
-- `insert` and `remove` by key. The order of the entries stands for the order of iteration.
use mathlib.Core.Path.{◌≡◌, refl, sym, ap, ◌∙◌, subst}
use mathlib.Core.Logic.{◌⊎◌, inl, inr}
use mathlib.Core.Bool.{Bool, true, false}
use mathlib.Core.Option.{Option, none, some}
use mathlib.Core.List.{List, [], ◌∷◌}
use native.Mathlib.Omega.{arith}
use rstmdb.Base.Lists.{All}
use rstmdb.Base.Tests.{Bool-cases, same_refl, Key, ◌==◌, if◌then◌else◌}

abbrev pub Dict {ℓ κ} : Type ℓ → Type κ → Type (ℓ ⊔ κ)
Dict K V = List (K × V)

module _ {ℓ κ} {K : Type ℓ} {V : Type κ} ⦃e : Key K⦄ where
  unfoldable pub get : Dict K V → K → Option V
  get [] k = none
  get ((j, v) ∷ d) k = if j == k then some v else get d k

  unfoldable pub insert : Dict K V → K → V → Dict K V
  insert [] k v = (k, v) ∷ []
  insert ((j, w) ∷ d) k v = let rest = insert d k v in if j == k then (k, v) ∷ d else (j, w) ∷ rest

  unfoldable pub remove : Dict K V → K → Dict K V
  remove [] k = []
  remove ((j, w) ∷ d) k = let rest = remove d k in if j == k then rest else (j, w) ∷ rest

  -- `contains_key`
  unfoldable pub contains : Dict K V → K → Bool
  contains d k = elim (get d k) [ none ↦ false | some v ↦ true ]

  pub get-insert :
      (d : Dict K V) (k j : K) (v : V) → get (insert d k v) j ≡ (if k == j then some v else get d j)
  unfolding get insert
  get-insert [] k j v = refl
  get-insert ((i, w) ∷ d) k j v =
      ground (arith, get-insert d k j v, e.same_iff i k, e.same_iff i j, e.same_iff k j)

  pub get-remove :
      (d : Dict K V) (k j : K) → get (remove d k) j ≡ (if k == j then none else get d j)
  unfolding get remove
  get-remove [] k j = ground arith
  get-remove ((i, w) ∷ d) k j =
      ground (arith, get-remove d k j, e.same_iff i k, e.same_iff i j, e.same_iff k j)

module _ {ℓ κ} {K : Type ℓ} {V : Type κ} ⦃e : Key K⦄ where
  pub contains-none : (d : Dict K V) (k : K) → get d k ≡ none → contains d k ≡ false
  unfolding contains
  contains-none d k h = rw (h, contains)

  pub contains-some : (d : Dict K V) (k : K) {v : V} → get d k ≡ some v → contains d k ≡ true
  unfolding contains
  contains-some d k h = rw (h, contains)

  pub get-insert_same : (d : Dict K V) (k : K) (v : V) → get (insert d k v) k ≡ some v
  get-insert_same d k v = get-insert d k k v ∙ rw (same_refl k) refl

  pub get-insert_old :
      (d : Dict K V) (k j : K) (w : V) {v : V}
      → get d k ≡ none
      → get d j ≡ some v
      → get (insert d k w) j ≡ some v
  get-insert_old d k j w absent there = elim (Bool-cases (k == j)) [
    | inl p ↦ absurd (no_some (sym absent ∙ ap (get d) ((e.same_iff k j).0 p) ∙ there))
    | inr p ↦ get-insert d k j w ∙ rw p there
  ]
    where
      no_some : {v : V} → none ≡ some v → ⊥
      no_some p = cc

  pub get-insert_inv :
      (d : Dict K V) (k j : K) (w : V) {v : V}
      → get (insert d k w) j ≡ some v
      → ((k ≡ j) × (w ≡ v)) ⊎ (get d j ≡ some v)
  get-insert_inv d k j w {v} h = elim (Bool-cases (k == j)) [
    | inl p ↦
        let found : get (insert d k w) j ≡ some w = get-insert d k j w ∙ rw p refl in
        inl ((e.same_iff k j).0 p, cc (found, h))
    | inr p ↦ inr (sym (get-insert d k j w ∙ rw p refl) ∙ h)
  ]

  pub All-insert {ι} :
      (P : K × V → Type ι) (d : Dict K V) (k : K) (v : V)
      → All P d
      → P (k, v)
      → All P (insert d k v)
  unfolding insert
  All-insert P [] k v h p = (p, tt)
  All-insert P ((j, w) ∷ d) k v h p = elim (Bool-cases (j == k)) [
    | inl q ↦ rw (q, insert) (p, h.1)
    | inr q ↦ rw (q, insert) (h.0, All-insert P d k v h.1 p)
  ]

  pub All-get {ι} :
      (P : K × V → Type ι) (d : Dict K V) (k : K) {v : V} → All P d → get d k ≡ some v → P (k, v)
  unfolding get
  All-get P [] k h e = absurd (no_some e)
    where
      no_some : {v : V} → none ≡ some v → ⊥
      no_some p = cc
  All-get P ((j, w) ∷ d) k {v} h there = elim (Bool-cases (j == k)) [
    | inl q ↦
        let found : w ≡ v = cc (first q, there) in
        subst (λ i. P (i, v)) ((e.same_iff j k).0 q) (subst (λ u. P (j, u)) found h.0)
    | inr q ↦ All-get P d k h.1 (sym (later q) ∙ there)
  ]
    where
      first : (j == k) ≡ true → get ((j, w) ∷ d) k ≡ some w
      first q = rw (q, get) refl

      later : (j == k) ≡ false → get ((j, w) ∷ d) k ≡ get d k
      later q = rw (q, get) refl

pub ruleset dict_laws = (get-insert, get-remove)
