-- ===== src/Server/Commands/Pages.antt =====
-- A client that asks for the instances page after page.
use rstmdb.Base.{
  ℕ, zero, suc, ◌+◌, ◌-◌, ◌≡◌, ◌<◌, ◌∙◌, refl, sym, ap, arith, List, [], ◌∷◌, ◌++◌, ltb, length,
  take, drop, length-drop, length-take, min, inl, inr, Bool-cases, take_all, if◌then◌else◌, String,
  Option, none, some,
}
use native.Mathlib.Nat.{zero-add}
use rstmdb.Core.Instance.{Instance}
use rstmdb.Server.Commands.{page_of, list_instances, filter_instances, or_default}

module _ {A : Type 0} where
  take-drop : (n : ℕ) (xs : List A) → take n xs ++ drop n xs ≡ xs
  take-drop zero xs = refl
  take-drop (suc n) [] = refl
  take-drop (suc n) (x ∷ xs) = ap (◌∷◌ x) (take-drop n xs)

  drop-nil : (n : ℕ) → drop {A = A} n [] ≡ []
  drop-nil zero = refl
  drop-nil (suc n) = refl

  drop-drop : (m n : ℕ) (xs : List A) → drop m (drop n xs) ≡ drop (n + m) xs
  drop-drop m zero xs = rw (zero-add m) refl
  drop-drop m (suc n) [] = drop-nil m ∙ sym (drop-nil (suc n + m))
  drop-drop m (suc n) (x ∷ xs) =
      let next : suc n + m ≡ suc (n + m) = omega arith in rw next (drop-drop m n xs)

unfoldable pub before : {A : Type 0} → List A → Option (List A) → Option (List A)
before xs none = none
before xs (some ys) = some (xs ++ ys)

-- The pages of the instances that a client wants, from an offset on, until it is told that there is
-- no more: a call of `list_instances` for each. `none` if it is not told so within the calls that
-- the fuel allows.
abbrev pub all_pages :
    {N : Type 0}
    → ℕ
    → Option String
    → Option String
    → ℕ
    → ℕ
    → List (Instance N)
    → Option (List (Instance N))
all_pages zero machine state limit offset all = none
all_pages (suc fuel) machine state limit offset all =
    let p =
      list_instances
        (record { machine = machine; state = state; limit = some limit; offset = some offset })
        all in
    let later = all_pages fuel machine state limit (offset + limit) all in
    if p.has_more then before p.items later else some p.items

module _ {N : Type 0} (machine state : Option String) (limit : ℕ) (positive : 0 < limit)
    (all : List (Instance N)) where
  all_pages-drop :
      (fuel offset : ℕ)
      → length (filter_instances machine state all) - offset < fuel
      → all_pages fuel machine state limit offset all
        ≡ some (drop offset (filter_instances machine state all))
  unfolding list_instances page_of or_default before
  all_pages-drop zero offset h = absurd (omega arith)
  all_pages-drop (suc fuel) offset h =
      let xs = filter_instances machine state all in
      let page = take limit (drop offset xs) in
      let size : length page ≡ min limit (length xs - offset) =
        length-take limit (drop offset xs) ∙ rw (length-drop offset xs) refl in
      elim (Bool-cases (ltb (offset + length page) (length xs))) [
        | inl p ↦
            let full : length xs - (offset + limit) < fuel = ground (arith, p, size, h) in
            rw (p, all_pages-drop fuel (offset + limit) full, sym (drop-drop limit offset xs))
              (ap some (take-drop limit (drop offset xs)))
        | inr p ↦ rw p (
            ap some
              (take_all limit (drop offset xs) (ground (arith, p, size, length-drop offset xs))))
      ]

  -- A client that asks for page after page, of a size that is not zero, until it is told that there
  -- is no more, is told so after as many calls as there are instances that it wants, and one, at the
  -- latest, and has got each of these just once, in order.
  pub all_pages-all :
      all_pages (suc (length (filter_instances machine state all))) machine state limit 0 all
      ≡ some (filter_instances machine state all)
  all_pages-all = all_pages-drop (suc (length (filter_instances machine state all))) 0 (omega arith)
