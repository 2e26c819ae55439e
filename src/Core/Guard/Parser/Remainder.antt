-- ===== src/Core/Guard/Parser/Remainder.antt =====
-- What the reading of tokens leaves of a text.
use Prim.Native.String
use Prim.Native.String.count
use Prim.Native.Char.{Char, code}
use rstmdb.Base.{
  ℕ, zero, suc, ◌-◌, ◌≤◌, ◌<◌, ◌≡◌, refl, arith, Bool, true, false, Bool-cases, inl, inr, ◌&&◌,
  String, ltb, if◌then◌else◌, ◌==◌, string_key,
}
use rstmdb.Core.Guard.Parser.Lexer.{
  Parsed, done, failed, panic, out_of_fuel, ◌>>=◌, skip_whitespace, advance, peek_is, peek_str,
  take_while, trim, trim_start, trim_end, is_whitespace,
}

-- It does not run out of fuel, and leaves at most `n` characters.
abbrev pub Fine : {A : Type 0} → ℕ → Parsed A → Type 0
Fine n (done a s) = String.count s ≤ n
Fine n (failed e) = Unit
Fine n panic = Unit
Fine n out_of_fuel = ⊥

pub bind-Fine :
    {A B : Type 0} (n : ℕ) (p : Parsed A) (f : A → String → Parsed B)
    → Fine n p
    → ((a : A) (s : String) → String.count s ≤ n → Fine n (f a s))
    → Fine n (p >>= f)
bind-Fine n (done a s) f h k = k a s h
bind-Fine n (failed e) f h k = tt
bind-Fine n panic f h k = tt
bind-Fine n out_of_fuel f h k = absurd h

pub if-Fine :
    {A : Type 0} (n : ℕ) (b : Bool) (p q : Parsed A)
    → (b ≡ true → Fine n p)
    → Fine n q
    → Fine n (if b then p else q)
if-Fine n true p q h k = h refl
if-Fine n false p q h k = k

pub Fine-le : {A : Type 0} (m n : ℕ) (p : Parsed A) → m ≤ n → Fine m p → Fine n p
Fine-le m n (done a s) h k = omega (arith, h, k)
Fine-le m n (failed e) h k = tt
Fine-le m n panic h k = tt
Fine-le m n out_of_fuel h k = k

pub count_cons : (c : Char) (s : String) → String.count (String.◌∷◌ c s) ≡ suc (String.count s)
count_cons c s = λ i. count.cons c s i

pub take_while-Fine :
    (test : ℕ → Bool) (s : String) (n : ℕ) → String.count s ≤ n → Fine n (take_while test s)
unfolding take_while
take_while-Fine test String.[] n h = h
take_while-Fine test (String.◌∷◌ c s) n h =
    let left : String.count s ≤ n = omega (arith, h, count_cons c s) in
    if-Fine n (test (code c)) _ _
      (λ _.
        if-Fine n (ltb (code c) 128) _ _
          (λ _.
            bind-Fine n (take_while test s) (λ taken rest. done (String.◌∷◌ c taken) rest)
              (take_while-Fine test s n left) (λ a t k. k))
          tt)
      h

pub skip-Fine : (s : String) (n : ℕ) → String.count s ≤ n → Fine n (skip_whitespace s)
unfolding skip_whitespace
skip-Fine s n h =
    bind-Fine n (take_while is_whitespace s) (λ _ rest. done tt rest)
      (take_while-Fine is_whitespace s n h) (λ a t k. k)

pub advance-count :
    (k : ℕ) (s : String) (n : ℕ) → String.count s ≤ n → String.count (advance k s) ≤ n
unfolding advance
advance-count zero s n h = h
advance-count (suc k) String.[] n h = h
advance-count (suc k) (String.◌∷◌ c s) n h = advance-count k s n (omega (arith, h, count_cons c s))

-- A text in which something was seen gets shorter by a step.
pub shorter :
    (k : ℕ) (s : String) (n : ℕ)
    → 0 < String.count s
    → String.count s ≤ n
    → (0 < n) × (String.count (advance (suc k) s) ≤ n - 1)
unfolding advance
shorter k String.[] n p h = absurd (omega (arith, p))
shorter k (String.◌∷◌ c s) n p h =
    (omega (arith, h, count_cons c s), advance-count k s (n - 1) (omega (arith, h, count_cons c s)))

pub peek_is-some : (c : ℕ) (s : String) → peek_is c s ≡ true → 0 < String.count s
unfolding peek_is
peek_is-some c String.[] e = absurd cc
peek_is-some c (String.◌∷◌ d s) e = omega (arith, count_cons d s)

pub peek_or-some : (s : String) → peek_str "||" s ≡ true → 0 < String.count s
unfolding peek_str
peek_or-some String.[] e = absurd cc
peek_or-some (String.◌∷◌ d s) e = omega (arith, count_cons d s)

pub peek_and-some : (s : String) → peek_str "&&" s ≡ true → 0 < String.count s
unfolding peek_str
peek_and-some String.[] e = absurd cc
peek_and-some (String.◌∷◌ d s) e = omega (arith, count_cons d s)

trim_start-count : (s : String) → String.count (trim_start s) ≤ String.count s
unfolding trim_start
trim_start-count String.[] = omega arith
trim_start-count (String.◌∷◌ c s) = elim (Bool-cases (is_whitespace (code c))) [
  | inl p ↦ rw (p, trim_start) (omega (arith, trim_start-count s, count_cons c s))
  | inr p ↦ rw (p, trim_start) (omega arith)
]

trim_end-count : (s : String) → String.count (trim_end s) ≤ String.count s
unfolding trim_end
trim_end-count String.[] = omega arith
trim_end-count (String.◌∷◌ c s) = elim (Bool-cases (is_whitespace (code c) && trim_end s == "")) [
  | inl p ↦ rw (p, trim_end) (omega arith)
  | inr p ↦
      rw (p, trim_end) (omega (arith, trim_end-count s, count_cons c s, count_cons c (trim_end s)))
]

pub trim-count : (s : String) → String.count (trim s) ≤ String.count s
unfolding trim
trim-count s = omega (arith, trim_start-count s, trim_end-count (trim_start s))
