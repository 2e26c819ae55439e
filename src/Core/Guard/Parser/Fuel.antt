-- ===== src/Core/Guard/Parser/Fuel.antt =====
-- The fuel of the parser is enough.
use Prim.Native.String
use Prim.Native.String.count
use rstmdb.Base.{ℕ, zero, suc, ◌+◌, ◌-◌, ◌*◌, ◌≤◌, ◌≡◌, arith, String, ◌==◌, string_key}
use rstmdb.Core.Guard.Expr.{Platform, GuardExpr}
use rstmdb.Core.Guard.Parser.Lexer.{
  Parsed, done, failed, panic, out_of_fuel, skip_whitespace, advance, peek_is, peek_str, trim,
}
use rstmdb.Core.Guard.Parser.Grammar.{
  close_group, parse_or, or_loop, parse_and, and_loop, parse_unary, parse_primary, parse_text,
}
use rstmdb.Core.Guard.Parser.Remainder.{
  Fine, bind-Fine, if-Fine, Fine-le, skip-Fine, advance-count, shorter, peek_is-some, peek_or-some,
  peek_and-some, trim-count,
}
use rstmdb.Core.Guard.Parser.Tokens.{comparison-Fine}

module _ (platform : Platform) where
  close-Fine :
      (e : GuardExpr platform.Number platform.Float) (s : String) (n : ℕ)
      → String.count s ≤ n
      → Fine n (close_group platform e s)
  unfolding close_group
  close-Fine e s n h =
      bind-Fine n (skip_whitespace s) _ (skip-Fine s n h)
        (λ _ t k. if-Fine n (peek_is 41 t) _ _ (λ _. advance-count 1 t n k) tt)

  -- Fuel for each level, at a text of at most `n` characters.
  mutual
    unfolding parse_or

    or-Fine :
        (fuel n : ℕ) (s : String)
        → 4 * n + 4 ≤ fuel
        → String.count s ≤ n
        → Fine n (parse_or platform fuel s)
    or-Fine zero n s f h = absurd (omega (arith, f))
    or-Fine (suc fuel) n s f h =
        bind-Fine n (parse_and platform fuel s) _ (and-Fine fuel n s (omega (arith, f)) h)
          (λ left t k.
            bind-Fine n (skip_whitespace t) _ (skip-Fine t n k)
              (λ _ u l. or_loop-Fine fuel n left u (omega (arith, f)) l))

    or_loop-Fine :
        (fuel n : ℕ) (left : GuardExpr platform.Number platform.Float) (s : String)
        → 4 * n + 3 ≤ fuel
        → String.count s ≤ n
        → Fine n (or_loop platform fuel left s)
    or_loop-Fine zero n left s f h = absurd (omega (arith, f))
    or_loop-Fine (suc fuel) n left s f h =
        if-Fine n (peek_str "||" s) _ _
          (λ e.
            let (positive, less) = shorter 1 s n (peek_or-some s e) h in
            Fine-le (n - 1) n _ (omega arith) (
              bind-Fine (n - 1) (skip_whitespace (advance 2 s)) _
                (skip-Fine (advance 2 s) (n - 1) less)
                (λ _ t k.
                  bind-Fine (n - 1) (parse_and platform fuel t) _
                    (and-Fine fuel (n - 1) t (omega (arith, f, positive)) k)
                    (λ right u l.
                      bind-Fine (n - 1) (skip_whitespace u) _ (skip-Fine u (n - 1) l) (λ _ v m.
                        or_loop-Fine fuel (n - 1) (GuardExpr.or left right) v
                          (omega (arith, f, positive)) m)))))
          h

    and-Fine :
        (fuel n : ℕ) (s : String)
        → 4 * n + 3 ≤ fuel
        → String.count s ≤ n
        → Fine n (parse_and platform fuel s)
    and-Fine zero n s f h = absurd (omega (arith, f))
    and-Fine (suc fuel) n s f h =
        bind-Fine n (parse_unary platform fuel s) _ (unary-Fine fuel n s (omega (arith, f)) h)
          (λ left t k.
            bind-Fine n (skip_whitespace t) _ (skip-Fine t n k)
              (λ _ u l. and_loop-Fine fuel n left u (omega (arith, f)) l))

    and_loop-Fine :
        (fuel n : ℕ) (left : GuardExpr platform.Number platform.Float) (s : String)
        → 4 * n + 2 ≤ fuel
        → String.count s ≤ n
        → Fine n (and_loop platform fuel left s)
    and_loop-Fine zero n left s f h = absurd (omega (arith, f))
    and_loop-Fine (suc fuel) n left s f h =
        if-Fine n (peek_str "&&" s) _ _
          (λ e.
            let (positive, less) = shorter 1 s n (peek_and-some s e) h in
            Fine-le (n - 1) n _ (omega arith) (
              bind-Fine (n - 1) (skip_whitespace (advance 2 s)) _
                (skip-Fine (advance 2 s) (n - 1) less)
                (λ _ t k.
                  bind-Fine (n - 1) (parse_unary platform fuel t) _
                    (unary-Fine fuel (n - 1) t (omega (arith, f, positive)) k)
                    (λ right u l.
                      bind-Fine (n - 1) (skip_whitespace u) _ (skip-Fine u (n - 1) l) (λ _ v m.
                        and_loop-Fine fuel (n - 1) (GuardExpr.and left right) v
                          (omega (arith, f, positive)) m)))))
          h

    unary-Fine :
        (fuel n : ℕ) (s : String)
        → 4 * n + 2 ≤ fuel
        → String.count s ≤ n
        → Fine n (parse_unary platform fuel s)
    unary-Fine zero n s f h = absurd (omega (arith, f))
    unary-Fine (suc fuel) n s f h = bind-Fine n (skip_whitespace s) _ (skip-Fine s n h) (λ _ t k.
        if-Fine n (peek_is 33 t) _ _
          (λ e.
            let (positive, less) = shorter 0 t n (peek_is-some 33 t e) k in
            Fine-le (n - 1) n _ (omega arith) (
              bind-Fine (n - 1) (skip_whitespace (advance 1 t)) _
                (skip-Fine (advance 1 t) (n - 1) less)
                (λ _ u l.
                  bind-Fine (n - 1) (parse_unary platform fuel u) _
                    (unary-Fine fuel (n - 1) u (omega (arith, f, positive)) l) (λ inner v m. m))))
          (primary-Fine fuel n t (omega (arith, f)) k))

    primary-Fine :
        (fuel n : ℕ) (s : String)
        → 4 * n + 1 ≤ fuel
        → String.count s ≤ n
        → Fine n (parse_primary platform fuel s)
    primary-Fine zero n s f h = absurd (omega (arith, f))
    primary-Fine (suc fuel) n s f h = bind-Fine n (skip_whitespace s) _ (skip-Fine s n h) (λ _ t k.
        if-Fine n (peek_is 40 t) _ _
          (λ e.
            let (positive, less) = shorter 0 t n (peek_is-some 40 t e) k in
            Fine-le (n - 1) n _ (omega arith) (
              bind-Fine (n - 1) (parse_or platform fuel (advance 1 t)) _
                (or-Fine fuel (n - 1) (advance 1 t) (omega (arith, f, positive)) less)
                (λ inner u l. close-Fine inner u (n - 1) l)))
          (comparison-Fine platform t n k))

  never : {A : Type 0} (n : ℕ) (p : Parsed A) → Fine n p → ¬ (p ≡ out_of_fuel)
  never n (done a s) h e = cc
  never n (failed x) h e = cc
  never n panic h e = cc
  never n out_of_fuel h e = h

  -- No text of n characters makes the parser run out of fuel 4 * n + 5, which is what it is given.
  pub parse_text-returns :
      (s : String) → ¬ (parse_text platform (4 * String.count s + 5) s ≡ out_of_fuel)
  unfolding parse_text
  parse_text-returns s = never (String.count s) (parse_text platform (4 * String.count s + 5) s) (
      if-Fine (String.count s) (trim s == "") _ _ (λ _. tt)
        (or-Fine (4 * String.count s + 5) (String.count s) (trim s) (omega arith) (trim-count s)))
