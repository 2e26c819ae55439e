-- ===== src/Core/Guard/Parser/Tokens.antt =====
-- What the reading of fields, values and comparisons leaves of a text.
use Prim.Native.String
use Prim.Native.String.count
use Prim.Native.Char.{code}
use rstmdb.Base.{
  ℕ, ◌≤◌, arith, inl, inr, Option-cases, eqb, ◌||◌, not, String, ltb, if◌then◌else◌, ◌==◌,
  string_key,
}
use rstmdb.Core.Guard.Expr.{Platform, GuardExpr}
use rstmdb.Core.Guard.Parser.Lexer.{
  Parsed, done, skip_whitespace, advance, peek_is, peek_str, take_while, parse_comparison,
  is_field_char, is_digit, parse_field, number_text, to_f64, parse_number, string_body, to_number,
  parse_value, operand,
}
use rstmdb.Core.Guard.Parser.Remainder.{
  Fine, bind-Fine, if-Fine, count_cons, take_while-Fine, skip-Fine, advance-count,
}

module _ (platform : Platform) where
  field-Fine : (s : String) (n : ℕ) → String.count s ≤ n → Fine n (parse_field platform s)
  unfolding parse_field
  field-Fine s n h =
      if-Fine n (peek_str "ctx." s) _ _
        (λ _.
          bind-Fine n (take_while (is_field_char platform) (advance 4 s)) _
            (take_while-Fine (is_field_char platform) (advance 4 s) n (advance-count 4 s n h))
            (λ field left k. if-Fine n (field == "") _ _ (λ _. tt) k))
        tt

  number_text-Fine : (s : String) (n : ℕ) → String.count s ≤ n → Fine n (number_text platform s)
  unfolding number_text
  number_text-Fine s n h =
      bind-Fine n (take_while is_digit s) _ (take_while-Fine is_digit s n h) (λ whole left k.
        if-Fine n (peek_is 46 left) _ _
          (λ _.
            bind-Fine n (take_while is_digit (advance 1 left)) _
              (take_while-Fine is_digit (advance 1 left) n (advance-count 1 left n k))
              (λ part rest l. l))
          k)

  to_f64-Fine :
      (text left : String) (n : ℕ) → String.count left ≤ n → Fine n (to_f64 platform text left)
  unfolding to_f64
  to_f64-Fine text left n h = elim (Option-cases (platform.parse_f64 text)) [
    | inl p ↦ rw (p, to_f64) tt
    | inr (f, p) ↦ rw (p, to_f64) h
  ]

  number-Fine : (s : String) (n : ℕ) → String.count s ≤ n → Fine n (parse_number platform s)
  unfolding parse_number
  number-Fine s n h = bind-Fine n (skip_whitespace s) _ (skip-Fine s n h) (λ _ t k.
      if-Fine n (peek_is 45 t) _ _
        (λ _.
          bind-Fine n (number_text platform (advance 1 t)) _
            (number_text-Fine (advance 1 t) n (advance-count 1 t n k))
            (λ text left l. to_f64-Fine (String.◌++◌ "-" text) left n l))
        (bind-Fine n (number_text platform t) _ (number_text-Fine t n k)
          (λ text left l. to_f64-Fine text left n l)))

  string-Fine : (s : String) (n : ℕ) → String.count s ≤ n → Fine n (string_body platform s)
  unfolding string_body
  string-Fine String.[] n h = tt
  string-Fine (String.◌∷◌ c String.[]) n h =
      if-Fine n (eqb (code c) 34) _ _ (λ _. omega (arith, h, count_cons c ""))
        (if-Fine n (eqb (code c) 92 || not (ltb (code c) 128)) _ _ (λ _. tt) tt)
  string-Fine (String.◌∷◌ c (String.◌∷◌ d s)) n h =
      let left : String.count (String.◌∷◌ d s) ≤ n =
        omega (arith, h, count_cons c (String.◌∷◌ d s)) in
      let left' : String.count s ≤ n = omega (arith, left, count_cons d s) in
      if-Fine n (eqb (code c) 34) _ _ (λ _. left)
        (if-Fine n (eqb (code c) 92) _ _
          (λ _.
            if-Fine n (ltb (code d) 128) _ _
              (λ _. bind-Fine n (string_body platform s) _ (string-Fine s n left') (λ t r k. k)) tt)
          (if-Fine n (ltb (code c) 128) _ _
            (λ _.
              bind-Fine n (string_body platform (String.◌∷◌ d s)) _
                (string-Fine (String.◌∷◌ d s) n left) (λ t r k. k))
            tt))

  to_number-Fine :
      (f : platform.Float) (left : String) (n : ℕ)
      → String.count left ≤ n
      → Fine n (to_number platform f left)
  unfolding to_number
  to_number-Fine f left n h = elim (Option-cases (platform.from_f64 f)) [
    | inl p ↦ rw (p, to_number) tt
    | inr (v, p) ↦ rw (p, to_number) h
  ]

  value-Fine : (s : String) (n : ℕ) → String.count s ≤ n → Fine n (parse_value platform s)
  unfolding parse_value
  value-Fine s n h = bind-Fine n (skip_whitespace s) _ (skip-Fine s n h) (λ _ t k.
      if-Fine n (peek_str "true" t) _ _ (λ _. advance-count 4 t n k)
        (if-Fine n (peek_str "false" t) _ _ (λ _. advance-count 5 t n k)
          (if-Fine n (peek_str "null" t) _ _ (λ _. advance-count 4 t n k)
            (if-Fine n (peek_is 34 t) _ _
              (λ _.
                bind-Fine n (string_body platform (advance 1 t)) _
                  (string-Fine (advance 1 t) n (advance-count 1 t n k)) (λ text left l. l))
              (bind-Fine n (parse_number platform t) _ (number-Fine t n k)
                (λ f left l. to_number-Fine f left n l))))))

  operand-Fine :
      {A : Type 0} (k : ℕ) (read : String → Parsed A)
      (build : A → GuardExpr platform.Number platform.Float) (s : String) (n : ℕ)
      → ((t : String) → String.count t ≤ n → Fine n (read t))
      → String.count s ≤ n
      → Fine n (operand platform k read build s)
  unfolding operand
  operand-Fine k read build s n r h =
      bind-Fine n (skip_whitespace (advance k s)) _
        (skip-Fine (advance k s) n (advance-count k s n h))
        (λ _ t l. bind-Fine n (read t) _ (r t l) (λ a left m. m))

  number_operator :
      (field v : String) (n : ℕ)
      → String.count v ≤ n
      → Fine n (
          if peek_str ">=" v
          then operand platform 2 (parse_number platform) (GuardExpr.ge field) v
          else if peek_str "<=" v
          then operand platform 2 (parse_number platform) (GuardExpr.le field) v
          else if peek_is 62 v
          then operand platform 1 (parse_number platform) (GuardExpr.gt field) v
          else if peek_is 60 v
          then operand platform 1 (parse_number platform) (GuardExpr.lt field) v
          else done (GuardExpr.truthy field) v)
  number_operator field v n m =
      if-Fine n (peek_str ">=" v) _ _
        (λ _.
          operand-Fine 2 (parse_number platform) (GuardExpr.ge field) v n (λ w o. number-Fine w n o)
            m)
        (if-Fine n (peek_str "<=" v) _ _
          (λ _.
            operand-Fine 2 (parse_number platform) (GuardExpr.le field) v n
              (λ w o. number-Fine w n o) m)
          (if-Fine n (peek_is 62 v) _ _
            (λ _.
              operand-Fine 1 (parse_number platform) (GuardExpr.gt field) v n
                (λ w o. number-Fine w n o) m)
            (if-Fine n (peek_is 60 v) _ _
              (λ _.
                operand-Fine 1 (parse_number platform) (GuardExpr.lt field) v n
                  (λ w o. number-Fine w n o) m)
              m)))

  pub comparison-Fine :
      (s : String) (n : ℕ) → String.count s ≤ n → Fine n (parse_comparison platform s)
  unfolding parse_comparison
  comparison-Fine s n h = bind-Fine n (skip_whitespace s) _ (skip-Fine s n h) (λ _ t k.
      bind-Fine n (parse_field platform t) _ (field-Fine t n k) (λ field u l.
        bind-Fine n (skip_whitespace u) _ (skip-Fine u n l) (λ _ v m.
          if-Fine n (peek_str "==" v) _ _
            (λ _.
              operand-Fine 2 (parse_value platform) (GuardExpr.eq field) v n
                (λ w o. value-Fine w n o) m)
            (if-Fine n (peek_str "!=" v) _ _
              (λ _.
                operand-Fine 2 (parse_value platform) (GuardExpr.ne field) v n
                  (λ w o. value-Fine w n o) m)
              (number_operator field v n m)))))
