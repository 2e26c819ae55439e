-- ===== src/Core/Guard/Parser/Grammar.antt =====
-- The recursive functions of the parser, on fuel that bounds the depth of the calls.
use rstmdb.Base.{ℕ, zero, suc, String, if◌then◌else◌, ◌==◌, string_key}
use rstmdb.Core.Guard.Expr.{Platform, GuardExpr}
use rstmdb.Core.Guard.Parser.Lexer.{
  Parsed, done, failed, out_of_fuel, expected_paren, empty_expression, ◌>>=◌, trim, skip_whitespace,
  advance, peek_is, peek_str, parse_comparison,
}

module _ (platform : Platform) where
  open platform use {Number, Float}

  abbrev Expr : Type 0
  Expr = GuardExpr Number Float

  -- The closing parenthesis of a group.
  unfoldable pub close_group : Expr → String → Parsed Expr
  unfolding skip_whitespace peek_is advance
  close_group e s = skip_whitespace s >>= λ _ t.
      if peek_is 41 t then done e (advance 1 t) else failed expected_paren

  unfoldable mutual
    unfolding close_group skip_whitespace peek_is peek_str advance parse_comparison

    -- `parse_or`, which is `parse_expr`
    pub parse_or : ℕ → String → Parsed Expr
    parse_or zero s = out_of_fuel
    parse_or (suc n) s = parse_and n s >>= λ left t. skip_whitespace t >>= λ _ u. or_loop n left u

    pub or_loop : ℕ → Expr → String → Parsed Expr
    or_loop zero left s = out_of_fuel
    or_loop (suc n) left s =
        let more = skip_whitespace (advance 2 s) >>= λ _ t. parse_and n t >>= λ right u.
        skip_whitespace u >>= λ _ v. or_loop n (GuardExpr.or left right) v in
        if peek_str "||" s then more else done left s

    pub parse_and : ℕ → String → Parsed Expr
    parse_and zero s = out_of_fuel
    parse_and (suc n) s =
        parse_unary n s >>= λ left t. skip_whitespace t >>= λ _ u. and_loop n left u

    pub and_loop : ℕ → Expr → String → Parsed Expr
    and_loop zero left s = out_of_fuel
    and_loop (suc n) left s =
        let more = skip_whitespace (advance 2 s) >>= λ _ t. parse_unary n t >>= λ right u.
        skip_whitespace u >>= λ _ v. and_loop n (GuardExpr.and left right) v in
        if peek_str "&&" s then more else done left s

    pub parse_unary : ℕ → String → Parsed Expr
    parse_unary zero s = out_of_fuel
    parse_unary (suc n) s = skip_whitespace s >>= λ _ t.
        let negated = skip_whitespace (advance 1 t) >>= λ _ u.
        parse_unary n u >>= λ inner v. done (GuardExpr.not_ inner) v in
        let primary = parse_primary n t in if peek_is 33 t then negated else primary

    pub parse_primary : ℕ → String → Parsed Expr
    parse_primary zero s = out_of_fuel
    parse_primary (suc n) s = skip_whitespace s >>= λ _ t.
        let group = parse_or n (advance 1 t) >>= close_group in
        if peek_is 40 t then group else parse_comparison platform t

  -- `GuardExpr::parse`. What follows the expression in the text is not looked at.
  unfoldable pub parse_text : ℕ → String → Parsed Expr
  unfolding trim
  parse_text fuel s = let t = trim s in if t == "" then failed empty_expression else parse_or fuel t
