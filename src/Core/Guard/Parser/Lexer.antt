-- ===== src/Core/Guard/Parser/Lexer.antt =====
-- The recursive descent parser of guard.rs. The position in the input is the text that is left.
-- `panic` is an index that falls inside a character or past the end: the parser steps by bytes.
use Prim.Native.Char.{code}
use Prim.Native.String
use rstmdb.Base.{
  ℕ, zero, suc, String, Bool, true, false, not, ◌&&◌, ◌||◌, none, some, eqb, ltb, leb,
  if◌then◌else◌, ◌==◌, string_key,
}
use rstmdb.Core.Json.{Value}
use rstmdb.Core.Guard.Expr.{Platform, GuardExpr}

-- The text of an `InvalidGuard`.
pub data GuardError : Type 0 where
  empty_expression expected_paren field_prefix empty_field expected_string unterminated_string :
      GuardError
  invalid_number : String → GuardError

pub data Parsed (A : Type 0) : Type 0 where
  done : A → String → Parsed A
  failed : GuardError → Parsed A
  panic : Parsed A
  out_of_fuel : Parsed A

infixl 5 ◌>>=◌
abbrev pub ◌>>=◌ : {A B : Type 0} → Parsed A → (A → String → Parsed B) → Parsed B
done a s >>= f = f a s
failed e >>= f = failed e
panic >>= f = panic
out_of_fuel >>= f = out_of_fuel

-- `char::is_whitespace`
unfoldable pub is_whitespace : ℕ → Bool
is_whitespace c =
    (leb 9 c && leb c 13)
    || eqb c 32
    || eqb c 0x85
    || eqb c 0xa0
    || eqb c 0x1680
    || (leb 0x2000 c && leb c 0x200a)
    || eqb c 0x2028
    || eqb c 0x2029
    || eqb c 0x202f
    || eqb c 0x205f
    || eqb c 0x3000

unfoldable pub trim_start : String → String
unfolding is_whitespace
trim_start String.[] = ""
trim_start (String.◌∷◌ c s) =
    let rest = trim_start s in if is_whitespace (code c) then rest else String.◌∷◌ c s

unfoldable pub trim_end : String → String
unfolding is_whitespace
trim_end String.[] = ""
trim_end (String.◌∷◌ c s) =
    let rest = trim_end s in if is_whitespace (code c) && rest == "" then "" else String.◌∷◌ c rest

unfoldable pub trim : String → String
unfolding trim_start trim_end
trim s = trim_end (trim_start s)

is_ascii : ℕ → Bool
is_ascii c = ltb c 128

pub is_digit : ℕ → Bool
is_digit c = leb 48 c && leb c 57

-- Takes characters while the test holds. A step over a character of several bytes ends inside it.
unfoldable pub take_while : (ℕ → Bool) → String → Parsed String
unfolding is_ascii
take_while test String.[] = done "" ""
take_while test (String.◌∷◌ c s) =
    let rest = take_while test s in
    if test (code c)
    then (if is_ascii (code c)
        then (rest >>= λ taken left. done (String.◌∷◌ c taken) left)
        else panic)
    else done "" (String.◌∷◌ c s)

unfoldable pub skip_whitespace : String → Parsed (Unit {0})
unfolding take_while is_whitespace
skip_whitespace s = take_while is_whitespace s >>= λ _ left. done tt left

-- `self.pos += n` behind a test that the text starts with n ASCII characters
unfoldable pub advance : ℕ → String → String
advance zero s = s
advance (suc n) String.[] = ""
advance (suc n) (String.◌∷◌ c s) = advance n s

-- `peek_char() == Some(c)`
unfoldable pub peek_is : ℕ → String → Bool
peek_is n String.[] = false
peek_is n (String.◌∷◌ c s) = eqb (code c) n

unfoldable pub peek_str : String → String → Bool
peek_str String.[] s = true
peek_str (String.◌∷◌ c p) String.[] = false
peek_str (String.◌∷◌ c p) (String.◌∷◌ d s) = eqb (code c) (code d) && peek_str p s

module _ (platform : Platform) where
  open platform use {Number, Float, from_f64, parse_f64, alphanumeric}

  is_alphanumeric : ℕ → Bool
  unfolding is_ascii is_digit
  is_alphanumeric c =
      if is_ascii c
      then is_digit c || (leb 65 c && leb c 90) || (leb 97 c && leb c 122)
      else alphanumeric c

  pub is_field_char : ℕ → Bool
  unfolding is_alphanumeric
  is_field_char c = is_alphanumeric c || eqb c 95 || eqb c 46

  unfoldable pub parse_field : String → Parsed String
  unfolding take_while advance is_field_char peek_str
  parse_field s =
      if peek_str "ctx." s
      then (take_while is_field_char (advance 4 s) >>= λ field left.
          if field == "" then failed empty_field else done field left)
      else failed field_prefix

  -- The digits, the point and the digits behind it, as they stand.
  unfoldable pub number_text : String → Parsed String
  unfolding take_while is_digit advance peek_is
  number_text s = take_while is_digit s >>= λ whole left.
      if peek_is 46 left
      then (take_while is_digit (advance 1 left) >>= λ part rest.
          done (String.◌++◌ whole (String.◌++◌ "." part)) rest)
      else done whole left

  unfoldable pub to_f64 : String → String → Parsed Float
  to_f64 text left = elim (parse_f64 text) [
    | none ↦ failed (invalid_number text)
    | some f ↦ done f left
  ]

  unfoldable pub parse_number : String → Parsed Float
  unfolding number_text skip_whitespace to_f64
  parse_number s = skip_whitespace s >>= λ _ t.
      if peek_is 45 t
      then (number_text (advance 1 t) >>= λ text left. to_f64 (String.◌++◌ "-" text) left)
      else (number_text t >>= to_f64)

  -- The loop of `parse_string_value`. An escape is skipped by two bytes and kept as it stands.
  unfoldable pub string_body : String → Parsed String
  unfolding is_ascii
  string_body String.[] = failed unterminated_string
  string_body (String.◌∷◌ c String.[]) =
      if eqb (code c) 34
      then done "" ""
      else if eqb (code c) 92 || not (is_ascii (code c))
      then panic
      else failed unterminated_string
  string_body (String.◌∷◌ c (String.◌∷◌ d s)) =
      let after_escape = string_body s in
      let after = string_body (String.◌∷◌ d s) in
      if eqb (code c) 34
      then done "" (String.◌∷◌ d s)
      else if eqb (code c) 92
      then (if is_ascii (code d)
          then (after_escape >>= λ text left. done (String.◌∷◌ c (String.◌∷◌ d text)) left)
          else panic)
      else if is_ascii (code c)
      then (after >>= λ text left. done (String.◌∷◌ c text) left)
      else panic

  -- `Number::from_f64(num).unwrap()`
  unfoldable pub to_number : Float → String → Parsed (Value Number)
  to_number f left = elim (from_f64 f) [ none ↦ panic | some n ↦ done (Value.number n) left ]

  unfoldable pub parse_value : String → Parsed (Value Number)
  unfolding skip_whitespace advance string_body parse_number to_number peek_is peek_str
  parse_value s = skip_whitespace s >>= λ _ t.
      if peek_str "true" t
      then done (Value.bool true) (advance 4 t)
      else if peek_str "false" t
      then done (Value.bool false) (advance 5 t)
      else if peek_str "null" t
      then done Value.null (advance 4 t)
      else if peek_is 34 t
      then (string_body (advance 1 t) >>= λ text left. done (Value.string text) left)
      else (parse_number t >>= to_number)

  abbrev pub Expr : Type 0
  Expr = GuardExpr Number Float

  -- An operator of `parse_comparison`: skip it and white space, then read the operand.
  unfoldable pub operand :
      {A : Type 0} → ℕ → (String → Parsed A) → (A → Expr) → String → Parsed Expr
  unfolding advance skip_whitespace
  operand n read build s =
      skip_whitespace (advance n s) >>= λ _ t. read t >>= λ a left. done (build a) left

  unfoldable pub parse_comparison : String → Parsed Expr
  unfolding skip_whitespace parse_field operand parse_value parse_number peek_is peek_str
  parse_comparison s = skip_whitespace s >>= λ _ t. parse_field t >>= λ field u.
      skip_whitespace u >>= λ _ v.
      if peek_str "==" v
      then operand 2 parse_value (GuardExpr.eq field) v
      else if peek_str "!=" v
      then operand 2 parse_value (GuardExpr.ne field) v
      else if peek_str ">=" v
      then operand 2 parse_number (GuardExpr.ge field) v
      else if peek_str "<=" v
      then operand 2 parse_number (GuardExpr.le field) v
      else if peek_is 62 v
      then operand 1 parse_number (GuardExpr.gt field) v
      else if peek_is 60 v
      then operand 1 parse_number (GuardExpr.lt field) v
      else done (GuardExpr.truthy field) v
