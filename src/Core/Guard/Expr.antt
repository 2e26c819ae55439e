-- ===== src/Core/Guard/Expr.antt =====
-- rstmdb-core/src/guard.rs: guard expressions and their value in a context.
use Prim.Native.Char.{Char, code}
use rstmdb.Base.{
  ℕ, String, Bool, true, false, not, ◌&&◌, ◌||◌, Option, none, some, List, [], ◌∷◌, eqb,
  if◌then◌else◌, ◌==◌, string_key,
}
use rstmdb.Core.Json.{Value, Items, Fields, get_field?}
use rstmdb.Core.Json.{null, bool, number, string, array, object}

-- What the guards take from outside: numbers of `serde_json`, `f64` with its comparisons, its
-- parser, and the letters and digits beyond ASCII.
pub record Platform : Type 1 where
  pub Number : Type 0
  pub Float : Type 0
  pub as_f64 : Number → Option Float
  pub from_f64 : Float → Option Number
  pub nonzero : Float → Bool
  pub gt : Float → Float → Bool
  pub ge : Float → Float → Bool
  pub lt : Float → Float → Bool
  pub le : Float → Float → Bool
  -- `(a - b).abs() < f64::EPSILON`
  pub near : Float → Float → Bool
  pub parse_f64 : String → Option Float
  pub alphanumeric : ℕ → Bool

pub data GuardExpr (N F : Type 0) : Type 0 where
  truthy falsy : String → GuardExpr N F
  eq ne : String → Value N → GuardExpr N F
  gt ge lt le : String → F → GuardExpr N F
  and or : GuardExpr N F → GuardExpr N F → GuardExpr N F
  not_ : GuardExpr N F → GuardExpr N F

-- `field.split('.')`
push_char : Char → List String → List String
push_char c [] = String.◌∷◌ c String.[] ∷ []
push_char c (s ∷ ss) = String.◌∷◌ c s ∷ ss

unfoldable pub split_dots : String → List String
unfolding push_char
split_dots String.[] = "" ∷ []
split_dots (String.◌∷◌ c s) =
    let rest = split_dots s in if eqb (code c) 46 then "" ∷ rest else push_char c rest

module _ {N : Type 0} where
  or_null : Option (Value N) → Value N
  or_null none = null
  or_null (some v) = v

  -- The loop of `get_field`: a step into what is no object ends with `Null`.
  unfoldable pub walk : Value N → List String → Value N
  unfolding or_null
  walk current [] = current
  walk (object map) (part ∷ parts) = walk (or_null (get_field? map part)) parts
  walk _ (part ∷ parts) = null

  unfoldable pub get_field : Value N → String → Value N
  unfolding walk split_dots
  get_field ctx field = walk ctx (split_dots field)

module _ (platform : Platform) where
  open platform use {Number, Float, as_f64, nonzero, near}

  number_truthy : Option Float → Bool
  number_truthy none = false
  number_truthy (some f) = nonzero f

  unfoldable pub is_truthy : Value Number → Bool
  unfolding number_truthy
  is_truthy null = false
  is_truthy (bool b) = b
  is_truthy (number n) = number_truthy (as_f64 n)
  is_truthy (string s) = not (s == "")
  is_truthy (array Items.nil) = false
  is_truthy (array _) = true
  is_truthy (object Fields.end) = false
  is_truthy (object _) = true

  both_near : Option Float → Option Float → Bool
  both_near (some a) (some b) = near a b
  both_near _ _ = false

  bool_eq : Bool → Bool → Bool
  bool_eq true b = b
  bool_eq false b = not b

  unfoldable pub values_equal : Value Number → Value Number → Bool
  unfolding both_near bool_eq
  values_equal null null = true
  values_equal (bool a) (bool b) = bool_eq a b
  values_equal (number a) (number b) = both_near (as_f64 a) (as_f64 b)
  values_equal (string a) (string b) = a == b
  values_equal _ _ = false

  value_f64 : Value Number → Option Float
  value_f64 (number n) = as_f64 n
  value_f64 _ = none

  -- `as_f64(&value).map(test).unwrap_or(false)`
  compare_field : (Float → Float → Bool) → Value Number → Float → Bool
  unfolding value_f64
  compare_field test value expected = elim (value_f64 value) [
    | none ↦ false
    | some v ↦ test v expected
  ]

  unfoldable pub evaluate : GuardExpr Number Float → Value Number → Bool
  unfolding is_truthy values_equal compare_field get_field
  evaluate (GuardExpr.truthy field) ctx = is_truthy (get_field ctx field)
  evaluate (GuardExpr.falsy field) ctx = not (is_truthy (get_field ctx field))
  evaluate (GuardExpr.eq field expected) ctx = values_equal (get_field ctx field) expected
  evaluate (GuardExpr.ne field expected) ctx = not (values_equal (get_field ctx field) expected)
  evaluate (GuardExpr.gt field expected) ctx =
      compare_field platform.gt (get_field ctx field) expected
  evaluate (GuardExpr.ge field expected) ctx =
      compare_field platform.ge (get_field ctx field) expected
  evaluate (GuardExpr.lt field expected) ctx =
      compare_field platform.lt (get_field ctx field) expected
  evaluate (GuardExpr.le field expected) ctx =
      compare_field platform.le (get_field ctx field) expected
  evaluate (GuardExpr.and left right) ctx = evaluate left ctx && evaluate right ctx
  evaluate (GuardExpr.or left right) ctx = evaluate left ctx || evaluate right ctx
  evaluate (GuardExpr.not_ inner) ctx = not (evaluate inner ctx)

  -- `GuardEvaluator::evaluate_opt`: no guard is always true.
  unfoldable pub evaluate_opt : Option (GuardExpr Number Float) → Value Number → Bool
  evaluate_opt none ctx = true
  evaluate_opt (some guard) ctx = evaluate guard ctx
