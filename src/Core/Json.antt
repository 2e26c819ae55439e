-- ===== src/Core/Json.antt =====
-- `serde_json::Value` as the core uses it, over an abstract type of numbers, with the operations on
-- objects that `guard.rs` and `engine.rs` make.
use rstmdb.Base.{
  String, ◌≡◌, refl, Bool, true, false, Option, none, some, ◌==◌, if◌then◌else◌, arith, string_key,
}
use text.Mathlib.TextEquality.{eq_iff}

mutual
  pub data Value (N : Type 0) : Type 0 where
    null : Value N
    bool : Bool → Value N
    number : N → Value N
    string : String → Value N
    array : Items N → Value N
    object : Fields N → Value N

  pub data Items (N : Type 0) : Type 0 where
    nil : Items N
    item : Value N → Items N → Items N

  -- A map from keys to values, one entry for each key.
  pub data Fields (N : Type 0) : Type 0 where
    end : Fields N
    field : String → Value N → Fields N → Fields N

module _ {N : Type 0} where
  unfoldable pub get_field? : Fields N → String → Option (Value N)
  get_field? end k = none
  get_field? (field j v fs) k = if j == k then some v else get_field? fs k

  -- `Map::insert`
  unfoldable pub insert_field : Fields N → String → Value N → Fields N
  insert_field end k v = field k v end
  insert_field (field j w fs) k v =
      let rest = insert_field fs k v in if j == k then field k v fs else field j w rest

  pub get_field?-insert_field :
      (fs : Fields N) (k j : String) (v : Value N)
      → get_field? (insert_field fs k v) j ≡ (if k == j then some v else get_field? fs j)
  unfolding get_field? insert_field
  get_field?-insert_field end k j v = refl
  get_field?-insert_field (field i w fs) k j v =
      ground (arith, get_field?-insert_field fs k j v, eq_iff i k, eq_iff i j, eq_iff k j)

  unfoldable pub is_null : Value N → Bool
  is_null null = true
  is_null _ = false

  -- The loop of `merge_ctx` over the payload's entries.
  unfoldable pub insert_all : Fields N → Fields N → Fields N
  insert_all result end = result
  insert_all result (field k v fs) = insert_all (insert_field result k v) fs

  -- engine.rs: a payload that is no object, or a context that is none, changes nothing.
  unfoldable pub merge_ctx : Value N → Value N → Value N
  merge_ctx (object ctx) (object payload) = object (insert_all ctx payload)
  merge_ctx ctx _ = ctx
