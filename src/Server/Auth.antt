-- ===== src/Server/Auth.antt =====
-- rstmdb-server/src/auth.rs: bearer tokens against hashes. The hash, SHA-256 in hexadecimal, is a
-- parameter.
use rstmdb.Base.{
  String, Bool, true, false, List, [], ◌∷◌, ◌==◌, string_key, is_empty, if◌then◌else◌,
}

pub record TokenValidator : Type 0 where
  pub valid_hashes : List String

-- `valid_hashes.contains`
unfoldable pub contains_hash : List String → String → Bool
contains_hash [] hash = false
contains_hash (h ∷ hs) hash = if h == hash then true else contains_hash hs hash

unfoldable pub has_tokens : TokenValidator → Bool
has_tokens v = if is_empty v.valid_hashes then false else true

module _ (hash_token : String → String) where
  unfoldable pub validate : TokenValidator → String → Bool
  unfolding contains_hash
  validate v token =
      if is_empty v.valid_hashes then false else contains_hash v.valid_hashes (hash_token token)
