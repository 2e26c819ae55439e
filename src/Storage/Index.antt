-- ===== src/Storage/Index.antt =====
-- rstmdb-storage/src/index.rs: the index of idempotency keys. Times are arguments: `now` in
-- milliseconds since 1970, `instant` in nanoseconds of the monotonic clock. The JSON of the entries
-- is a parameter.
pub mod Retention
use rstmdb.Base.{
  ℕ, ◌+◌, String, Bool, true, false, Option, none, some, List, [], ◌∷◌, ltb, string_key, pair_key,
  if◌then◌else◌, length, is_empty,
}
use rstmdb.Base.Dict.{Dict, get, insert, contains}
use rstmdb.Base.Result.{Result, ok, err}
use rstmdb.Base.Exec.{Exec, ◌>>=◌, ◌>>◌, pure, modify}
use rstmdb.Core.Json.{Value}
use rstmdb.Storage.Error.{StorageError, json}

pub record IdempotencyEntry (N : Type 0) : Type 0 where
  pub key : String
  pub instance_id : Option String
  pub operation : String
  pub wal_offset : ℕ
  pub result : Value N
  pub created_at : ℕ

abbrev pub Entries : Type 0 → Type 0
Entries N = Dict (String × String) (IdempotencyEntry N)

-- The bytes put down and whether all went well; and what is read back.
pub record IndexLibraries (N : Type 0) : Type 0 where
  pub write_entries : Entries N → List ℕ × Bool
  pub read_entries : List ℕ → Option (Entries N)

-- The file is what stands under `persist_path`.
pub record IdempotencyIndex (N : Type 0) : Type 0 where
  pub entries : Entries N
  pub retention_ms : ℕ
  pub has_path : Bool
  pub file : Option (List ℕ)
  pub last_cleanup : ℕ

-- `unwrap_or("")`
unfoldable pub or_empty : Option String → String
or_empty none = ""
or_empty (some id) = id

abbrev pub Call : Type 0 → Type 0
Call N = Exec (IdempotencyIndex N) StorageError (Unit {0})

module _ {N : Type 0} where
  -- `new`
  unfoldable pub new_index : ℕ → ℕ → IdempotencyIndex N
  new_index retention_ms instant = record {
    entries = [];
    retention_ms = retention_ms;
    has_path = false;
    file = none;
    last_cleanup = instant;
  }

  unfoldable pub get_entry :
      IdempotencyIndex N → Option String → String → Option (IdempotencyEntry N)
  unfolding or_empty
  get_entry s instance_id key = get s.entries (or_empty instance_id, key)

  unfoldable pub contains_key : IdempotencyIndex N → Option String → String → Bool
  unfolding or_empty
  contains_key s instance_id key = contains s.entries (or_empty instance_id, key)

  -- `len` and `is_empty`
  unfoldable pub entry_count : IdempotencyIndex N → ℕ
  entry_count s = length s.entries

  unfoldable pub has_no_entries : IdempotencyIndex N → Bool
  has_no_entries s = is_empty s.entries

  -- `now - created_at < retention_ms`, of signed numbers
  unfoldable pub is_retained : ℕ → ℕ → IdempotencyEntry N → Bool
  is_retained now retention_ms e = ltb now (e.created_at + retention_ms)

  -- `retain`
  unfoldable pub retain : ℕ → ℕ → Entries N → Entries N
  unfolding is_retained
  retain now retention_ms [] = []
  retain now retention_ms ((k, e) ∷ entries) =
      let rest = retain now retention_ms entries in
      if is_retained now retention_ms e then (k, e) ∷ rest else rest

  module _ (libraries : IndexLibraries N) where
    open libraries use {write_entries, read_entries}

    unfoldable pub with_persistence :
        ℕ → Option (List ℕ) → ℕ → Result StorageError (IdempotencyIndex N)
    unfolding new_index
    with_persistence retention_ms file instant =
        let index : IdempotencyIndex N = record (new_index retention_ms instant) {
          has_path = true;
          file = file;
        } in
        elim file [
          | none ↦ ok index
          | some bytes ↦ elim (read_entries bytes) [
            | none ↦ err json
            | some entries ↦ ok (record index { entries = entries })
          ]
        ]

    unfoldable pub persist : Call N
    persist s =
        let (bytes, done) = write_entries s.entries in
        if s.has_path
        then (if done then ok tt else err json, record s { file = some bytes })
        else (ok tt, s)

    unfoldable pub cleanup : ℕ → Call N
    unfolding retain persist
    cleanup now =
        modify (λ s. record s { entries = retain now s.retention_ms s.entries }) >> persist

    unfoldable pub maybe_cleanup : ℕ → ℕ → Call N
    unfolding cleanup
    maybe_cleanup now instant s =
        if ltb (s.last_cleanup + 60000000000) instant
        then (cleanup now >> modify (λ s. record s { last_cleanup = instant })) s
        else pure tt s

    unfoldable pub put_entry : IdempotencyEntry N → ℕ → ℕ → Call N
    unfolding maybe_cleanup or_empty
    put_entry e now instant =
        modify (λ s. record s { entries = insert s.entries (or_empty e.instance_id, e.key) e })
        >> maybe_cleanup now instant
