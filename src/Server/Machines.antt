-- ===== src/Server/Machines.antt =====
-- rstmdb-server/src/handler.rs, `handle_put_machine`, with the limit on the versions of a machine.
-- The parameters as JSON and the metrics are left out.
pub mod Limit
use rstmdb.Base.{
  ℕ, String, Bool, true, false, not, ◌&&◌, List, [], ◌∷◌, ltb, leb, eqb, if◌then◌else◌, length,
}
use rstmdb.Base.Result.{Result, ok, err}
use rstmdb.Wal.Entry.{WalOps}
use rstmdb.Core.Json.{Value}
use rstmdb.Core.Error.{Stop}
use rstmdb.Core.Definition.{Libraries}
use rstmdb.Core.Engine.{Engine, put_machine_call}
use rstmdb.Core.Engine.Listing.{get_machine_versions}

-- `versions.contains`
unfoldable pub has_version : List ℕ → ℕ → Bool
has_version [] v = false
has_version (w ∷ ws) v = let rest = has_version ws v in if eqb w v then true else rest

-- The errors of the handler: too many versions, or what ended the call of the engine.
pub data PutError : Type 0 where
  machine_version_limit_exceeded : String → ℕ → ℕ → PutError
  stopped : Stop → PutError

module _ (libraries : Libraries) (ops : WalOps libraries.platform.Number) where
  open libraries.platform use {Number}

  unfoldable pub limit_exceeded : ℕ → Engine libraries ops → String → ℕ → Bool
  unfolding has_version
  limit_exceeded max_machine_versions s machine version =
      let versions = get_machine_versions s.definitions machine in
      ltb 0 max_machine_versions
      && (not (has_version versions version) && leb max_machine_versions (length versions))

  unfoldable pub handle_put_machine :
      ℕ
      → String
      → ℕ
      → Value Number
      → Engine libraries ops
      → Result PutError (String × Bool) × Engine libraries ops
  unfolding limit_exceeded
  handle_put_machine max_machine_versions machine version definition s =
      if limit_exceeded max_machine_versions s machine version
      then (
        err (
            machine_version_limit_exceeded machine
              (length (get_machine_versions s.definitions machine)) max_machine_versions),
        s,
      )
      else (let (r, s') = put_machine_call libraries ops machine version definition s in
          (elim r [ ok p ↦ ok p | err x ↦ err (stopped x) ], s'))
