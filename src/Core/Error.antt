-- ===== src/Core/Error.antt =====
-- rstmdb-core/src/error.rs. `Stop` is what ends a call early: an error, a panic of the guard
-- parser, or its fuel (which is shown to suffice).
use rstmdb.Base.{ℕ, String, Bool, false}
use rstmdb.Wal.Record.{WalError}
use rstmdb.Wal.Record
use rstmdb.Core.Guard.Parser.Lexer.{GuardError}

-- The text of an `InvalidDefinition`, by what it reports.
pub data DefinitionError : Type 0 where
  initial_not_listed : String → DefinitionError
  target_not_listed : String → DefinitionError
  source_not_listed : String → DefinitionError
  duplicate_transition : String → String → DefinitionError

pub data CoreError : Type 0 where
  machine_not_found : String → CoreError
  machine_version_not_found machine_version_exists : String → ℕ → CoreError
  instance_not_found instance_exists : String → CoreError
  -- the state and the event
  invalid_transition : String → String → CoreError
  -- the two states and the event
  guard_failed : String → String → String → CoreError
  state_conflict : String → String → CoreError
  wal_offset_conflict : ℕ → ℕ → CoreError
  invalid_definition : DefinitionError → CoreError
  invalid_guard : GuardError → CoreError
  wal : WalError → CoreError
  json : CoreError

unfoldable pub is_retryable : CoreError → Bool
unfolding Record.is_retryable
is_retryable (wal e) = Record.is_retryable e
is_retryable _ = false

unfoldable pub error_code : CoreError → String
error_code (machine_not_found m) = "MACHINE_NOT_FOUND"
error_code (machine_version_not_found m v) = "MACHINE_NOT_FOUND"
error_code (machine_version_exists m v) = "MACHINE_VERSION_EXISTS"
error_code (instance_not_found i) = "INSTANCE_NOT_FOUND"
error_code (instance_exists i) = "INSTANCE_EXISTS"
error_code (invalid_transition s e) = "INVALID_TRANSITION"
error_code (guard_failed s t e) = "GUARD_FAILED"
error_code (state_conflict e a) = "CONFLICT"
error_code (wal_offset_conflict e a) = "CONFLICT"
error_code (invalid_definition r) = "BAD_REQUEST"
error_code (invalid_guard r) = "BAD_REQUEST"
error_code (wal e) = "WAL_IO_ERROR"
error_code json = "BAD_REQUEST"

pub data Stop : Type 0 where
  error : CoreError → Stop
  panicked : Stop
  out_of_fuel : Stop
