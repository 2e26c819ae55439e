-- ===== src/Server/Error.antt =====
-- rstmdb-server/src/error.rs: what a client is told about an error. The texts of errors are arguments
-- where they are sent.
use rstmdb.Base.{
  none, some, ◌≡◌, refl, String, Bool, true, false, ◌==◌, ◌||◌, string_key, if◌then◌else◌,
}
use rstmdb.Wal.Record.{WalError}
use rstmdb.Base.Result.{Result, ok, err}
use rstmdb.Protocol.Frame.{ProtocolError}
use rstmdb.Protocol.Message.{
  ErrorCode, bad_request, unauthorized, auth_failed, machine_not_found, machine_version_exists,
  machine_version_limit_exceeded, instance_not_found, instance_exists, invalid_transition,
  guard_failed, conflict, wal_io_error, internal_error, retryable_code, text_of, new_error,
  Response, success_response, failure_response, has_success,
}
use rstmdb.Core.Error.{CoreError}
use rstmdb.Core.Error
use rstmdb.Storage.Error.{StorageError}

-- `ServerError`, which the operating system, TLS and JSON give too
pub data AnyError : Type 0 where
  io json : AnyError
  protocol : ProtocolError → AnyError
  core : CoreError → AnyError
  storage : StorageError → AnyError
  wal : WalError → AnyError
  not_authenticated shutting_down : AnyError
  failed_auth invalid_request too_many_versions tls_config tls_handshake : String → AnyError

-- The codes of the core that the server knows; all others are internal errors.
unfoldable pub code_of_text : String → ErrorCode
code_of_text code =
    if code == "MACHINE_NOT_FOUND"
    then machine_not_found
    else if code == "MACHINE_VERSION_EXISTS"
    then machine_version_exists
    else if code == "INSTANCE_NOT_FOUND"
    then instance_not_found
    else if code == "INSTANCE_EXISTS"
    then instance_exists
    else if code == "INVALID_TRANSITION"
    then invalid_transition
    else if code == "GUARD_FAILED"
    then guard_failed
    else if code == "CONFLICT"
    then conflict
    else if code == "WAL_IO_ERROR"
    then wal_io_error
    else internal_error

-- `ServerError::error_code`
unfoldable pub code_of : AnyError → ErrorCode
unfolding code_of_text Error.error_code
code_of io = internal_error
code_of (protocol e) = bad_request
code_of (core e) = code_of_text (Error.error_code e)
code_of (storage e) = internal_error
code_of (wal e) = wal_io_error
code_of json = bad_request
code_of not_authenticated = unauthorized
code_of (failed_auth m) = auth_failed
code_of (invalid_request m) = bad_request
code_of (too_many_versions m) = machine_version_limit_exceeded
code_of shutting_down = internal_error
code_of (tls_config m) = internal_error
code_of (tls_handshake m) = internal_error

-- `ServerError::is_retryable`
unfoldable pub may_retry : AnyError → Bool
unfolding retryable_code code_of
may_retry e = retryable_code (code_of e)

-- The client is told the code of the core, but for a bad request, which becomes an internal error.
pub text_of-core :
    (e : CoreError)
    → text_of (code_of (core e))
      ≡ (if Error.error_code e == "BAD_REQUEST" then "INTERNAL_ERROR" else Error.error_code e)
unfolding text_of code_of code_of_text Error.error_code
text_of-core (CoreError.machine_not_found m) = refl
text_of-core (CoreError.machine_version_not_found m v) = refl
text_of-core (CoreError.machine_version_exists m v) = refl
text_of-core (CoreError.instance_not_found i) = refl
text_of-core (CoreError.instance_exists i) = refl
text_of-core (CoreError.invalid_transition s e) = refl
text_of-core (CoreError.guard_failed s t e) = refl
text_of-core (CoreError.state_conflict e a) = refl
text_of-core (CoreError.wal_offset_conflict e a) = refl
text_of-core (CoreError.invalid_definition r) = refl
text_of-core (CoreError.invalid_guard r) = refl
text_of-core (CoreError.wal e) = refl
text_of-core CoreError.json = refl

-- The server lets a client retry exactly the errors of the log and those that are bad requests to
-- the core.
pub may_retry-core :
    (e : CoreError)
    → may_retry (core e)
      ≡ (Error.error_code e == "WAL_IO_ERROR" || Error.error_code e == "BAD_REQUEST")
unfolding may_retry retryable_code code_of code_of_text Error.error_code
may_retry-core (CoreError.machine_not_found m) = refl
may_retry-core (CoreError.machine_version_not_found m v) = refl
may_retry-core (CoreError.machine_version_exists m v) = refl
may_retry-core (CoreError.instance_not_found i) = refl
may_retry-core (CoreError.instance_exists i) = refl
may_retry-core (CoreError.invalid_transition s e) = refl
may_retry-core (CoreError.guard_failed s t e) = refl
may_retry-core (CoreError.state_conflict e a) = refl
may_retry-core (CoreError.wal_offset_conflict e a) = refl
may_retry-core (CoreError.invalid_definition r) = refl
may_retry-core (CoreError.invalid_guard r) = refl
may_retry-core (CoreError.wal e) = refl
may_retry-core CoreError.json = refl

-- The response of `handle` to the request `id`; `texts` are the texts of errors.
unfoldable pub respond :
    {V : Type 0} → (AnyError → String) → String → Result AnyError V → Response V
unfolding success_response failure_response new_error code_of
respond texts id (ok v) = success_response id v
respond texts id (err e) = failure_response id (new_error (code_of e) (texts e))

-- A response carries the result or the error, and says which.
pub record Answers {V : Type 0} (id : String) (a : Result AnyError V) (r : Response V)
    : Type 0 where
  pub correlated : r.id ≡ id
  pub status : has_success r ≡ (elim a [ ok v ↦ true | err e ↦ false ])
  pub result : r.result ≡ (elim a [ ok v ↦ some v | err e ↦ none ])
  pub retryable :
      (elim r.error [ none ↦ none | some e ↦ some e.retryable ])
      ≡ (elim a [ ok v ↦ none | err e ↦ some (may_retry e) ])

-- The response of `handle` has the id of the request, the status, the result, and for an error whether
-- a client may try again.
pub respond-Answers :
    {V : Type 0} (texts : AnyError → String) (id : String) (a : Result AnyError V)
    → Answers id a (respond texts id a)
unfolding respond has_success may_retry
respond-Answers texts id (ok v) = record {
  correlated = refl;
  status = refl;
  result = refl;
  retryable = refl;
}
respond-Answers texts id (err e) = record {
  correlated = refl;
  status = refl;
  result = refl;
  retryable = refl;
}
