-- ===== src/Protocol/Message.antt =====
-- rstmdb-protocol/src/message.rs and the error codes of error.rs: what a response carries. `V` are the
-- values of JSON, and the serde attributes are left out.
use rstmdb.Base.{ℕ, String, Bool, true, false, Option, none, some, [], string_key}
use rstmdb.Base.Dict.{Dict}

pub data ErrorCode : Type 0 where
  unsupported_protocol bad_request : ErrorCode
  unauthorized auth_failed : ErrorCode
  not_found machine_not_found machine_version_exists : ErrorCode
  machine_version_limit_exceeded instance_not_found instance_exists : ErrorCode
  invalid_transition guard_failed conflict : ErrorCode
  wal_io_error internal_error rate_limited : ErrorCode

-- `ErrorCode::is_retryable`
unfoldable pub retryable_code : ErrorCode → Bool
retryable_code wal_io_error = true
retryable_code rate_limited = true
retryable_code internal_error = true
retryable_code _ = false

-- `Display`
unfoldable pub text_of : ErrorCode → String
text_of unsupported_protocol = "UNSUPPORTED_PROTOCOL"
text_of bad_request = "BAD_REQUEST"
text_of unauthorized = "UNAUTHORIZED"
text_of auth_failed = "AUTH_FAILED"
text_of not_found = "NOT_FOUND"
text_of machine_not_found = "MACHINE_NOT_FOUND"
text_of machine_version_exists = "MACHINE_VERSION_EXISTS"
text_of machine_version_limit_exceeded = "MACHINE_VERSION_LIMIT_EXCEEDED"
text_of instance_not_found = "INSTANCE_NOT_FOUND"
text_of instance_exists = "INSTANCE_EXISTS"
text_of invalid_transition = "INVALID_TRANSITION"
text_of guard_failed = "GUARD_FAILED"
text_of conflict = "CONFLICT"
text_of wal_io_error = "WAL_IO_ERROR"
text_of internal_error = "INTERNAL_ERROR"
text_of rate_limited = "RATE_LIMITED"

pub data ResponseStatus : Type 0 where
  success failure : ResponseStatus

pub record ResponseError (V : Type 0) : Type 0 where
  pub code : ErrorCode
  pub message : String
  pub retryable : Bool
  pub details : Dict String V

-- Times are numbers.
pub record ResponseMeta (V : Type 0) : Type 0 where
  pub server_time : Option ℕ
  pub leader : Option Bool
  pub wal_offset : Option ℕ
  pub trace_id : Option String
  pub extra : Dict String V

pub record Response (V : Type 0) : Type 0 where
  pub msg_type : String
  pub id : String
  pub status : ResponseStatus
  pub result : Option V
  pub error : Option (ResponseError V)
  pub meta : ResponseMeta V

module _ {V : Type 0} where
  -- `ResponseError::new`
  unfoldable pub new_error : ErrorCode → String → ResponseError V
  unfolding retryable_code
  new_error code message = record {
    code = code;
    message = message;
    retryable = retryable_code code;
    details = [];
  }

  abbrev no_meta : ResponseMeta V
  no_meta = record {
    server_time = none;
    leader = none;
    wal_offset = none;
    trace_id = none;
    extra = [];
  }

  -- `Response::ok`
  unfoldable pub success_response : String → V → Response V
  success_response id result = record {
    msg_type = "response";
    id = id;
    status = success;
    result = some result;
    error = none;
    meta = no_meta;
  }

  -- `Response::error`
  unfoldable pub failure_response : String → ResponseError V → Response V
  failure_response id error = record {
    msg_type = "response";
    id = id;
    status = failure;
    result = none;
    error = some error;
    meta = no_meta;
  }

  -- `is_ok`
  unfoldable pub has_success : Response V → Bool
  has_success r = elim r.status [ success ↦ true | failure ↦ false ]
