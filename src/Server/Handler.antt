-- ===== src/Server/Handler.antt =====
-- rstmdb-server/src/handler.rs: the authentication gate, and the operations on the session. The
-- other operations are one argument: what they do to the session and to the rest of the server.
-- The parameters of HELLO and AUTH are read by `serde_json`, the hash of a token by its crate:
-- arguments too. Metrics are left out.
pub mod Gate
use rstmdb.Base.{
  ℕ, String, Bool, true, false, not, ◌&&◌, Option, none, some, List, [], ◌∷◌, ◌==◌, eqb, string_key,
  if◌then◌else◌, is_empty,
}
use rstmdb.Base.Result.{Result, ok, err}
use rstmdb.Server.Session.{
  Session, WireMode, binary_json, jsonl, authenticated_state, closing, set_state, set_authenticated,
  complete_handshake, record_request, has_feature,
}
use rstmdb.Server.Auth.{TokenValidator, validate}

pub data Operation : Type 0 where
  hello auth ping bye info : Operation
  put_machine get_machine list_machines : Operation
  create_instance get_instance list_instances delete_instance : Operation
  apply_event batch : Operation
  snapshot_instance wal_read wal_stats compact : Operation
  watch_instance watch_all unwatch : Operation

pub record HelloParams : Type 0 where
  pub protocol_version : ℕ
  pub client_name : Option String
  pub wire_modes : List String
  pub features : List String

pub record AuthParams : Type 0 where
  pub method : String
  pub token : String

-- The errors that the gate and the operations on the session give.
pub data ServerError : Type 0 where
  unauthorized invalid_request auth_failed : ServerError
  command_failed : String → ServerError

pub record CommandHandler : Type 0 where
  pub token_validator : Option TokenValidator
  pub auth_required : Bool
  pub supported_features : List String

-- `with_auth`
unfoldable pub with_auth : Bool → List String → List String → CommandHandler
with_auth required token_hashes supported_features = record {
  token_validator =
      if required && not (is_empty token_hashes)
      then some (record { valid_hashes = token_hashes })
      else none;
  auth_required = required;
  supported_features = supported_features;
}

unfoldable pub is_open : Operation → Bool
is_open Operation.hello = true
is_open Operation.auth = true
is_open Operation.ping = true
is_open Operation.bye = true
is_open _ = false

unfoldable pub requires_auth : CommandHandler → Operation → Bool
unfolding is_open
requires_auth h op = if not h.auth_required then false else not (is_open op)

-- The features of the server that the client asks for.
unfoldable pub negotiate : List String → List String → List String
negotiate [] client = []
negotiate (f ∷ supported) client =
    let rest = negotiate supported client in if has_feature client f then f ∷ rest else rest

unfoldable pub choose_wire_mode : List String → WireMode
unfolding has_feature
choose_wire_mode modes =
    if has_feature modes "binary_json"
    then binary_json
    else if has_feature modes "jsonl"
    then jsonl
    else binary_json

-- What the handler takes from outside. `P` are the parameters of a request, `V` the values of
-- responses, `B` the rest of the server.
pub record Outside (P V B : Type 0) : Type 0 where
  pub hello_params : P → Option HelloParams
  pub auth_params : P → Option AuthParams
  pub hash_token : String → String
  pub done : V
  pub command : Operation → P → Session → B → Result ServerError V × Session × B

module _ {P V B : Type 0} (outside : Outside P V B) where
  open outside use {hello_params, auth_params, hash_token, done, command}

  abbrev pub Answer : Type 0
  Answer = Result ServerError V

  unfoldable pub handle_hello : CommandHandler → Session → P → Answer × Session
  unfolding choose_wire_mode negotiate complete_handshake
  handle_hello h s params = elim (hello_params params) [
    | none ↦ (err invalid_request, s)
    | some p ↦ if not (eqb p.protocol_version 1) then (err invalid_request, s) else (
      ok done,
      complete_handshake s p.protocol_version (choose_wire_mode p.wire_modes) p.client_name
          (negotiate h.supported_features p.features),
    )
  ]

  accept : Session → Answer × Session
  unfolding set_state set_authenticated
  accept s = (ok done, set_state (set_authenticated s true) authenticated_state)

  -- Whether the token opens the session: any but the empty one, where no validator is configured.
  unfoldable pub token_accepted : CommandHandler → String → Bool
  unfolding validate
  token_accepted h token = elim h.token_validator [
    | none ↦ not (token == "")
    | some v ↦ validate hash_token v token
  ]

  unfoldable pub handle_auth : CommandHandler → Session → P → Answer × Session
  unfolding accept token_accepted
  handle_auth h s params = elim (auth_params params) [
    | none ↦ (err invalid_request, s)
    | some p ↦
        if not (p.method == "bearer")
        then (err auth_failed, s)
        else if token_accepted h p.token
        then accept s
        else (err auth_failed, s)
  ]

  unfoldable pub handle_bye : Session → Answer × Session
  unfolding set_state
  handle_bye s = (ok done, set_state s closing)

  -- The dispatch on the operation.
  unfoldable pub dispatch : CommandHandler → Operation → P → Session → B → Answer × Session × B
  unfolding handle_hello handle_auth handle_bye
  dispatch h Operation.hello params s b = let (r, s') = handle_hello h s params in (r, s', b)
  dispatch h Operation.auth params s b = let (r, s') = handle_auth h s params in (r, s', b)
  dispatch h Operation.ping params s b = (ok done, s, b)
  dispatch h Operation.bye params s b = let (r, s') = handle_bye s in (r, s', b)
  dispatch h op params s b = command op params s b

  unfoldable pub handle : CommandHandler → Operation → P → Session → B → Answer × Session × B
  unfolding dispatch requires_auth record_request
  handle h op params s b =
      let s' = record_request s in
      if requires_auth h op && not s'.authenticated
      then (err unauthorized, s', b)
      else dispatch h op params s' b

  -- Requests that the handler gets one after the other, for one session.
  unfoldable pub handle_all :
      CommandHandler → List (Operation × P) → Session → B → List Answer × Session × B
  unfolding handle
  handle_all h [] s b = ([], s, b)
  handle_all h ((op, params) ∷ requests) s b =
      let (r, s', b') = handle h op params s b in
      let (rs, s'', b'') = handle_all h requests s' b' in (r ∷ rs, s'', b'')
