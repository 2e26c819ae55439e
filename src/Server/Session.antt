-- ===== src/Server/Session.antt =====
-- rstmdb-server/src/session.rs: the state of a connection. Addresses and times are left out.
use rstmdb.Base.{
  ℕ, ◌+◌, ◌%◌, ◌^◌, String, Bool, true, false, not, ◌&&◌, Option, none, some, List, [], ◌∷◌, length,
  ◌==◌, string_key, if◌then◌else◌,
}
use rstmdb.Base.Dict.{Dict, get, insert, remove}

pub data SessionSubscriptionType : Type 0 where
  instance_events : String → SessionSubscriptionType
  all : SessionSubscriptionType

pub data WireMode : Type 0 where
  binary_json jsonl : WireMode

pub data SessionState : Type 0 where
  connected ready authenticated_state closing : SessionState

pub record Session : Type 0 where
  pub id : String
  pub state : SessionState
  pub wire_mode : WireMode
  pub protocol_version : ℕ
  pub client_name : Option String
  pub features : List String
  pub auth_required : Bool
  pub authenticated : Bool
  pub request_count : ℕ
  pub subscriptions : Dict String SessionSubscriptionType

unfoldable pub new : String → Bool → Session
new id auth_required = record {
  id = id;
  state = connected;
  wire_mode = binary_json;
  protocol_version = 0;
  client_name = none;
  features = [];
  auth_required = auth_required;
  authenticated = not auth_required;
  request_count = 0;
  subscriptions = [];
}

unfoldable pub set_state : Session → SessionState → Session
set_state s state = record s { state = state }

unfoldable pub set_authenticated : Session → Bool → Session
set_authenticated s authenticated = record s { authenticated = authenticated }

unfoldable pub complete_handshake : Session → ℕ → WireMode → Option String → List String → Session
complete_handshake s protocol_version wire_mode client_name features = record s {
  protocol_version = protocol_version;
  wire_mode = wire_mode;
  client_name = client_name;
  features = features;
  state = if s.auth_required && not s.authenticated then ready else authenticated_state;
}

unfoldable pub record_request : Session → Session
record_request s = record s { request_count = (s.request_count + 1) % 2 ^ 64 }

-- `features.contains`
unfoldable pub has_feature : List String → String → Bool
has_feature [] feature = false
has_feature (f ∷ fs) feature = if f == feature then true else has_feature fs feature

unfoldable pub add_instance_subscription : Session → String → String → Session
add_instance_subscription s subscription_id instance_id = record s {
  subscriptions = insert s.subscriptions subscription_id (instance_events instance_id);
}

-- `add_all_subscription`, and `add_subscription`
unfoldable pub add_all_subscription : Session → String → Session
add_all_subscription s subscription_id = record s {
  subscriptions = insert s.subscriptions subscription_id all;
}

unfoldable pub remove_subscription : Session → String → Option SessionSubscriptionType × Session
remove_subscription s subscription_id = (
  get s.subscriptions subscription_id,
  record s { subscriptions = remove s.subscriptions subscription_id },
)

unfoldable pub get_subscription_instance : Session → String → Option String
get_subscription_instance s subscription_id = elim (get s.subscriptions subscription_id) [
  | some (instance_events instance_id) ↦ some instance_id
  | some all ↦ none
  | none ↦ none
]

unfoldable pub subscription_count : Session → ℕ
subscription_count s = length s.subscriptions
