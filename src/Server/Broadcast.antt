-- ===== src/Server/Broadcast.antt =====
-- rstmdb-server/src/broadcast.rs, and the forwarder of server.rs: subscriptions, and the events that
-- reach them. The broadcast channels of tokio are an interface: a receiver is given the events
-- that were sent after it subscribed. New subscription ids are arguments.
pub mod Delivery
use rstmdb.Base.{
  ℕ, ◌≡◌, ◌<◌, ◌≤◌, String, Bool, true, false, ◌&&◌, ◌||◌, Option, none, some, List, [], ◌∷◌, ◌++◌,
  ◌==◌, string_key, if◌then◌else◌, length, is_empty,
}
use rstmdb.Base.Dict.{Dict, get, insert, remove, contains}
use rstmdb.Core.Json.{Value}

pub record InstanceEvent (N : Type 0) : Type 0 where
  pub instance_id : String
  pub machine : String
  pub version : ℕ
  pub wal_offset : ℕ
  pub from_state : String
  pub to_state : String
  pub event : String
  pub payload : Value N
  pub ctx : Value N

pub record EventFilter : Type 0 where
  pub machines : List String
  pub from_states : List String
  pub to_states : List String
  pub events : List String

-- `Vec::contains`
unfoldable pub has_value : List String → String → Bool
has_value [] v = false
has_value (x ∷ xs) v = x == v || has_value xs v

unfoldable pub matches : {N : Type 0} → EventFilter → InstanceEvent N → Bool
unfolding has_value
matches f e =
    (is_empty f.machines || has_value f.machines e.machine)
    && ((is_empty f.from_states || has_value f.from_states e.from_state)
        && ((is_empty f.to_states || has_value f.to_states e.to_state)
            && (is_empty f.events || has_value f.events e.event)))

pub data SubscriptionType : Type 0 where
  -- the instance, and whether the context is sent
  instance_events : String → Bool → SubscriptionType
  all : EventFilter → Bool → SubscriptionType

pub record Subscription : Type 0 where
  pub subscription_id : String
  pub subscription_type : SubscriptionType

-- The channels of `tokio::sync::broadcast`. `waiting` are the events that `recv` returns one after
-- the other before it has to wait for the next.
pub record Channels (E : Type 0) : Type 1 where
  pub Sender : Type 0
  pub Receiver : Type 0
  pub channel : ℕ → Sender
  pub subscribe : Sender → Receiver × Sender
  pub send : Sender → E → Sender
  pub waiting : Receiver → Sender → List E
  pub capacity : Sender → ℕ
  -- The receiver subscribed to this channel.
  pub Joined : Receiver → Sender → Type 0

-- What the documentation says of them: a receiver starts with nothing, and what is sent waits behind
-- what was sent before, while there is room.
pub record ChannelLaws {E : Type 0} (channels : Channels E) : Type 0 where
  pub capacity-channel : (n : ℕ) → n ≤ channels.capacity (channels.channel n)
  pub capacity-subscribe :
      (c : channels.Sender) → channels.capacity (channels.subscribe c).1 ≡ channels.capacity c
  pub capacity-send :
      (c : channels.Sender) (e : E) → channels.capacity (channels.send c e) ≡ channels.capacity c
  pub waiting-new :
      (c : channels.Sender)
      → channels.waiting (channels.subscribe c).0 (channels.subscribe c).1 ≡ []
  pub joined-new :
      (c : channels.Sender) → channels.Joined (channels.subscribe c).0 (channels.subscribe c).1
  pub joined-send :
      (c : channels.Sender) (r : channels.Receiver) (e : E)
      → channels.Joined r c
      → channels.Joined r (channels.send c e)
  pub waiting-send :
      (c : channels.Sender) (r : channels.Receiver) (e : E)
      → channels.Joined r c
      → length (channels.waiting r c) < channels.capacity c
      → channels.waiting r (channels.send c e) ≡ channels.waiting r c ++ (e ∷ [])

-- What the forwarder hands to the connection.
pub record ForwardedEvent (N : Type 0) : Type 0 where
  pub subscription_id : String
  pub event : InstanceEvent N
  pub include_ctx : Bool

passes : {N : Type 0} → Option EventFilter → InstanceEvent N → Bool
unfolding matches
passes none e = true
passes (some f) e = matches f e

-- The loop of `spawn_subscription_forwarder`, over the events that it receives.
unfoldable pub forward :
    {N : Type 0}
    → String
    → Option EventFilter
    → Bool
    → List (InstanceEvent N)
    → List (ForwardedEvent N)
unfolding passes
forward id filter include_ctx [] = []
forward id filter include_ctx (e ∷ es) =
    let rest = forward id filter include_ctx es in
    if passes filter e
    then record { subscription_id = id; event = e; include_ctx = include_ctx } ∷ rest
    else rest

module _ {N : Type 0} (tokio : Channels (InstanceEvent N)) where
  open tokio use {Sender, Receiver, channel, subscribe, send}

  pub record EventBroadcaster : Type 0 where
    pub channels : Dict String Sender
    pub global_sender : Sender
    pub subscriptions : Dict String Subscription
    pub channel_capacity : ℕ

  unfoldable pub new_broadcaster : ℕ → EventBroadcaster
  new_broadcaster channel_capacity = record {
    channels = [];
    global_sender = channel channel_capacity;
    subscriptions = [];
    channel_capacity = channel_capacity;
  }

  -- `entry(..).or_insert_with(..)`
  unfoldable pub instance_channel : EventBroadcaster → String → Sender
  instance_channel b instance_id = elim (get b.channels instance_id) [
    | some c ↦ c
    | none ↦ channel b.channel_capacity
  ]

  unfoldable pub subscribe_instance :
      String → String → Bool → EventBroadcaster → Receiver × EventBroadcaster
  unfolding instance_channel
  subscribe_instance id instance_id include_ctx b =
      let (receiver, sender) = subscribe (instance_channel b instance_id) in
      (
        receiver,
        record b {
          channels = insert b.channels instance_id sender;
          subscriptions = insert b.subscriptions id (record {
            subscription_id = id;
            subscription_type = instance_events instance_id include_ctx;
          });
        },
      )

  unfoldable pub subscribe_all :
      String → EventFilter → Bool → EventBroadcaster → Receiver × EventBroadcaster
  subscribe_all id filter include_ctx b =
      let (receiver, sender) = subscribe b.global_sender in
      (
        receiver,
        record b {
          global_sender = sender;
          subscriptions =
              insert b.subscriptions id
                (record { subscription_id = id; subscription_type = all filter include_ctx });
        },
      )

  unfoldable pub unsubscribe : String → EventBroadcaster → Bool × EventBroadcaster
  unsubscribe id b =
      (contains b.subscriptions id, record b { subscriptions = remove b.subscriptions id })

  -- The first part of `notify`
  unfoldable pub send_to_instance : InstanceEvent N → Dict String Sender → Dict String Sender
  send_to_instance e channels = elim (get channels e.instance_id) [
    | none ↦ channels
    | some c ↦ insert channels e.instance_id (send c e)
  ]

  unfoldable pub notify : InstanceEvent N → EventBroadcaster → EventBroadcaster
  unfolding send_to_instance
  notify e b = record b {
    channels = send_to_instance e b.channels;
    global_sender = send b.global_sender e;
  }

  unfoldable pub get_subscription : EventBroadcaster → String → Option Subscription
  get_subscription b id = get b.subscriptions id

  unfoldable pub subscription_total : EventBroadcaster → ℕ
  subscription_total b = length b.subscriptions

  -- `cleanup_subscriptions`, over the ids of a session's subscriptions
  unfoldable pub cleanup_subscriptions : List String → EventBroadcaster → EventBroadcaster
  unfolding unsubscribe
  cleanup_subscriptions [] b = b
  cleanup_subscriptions (id ∷ ids) b = cleanup_subscriptions ids (unsubscribe id b).1
