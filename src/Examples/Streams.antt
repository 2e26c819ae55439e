-- ===== src/Examples/Streams.antt =====
-- Watched events over channels that are lists, a batch, and a limit on versions.
use rstmdb.Base.{
  ℕ, zero, suc, ◌+◌, ◌≡◌, ◌≤◌, refl, arith, String, Bool, true, false, Option, none, some, List, [],
  ◌∷◌, ◌++◌, length, length-append, drop, map, string_key, nat_key, pair_key,
}
use rstmdb.Base.Dict.{get}
use rstmdb.Base.Result.{Result, ok, err}
use rstmdb.Core.Json.{null}
use rstmdb.Core.Engine.{Engine}
use rstmdb.Core.Engine.Listing.{get_machine_versions}
use rstmdb.Server.Session.{Session, new}
use rstmdb.Server.Handler.{Operation, ServerError, invalid_request}
use rstmdb.Server.Broadcast.{
  InstanceEvent, EventFilter, Channels, ChannelLaws, EventBroadcaster, new_broadcaster,
  subscribe_instance, subscribe_all, forward, instance_channel,
}
use rstmdb.Server.Broadcast.Delivery.{
  notify_each, matching, forwarded, subscribe_instance-delivers, subscribe_all-forwards,
}
use rstmdb.Server.Batch.{BatchParams, handle_batch, is_atomic, op_of}
use rstmdb.Server.Batch.Sequence.{handle_batch-answer_each}
use rstmdb.Server.Machines.{handle_put_machine}
use rstmdb.Server.Machines.Limit.{handle_put_machine-limit}
use rstmdb.Examples.Machines.{libraries, list_ops, empty_object}

abbrev pub E : Type 0
E = InstanceEvent ℕ

-- The room, and all that was sent; a receiver is the number of events sent before it.
abbrev pub lists : Channels E
lists = record {
  Sender = ℕ × List E;
  Receiver = ℕ;
  channel = λ n. (n, []);
  subscribe = λ c. (length c.1, c);
  send = λ c e. (c.0, c.1 ++ (e ∷ []));
  waiting = λ r c. drop r c.1;
  capacity = λ c. c.0;
  Joined = λ r c. r ≤ length c.1;
}

pub drop_all : (es : List E) → drop (length es) es ≡ []
drop_all [] = refl
drop_all (e ∷ es) = drop_all es

pub drop-send :
    (n : ℕ) (es : List E) (e : E) → n ≤ length es → drop n (es ++ (e ∷ [])) ≡ drop n es ++ (e ∷ [])
drop-send zero es e h = refl
drop-send (suc n) [] e h = absurd (omega arith)
drop-send (suc n) (x ∷ es) e h = drop-send n es e (omega arith)

abbrev pub lists_laws : ChannelLaws lists
lists_laws = record {
  capacity-channel = λ n. omega arith;
  capacity-subscribe = λ c. refl;
  capacity-send = λ c e. refl;
  waiting-new = λ c. drop_all c.1;
  joined-new = λ c. omega arith;
  joined-send = λ c r e j. omega (arith, length-append c.1 (e ∷ []));
  waiting-send = λ c r e j h. drop-send r c.1 e j;
}

abbrev paid : String → E
paid id = record {
  instance_id = id;
  machine = "order";
  version = 1;
  wal_offset = 70;
  from_state = "created";
  to_state = "paid";
  event = "PAY";
  payload = null;
  ctx = null;
}

abbrev pub to_paid : EventFilter
to_paid = record { machines = []; from_states = []; to_states = "paid" ∷ []; events = [] }

unfoldable pub broadcaster : EventBroadcaster lists
unfolding new_broadcaster
broadcaster = new_broadcaster lists 4

abbrev events : List E
events = paid "a" ∷ paid "b" ∷ paid "a" ∷ []

subscribe_instance-delivers_example :
    (c : ℕ × List E) × (get
        (notify_each lists events
          (subscribe_instance lists "sub-1" "a" true broadcaster).1).channels
        "a"
      ≡ some c)
    × (drop (subscribe_instance lists "sub-1" "a" true broadcaster).0 c.1
        ≡ paid "a" ∷ paid "a" ∷ [])
unfolding broadcaster instance_channel get
subscribe_instance-delivers_example =
    subscribe_instance-delivers lists lists_laws "sub-1" "a" true broadcaster events (omega arith)

subscribe_all-forwards_example :
    forward "sub-2" (some to_paid) true (
      drop
        (subscribe_all lists "sub-2" to_paid true broadcaster).0
        (notify_each lists events
          (subscribe_all lists "sub-2" to_paid true broadcaster).1).global_sender.1)
    ≡ map (forwarded "sub-2" true) (matching to_paid events)
unfolding broadcaster
subscribe_all-forwards_example =
    subscribe_all-forwards lists lists_laws "sub-2" to_paid true broadcaster events (omega arith)

-- A server that counts its requests and refuses those without parameters.
counting : Operation → Bool → Session → ℕ → Result ServerError ℕ × Session × ℕ
counting op true s n = (ok n, s, n + 1)
counting op false s n = (err invalid_request, s, n + 1)

abbrev known : String → Option Operation
known text = some Operation.apply_event

abbrev batch : Option String → BatchParams Bool
batch mode = record {
  mode = mode;
  ops = some (
      record { op = some "APPLY_EVENT"; params = true }
      ∷ record { op = some "APPLY_EVENT"; params = false }
      ∷ record { op = some "APPLY_EVENT"; params = true }
      ∷ []);
}

abbrev requests : List (Operation × Bool)
requests =
    (Operation.apply_event, true)
    ∷ (Operation.apply_event, false)
    ∷ (Operation.apply_event, true)
    ∷ []

handle_batch-answer_each_example :
    handle_batch counting known 10 (batch none) (new "s" true) 0
    ≡ (ok (ok 0 ∷ err invalid_request ∷ ok 2 ∷ []), new "s" true, 3)
unfolding counting is_atomic op_of
handle_batch-answer_each_example =
    handle_batch-answer_each counting known 10 (batch none) _ (new "s" true) 0 requests refl refl
      (omega arith) refl (refl, (refl, (refl, tt)))

abbrev an_engine : Engine libraries list_ops
an_engine = record { definitions = []; instances = []; idempotency_cache = []; log = [] }

handle_put_machine-limit_example :
    length (
      get_machine_versions
        (handle_put_machine libraries list_ops 1 "order" 1 empty_object an_engine).1.definitions
        "order")
    ≤ 1
unfolding get_machine_versions
handle_put_machine-limit_example =
    handle_put_machine-limit libraries list_ops 1 "order" 1 empty_object an_engine "order"
      (omega arith) (omega arith)
