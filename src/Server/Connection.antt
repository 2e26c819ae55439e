-- ===== src/Server/Connection.antt =====
-- rstmdb-server/src/server.rs: the requests of a connection as its loop answers them. The watches go
-- past the handler's gate, to the operations themselves. Requests come decoded, with an id that is
-- new; what is written to the socket, the other waits of the loop and its errors are left out.
pub mod Ends
use rstmdb.Base.{
  ℕ, String, Bool, true, false, Option, none, some, List, [], ◌∷◌, map, string_key, if◌then◌else◌,
}
use rstmdb.Base.Dict.{Dict, insert, remove}
use rstmdb.Base.Result.{Result, ok, err}
use rstmdb.Wal.Entry.{WalOps}
use rstmdb.Core.Json.{Value}
use rstmdb.Core.Definition.{Libraries}
use rstmdb.Storage.Snapshot.{SnapshotLibraries}
use rstmdb.Server.Session.{Session, SessionState, connected, ready, authenticated_state, closing}
use rstmdb.Server.Handler.{Outside, CommandHandler, Operation, ServerError, invalid_request, handle}
use rstmdb.Server.Broadcast.{
  InstanceEvent, EventFilter, Channels, EventBroadcaster, ForwardedEvent, cleanup_subscriptions,
}
use rstmdb.Server.Commands.{Backend, CommandError}
use rstmdb.Server.Commands.Admin.{WalAdmin, WatchAnswer, handle_watch_instance, handle_watch_all}

pub record StreamEvent (N : Type 0) : Type 0 where
  pub msg_type : String
  pub subscription_id : String
  pub instance_id : String
  pub machine : String
  pub version : ℕ
  pub wal_offset : ℕ
  pub from_state : String
  pub to_state : String
  pub event : String
  pub payload : Option (Value N)
  pub ctx : Option (Value N)

-- What is written for an event that a forwarder hands over
unfoldable pub stream_event : {N : Type 0} → ForwardedEvent N → StreamEvent N
stream_event f = record {
  msg_type = "event";
  subscription_id = f.subscription_id;
  instance_id = f.event.instance_id;
  machine = f.event.machine;
  version = f.event.version;
  wal_offset = f.event.wal_offset;
  from_state = f.event.from_state;
  to_state = f.event.to_state;
  event = f.event.event;
  payload = some f.event.payload;
  ctx = if f.include_ctx then some f.event.ctx else none;
}

-- The state of the session is `Closing`.
unfoldable pub is_closing : SessionState → Bool
is_closing connected = false
is_closing ready = false
is_closing authenticated_state = false
is_closing closing = true

-- A request, and the id that a subscription made for it gets
pub record Incoming (P : Type 0) : Type 0 where
  pub op : Operation
  pub params : P
  pub new_id : String

-- How JSON reads the parameters of the watches, and writes their answers
pub record WatchJson (P V : Type 0) : Type 0 where
  pub watch_instance_params : P → Option (String × Bool)
  pub watch_all_params : P → Option (EventFilter × Bool)
  pub subscription_id : P → Option String
  pub watch_answer : WatchAnswer → V
  pub watch_all_answer : String × ℕ → V
  pub failed : CommandError → ServerError

-- A task that forwards the events of a receiver
pub record Task {E : Type 0} (tokio : Channels E) : Type 0 where
  pub receiver : tokio.Receiver
  pub filter : Option EventFilter
  pub include_ctx : Bool

-- What a connection keeps, with the rest of the server
pub record Connection {E : Type 0} (tokio : Channels E) (B : Type 0) : Type 0 where
  pub session : Session
  pub subscription_tasks : Dict String (Task tokio)
  pub server : B

module _ {P V : Type 0} (libraries : Libraries) (ops : WalOps libraries.platform.Number)
    (admin : WalAdmin ops) (tokio : Channels (InstanceEvent libraries.platform.Number))
    (snapshot_libraries : SnapshotLibraries libraries.platform.Number) (json : WatchJson P V)
    (outside : Outside P V (Backend libraries ops tokio)) where
  abbrev pub Open : Type 0
  Open = Connection tokio (Backend libraries ops tokio)

  abbrev Answered : Type 0
  Answered = Result ServerError V × Open

  unfoldable pub answer_watch_instance : Incoming P → Open → Answered
  answer_watch_instance q c = elim (json.watch_instance_params q.params) [
    | none ↦ (err invalid_request, c)
    | some p ↦
        let (r, session, server) =
          handle_watch_instance libraries ops admin tokio snapshot_libraries q.new_id p.0 p.1
            c.session c.server in
        elim r [
          | err e ↦ (err (json.failed e), record c { session = session; server = server })
          | ok a ↦ (
            ok (json.watch_answer a.0),
            record {
              session = session;
              subscription_tasks =
                  insert c.subscription_tasks a.0.subscription_id
                    (record { receiver = a.1; filter = none; include_ctx = p.1 });
              server = server;
            },
          )
        ]
  ]

  unfoldable pub answer_watch_all : Incoming P → Open → Answered
  answer_watch_all q c = elim (json.watch_all_params q.params) [
    | none ↦ (err invalid_request, c)
    | some p ↦
        let (r, session, server) =
          handle_watch_all libraries ops admin tokio snapshot_libraries q.new_id p.0 p.1 c.session
            c.server in
        elim r [
          | err e ↦ (err (json.failed e), record c { session = session; server = server })
          | ok a ↦ (
            ok (json.watch_all_answer a.0),
            record {
              session = session;
              subscription_tasks =
                  insert c.subscription_tasks a.0.0
                    (record { receiver = a.1; filter = some a.2; include_ctx = p.1 });
              server = server;
            },
          )
        ]
  ]

  unfoldable pub answer_handled : CommandHandler → Incoming P → Open → Answered
  unfolding handle
  answer_handled h q c =
      let (r, session, server) = handle outside h q.op q.params c.session c.server in
      (r, record c { session = session; server = server })

  unfoldable pub abort_task : Option String → Dict String (Task tokio) → Dict String (Task tokio)
  abort_task none tasks = tasks
  abort_task (some id) tasks = remove tasks id

  unfoldable pub answer_unwatch : CommandHandler → Incoming P → Open → Answered
  unfolding answer_handled abort_task
  answer_unwatch h q c =
      let (r, c') = answer_handled h q c in
      (
        r,
        record c' {
          subscription_tasks = abort_task (json.subscription_id q.params) c'.subscription_tasks;
        },
      )

  unfoldable pub answer_op : CommandHandler → Operation → Incoming P → Open → Answered
  unfolding answer_watch_instance answer_watch_all answer_unwatch answer_handled
  answer_op h Operation.watch_instance q c = answer_watch_instance q c
  answer_op h Operation.watch_all q c = answer_watch_all q c
  answer_op h Operation.unwatch q c = answer_unwatch h q c
  answer_op h _ q c = answer_handled h q c

  unfoldable pub end_subscriptions :
      Session → Option (EventBroadcaster tokio) → Option (EventBroadcaster tokio)
  unfolding cleanup_subscriptions
  end_subscriptions session none = none
  end_subscriptions session (some b) =
      some (cleanup_subscriptions tokio (map (λ s. s.0) session.subscriptions) b)

  -- What the loop does when the session is closing, before it returns
  unfoldable pub end_connection : Open → Open
  unfolding end_subscriptions
  end_connection c = record c {
    subscription_tasks = [];
    server = record c.server { broadcaster = end_subscriptions c.session c.server.broadcaster };
  }

  -- The inner loop, over the requests that are complete: the answers, whether the connection was
  -- closed, and what it leaves.
  unfoldable pub serve :
      CommandHandler → List (Incoming P) → Open → List (Result ServerError V) × Bool × Open
  unfolding answer_op is_closing end_connection
  serve h [] c = ([], false, c)
  serve h (q ∷ requests) c =
      let (r, c') = answer_op h q.op q c in
      let (rs, closed, last) = serve h requests c' in
      if is_closing c'.session.state
      then (r ∷ [], true, end_connection c')
      else (r ∷ rs, closed, last)
