-- ===== src/Examples/Connections.antt =====
-- A connection that has not authenticated: watches, then BYE.
use rstmdb.Base.{ℕ, ◌≡◌, refl, String, true, none, some, [], ◌∷◌}
use rstmdb.Base.Result.{ok, err}
use rstmdb.Server.Session.{new, add_all_subscription}
use rstmdb.Server.Handler.{Outside, Operation, unauthorized, invalid_request}
use rstmdb.Server.Commands.{Backend}
use rstmdb.Server.Commands.Admin.{handle_watch_all}
use rstmdb.Server.Connection.{Incoming, WatchJson, Connection, serve}
use rstmdb.Server.Connection.Ends.{Ended, serve-Ended}
use rstmdb.Examples.Machines.{libraries, list_ops}
use rstmdb.Examples.Snapshots.{snapshot_libraries}
use rstmdb.Examples.Sessions.{handler}
use rstmdb.Examples.Streams.{lists, to_paid, broadcaster}
use rstmdb.Examples.Commands.{list_admin, watching}

-- Parameters are texts, and answers numbers.
abbrev json : WatchJson String ℕ
json = record {
  watch_instance_params = λ p. some (p, true);
  watch_all_params = λ p. some (to_paid, true);
  subscription_id = λ p. some p;
  watch_answer = λ a. a.current_wal_offset;
  watch_all_answer = λ a. a.1;
  failed = λ e. invalid_request;
}

abbrev outside : Outside String ℕ (Backend libraries list_ops lists)
outside = record {
  hello_params = λ p. none;
  auth_params = λ p. some (record { method = "bearer"; token = p });
  hash_token = λ t. t;
  done = 0;
  command = λ op p s b. (ok 1, s, b);
}

unfoldable start : Connection lists (Backend libraries list_ops lists)
start = record { session = new "s" true; subscription_tasks = []; server = watching }

abbrev watch : String → Incoming String
watch id = record { op = Operation.watch_all; params = ""; new_id = id }

-- A command is refused, the watch is not.
watch_answered :
    (serve libraries list_ops list_admin lists snapshot_libraries json outside handler
      (record { op = Operation.wal_read; params = ""; new_id = "sub-1" } ∷ watch "sub-2" ∷ [])
      start).0
    ≡ err unauthorized ∷ ok 0 ∷ []
unfolding serve start watching broadcaster new handle_watch_all add_all_subscription
watch_answered = refl

serve-Ended_example :
    (serve libraries list_ops list_admin lists snapshot_libraries json outside handler
        (watch "sub-2"
          ∷ record { op = Operation.bye; params = ""; new_id = "" }
          ∷ watch "sub-3"
          ∷ [])
        start
      ≡ serve libraries list_ops list_admin lists snapshot_libraries json outside handler
          (watch "sub-2" ∷ record { op = Operation.bye; params = ""; new_id = "" } ∷ [])
          start)
    × Ended libraries list_ops list_admin lists snapshot_libraries json outside (
        serve libraries list_ops list_admin lists snapshot_libraries json outside handler
          (watch "sub-2"
            ∷ record { op = Operation.bye; params = ""; new_id = "" }
            ∷ watch "sub-3"
            ∷ [])
          start)
serve-Ended_example =
    serve-Ended libraries list_ops list_admin lists snapshot_libraries json outside handler
      (watch "sub-2" ∷ []) (watch "sub-3" ∷ []) "" "" start
