-- ===== src/Examples/Restarts.antt =====
-- Calls on an engine over a log of one segment, and the replay of what the log acknowledged.
use rstmdb.Base.{ℕ, ◌≡◌, refl, none, some, List, [], ◌∷◌}
use rstmdb.Base.Result.{ok}
use rstmdb.Wal.Entry.{WalOps}
use rstmdb.Wal.Log.Ops.{log_ops}
use rstmdb.Core.Engine.{Engine, Request}
use rstmdb.Core.Engine.Replay.{replay_entries, fresh}
use rstmdb.Core.Engine.Replay.Durable.{Same}
use rstmdb.Core.Engine.Replay.Recovery.{Command, run}
use rstmdb.Core.Engine.Replay.Acknowledged.{recording, replay-Same}
use rstmdb.Examples.Machines.{libraries, empty_object}
use rstmdb.Examples.Logs.{log_libraries, opened}

abbrev recorded : WalOps ℕ
recorded = recording (log_ops log_libraries)

abbrev paying : Request libraries recorded
paying = record {
  instance_id = "o-1";
  event = "PAY";
  payload = empty_object;
  expected_state = some "created";
  expected_wal_offset = none;
  event_id = none;
  idempotency_key = none;
}

-- The second event is refused.
abbrev calls : List (Command libraries recorded)
calls =
    Command.put "order" 1 empty_object
    ∷ Command.create "o-1" "order" 1 empty_object none 5
    ∷ Command.apply paying 6
    ∷ Command.apply paying 7
    ∷ Command.delete "o-1" none 8
    ∷ []

abbrev served : Engine libraries recorded
served = run libraries recorded (fresh libraries recorded ([], opened)) calls

replay-Same_example :
    (t : Engine libraries recorded) × (replay_entries libraries recorded 9 served.log.0
        (fresh libraries recorded served.log)
      ≡ ok t)
    × Same libraries recorded served t
replay-Same_example = replay-Same libraries (log_ops log_libraries) 9 refl opened calls
