-- ===== src/Lib.antt =====
-- rstmdb: a database server for state machines. Clients register machine definitions, create
-- instances of them and apply events; every change is written to a write-ahead log before the
-- tables in memory are updated, and a restart replays the log.
--
-- Which file models which part:
--   Wal/Record      rstmdb-wal/src/entry.rs: the header of a record, `encode` and `decode`
--   Wal/Segment     rstmdb-wal/src/segment.rs: `Segment`, its file, `append`, `sync`, `read_all`
--   Wal/Entry       rstmdb-wal/src/entry.rs: `WalEntry`, and the log as an interface: the
--                   operations the engine calls (`WalOps`) and what a log without faults promises (`WalLaws`)
--   Wal/Offset, Wal/Log   rstmdb-wal/src/wal.rs: `WalOffset` and `Wal`: rotation, `append`, fsync
--                   policies, compaction; Wal/Log/Read: `open`, `recover`, `read_from`;
--                   Wal/Log/Ops: these as the operations that the engine calls
--   Wal/Recovery    rstmdb-wal/src/recovery.rs: `WalRecovery`, scanning and truncating segments
--   Storage/Snapshot   rstmdb-storage/src/snapshot.rs: `SnapshotStore` and its files
--   Storage/Index   rstmdb-storage/src/index.rs: `IdempotencyIndex`
--   Storage/Store   rstmdb-storage/src/store.rs: `Storage` over the log, the snapshots and the index;
--                   Storage/Store/Calls is its calls; Storage/Error is error.rs
--   Protocol/Frame  rstmdb-protocol/src/frame.rs: `FrameFlags`, `Frame`
--   Protocol/Codec  rstmdb-protocol/src/codec.rs: `Encoder`, `Decoder`, `jsonl`
--   Protocol/Message   rstmdb-protocol/src/message.rs: responses, and the codes of error.rs
--   Core/Json       `serde_json::Value` with the operations on objects that the core uses
--   Core/Guard      rstmdb-core/src/guard.rs: Expr is `GuardExpr::evaluate`; Parser/Lexer and
--                   Parser/Grammar are `Parser`, and Parser/Remainder, Tokens and Fuel their proofs
--   Core/Definition rstmdb-core/src/definition.rs: `MachineDefinition::from_raw` and the table
--   Core/Instance   rstmdb-core/src/instance.rs
--   Core/Engine     rstmdb-core/src/engine.rs: `StateMachineEngine`, a call is a function from the
--                   engine to a result and the engine afterwards; Core/Engine/Replay is `with_wal`;
--                   Replay/Acknowledged keeps a list of what the log has acknowledged beside it
--   Core/Error      rstmdb-core/src/error.rs
--   Server/Session, Server/Auth   rstmdb-server/src/session.rs and auth.rs
--   Server/Handler  rstmdb-server/src/handler.rs: the authentication gate and the session's
--                   operations; the other operations are a parameter there
--   Server/Error    rstmdb-server/src/error.rs, and the handler's responses
--   Server/Batch    the handler's BATCH
--   Server/Machines the handler's PUT_MACHINE with its limit on versions, over Core/Engine/Listing
--   Server/Commands the handler's operations on instances and the events they send; Commands/Admin:
--                   WATCH, UNWATCH, snapshots and the log
--   Server/Compaction  rstmdb-server/src/compaction.rs, the snapshots and deletions in the background,
--                   with the thresholds of config.rs
--   Server/Broadcast   rstmdb-server/src/broadcast.rs, and the task of server.rs that forwards events
--   Server/Connection  rstmdb-server/src/server.rs: the requests of a connection, in its inner loop
--   Base            lists, dictionaries, big-endian words, results, calls that may fail
--   Examples        concrete inputs
--
-- How they interact: Server/Connection answers the requests of a connection; a command passes the
-- gate of Server/Handler, the handlers of Server/Commands and Server/Machines call the engine of
-- Core/Engine, which appends to the log (`WalOps` of Wal/Entry) before its tables change; what was
-- applied goes to the watchers through Server/Broadcast. Server/Compaction writes snapshots of the
-- engine's instances to Storage/Snapshot and then deletes segments of Wal/Log before the oldest
-- snapshot. Storage/Store, which the server does not use, brings log, snapshots and index together.
--
-- Bytes are numbers, and a word of w bits is a number that is cut with `% 2 ^ w` where the code
-- casts. Checksums, JSON, UTF-8, floating point numbers and the pieces in which the operating
-- system returns a file are parameters, and so are the channels of tokio: their laws say what a
-- receiver gets while the channel has room. Maps are association lists. The clock, the time since
-- an event and new identifiers are arguments.
--
-- The guard parser runs on fuel: `parse_guard` gives 4 * n + 5 for a text of n characters, four
-- calls for each character that is consumed. The inner loop of `read_all` runs on the length of
-- its buffer and one more: every round but the last consumes a header of 24 bytes. The scan of a
-- segment in Wal/Recovery runs on the length of its buffer and one more: every round but the last
-- shortens the buffer. The walk over all pages in Server/Commands/Pages runs on one round for each
-- instance that matches and one more.
--
-- That `WalLaws` hold of Wal/Log is not shown, and they can fail there: an `append` whose offset does
-- not fit its bits panics with the record already written. The results on the engine do not rest on
-- them.
--
-- Not modelled: locks and the concurrent maps, one call runs at a time; errors of the operating
-- system; sockets, TLS, what the loop of a connection waits for and its deadlines; the configuration
-- but for compaction; metrics; the client, the command line and the benchmarks.
pub mod Base
pub mod Wal
pub mod Protocol
pub mod Core
pub mod Storage
pub mod Server
pub mod Examples
