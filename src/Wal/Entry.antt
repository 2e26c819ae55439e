-- ===== src/Wal/Entry.antt =====
-- rstmdb-wal/src/entry.rs: the typed entries, and the log as its clients see it.
use rstmdb.Base.{ℕ, ◌≡◌, String, Option, none, some, List, [], ◌∷◌, ◌++◌}
use rstmdb.Base.Result.{Result, ok, err}
use rstmdb.Core.Json.{Value}
use rstmdb.Wal.Record.{WalError, WalEntryType}

pub data WalEntry (N : Type 0) : Type 0 where
  -- machine, version, definition_hash, definition
  put_machine : String → ℕ → String → Value N → WalEntry N
  -- instance_id, machine, version, initial_state, initial_ctx, idempotency_key
  create_instance : String → String → ℕ → String → Value N → Option String → WalEntry N
  -- instance_id, event, from_state, to_state, payload, ctx, event_id, idempotency_key
  apply_event :
      String
      → String
      → String
      → String
      → Value N
      → Value N
      → Option String
      → Option String
      → WalEntry N
  -- instance_id, idempotency_key
  delete_instance : String → Option String → WalEntry N
  -- instance_id, snapshot_id, state, ctx
  snapshot : String → String → String → Value N → WalEntry N
  -- timestamp
  checkpoint : ℕ → WalEntry N

module _ {N : Type 0} where
  unfoldable pub entry_type : WalEntry N → WalEntryType
  entry_type (put_machine m v h d) = WalEntryType.put_machine
  entry_type (create_instance i m v s c k) = WalEntryType.create_instance
  entry_type (apply_event i e f t p c d k) = WalEntryType.apply_event
  entry_type (delete_instance i k) = WalEntryType.delete_instance
  entry_type (snapshot i d s c) = WalEntryType.snapshot
  entry_type (checkpoint t) = WalEntryType.checkpoint

  unfoldable pub instance_id : WalEntry N → Option String
  instance_id (create_instance i m v s c k) = some i
  instance_id (apply_event i e f t p c d k) = some i
  instance_id (delete_instance i k) = some i
  instance_id (snapshot i d s c) = some i
  instance_id _ = none

  unfoldable pub idempotency_key : WalEntry N → Option String
  idempotency_key (create_instance i m v s c k) = k
  idempotency_key (apply_event i e f t p c d k) = k
  idempotency_key (delete_instance i k) = k
  idempotency_key _ = none

-- What ends a call of the log early: an error, or the failed `assert!` of `WalOffset::new`.
pub data Fault : Type 0 where
  error : WalError → Fault
  panicked : Fault

-- A sequence number, an offset and the entry.
abbrev pub Logged : Type 0 → Type 0
Logged N = ℕ × ℕ × WalEntry N

-- The log as the engine uses it.
pub record WalOps (N : Type 0) : Type 1 where
  pub Wal : Type 0
  pub append : Wal → WalEntry N → Result Fault (ℕ × ℕ) × Wal
  pub read_from : Wal → ℕ → Option ℕ → Result Fault (List (Logged N)) × Wal

-- What a log without faults promises: it holds what was appended, in order, and nothing else.
pub record WalLaws {N : Type 0} (ops : WalOps N) : Type 1 where
  pub Valid : ops.Wal → Type 0
  pub entries : ops.Wal → List (Logged N)
  pub append-Valid : (w : ops.Wal) (e : WalEntry N) → Valid w → Valid (ops.append w e).1
  pub append_ok :
      (w : ops.Wal) (e : WalEntry N) (sequence offset : ℕ)
      → Valid w
      → (ops.append w e).0 ≡ ok (sequence, offset)
      → entries (ops.append w e).1 ≡ entries w ++ ((sequence, offset, e) ∷ [])
  pub append_err :
      (w : ops.Wal) (e : WalEntry N) (x : Fault)
      → Valid w
      → (ops.append w e).0 ≡ err x
      → entries (ops.append w e).1 ≡ entries w
  pub read_all : (w : ops.Wal) → Valid w → (ops.read_from w 0 none).0 ≡ ok (entries w)
  pub read-entries : (w : ops.Wal) → Valid w → entries (ops.read_from w 0 none).1 ≡ entries w
  pub read-Valid : (w : ops.Wal) → Valid w → Valid (ops.read_from w 0 none).1
