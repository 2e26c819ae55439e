-- ===== src/Core/Engine/Replay/Acknowledged.antt =====
-- The calls on an engine over any log, and the replay of what the log acknowledged.
use rstmdb.Base.{ℕ, ◌≡◌, refl, List, [], ◌∷◌, ◌++◌, none}
use rstmdb.Base.Result.{Result, ok, err}
use rstmdb.Wal.Entry.{WalEntry, WalOps, WalLaws, Logged, Fault}
use rstmdb.Core.Json.{Value}
use rstmdb.Core.Definition.{Libraries}
use rstmdb.Core.Engine.{Engine}
use rstmdb.Core.Engine.Replay.{replay_entries, fresh, with_wal}
use rstmdb.Core.Engine.Replay.Durable.{Same}
use rstmdb.Core.Engine.Replay.Recovery.{Command, run, recovery}

-- The entries with an entry more, if the log acknowledged it.
unfoldable pub acknowledge :
    {N : Type 0} → Result Fault (ℕ × ℕ) → WalEntry N → List (Logged N) → List (Logged N)
acknowledge (ok at) entry entries = entries ++ ((at.0, at.1, entry) ∷ [])
acknowledge (err x) entry entries = entries

-- A log, with a list beside it of the entries that it has acknowledged, each with its sequence number
-- and offset; the log itself is called as it is.
abbrev pub recording : {N : Type 0} → WalOps N → WalOps N
recording {N} ops = record {
  Wal = List (Logged N) × ops.Wal;
  append = λ w entry. let (r, log) = ops.append w.1 entry in (r, (acknowledge r entry w.0, log));
  read_from = λ w from limit. (ok w.0, w);
}

recording_laws : {N : Type 0} (ops : WalOps N) → WalLaws (recording ops)
unfolding acknowledge
recording_laws ops = record {
  Valid = λ w. Unit;
  entries = λ w. w.0;
  append-Valid = λ w e v. tt;
  append_ok = λ w e sequence offset v p. rw p refl;
  append_err = λ w e x v p. rw p refl;
  read_all = λ w v. refl;
  read-entries = λ w v. refl;
  read-Valid = λ w v. tt;
}

module _ (libraries : Libraries) (ops : WalOps libraries.platform.Number) (later : ℕ)
    (null_refused : libraries.raw_of_json Value.null ≡ none) where
  -- Whatever the log does: after any calls on a fresh engine, failing ones included, the replay of
  -- the entries that the log has acknowledged, in their order, succeeds, and gives the same machines
  -- and the same instances, up to their timestamps and last event ids. JSON `null` is no
  -- definition.
  pub replay-Same :
      (w : ops.Wal) (cs : List (Command libraries (recording ops)))
      → (let s = run libraries (recording ops) (fresh libraries (recording ops) ([], w)) cs in
          (t : Engine libraries (recording ops)) × (replay_entries libraries
              (recording ops)
              later
              s.log.0
              (fresh libraries (recording ops) s.log)
            ≡ ok t)
          × Same libraries (recording ops) s t)
  unfolding with_wal recording_laws
  replay-Same w cs =
      recovery libraries (recording ops) (recording_laws ops) later null_refused ([], w) cs tt refl
