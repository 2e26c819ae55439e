-- ===== src/Core/Engine/Replay/Recovery.antt =====
-- A history of calls, a restart, and what is the same afterwards.
use rstmdb.Base.{ℕ, String, ◌≡◌, refl, Option, none, List, [], ◌∷◌}
use rstmdb.Base.Result.{ok}
use rstmdb.Wal.Entry.{WalOps, WalLaws}
use rstmdb.Core.Json.{Value}
use rstmdb.Core.Definition.{Libraries}
use rstmdb.Core.Engine.{
  Engine, Request, put_machine_call, create_instance_call, apply_event_call, delete_instance_call,
}
use rstmdb.Core.Engine.Replay.{replay_entries, fresh, with_wal}
use rstmdb.Core.Engine.Replay.Durable.{Same, IsDurable}
use rstmdb.Core.Engine.Replay.Calls.{
  put_machine-IsDurable, create_instance-IsDurable, apply_event-IsDurable,
  delete_instance-IsDurable,
}

module _ (libraries : Libraries) (ops : WalOps libraries.platform.Number) where
  open libraries.platform use {Number}

  -- The calls that change the engine; `now` is the clock at the call.
  pub data Command : Type 0 where
    put : String → ℕ → Value Number → Command
    create : String → String → ℕ → Value Number → Option String → ℕ → Command
    apply : Request libraries ops → ℕ → Command
    delete : String → Option String → ℕ → Command

  unfoldable pub execute : Engine libraries ops → Command → Engine libraries ops
  execute s (put name version json) = (put_machine_call libraries ops name version json s).1
  execute s (create id machine version ctx key now) =
      (create_instance_call libraries ops id machine version ctx key now s).1
  execute s (apply q now) = (apply_event_call libraries ops q now s).1
  execute s (delete id key now) = (delete_instance_call libraries ops id key now s).1

  unfoldable pub run : Engine libraries ops → List Command → Engine libraries ops
  unfolding execute
  run s [] = s
  run s (c ∷ cs) = run (execute s c) cs

  -- An engine opened on the log of `s` is there, and has the same machines and instances as `s`.
  abbrev pub Recovered : ℕ → Engine libraries ops → Type 0
  Recovered later s =
      (t : Engine libraries ops) × (with_wal libraries ops later s.log ≡ ok t)
      × Same libraries ops s t

  module _ (laws : WalLaws ops) (later : ℕ)
      (null_refused : libraries.raw_of_json Value.null ≡ none) where
    pub execute-IsDurable :
        (s : Engine libraries ops) (c : Command)
        → IsDurable libraries ops laws later s
        → IsDurable libraries ops laws later (execute s c)
    unfolding execute
    execute-IsDurable s (put name version json) d =
        put_machine-IsDurable libraries ops laws later s name version json null_refused d
    execute-IsDurable s (create id machine version ctx key now) d =
        create_instance-IsDurable libraries ops laws later s id machine version ctx key now d
    execute-IsDurable s (apply q now) d = apply_event-IsDurable libraries ops laws later s q now d
    execute-IsDurable s (delete id key now) d =
        delete_instance-IsDurable libraries ops laws later s id key now d

    run-IsDurable :
        (s : Engine libraries ops) (cs : List Command)
        → IsDurable libraries ops laws later s
        → IsDurable libraries ops laws later (run s cs)
    unfolding run
    run-IsDurable s [] d = d
    run-IsDurable s (c ∷ cs) d = run-IsDurable (execute s c) cs (execute-IsDurable s c d)

    fresh-IsDurable :
        (w : ops.Wal)
        → laws.Valid w
        → laws.entries w ≡ []
        → IsDurable libraries ops laws later (fresh libraries ops w)
    unfolding fresh replay_entries
    fresh-IsDurable w v e = record {
      valid = v;
      rebuilt = λ w'. (
        fresh libraries ops w',
        rw e refl,
        record { definitions = λ k. refl; views = λ id. refl },
      );
    }

    -- After any calls on an engine over an empty log, failing ones included, opening an engine on
    -- the log succeeds, and gives the same machines and the same instances, up to their timestamps
    -- and last event ids. It holds for every log that keeps what was appended, and where JSON
    -- `null` is no definition.
    pub recovery :
        (w : ops.Wal) (cs : List Command)
        → laws.Valid w
        → laws.entries w ≡ []
        → Recovered later (run (fresh libraries ops w) cs)
    unfolding with_wal
    recovery w cs v e =
        let s = run (fresh libraries ops w) cs in
        let d = run-IsDurable (fresh libraries ops w) cs (fresh-IsDurable w v e) in
        let (t, returns, same) = d.rebuilt (ops.read_from s.log 0 none).1 in
        (t, rw (laws.read_all s.log d.valid) returns, same)
