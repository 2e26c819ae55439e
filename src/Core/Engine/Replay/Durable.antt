-- ===== src/Core/Engine/Replay/Durable.antt =====
-- The log of an engine replays to the engine, up to timestamps, event ids and the idempotency cache.
use rstmdb.Base.{
  ℕ, String, ◌≡◌, refl, ap, ◌∙◌, Option, none, some, List, [], ◌∷◌, ◌++◌, string_key, nat_key,
  pair_key, inl, inr, arith, Option-cases,
}
use rstmdb.Base.Dict.{get, insert, get-insert}
use rstmdb.Base.Result.{Result, ok, err, ◌>>=◌}
use rstmdb.Wal.Entry.{WalEntry, WalOps, WalLaws, Logged, Fault}
use rstmdb.Core.Json.{Value}
use rstmdb.Core.Error.{Stop}
use rstmdb.Core.Definition.{Libraries, MachineDefinition}
use rstmdb.Core.Instance.{Instance, InstanceState}
use rstmdb.Core.Engine.{Engine}
use rstmdb.Core.Engine.Replay.{replay_entry, replay_entries, fresh}

-- What a client can rely on to survive a restart.
pub record View (N : Type 0) : Type 0 where
  pub id : String
  pub machine : String
  pub version : ℕ
  pub state : String
  pub ctx : Value N
  pub instance_state : InstanceState
  pub last_wal_offset : ℕ

abbrev pub view : {N : Type 0} → Instance N → View N
view i = record {
  id = i.id;
  machine = i.machine;
  version = i.version;
  state = i.state;
  ctx = i.ctx;
  instance_state = i.instance_state;
  last_wal_offset = i.last_wal_offset;
}

module _ (libraries : Libraries) (ops : WalOps libraries.platform.Number) where
  open libraries.platform use {Number}

  abbrev pub view_of : Engine libraries ops → String → Option (View Number)
  view_of s id = elim (get s.instances id) [ none ↦ none | some i ↦ some (view i) ]

  -- Two engines with the same machines and the same views of the instances.
  pub record Same (s t : Engine libraries ops) : Type 0 where
    pub definitions : (k : String × ℕ) → get s.definitions k ≡ get t.definitions k
    pub views : (id : String) → view_of s id ≡ view_of t id

  pub Same-none :
      (s t : Engine libraries ops) (id : String)
      → Same s t
      → get s.instances id ≡ none
      → get t.instances id ≡ none
  Same-none s t id h e = ground (arith, h.views id)

  pub Same-some :
      (s t : Engine libraries ops) (id : String) {i : Instance Number}
      → Same s t
      → get s.instances id ≡ some i
      → (j : Instance Number) × (get t.instances id ≡ some j) × (view i ≡ view j)
  Same-some s t id h e = elim (Option-cases (get t.instances id)) [
    | inl p ↦ absurd (ground (arith, h.views id))
    | inr (j, p) ↦ (j, p, ground (arith, h.views id))
  ]

  -- Both engines put an instance with the same view under one id.
  pub Same-insert :
      (s t : Engine libraries ops) (w : ops.Wal) (id : String) (i j : Instance Number)
      → Same s t
      → view i ≡ view j
      → Same
          (record s { log = w; instances = insert s.instances id i })
          (record t { instances = insert t.instances id j })
  Same-insert s t w id i j h e = record {
    definitions = h.definitions;
    views = λ k.
        ground (arith, get-insert s.instances id k i, get-insert t.instances id k j, h.views k);
  }

  pub Same-define :
      (s t : Engine libraries ops) (w : ops.Wal) (key : String × ℕ)
      (d : MachineDefinition libraries)
      → Same s t
      → Same
          (record s { log = w; definitions = insert s.definitions key d })
          (record t { definitions = insert t.definitions key d })
  Same-define s t w key d h = record {
    definitions = λ k. simp get-insert (rw (h.definitions k));
    views = h.views;
  }

  module _ (laws : WalLaws ops) (now : ℕ) where
    open laws use {Valid, entries}

    abbrev pub Rebuilt : List (Logged Number) → Engine libraries ops → ops.Wal → Type 0
    Rebuilt es s w =
        (t : Engine libraries ops) × (replay_entries libraries ops now es (fresh libraries ops w)
          ≡ ok t)
        × Same s t

    -- The log is sound, and a replay of its entries gives the engine.
    pub record IsDurable (s : Engine libraries ops) : Type 0 where
      pub valid : Valid s.log
      pub rebuilt : (w : ops.Wal) → Rebuilt (entries s.log) s w

    last_entry :
        (r : Result Stop (Engine libraries ops)) → (r >>= replay_entries libraries ops now []) ≡ r
    unfolding replay_entries
    last_entry (ok t) = refl
    last_entry (err x) = refl

    bind_cases :
        (r : Result Stop (Engine libraries ops))
        (f : Engine libraries ops → Result Stop (Engine libraries ops))
        (g : Engine libraries ops → Result Stop (Engine libraries ops))
        (k : Engine libraries ops → Result Stop (Engine libraries ops))
        → ((t : Engine libraries ops) → f t ≡ (g t >>= k))
        → (r >>= f) ≡ (r >>= g >>= k)
    bind_cases (ok t) f g k h = h t
    bind_cases (err x) f g k h = refl

    replay-append :
        (es : List (Logged Number)) (q o : ℕ) (e : WalEntry Number) (s : Engine libraries ops)
        → replay_entries libraries ops now (es ++ ((q, o, e) ∷ [])) s
          ≡ (replay_entries libraries ops now es s >>= λ t. replay_entry libraries ops now t o e)
    unfolding replay_entries
    replay-append [] q o e s = last_entry (replay_entry libraries ops now s o e)
    replay-append ((q', o', e') ∷ es) q o e s =
        bind_cases (replay_entry libraries ops now s o' e') _ (replay_entries libraries ops now es)
          (λ t. replay_entry libraries ops now t o e) (λ t. replay-append es q o e t)

    -- One more entry: the engine after it must be what the replay of the entry gives.
    pub after_append :
        (s s' : Engine libraries ops) (e : WalEntry Number) (q o : ℕ)
        → IsDurable s
        → (ops.append s.log e).0 ≡ ok (q, o)
        → s'.log ≡ (ops.append s.log e).1
        → ((t : Engine libraries ops)
            → Same s t
            → (t' : Engine libraries ops) × (replay_entry libraries ops now t o e ≡ ok t')
              × Same s' t')
        → IsDurable s'
    after_append s s' e q o d p l step = record {
      valid = rw l (laws.append-Valid s.log e d.valid);
      rebuilt = λ w.
          let (t, returns, same) = d.rebuilt w in
          let (t', entry, same') = step t same in
          (
            t',
            ap (λ es. replay_entries libraries ops now es (fresh libraries ops w))
                  (ap entries l ∙ laws.append_ok s.log e q o d.valid p)
                ∙ replay-append (entries s.log) q o e (fresh libraries ops w)
                ∙ rw returns entry,
            same',
          );
    }

    pub failed_append :
        (s : Engine libraries ops) (e : WalEntry Number) (x : Fault)
        → IsDurable s
        → (ops.append s.log e).0 ≡ err x
        → IsDurable (record s { log = (ops.append s.log e).1 })
    failed_append s e x d p = record {
      valid = laws.append-Valid s.log e d.valid;
      rebuilt = λ w.
          let (t, returns, same) = d.rebuilt w in
          (
            t,
            rw (laws.append_err s.log e x d.valid p) returns,
            record { definitions = same.definitions; views = same.views },
          );
    }
