-- ===== src/Server/Connection/Ends.antt =====
-- How a connection ends: BYE, and what is left of its subscriptions.
use rstmdb.Base.{
  ◌≡◌, refl, ap, ◌∙◌, arith, String, Bool, true, Option, none, some, List, [], ◌∷◌, ◌++◌, map,
  string_key, All, Bool-cases, inl, inr, same_refl,
}
use rstmdb.Base.Dict.{get, get-remove}
use rstmdb.Base.Result.{Result}
use rstmdb.Wal.Entry.{WalOps}
use rstmdb.Core.Definition.{Libraries}
use rstmdb.Storage.Snapshot.{SnapshotLibraries}
use rstmdb.Server.Session.{Session, set_state}
use rstmdb.Server.Handler.{
  Outside, CommandHandler, Operation, ServerError, handle, dispatch, requires_auth, is_open,
  handle_bye,
}
use rstmdb.Server.Broadcast.{
  InstanceEvent, Channels, EventBroadcaster, cleanup_subscriptions, unsubscribe,
}
use rstmdb.Server.Commands.{Backend}
use rstmdb.Server.Commands.Admin.{WalAdmin}
use rstmdb.Server.Connection.{
  Incoming, WatchJson, Connection, is_closing, answer_op, answer_handled, end_subscriptions,
  end_connection, serve,
}

module _ {N : Type 0} (tokio : Channels (InstanceEvent N)) where
  cleanup-none :
      (ids : List String) (b : EventBroadcaster tokio) (id : String)
      → get b.subscriptions id ≡ none
      → get (cleanup_subscriptions tokio ids b).subscriptions id ≡ none
  unfolding cleanup_subscriptions unsubscribe
  cleanup-none [] b id h = h
  cleanup-none (j ∷ ids) b id h =
      cleanup-none ids (unsubscribe tokio j b).1 id
        (ground (arith, get-remove b.subscriptions j id, h))

  cleanup-All :
      (ids : List String) (b : EventBroadcaster tokio)
      → All (λ id. get (cleanup_subscriptions tokio ids b).subscriptions id ≡ none) ids
  unfolding cleanup_subscriptions unsubscribe
  cleanup-All [] b = tt
  cleanup-All (id ∷ ids) b =
      let b' = (unsubscribe tokio id b).1 in
      let gone : get b'.subscriptions id ≡ none =
        get-remove b.subscriptions id id ∙ rw (same_refl id) refl in
      (cleanup-none ids b' id gone, cleanup-All ids b')

  -- The broadcaster has none of the subscriptions.
  abbrev pub Gone : Option (EventBroadcaster tokio) → List String → Type 0
  Gone none ids = Unit
  Gone (some b) ids = All (λ id. get b.subscriptions id ≡ none) ids

module _ {P V : Type 0} (libraries : Libraries) (ops : WalOps libraries.platform.Number)
    (admin : WalAdmin ops) (tokio : Channels (InstanceEvent libraries.platform.Number))
    (snapshot_libraries : SnapshotLibraries libraries.platform.Number) (json : WatchJson P V)
    (outside : Outside P V (Backend libraries ops tokio)) where
  abbrev Open : Type 0
  Open = Connection tokio (Backend libraries ops tokio)

  abbrev end_broadcaster :
      Session → Option (EventBroadcaster tokio) → Option (EventBroadcaster tokio)
  end_broadcaster = end_subscriptions libraries ops admin tokio snapshot_libraries json outside

  end_subscriptions-Gone :
      (session : Session) (b : Option (EventBroadcaster tokio))
      → Gone tokio (end_broadcaster session b) (map (λ s. s.0) session.subscriptions)
  unfolding end_subscriptions
  end_subscriptions-Gone session none = tt
  end_subscriptions-Gone session (some b) =
      cleanup-All tokio (map (λ s. s.0) session.subscriptions) b

  -- What a closed connection leaves.
  pub record Ended (a : List (Result ServerError V) × Bool × Open) : Type 0 where
    pub closed : a.1 ≡ true
    pub tasks : a.2.subscription_tasks ≡ []
    pub subscriptions : Gone tokio a.2.server.broadcaster (map (λ s. s.0) a.2.session.subscriptions)

  abbrev bye : P → String → Incoming P
  bye params new_id = record { op = Operation.bye; params = params; new_id = new_id }

  abbrev answer_of : CommandHandler → Incoming P → Open → Result ServerError V × Open
  answer_of h q c = answer_op libraries ops admin tokio snapshot_libraries json outside h q.op q c

  abbrev serve_all :
      CommandHandler → List (Incoming P) → Open → List (Result ServerError V) × Bool × Open
  serve_all = serve libraries ops admin tokio snapshot_libraries json outside

  bye-closing :
      (h : CommandHandler) (params : P) (new_id : String) (c : Open)
      → is_closing (answer_of h (bye params new_id) c).1.session.state ≡ true
  unfolding answer_op answer_handled handle requires_auth is_open dispatch handle_bye set_state
      is_closing
  bye-closing h params new_id c = elim (Bool-cases h.auth_required) [
    | inl p ↦ rw (p, handle) refl
    | inr p ↦ rw (p, handle) refl
  ]

  closing-Ended :
      (h : CommandHandler) (q : Incoming P) (requests : List (Incoming P)) (c : Open)
      → is_closing (answer_of h q c).1.session.state ≡ true
      → Ended (serve_all h (q ∷ requests) c)
  unfolding serve end_connection
  closing-Ended h q requests c p =
      rw (p, serve)
        (record {
          closed = refl;
          tasks = refl;
          subscriptions =
              end_subscriptions-Gone (answer_of h q c).1.session
                (answer_of h q c).1.server.broadcaster;
        })

  -- Requests with a BYE among them close the connection: the requests after the BYE are not
  -- answered and change nothing, no forwarding task is left, and the broadcaster has none of the
  -- subscriptions of the session.
  pub serve-Ended :
      (h : CommandHandler) (before after : List (Incoming P)) (params : P) (new_id : String)
      (c : Open)
      → (serve_all h (before ++ bye params new_id ∷ after) c
          ≡ serve_all h (before ++ bye params new_id ∷ []) c)
        × Ended (serve_all h (before ++ bye params new_id ∷ after) c)
  unfolding serve
  serve-Ended h [] after params new_id c =
      let p = bye-closing h params new_id c in
      (rw (p, serve) refl, closing-Ended h (bye params new_id) after c p)
  serve-Ended h (q ∷ before) after params new_id c =
      let (same, later) = serve-Ended h before after params new_id (answer_of h q c).1 in
      elim (Bool-cases (is_closing (answer_of h q c).1.session.state)) [
        | inl p ↦ (rw (p, serve) refl, closing-Ended h q (before ++ bye params new_id ∷ after) c p)
        | inr p ↦ (
          rw (p, serve) (ap (λ a. ((answer_of h q c).0 ∷ a.0, a.1, a.2)) same),
          rw (p, serve)
              (record {
                closed = later.closed;
                tasks = later.tasks;
                subscriptions = later.subscriptions;
              }),
        )
      ]
