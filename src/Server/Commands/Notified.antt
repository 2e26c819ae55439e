-- ===== src/Server/Commands/Notified.antt =====
-- From the requests that apply events to the clients that watch: what the answers say is what is
-- delivered.
use rstmdb.Base.{
  ℕ, ◌≡◌, ◌≤◌, ◌∙◌, refl, ap, String, Bool, Option, none, some, List, [], ◌∷◌, ◌++◌, length, inl,
  inr, Option-cases, Bool-cases, string_key, if◌then◌else◌,
}
use rstmdb.Base.Dict.{get}
use rstmdb.Base.Result.{Result, ok, Result-cases}
use rstmdb.Wal.Entry.{WalOps}
use rstmdb.Core.Definition.{Libraries}
use rstmdb.Core.Instance.{Instance}
use rstmdb.Core.Engine.{Request, ApplyResult, get_instance, apply_event_call, cached, fail}
use rstmdb.Server.Broadcast.{
  InstanceEvent, Channels, ChannelLaws, EventBroadcaster, notify, subscribe_instance,
  instance_channel,
}
use rstmdb.Server.Broadcast.Delivery.{events_of, notify_each, subscribe_instance-delivers}
use rstmdb.Server.Commands.{Backend, CommandError, handle_apply_event, notify_watchers, event_of}

module _ (libraries : Libraries) (ops : WalOps libraries.platform.Number)
    (tokio : Channels (InstanceEvent libraries.platform.Number)) where
  open libraries.platform use {Number}

  abbrev Back : Type 0
  Back = Backend libraries ops tokio

  -- The event that a successful answer reports, of the instance as it was found.
  abbrev pub reported :
      Request libraries ops
      → Option (Instance Number)
      → Result CommandError (ApplyResult Number)
      → List (InstanceEvent Number)
  reported q (some i) (ok result) =
      if result.applied then event_of libraries ops tokio q i result ∷ [] else []
  reported q _ _ = []

  -- The requests, each at its time, one after the other; and what their answers report.
  abbrev pub apply_each : List (Request libraries ops × ℕ) → Back → Back
  apply_each [] s = s
  apply_each ((q, now) ∷ requests) s =
      apply_each requests (handle_apply_event libraries ops tokio q now s).1

  abbrev pub report_each : List (Request libraries ops × ℕ) → Back → List (InstanceEvent Number)
  report_each [] s = []
  report_each ((q, now) ∷ requests) s =
      let (r, s') = handle_apply_event libraries ops tokio q now s in
      reported q (get s.engine.instances q.instance_id) r ++ report_each requests s'

  handle_apply_event-notifies :
      (q : Request libraries ops) (now : ℕ) (s : Back) (b : EventBroadcaster tokio)
      → s.broadcaster ≡ some b
      → (let (r, s') = handle_apply_event libraries ops tokio q now s in
          s'.broadcaster
          ≡ some (notify_each tokio (reported q (get s.engine.instances q.instance_id) r) b))
  unfolding handle_apply_event get_instance fail notify_watchers
  handle_apply_event-notifies q now s b e =
      elim (Option-cases (get s.engine.instances q.instance_id)) [
        | inl p ↦ rw (p, handle_apply_event, get_instance) e
        | inr (i, p) ↦
            rw (p, handle_apply_event, get_instance)
              (elim (Result-cases (apply_event_call libraries ops q now s.engine).0) [
                | inl (result, r) ↦ rw r (elim (Bool-cases result.applied) [
                  | inl a ↦ rw (a, e, notify_watchers) refl
                  | inr a ↦ rw a e
                ])
                | inr (x, r) ↦ rw r e
              ])
      ]

  notify_each-append :
      (es fs : List (InstanceEvent Number)) (b : EventBroadcaster tokio)
      → notify_each tokio fs (notify_each tokio es b) ≡ notify_each tokio (es ++ fs) b
  notify_each-append [] fs b = refl
  notify_each-append (e ∷ es) fs b = notify_each-append es fs (notify tokio e b)

  apply_each-notifies :
      (requests : List (Request libraries ops × ℕ)) (s : Back) (b : EventBroadcaster tokio)
      → s.broadcaster ≡ some b
      → (apply_each requests s).broadcaster ≡ some (notify_each tokio (report_each requests s) b)
  apply_each-notifies [] s b e = e
  apply_each-notifies ((q, now) ∷ requests) s b e =
      let (r, s') = handle_apply_event libraries ops tokio q now s in
      let told = reported q (get s.engine.instances q.instance_id) r in
      apply_each-notifies requests s' (notify_each tokio told b)
        (handle_apply_event-notifies q now s b e)
      ∙ ap some (notify_each-append told (report_each requests s') b)

  -- None of the requests is answered from the idempotency cache when its turn comes.
  abbrev pub AllNew : List (Request libraries ops × ℕ) → Back → Type 0
  AllNew [] s = Unit
  AllNew ((q, now) ∷ requests) s =
      (cached libraries ops s.engine q.instance_id q.idempotency_key ≡ none)
      × AllNew requests (handle_apply_event libraries ops tokio q now s).1

  -- What the answers report that do not come from the idempotency cache.
  abbrev pub applied_each : List (Request libraries ops × ℕ) → Back → List (InstanceEvent Number)
  applied_each [] s = []
  applied_each ((q, now) ∷ requests) s =
      let (r, s') = handle_apply_event libraries ops tokio q now s in
      (elim (cached libraries ops s.engine q.instance_id q.idempotency_key) [
        | none ↦ reported q (get s.engine.instances q.instance_id) r
        | some result ↦ []
      ])
      ++ applied_each requests s'

  report_each-applied :
      (requests : List (Request libraries ops × ℕ)) (s : Back)
      → AllNew requests s
      → report_each requests s ≡ applied_each requests s
  report_each-applied [] s h = refl
  report_each-applied ((q, now) ∷ requests) s h =
      let (r, s') = handle_apply_event libraries ops tokio q now s in
      rw h.0 (
        ap (λ es. reported q (get s.engine.instances q.instance_id) r ++ es)
          (report_each-applied requests s' h.1))

  -- A client that subscribed to an instance before any requests to apply events, none of which is
  -- answered from the idempotency cache, is given just the events that the successful ones of them
  -- for this instance report in their answers, in their order, while these are no more than the
  -- capacity of its channel.
  pub apply_each-delivers :
      (laws : ChannelLaws tokio) (id instance_id : String) (include_ctx : Bool)
      (requests : List (Request libraries ops × ℕ)) (s : Back) (b : EventBroadcaster tokio)
      → s.broadcaster ≡ some (subscribe_instance tokio id instance_id include_ctx b).1
      → AllNew requests s
      → length (events_of instance_id (applied_each requests s))
        ≤ tokio.capacity (instance_channel tokio b instance_id)
      → (last : EventBroadcaster tokio) × (c : tokio.Sender) × ((apply_each requests s).broadcaster
          ≡ some last)
        × (get last.channels instance_id ≡ some c)
        × (tokio.waiting (subscribe_instance tokio id instance_id include_ctx b).0 c
            ≡ events_of instance_id (applied_each requests s))
  apply_each-delivers laws id instance_id include_ctx requests s b e new h =
      let b' = (subscribe_instance tokio id instance_id include_ctx b).1 in
      let es = applied_each requests s in
      let (c, there, got) =
        subscribe_instance-delivers tokio laws id instance_id include_ctx b es h in
      (
        notify_each tokio es b',
        c,
        apply_each-notifies requests s b' e
            ∙ ap (λ es. some (notify_each tokio es b')) (report_each-applied requests s new),
        there,
        got,
      )
