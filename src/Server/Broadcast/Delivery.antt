-- ===== src/Server/Broadcast/Delivery.antt =====
-- What reaches a subscription: the events of its instance, or those that pass its filter, all of
-- them and in their order.
use rstmdb.Base.{
  ℕ, suc, ◌+◌, ◌≡◌, ◌<◌, ◌≤◌, ◌∙◌, ◌↔◌, ◌⊎◌, refl, sym, ap, subst, arith, String, Bool, true, false,
  ◌||◌, some, List, [], ◌∷◌, ◌++◌, ◌==◌, string_key, if◌then◌else◌, length, length-append, is_empty,
  inl, inr, Bool-cases, Option-cases, append_assoc, append-nil, map, ◌-◌,
}
use rstmdb.Base.Dict.{get, get-insert, get-insert_same}
use rstmdb.Server.Broadcast.{
  InstanceEvent, EventFilter, Channels, ChannelLaws, EventBroadcaster, notify, send_to_instance,
  subscribe_instance, subscribe_all, instance_channel, matches, has_value, forward, ForwardedEvent,
}

-- The events of an instance, in their order.
abbrev pub events_of : {N : Type 0} → String → List (InstanceEvent N) → List (InstanceEvent N)
events_of id [] = []
events_of id (e ∷ es) = let rest = events_of id es in if e.instance_id == id then e ∷ rest else rest

abbrev pub Listed : String → List String → Type 0
Listed v [] = ⊥
Listed v (x ∷ xs) = (x ≡ v) ⊎ Listed v xs

-- A list of a filter lets everything through if it is empty, and else what stands in it.
abbrev pub Allows : List String → String → Type 0
Allows xs v = (xs ≡ []) ⊎ Listed v xs

abbrev pub Passes : {N : Type 0} → EventFilter → InstanceEvent N → Type 0
Passes f e =
    Allows f.machines e.machine
    × Allows f.from_states e.from_state
    × Allows f.to_states e.to_state
    × Allows f.events e.event

has_value-Listed : (xs : List String) (v : String) → (has_value xs v ≡ true) ↔ Listed v xs
unfolding has_value
has_value-Listed [] v = ground arith
has_value-Listed (x ∷ xs) v = ground (arith, has_value-Listed xs v, string_key.same_iff x v)

allows : (xs : List String) (v : String) → ((is_empty xs || has_value xs v) ≡ true) ↔ Allows xs v
allows [] v = ((λ h. inl refl), (λ h. refl))
allows (x ∷ xs) v = ground (arith, has_value-Listed (x ∷ xs) v)

-- A filter matches an event exactly if each of its four lists is empty or has the event's machine,
-- state before, state after and name.
pub matches-Passes :
    {N : Type 0} (f : EventFilter) (e : InstanceEvent N) → (matches f e ≡ true) ↔ Passes f e
unfolding matches
matches-Passes f e = ground (
  arith,
  allows f.machines e.machine,
  allows f.from_states e.from_state,
  allows f.to_states e.to_state,
  allows f.events e.event,
)

abbrev pub matching : {N : Type 0} → EventFilter → List (InstanceEvent N) → List (InstanceEvent N)
matching f [] = []
matching f (e ∷ es) = let rest = matching f es in if matches f e then e ∷ rest else rest

abbrev pub forwarded : {N : Type 0} → String → Bool → InstanceEvent N → ForwardedEvent N
forwarded id include_ctx e = record { subscription_id = id; event = e; include_ctx = include_ctx }

-- The calls of `notify`, one after the other.
abbrev pub notify_each :
    {N : Type 0} (tokio : Channels (InstanceEvent N))
    → List (InstanceEvent N)
    → EventBroadcaster tokio
    → EventBroadcaster tokio
notify_each tokio [] b = b
notify_each tokio (e ∷ es) b = notify_each tokio es (notify tokio e b)

module _ {N : Type 0} (tokio : Channels (InstanceEvent N)) (laws : ChannelLaws tokio) where
  open tokio use {Sender, Receiver, waiting, capacity}

  -- The receiver waits on the channel of the instance with these events, and room for others.
  record Watches (id : String) (r : Receiver) (room : ℕ) (seen : List (InstanceEvent N))
      (b : EventBroadcaster tokio) : Type 0 where
    sender : Sender
    there : get b.channels id ≡ some sender
    seen_by : waiting r sender ≡ seen
    fits : length seen + room ≤ capacity sender
    joined : tokio.Joined r sender

  notify-Watches :
      (id : String) (r : Receiver) (room : ℕ) (seen : List (InstanceEvent N)) (e : InstanceEvent N)
      (b : EventBroadcaster tokio)
      → (e.instance_id == id) ≡ true
      → Watches id r (suc room) seen b
      → Watches id r room (seen ++ (e ∷ [])) (notify tokio e b)
  unfolding notify send_to_instance
  notify-Watches id r room seen e b p w =
      let same = (string_key.same_iff e.instance_id id).0 p in
      let there : get b.channels e.instance_id ≡ some w.sender =
        ap (get b.channels) same ∙ w.there in
      let enough : length (waiting r w.sender) < capacity w.sender =
        omega (arith, w.fits, ap length w.seen_by) in
      record {
        sender = tokio.send w.sender e;
        there = rw (there, send_to_instance) (get-insert b.channels e.instance_id id _ ∙ rw p refl);
        seen_by =
            laws.waiting-send w.sender r e w.joined enough ∙ ap (λ es. es ++ (e ∷ [])) w.seen_by;
        fits = omega (arith, w.fits, laws.capacity-send w.sender e, length-append seen (e ∷ []));
        joined = laws.joined-send w.sender r e w.joined;
      }

  notify-other :
      (id : String) (r : Receiver) (room : ℕ) (seen : List (InstanceEvent N)) (e : InstanceEvent N)
      (b : EventBroadcaster tokio)
      → (e.instance_id == id) ≡ false
      → Watches id r room seen b
      → Watches id r room seen (notify tokio e b)
  unfolding notify send_to_instance
  notify-other id r room seen e b p w = record {
    sender = w.sender;
    there = elim (Option-cases (get b.channels e.instance_id)) [
      | inl q ↦ rw (q, send_to_instance) w.there
      | inr (c, q) ↦
          rw (q, send_to_instance) (get-insert b.channels e.instance_id id _ ∙ rw p w.there)
    ];
    seen_by = w.seen_by;
    fits = w.fits;
    joined = w.joined;
  }

  notify_each-Watches :
      (es : List (InstanceEvent N)) (id : String) (r : Receiver) (room : ℕ)
      (seen : List (InstanceEvent N)) (b : EventBroadcaster tokio)
      → length (events_of id es) ≤ room
      → Watches id r room seen b
      → Watches id r 0 (seen ++ events_of id es) (notify_each tokio es b)
  notify_each-Watches [] id r room seen b h w = record {
    sender = w.sender;
    there = w.there;
    seen_by = w.seen_by ∙ sym (append-nil seen);
    fits = omega (arith, w.fits, length-append seen []);
    joined = w.joined;
  }
  notify_each-Watches (e ∷ es) id r room seen b h w = elim (Bool-cases (e.instance_id == id)) [
    | inl p ↦
        let same : room ≡ suc (room - 1) = ground (arith, p, h) in
        let w' =
          notify-Watches id r (room - 1) seen e b p (subst (λ n. Watches id r n seen b) same w) in
        rw p (
          subst (λ l. Watches id r 0 l (notify_each tokio es (notify tokio e b)))
            (append_assoc seen (e ∷ []) (events_of id es))
            (notify_each-Watches es id r (room - 1) (seen ++ (e ∷ [])) (notify tokio e b)
              (ground (arith, p, h)) w'))
    | inr p ↦ rw p (
        notify_each-Watches es id r room seen (notify tokio e b) (ground (arith, p, h))
          (notify-other id r room seen e b p w))
  ]

  -- A receiver that subscribed to an instance is given, after any events, just the events of that
  -- instance, in their order, while these are no more than the capacity of the channel allows.
  pub subscribe_instance-delivers :
      (id instance_id : String) (include_ctx : Bool) (b : EventBroadcaster tokio)
      (es : List (InstanceEvent N))
      → length (events_of instance_id es) ≤ capacity (instance_channel tokio b instance_id)
      → (let (r, b') = subscribe_instance tokio id instance_id include_ctx b in
          (c : Sender) × (get (notify_each tokio es b').channels instance_id ≡ some c)
          × (waiting r c ≡ events_of instance_id es))
  unfolding subscribe_instance
  subscribe_instance-delivers id instance_id include_ctx b es h =
      let c = instance_channel tokio b instance_id in
      let b' = (subscribe_instance tokio id instance_id include_ctx b).1 in
      let r = (tokio.subscribe c).0 in
      let start : Watches instance_id r (capacity c) [] b' = record {
        sender = (tokio.subscribe c).1;
        there = get-insert_same b.channels instance_id _;
        seen_by = laws.waiting-new c;
        fits = omega (arith, laws.capacity-subscribe c);
        joined = laws.joined-new c;
      } in
      let w = notify_each-Watches es instance_id r (capacity c) [] b' h start in
      (w.sender, w.there, w.seen_by)

  global-waiting :
      (es : List (InstanceEvent N)) (r : Receiver) (seen : List (InstanceEvent N))
      (b : EventBroadcaster tokio)
      → tokio.Joined r b.global_sender
      → waiting r b.global_sender ≡ seen
      → length seen + length es ≤ capacity b.global_sender
      → waiting r (notify_each tokio es b).global_sender ≡ seen ++ es
  unfolding notify
  global-waiting [] r seen b j w h = w ∙ sym (append-nil seen)
  global-waiting (e ∷ es) r seen b j w h =
      let enough : length (waiting r b.global_sender) < capacity b.global_sender =
        omega (arith, ap length w, h) in
      global-waiting es r (seen ++ (e ∷ [])) (notify tokio e b)
        (laws.joined-send b.global_sender r e j)
        (laws.waiting-send b.global_sender r e j enough ∙ ap (λ es. es ++ (e ∷ [])) w)
        (omega (arith, h, laws.capacity-send b.global_sender e, length-append seen (e ∷ [])))
      ∙ append_assoc seen (e ∷ []) es

  forward-matching :
      (id : String) (filter : EventFilter) (include_ctx : Bool) (es : List (InstanceEvent N))
      → forward id (some filter) include_ctx es
        ≡ map (forwarded id include_ctx) (matching filter es)
  unfolding forward
  forward-matching id filter include_ctx [] = refl
  forward-matching id filter include_ctx (e ∷ es) = elim (Bool-cases (matches filter e)) [
    | inl p ↦
        rw p (ap (◌∷◌ (forwarded id include_ctx e)) (forward-matching id filter include_ctx es))
    | inr p ↦ rw p (forward-matching id filter include_ctx es)
  ]

  -- What a subscription to all events with a filter forwards after any events, while these are no
  -- more than the capacity of the channel allows, are just those that the filter matches, in their
  -- order, under the id of the subscription.
  pub subscribe_all-forwards :
      (id : String) (filter : EventFilter) (include_ctx : Bool) (b : EventBroadcaster tokio)
      (es : List (InstanceEvent N))
      → length es ≤ capacity b.global_sender
      → (let (r, b') = subscribe_all tokio id filter include_ctx b in
          forward id (some filter) include_ctx (waiting r (notify_each tokio es b').global_sender)
          ≡ map (forwarded id include_ctx) (matching filter es))
  unfolding subscribe_all
  subscribe_all-forwards id filter include_ctx b es h =
      let c = (tokio.subscribe b.global_sender).1 in
      let r = (tokio.subscribe b.global_sender).0 in
      let b' = (subscribe_all tokio id filter include_ctx b).1 in
      let got : waiting r (notify_each tokio es b').global_sender ≡ es =
        global-waiting es r [] b' (laws.joined-new b.global_sender)
          (laws.waiting-new b.global_sender)
          (omega (arith, h, laws.capacity-subscribe b.global_sender)) in
      ap (forward id (some filter) include_ctx) got ∙ forward-matching id filter include_ctx es
