-- ===== src/Core/Engine/Idempotent.antt =====
-- A call that is repeated.
use rstmdb.Base.{
  ℕ, String, ◌≡◌, refl, sym, ◌∙◌, ap, arith, Option, none, some, Option-cases, Bool-cases, inl, inr,
  same_refl, true, string_key, pair_key,
}
use rstmdb.Base.Dict.{get, get-insert}
use rstmdb.Base.Result.{ok, Result-cases}
use rstmdb.Wal.Entry.{WalOps, delete_instance}
use rstmdb.Core.Definition.{Libraries}
use rstmdb.Core.Instance.{Instance, is_deleted, soft_delete}
use rstmdb.Core.Engine.Applied.{apply_event-Moved}
use rstmdb.Core.Engine.{
  Engine, Request, ApplyResult, apply_event_call, cached, remember, get_instance, append_log,
  delete_instance_call, delete_found,
}

module _ (libraries : Libraries) (ops : WalOps libraries.platform.Number) where
  open libraries.platform use {Number}

  -- A result that is cached under the key of a request answers the request.
  answered :
      (q : Request libraries ops) (now : ℕ) (key : String) (s : Engine libraries ops)
      (r : ApplyResult Number)
      → q.idempotency_key ≡ some key
      → get s.idempotency_cache (q.instance_id, key) ≡ some r
      → apply_event_call libraries ops q now s ≡ (ok r, s)
  unfolding apply_event_call cached
  answered q now key s r k e = rw (k, e, cached, apply_event_call) refl

  from_cache :
      (q : Request libraries ops) (now : ℕ) (s : Engine libraries ops) (r : ApplyResult Number)
      → cached libraries ops s q.instance_id q.idempotency_key ≡ some r
      → apply_event_call libraries ops q now s ≡ (ok r, s)
  unfolding apply_event_call
  from_cache q now s r p = rw (p, apply_event_call) refl

  cached-get :
      (id key : String) (k : Option String) (s : Engine libraries ops)
      → k ≡ some key
      → cached libraries ops s id k ≡ get s.idempotency_cache (id, key)
  unfolding cached
  cached-get id key k s e = rw e refl

  remember-cached :
      (id key : String) (k : Option String) (r : ApplyResult Number) (s : Engine libraries ops)
      → k ≡ some key
      → get (remember libraries ops id k r s).idempotency_cache (id, key) ≡ some r
  unfolding remember
  remember-cached id key k r s e = rw e (
      ground (
        arith,
        get-insert s.idempotency_cache (id, key) (id, key) r,
        same_refl {A = String × String} (id, key),
      ))

  -- A request with an idempotency key that was answered with a result is answered with the same
  -- result when it comes again with that key, at any time and whatever else it asks, and the
  -- engine stays as it is.
  pub apply_event-again :
      (q again : Request libraries ops) (now later : ℕ) (key : String) (s : Engine libraries ops)
      (r : ApplyResult Number)
      → q.idempotency_key ≡ some key
      → again.idempotency_key ≡ some key
      → again.instance_id ≡ q.instance_id
      → (apply_event_call libraries ops q now s).0 ≡ ok r
      → apply_event_call libraries ops again later (apply_event_call libraries ops q now s).1
        ≡ (ok r, (apply_event_call libraries ops q now s).1)
  apply_event-again q again now later key s r k k' same h =
      elim (Option-cases (cached libraries ops s q.instance_id q.idempotency_key)) [
        | inl p ↦
            let (i, found, a, moved) = apply_event-Moved libraries ops q now s r p h in
            answered again later key (apply_event_call libraries ops q now s).1 r k'
              (rw (same, moved.cache) (remember-cached q.instance_id key q.idempotency_key r s k))
        | inr (r', p) ↦
            let run : apply_event_call libraries ops q now s ≡ (ok r', s) =
              from_cache q now s r' p in
            let found : get s.idempotency_cache (q.instance_id, key) ≡ some r' =
              sym (cached-get q.instance_id key q.idempotency_key s k) ∙ p in
            let answer : r' ≡ r = cc (run, h) in
            rw run (answered again later key s r k' (rw same (found ∙ ap some answer)))
      ]

  -- The results agree in all that the event did; whether the answer is a repeated one is left out.
  pub record SameOutcome (r r' : ApplyResult Number) : Type 0 where
    pub from_state : r'.from_state ≡ r.from_state
    pub to_state : r'.to_state ≡ r.to_state
    pub ctx : r'.ctx ≡ r.ctx
    pub wal_offset : r'.wal_offset ≡ r.wal_offset
    pub sequence : r'.sequence ≡ r.sequence

  delete_found-deleted :
      (id : String) (key : Option String) (i : Instance Number) (now : ℕ) (s : Engine libraries ops)
      → is_deleted i ≡ true
      → delete_found libraries ops id key i now s ≡ (ok i.last_wal_offset, s)
  unfolding delete_found
  delete_found-deleted id key i now s h = rw (h, delete_found) refl

  delete_of :
      (id : String) (key : Option String) (now : ℕ) (s : Engine libraries ops) (i : Instance Number)
      → get s.instances id ≡ some i
      → delete_instance_call libraries ops id key now s ≡ delete_found libraries ops id key i now s
  unfolding delete_instance_call get_instance
  delete_of id key now s i e = rw (e, get_instance, delete_instance_call) refl

  no_instance :
      (id : String) (key : Option String) (now : ℕ) (s : Engine libraries ops) (offset : ℕ)
      → get s.instances id ≡ none
      → (delete_instance_call libraries ops id key now s).0 ≡ ok offset
      → ⊥
  unfolding delete_instance_call get_instance
  no_instance id key now s offset e h = ground (arith, e, h)

  deleted_after :
      (id : String) (key : Option String) (now : ℕ) (s : Engine libraries ops) (i : Instance Number)
      (offset : ℕ)
      → get s.instances id ≡ some i
      → (delete_found libraries ops id key i now s).0 ≡ ok offset
      → (j : Instance Number) × (get (delete_found libraries ops id key i now s).1.instances id
          ≡ some j)
        × (is_deleted j ≡ true)
        × (j.last_wal_offset ≡ offset)
  unfolding delete_found append_log soft_delete is_deleted
  deleted_after id key now s i offset e h = elim (Bool-cases (is_deleted i)) [
    | inl gone ↦ (
      i,
      rw (gone, delete_found) e,
      gone,
      ground (arith, delete_found-deleted id key i now s gone, h),
    )
    | inr live ↦ elim (Result-cases (ops.append s.log (delete_instance id key)).0) [
      | inl (at, p) ↦ (
        soft_delete i at.1 now,
        rw (live, p, delete_found)
            (ground (arith, get-insert s.instances id id (soft_delete i at.1 now), same_refl id)),
        refl,
        ground (arith, live, p, h),
      )
      | inr (x, p) ↦ absurd (ground (arith, live, p, h))
    ]
  ]

  -- A delete that succeeded, repeated at any time and with any key, succeeds with the same offset,
  -- and the engine stays as it is.
  pub delete_instance-again :
      (id : String) (key key' : Option String) (now later : ℕ) (s : Engine libraries ops)
      (offset : ℕ)
      → (delete_instance_call libraries ops id key now s).0 ≡ ok offset
      → delete_instance_call libraries ops id key' later
          (delete_instance_call libraries ops id key now s).1
        ≡ (ok offset, (delete_instance_call libraries ops id key now s).1)
  delete_instance-again id key key' now later s offset h =
      elim (Option-cases (get s.instances id)) [
        | inl p ↦ absurd (no_instance id key now s offset p h)
        | inr (i, p) ↦
            let run = delete_of id key now s i p in
            let (j, there, gone, at) =
              deleted_after id key now s i offset p (sym (ap (λ x. x.0) run) ∙ h) in
            rw run (
              delete_of id key' later (delete_found libraries ops id key i now s).1 j there
              ∙ delete_found-deleted id key' j later (delete_found libraries ops id key i now s).1
                  gone
              ∙ rw at refl)
      ]
