-- ===== src/Server/Batch/Sequence.antt =====
-- A batch against its requests handled one after the other.
use rstmdb.Base.{
  ℕ, ◌≡◌, ◌≤◌, refl, arith, String, Bool, true, false, ◌||◌, ◌⊎◌, Option, none, some, List, [], ◌∷◌,
  ◌++◌, ltb, length, inl, inr, Option-cases, All,
}
use rstmdb.Base.Result.{Result, ok, err}
use rstmdb.Server.Session.{Session}
use rstmdb.Server.Handler.{Operation, ServerError, invalid_request}
use rstmdb.Server.Batch.{
  BatchOp, BatchParams, is_error, is_atomic, push, op_of, run_ops, handle_batch,
}

abbrev pub any_error : {V : Type 0} → List (Result ServerError V) → Bool
any_error [] = false
any_error (r ∷ rs) = is_error r || any_error rs

-- The operations that a batch is meant for: those that write.
abbrev pub is_batchable : Operation → Bool
is_batchable Operation.create_instance = true
is_batchable Operation.apply_event = true
is_batchable Operation.delete_instance = true
is_batchable _ = false

module _ {P V B : Type 0}
    (handle : Operation → P → Session → B → Result ServerError V × Session × B)
    (read_operation : String → Option Operation) where
  abbrev Batch : Type 0
  Batch = Result ServerError (List (Result ServerError V)) × Session × B

  -- The requests, one after the other: what each is answered, and the session and the server after
  -- them.
  abbrev pub answer_each :
      List (Operation × P) → Session → B → List (Result ServerError V) × Session × B
  answer_each [] s b = ([], s, b)
  answer_each ((op, params) ∷ requests) s b =
      let (r, s', b') = handle op params s b in
      let (rs, s'', b'') = answer_each requests s' b' in (r ∷ rs, s'', b'')

  -- The requests that the operations of a batch are, if JSON knows all of them.
  abbrev pub requests_of : List (BatchOp P) → Option (List (Operation × P))
  requests_of [] = some []
  requests_of (o ∷ ops) = elim (op_of handle read_operation o) [
    | none ↦ none
    | some op ↦ elim (requests_of ops) [
      | none ↦ none
      | some requests ↦ some ((op, o.params) ∷ requests)
    ]
  ]

  requests_of-cons :
      (o : BatchOp P) (ops : List (BatchOp P)) {requests : List (Operation × P)}
      → requests_of (o ∷ ops) ≡ some requests
      → (op : Operation) × (rest : List (Operation × P)) × (op_of handle read_operation o ≡ some op)
        × (requests_of ops ≡ some rest)
        × (requests ≡ (op, o.params) ∷ rest)
  requests_of-cons o ops e = elim (Option-cases (op_of handle read_operation o)) [
    | inl p ↦ absurd (ground (arith, p, e))
    | inr (op, p) ↦ elim (Option-cases (requests_of ops)) [
      | inl q ↦ absurd (ground (arith, p, q, e))
      | inr (rest, q) ↦ (op, rest, p, q, ground (arith, p, q, e))
    ]
  ]

  run_ops-answer_each :
      (ops : List (BatchOp P)) (s : Session) (b : B) (requests : List (Operation × P))
      → requests_of ops ≡ some requests
      → run_ops handle read_operation false ops s b
        ≡ (let (rs, s', b') = answer_each requests s b in (ok rs, s', b'))
  unfolding run_ops push
  run_ops-answer_each [] s b requests e = let none_left : requests ≡ [] = cc e in rw none_left refl
  run_ops-answer_each (o ∷ ops) s b requests e =
      let (op, rest, p, q, same) = requests_of-cons o ops e in
      let (r, s', b') = handle op o.params s b in
      rw (same, p, run_ops) (rw (run_ops-answer_each ops s' b' rest q) refl)

  -- The last of these requests is the only one that is answered with an error.
  abbrev pub FailsAtEnd : List (Operation × P) → Session → B → Type 0
  FailsAtEnd done s b =
      (before : List (Operation × P)) × (last : Operation × P) × (done ≡ before ++ (last ∷ []))
      × (any_error (answer_each before s b).0 ≡ false)
      × (any_error (answer_each done s b).0 ≡ true)

  -- A batch that went on while its requests succeeded: what was done is done, and the first error is
  -- the last thing done.
  pub record Stopped (requests : List (Operation × P)) (s : Session) (b : B) (t : Batch)
      : Type 0 where
    pub done : List (Operation × P)
    pub left : List (Operation × P)
    pub split : requests ≡ done ++ left
    pub session : t.1 ≡ (answer_each done s b).1
    pub server : t.2 ≡ (answer_each done s b).2
    pub outcome :
        ((t.0 ≡ ok (answer_each done s b).0)
          × (left ≡ [])
          × (any_error (answer_each done s b).0 ≡ false))
        ⊎ ((t.0 ≡ err invalid_request) × FailsAtEnd done s b)

  -- A batch that is not atomic, of operations that create instances, apply events or delete
  -- instances, no more than the limit, is answered with what its requests are answered one after
  -- the other, and leaves the session and the server as these leave them.
  pub handle_batch-answer_each :
      (limit : ℕ) (p : BatchParams P) (ops : List (BatchOp P)) (s : Session) (b : B)
      (requests : List (Operation × P))
      → is_atomic p.mode ≡ false
      → p.ops ≡ some ops
      → length ops ≤ limit
      → requests_of ops ≡ some requests
      → All (λ q. is_batchable q.0 ≡ true) requests
      → handle_batch handle read_operation limit p s b
        ≡ (let (rs, s', b') = answer_each requests s b in (ok rs, s', b'))
  unfolding handle_batch
  handle_batch-answer_each limit p ops s b requests m o l e writes =
      let short : ltb limit (length ops) ≡ false = ground arith in
      rw (o, handle_batch) (rw (short, m) (run_ops-answer_each ops s b requests e))
