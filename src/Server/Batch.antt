-- ===== src/Server/Batch.antt =====
-- rstmdb-server/src/handler.rs, `handle_batch`: the requests of one batch. `handle` is an argument,
-- for a batch can stand in a batch, and so are the names of the operations and what JSON gives for
-- the parameters.
pub mod Sequence
use rstmdb.Base.{
  ℕ, String, Bool, true, false, ◌&&◌, Option, none, some, List, [], ◌∷◌, ltb, ◌==◌, string_key,
  if◌then◌else◌, length,
}
use rstmdb.Base.Result.{Result, ok, err}
use rstmdb.Server.Session.{Session}
use rstmdb.Server.Handler.{Operation, ServerError, invalid_request}

-- An element of `ops`: its `op`, if that is a text, and its `params`.
pub record BatchOp (P : Type 0) : Type 0 where
  pub op : Option String
  pub params : P

pub record BatchParams (P : Type 0) : Type 0 where
  pub mode : Option String
  pub ops : Option (List (BatchOp P))

unfoldable pub is_error : {V : Type 0} → Result ServerError V → Bool
is_error (ok v) = false
is_error (err e) = true

-- `params["mode"].as_str().unwrap_or("best_effort")`, and the test of it
unfoldable pub is_atomic : Option String → Bool
is_atomic none = false
is_atomic (some mode) = mode == "atomic"

module _ {P V B : Type 0}
    (handle : Operation → P → Session → B → Result ServerError V × Session × B)
    (read_operation : String → Option Operation) where
  abbrev pub Batch : Type 0
  Batch = Result ServerError (List (Result ServerError V)) × Session × B

  -- A result, put before those of the rest
  unfoldable pub push : Result ServerError V → Batch → Batch
  push r (ok rs, s, b) = (ok (r ∷ rs), s, b)
  push r (err e, s, b) = (err e, s, b)

  unfoldable pub op_of : BatchOp P → Option Operation
  op_of o = elim o.op [ none ↦ none | some text ↦ read_operation text ]

  -- The loop over the operations
  unfoldable pub run_ops : Bool → List (BatchOp P) → Session → B → Batch
  unfolding push op_of is_error
  run_ops atomic [] s b = (ok [], s, b)
  run_ops atomic (o ∷ ops) s b = elim (op_of o) [
    | none ↦ (err invalid_request, s, b)
    | some op ↦
        let (r, s', b') = handle op o.params s b in
        if atomic && is_error r
        then (err invalid_request, s', b')
        else push r (run_ops atomic ops s' b')
  ]

  unfoldable pub handle_batch : ℕ → BatchParams P → Session → B → Batch
  unfolding run_ops is_atomic
  handle_batch max_batch_ops p s b = elim p.ops [
    | none ↦ (err invalid_request, s, b)
    | some ops ↦
        if ltb max_batch_ops (length ops)
        then (err invalid_request, s, b)
        else run_ops (is_atomic p.mode) ops s b
  ]
