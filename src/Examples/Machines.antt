-- ===== src/Examples/Machines.antt =====
-- A platform, a machine definition, and a log that is the list of its entries.
use rstmdb.Base.{ℕ, false, Option, some, none, List, [], ◌∷◌, ◌++◌, ltb, leb, eqb, not, length, ◌+◌}
use rstmdb.Base.Result.{ok}
use rstmdb.Wal.Entry.{WalOps, Logged}
use rstmdb.Core.Json.{Value, Fields}
use rstmdb.Core.Guard.Expr.{Platform}
use rstmdb.Core.Definition.{Libraries, MachineDefinitionRaw}

-- Numbers are natural numbers, and no text is a number.
abbrev pub platform : Platform
platform = record {
  Number = ℕ;
  Float = ℕ;
  as_f64 = λ n. some n;
  from_f64 = λ n. some n;
  nonzero = λ n. not (eqb n 0);
  gt = λ a b. ltb b a;
  ge = λ a b. leb b a;
  lt = ltb;
  le = leb;
  near = eqb;
  parse_f64 = λ s. none;
  alphanumeric = λ n. false;
}

abbrev pub order : MachineDefinitionRaw ℕ
order = record {
  states = "created" ∷ "paid" ∷ [];
  initial = "created";
  transitions = (record { from = "created" ∷ []; event = "PAY"; to = "paid"; guard = none }) ∷ [];
  meta = none;
}

-- Every object is the definition of `order`.
abbrev raw_of : Value ℕ → Option (MachineDefinitionRaw ℕ)
raw_of (Value.object fields) = some order
raw_of _ = none

abbrev pub libraries : Libraries
libraries = record {
  platform = platform;
  crc32c = λ bytes. 7;
  raw_of_json = raw_of;
  raw_bytes = λ raw. some [];
}

abbrev pub list_ops : WalOps ℕ
list_ops = record {
  Wal = List (Logged ℕ);
  append = λ w e. (ok (length w + 1, length w), w ++ ((length w + 1, length w, e) ∷ []));
  read_from = λ w from limit. (ok w, w);
}

abbrev pub empty_object : Value ℕ
empty_object = Value.object Fields.end
