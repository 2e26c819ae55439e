-- ===== src/Core/Definition.antt =====
-- rstmdb-core/src/definition.rs: machine definitions, checked and indexed. `serde_json` turns a
-- JSON value into the raw definition and back, and `crc32c` sums its bytes: parameters.
pub mod Indexes
pub mod Accepts
use Prim.Native.String
use rstmdb.Base.{
  ℕ, zero, suc, ◌+◌, ◌*◌, ◌/◌, ◌%◌, String, Bool, true, false, not, Option, none, some, List, [],
  ◌∷◌, ◌==◌, string_key, pair_key, if◌then◌else◌,
}
use rstmdb.Base.Dict.{Dict, get, insert, contains}
use rstmdb.Base.Result.{Result, ok, err, ◌>>=◌}
use rstmdb.Core.Json.{Value}
use rstmdb.Core.Guard.Expr.{Platform, GuardExpr}
use rstmdb.Core.Guard.Parser.Lexer.{Parsed}
use rstmdb.Core.Guard.Parser.Grammar.{parse_text}
use rstmdb.Core.Error.{
  CoreError, Stop, error, panicked, out_of_fuel, initial_not_listed, target_not_listed,
  source_not_listed, duplicate_transition, invalid_definition, invalid_guard,
}
use rstmdb.Core.Error

pub record Transition : Type 0 where
  pub from : List String
  pub event : String
  pub to : String
  pub guard : Option String

pub record MachineDefinitionRaw (N : Type 0) : Type 0 where
  pub states : List String
  pub initial : String
  pub transitions : List Transition
  pub meta : Option (Value N)

-- What the definitions take from outside.
pub record Libraries : Type 1 where
  pub platform : Platform
  pub crc32c : List ℕ → ℕ
  pub raw_of_json : Value platform.Number → Option (MachineDefinitionRaw platform.Number)
  pub raw_bytes : MachineDefinitionRaw platform.Number → Option (List ℕ)

-- `states.contains(s)`
unfoldable pub has_state : List String → String → Bool
has_state [] s = false
has_state (t ∷ ts) s = if t == s then true else has_state ts s

hex_digit : ℕ → String
hex_digit zero = "0"
hex_digit (suc zero) = "1"
hex_digit (suc (suc zero)) = "2"
hex_digit (suc (suc (suc zero))) = "3"
hex_digit (suc (suc (suc (suc zero)))) = "4"
hex_digit (suc (suc (suc (suc (suc zero))))) = "5"
hex_digit (suc (suc (suc (suc (suc (suc zero)))))) = "6"
hex_digit (suc (suc (suc (suc (suc (suc (suc zero))))))) = "7"
hex_digit (suc (suc (suc (suc (suc (suc (suc (suc zero)))))))) = "8"
hex_digit (suc (suc (suc (suc (suc (suc (suc (suc (suc zero))))))))) = "9"
hex_digit (suc (suc (suc (suc (suc (suc (suc (suc (suc (suc n)))))))))) = hex_letter n
  where
    hex_letter : ℕ → String
    hex_letter zero = "a"
    hex_letter (suc zero) = "b"
    hex_letter (suc (suc zero)) = "c"
    hex_letter (suc (suc (suc zero))) = "d"
    hex_letter (suc (suc (suc (suc zero)))) = "e"
    hex_letter _ = "f"

-- The `n` low hexadecimal digits of a number, as `{:08x}` writes them for n = 8.
unfoldable pub hex : ℕ → ℕ → String
unfolding hex_digit
hex zero v = ""
hex (suc n) v = String.◌++◌ (hex n (v / 16)) (hex_digit (v % 16))

module _ (libraries : Libraries) where
  open libraries use {platform, crc32c, raw_of_json, raw_bytes}
  open platform use {Number, Float}

  abbrev pub Expr : Type 0
  Expr = GuardExpr Number Float

  -- `transitions`: (from, event) to (target, guard)
  abbrev pub Table : Type 0
  Table = Dict (String × String) (String × Option Expr)

  pub record MachineDefinition : Type 0 where
    pub name : String
    pub version : ℕ
    pub states : List String
    pub initial : String
    pub transitions : Table
    pub raw : MachineDefinitionRaw Number
    pub checksum : String

  unfoldable pub outcome : {A : Type 0} → Parsed A → Result Stop A
  outcome (Parsed.done a s) = ok a
  outcome (Parsed.failed e) = err (error (invalid_guard e))
  outcome Parsed.panic = err panicked
  outcome Parsed.out_of_fuel = err out_of_fuel

  -- `GuardExpr::parse`, with the fuel that is enough for a text of this length
  unfoldable pub parse_guard : String → Result Stop Expr
  unfolding outcome
  parse_guard s = outcome (parse_text platform (4 * String.count s + 5) s)

  unfoldable pub parse_optional : Option String → Result Stop (Option Expr)
  unfolding parse_guard
  parse_optional none = ok none
  parse_optional (some s) = parse_guard s >>= λ e. ok (some e)

  abbrev invalid {ℓ} : {A : Type ℓ} → Error.DefinitionError → Result Stop A
  invalid r = err (error (invalid_definition r))

  -- The inner loop: one entry for each source state.
  unfoldable pub add_sources :
      List String → List String → String → String → Option Expr → Table → Result Stop Table
  add_sources states [] event to guard table = ok table
  add_sources states (from ∷ froms) event to guard table =
      let rest = add_sources states froms event to guard (insert table (from, event) (to, guard)) in
      if not (has_state states from)
      then invalid (source_not_listed from)
      else if contains table (from, event)
      then invalid (duplicate_transition from event)
      else rest

  -- The outer loop over the transitions.
  unfoldable pub add_transitions : List String → List Transition → Table → Result Stop Table
  unfolding add_sources parse_optional
  add_transitions states [] table = ok table
  add_transitions states (t ∷ ts) table =
      let rest = parse_optional t.guard >>= λ guard.
      add_sources states t.from t.event t.to guard table >>= add_transitions states ts in
      if not (has_state states t.to) then invalid (target_not_listed t.to) else rest

  unfoldable pub checksum_of : MachineDefinitionRaw Number → Result Stop String
  unfolding hex
  checksum_of raw = elim (raw_bytes raw) [
    | none ↦ err (error Error.json)
    | some bytes ↦ ok (hex 8 (crc32c bytes))
  ]

  unfoldable pub from_raw : String → ℕ → MachineDefinitionRaw Number → Result Stop MachineDefinition
  unfolding add_transitions checksum_of
  from_raw name version raw =
      let rest = add_transitions raw.states raw.transitions [] >>= λ table.
      checksum_of raw >>= λ checksum. ok (record {
        name = name;
        version = version;
        states = raw.states;
        initial = raw.initial;
        transitions = table;
        raw = raw;
        checksum = checksum;
      }) in
      if not (has_state raw.states raw.initial)
      then invalid (initial_not_listed raw.initial)
      else rest

  unfoldable pub from_json : String → ℕ → Value Number → Result Stop MachineDefinition
  unfolding from_raw
  from_json name version json = elim (raw_of_json json) [
    | none ↦ err (error Error.json)
    | some raw ↦ from_raw name version raw
  ]

  unfoldable pub get_transition :
      MachineDefinition → String → String → Option (String × Option Expr)
  get_transition d state event = get d.transitions (state, event)

  -- `events_from`
  unfoldable pub events_from : Table → String → List String
  events_from [] state = []
  events_from (((from, event), target) ∷ table) state =
      let rest = events_from table state in if from == state then event ∷ rest else rest
