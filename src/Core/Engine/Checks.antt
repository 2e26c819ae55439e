-- ===== src/Core/Engine/Checks.antt =====
-- The checks of `apply_event` and the lookups change nothing.
use rstmdb.Base.{ℕ, String, ◌≡◌, refl, arith, Option, none, some}
use rstmdb.Wal.Entry.{WalOps}
use rstmdb.Core.Definition.{Libraries, MachineDefinition, Expr}
use rstmdb.Core.Instance.{Instance}
use rstmdb.Core.Engine.{
  Engine, check_state, check_offset, get_machine, find_transition, check_guard,
}

module _ (libraries : Libraries) (ops : WalOps libraries.platform.Number) where
  open libraries.platform use {Number}

  pub check_state_same :
      (expected : Option String) (actual : String) (s : Engine libraries ops)
      → (check_state libraries ops expected actual s).1 ≡ s
  unfolding check_state
  check_state_same none actual s = refl
  check_state_same (some e) actual s = ground arith

  pub check_offset_same :
      (expected : Option ℕ) (actual : ℕ) (s : Engine libraries ops)
      → (check_offset libraries ops expected actual s).1 ≡ s
  unfolding check_offset
  check_offset_same none actual s = refl
  check_offset_same (some e) actual s = ground arith

  pub get_machine_same :
      (name : String) (version : ℕ) (s : Engine libraries ops)
      → (get_machine libraries ops name version s).1 ≡ s
  unfolding get_machine
  get_machine_same name version s = ground arith

  pub find_transition_same :
      (d : MachineDefinition libraries) (state event : String) (s : Engine libraries ops)
      → (find_transition libraries ops d state event s).1 ≡ s
  unfolding find_transition
  find_transition_same d state event s = ground arith

  pub check_guard_same :
      (g : Option (Expr libraries)) (i : Instance Number) (to event : String)
      (s : Engine libraries ops)
      → (check_guard libraries ops g i to event s).1 ≡ s
  unfolding check_guard
  check_guard_same g i to event s = ground arith
