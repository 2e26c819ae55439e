-- ===== src/Examples/Calls.antt =====
-- Single calls on an engine with one machine and one instance of it.
use rstmdb.Base.{ℕ, ◌≡◌, refl, some, none, [], ◌∷◌, true, string_key, nat_key, pair_key}
use rstmdb.Base.Dict.{get, insert, contains}
use rstmdb.Base.Result.{ok}
use rstmdb.Core.Json.{Value}
use rstmdb.Core.Json
use rstmdb.Core.Guard.Expr
use rstmdb.Core.Error.{CoreError, Stop}
use rstmdb.Core.Error
use rstmdb.Core.Definition
use rstmdb.Core.Definition.{MachineDefinition, from_raw}
use rstmdb.Core.Definition.Accepts.{from_raw-accepts}
use rstmdb.Core.Definition.Indexes.{Indexes, from_raw-Indexes}
use rstmdb.Core.Instance.{Instance, new_instance}
use rstmdb.Core.Instance
use rstmdb.Core.Engine
use rstmdb.Core.Engine.{
  Engine, Request, ApplyResult, apply_event_call, delete_instance_call, create_instance_call,
  put_machine_call, cached,
}
use rstmdb.Core.Engine.Applied.{apply_event-Moved, Allowed, Moved}
use rstmdb.Core.Engine.Idempotent.{delete_instance-again}
use rstmdb.Core.Engine.Failures.{
  Untouched, apply_event-Untouched, create_instance-Untouched, delete_instance-Untouched,
  put_machine-Untouched,
}
use rstmdb.Examples.Machines.{libraries, list_ops, order, empty_object}

abbrev order_definition : MachineDefinition libraries
order_definition = record {
  name = "order";
  version = 1;
  states = order.states;
  initial = "created";
  transitions = (("created", "PAY"), ("paid", none)) ∷ [];
  raw = order;
  checksum = "00000007";
}

from_raw-Indexes_example : Indexes libraries order order_definition
unfolding from_raw Definition.add_transitions Definition.add_sources Definition.has_state
    Definition.hex contains get insert
from_raw-Indexes_example = from_raw-Indexes libraries "order" 1 order order_definition refl

from_raw-accepts_example :
    (d : MachineDefinition libraries) × (from_raw libraries "order" 1 order ≡ ok d)
    × Indexes libraries order d
unfolding Definition.has_state Definition.parse_optional
from_raw-accepts_example =
    from_raw-accepts libraries "order" 1 order [] refl
      (record { target = refl; sources = (refl, tt); guard = none; parsed = refl }, tt) (tt, tt)
      refl

abbrev pub shop : Engine libraries list_ops
shop = record {
  definitions = (("order", 1), order_definition) ∷ [];
  instances = ("o-1", new_instance "o-1" "order" 1 "created" empty_object 1 5) ∷ [];
  idempotency_cache = [];
  log = [];
}

abbrev pub pay_once : Request libraries list_ops
pay_once = record {
  instance_id = "o-1";
  event = "PAY";
  payload = empty_object;
  expected_state = some "created";
  expected_wal_offset = some 1;
  event_id = none;
  idempotency_key = some "k";
}

abbrev paid_result : ApplyResult ℕ
paid_result = record {
  from_state = "created";
  to_state = "paid";
  ctx = empty_object;
  wal_offset = 0;
  sequence = 1;
  applied = true;
}

paid : (apply_event_call libraries list_ops pay_once 6 shop).0 ≡ ok paid_result
unfolding apply_event_call cached get Engine.get_instance Engine.apply_found Engine.check_state
    Engine.check_offset Engine.get_machine Engine.find_transition Definition.get_transition
    Engine.check_guard Engine.commit Engine.append_log Engine.remember new_instance insert
    Expr.evaluate_opt Json.merge_ctx Json.insert_all
paid = refl

apply_event-Moved_example :
    (i : Instance ℕ) × (get shop.instances "o-1" ≡ some i)
    × (a : Allowed libraries list_ops shop pay_once i) × Moved libraries list_ops shop
        (apply_event_call libraries list_ops pay_once 6 shop).1
        pay_once
        i
        a.target.0
        6
        paid_result
unfolding cached get
apply_event-Moved_example =
    apply_event-Moved libraries list_ops pay_once 6 shop paid_result refl paid

gone : (delete_instance_call libraries list_ops "o-1" none 7 shop).0 ≡ ok 0
unfolding delete_instance_call get Instance.is_deleted new_instance
gone = refl

delete_instance-again_example :
    delete_instance_call libraries list_ops "o-1"
      (some "k")
      9
      (delete_instance_call libraries list_ops "o-1" none 7 shop).1
    ≡ (ok 0, (delete_instance_call libraries list_ops "o-1" none 7 shop).1)
delete_instance-again_example =
    delete_instance-again libraries list_ops "o-1" none (some "k") 7 9 shop 0 gone

abbrev unknown_event : Request libraries list_ops
unknown_event = record pay_once { event = "SHIP" }

apply_event-Untouched_example :
    Untouched libraries list_ops shop (apply_event_call libraries list_ops unknown_event 6 shop).1
unfolding apply_event_call cached get Engine.get_instance Engine.apply_found Engine.check_state
    Engine.check_offset Engine.get_machine Engine.find_transition Definition.get_transition
    Engine.fail new_instance
apply_event-Untouched_example =
    apply_event-Untouched libraries list_ops unknown_event 6 shop
      (Stop.error (Error.invalid_transition "created" "SHIP")) refl

create_instance-Untouched_example :
    Untouched libraries list_ops shop
      (create_instance_call libraries list_ops "o-1" "order" 1 empty_object none 6 shop).1
unfolding create_instance_call cached Engine.create_fresh contains get Engine.fail
create_instance-Untouched_example =
    create_instance-Untouched libraries list_ops "o-1" "order" 1 empty_object none 6 shop
      (Stop.error (Error.instance_exists "o-1")) refl

delete_instance-Untouched_example :
    Untouched libraries list_ops shop (delete_instance_call libraries list_ops "o-2" none 6 shop).1
unfolding delete_instance_call Engine.get_instance get Engine.fail
delete_instance-Untouched_example =
    delete_instance-Untouched libraries list_ops "o-2" none 6 shop
      (Stop.error (Error.instance_not_found "o-2")) refl

put_machine-Untouched_example :
    Untouched libraries list_ops shop
      (put_machine_call libraries list_ops "order" 2 Value.null shop).1
unfolding put_machine_call Definition.from_json get
put_machine-Untouched_example =
    put_machine-Untouched libraries list_ops "order" 2 Value.null shop (Stop.error Error.json) refl
