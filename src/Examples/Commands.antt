-- ===== src/Examples/Commands.antt =====
-- Requests on the server of one machine and one instance, and what its watchers get.
use rstmdb.Base.{
  ℕ, suc, ◌+◌, ◌≡◌, refl, arith, true, none, some, List, [], ◌∷◌, length, drop, string_key, nat_key,
  pair_key,
}
use rstmdb.Base.Dict.{get, insert}
use rstmdb.Base.Result.{ok}
use rstmdb.Core.Json.{null}
use rstmdb.Core.Engine.{Engine}
use rstmdb.Server.Session.{new}
use rstmdb.Server.Broadcast.{EventBroadcaster, subscribe_instance, subscribe_all, instance_channel}
use rstmdb.Server.Broadcast.Delivery.{events_of}
use rstmdb.Core.Definition
use rstmdb.Core.Guard.Expr
use rstmdb.Core.Json
use rstmdb.Core.Engine
use rstmdb.Core.Engine.{Request, apply_event_call}
use rstmdb.Core.Instance.{Instance, new_instance}
use rstmdb.Server.Commands.{Backend, handle_apply_event, filter_instances}
use rstmdb.Server.Commands.Notified.{
  apply_each, report_each, applied_each, AllNew, apply_each-delivers,
}
use rstmdb.Server.Commands.Pages.{all_pages, all_pages-all}
use rstmdb.Server.Commands.Admin.{WalAdmin, handle_watch_all}
use rstmdb.Examples.Calls.{shop, pay_once}
use rstmdb.Examples.Snapshots.{an_instance, snapshot_libraries}
use rstmdb.Examples.Machines.{libraries, list_ops}
use rstmdb.Examples.Streams.{E, lists, lists_laws, to_paid, broadcaster}

unfoldable pub watching : Backend libraries list_ops lists
unfolding broadcaster
watching = record {
  engine = shop;
  broadcaster = some (subscribe_instance lists "sub-1" "o-1" true broadcaster).1;
  snapshot_store = none;
}

-- The second request is answered from the cache, and reported once more.
two_reports :
    length (
      events_of "o-1"
        (report_each libraries list_ops lists ((pay_once, 6) ∷ (pay_once, 7) ∷ []) watching))
    ≡ 2
unfolding watching handle_apply_event apply_event_call Engine.cached get Engine.get_instance
    Engine.apply_found Engine.check_state Engine.check_offset Engine.get_machine
    Engine.find_transition Definition.get_transition Engine.check_guard Engine.commit
    Engine.append_log Engine.remember new_instance insert Expr.evaluate_opt Json.merge_ctx
    Json.insert_all
two_reports = refl

-- The second request is for an instance that is not there.
abbrev payments : List (Request libraries list_ops × ℕ)
payments = (pay_once, 6) ∷ (record pay_once { instance_id = "o-2"; idempotency_key = none }, 7) ∷ []

new_payments : AllNew libraries list_ops lists payments watching
unfolding watching handle_apply_event apply_event_call Engine.cached get Engine.get_instance
    Engine.apply_found Engine.check_state Engine.check_offset Engine.get_machine
    Engine.find_transition Definition.get_transition Engine.check_guard Engine.commit
    Engine.append_log Engine.remember new_instance insert Expr.evaluate_opt Json.merge_ctx
    Json.insert_all
new_payments = (refl, (refl, tt))

one_payment : length (events_of "o-1" (applied_each libraries list_ops lists payments watching)) ≡ 1
unfolding watching handle_apply_event apply_event_call Engine.cached get Engine.get_instance
    Engine.apply_found Engine.check_state Engine.check_offset Engine.get_machine
    Engine.find_transition Definition.get_transition Engine.check_guard Engine.commit
    Engine.append_log Engine.remember new_instance insert Expr.evaluate_opt Json.merge_ctx
    Json.insert_all
one_payment = refl

apply_each-delivers_example :
    (last : EventBroadcaster lists) × (c : ℕ × List E) × ((apply_each libraries list_ops lists
        payments watching).broadcaster
      ≡ some last)
    × (get last.channels "o-1" ≡ some c)
    × (drop (subscribe_instance lists "sub-1" "o-1" true broadcaster).0 c.1
        ≡ events_of "o-1" (applied_each libraries list_ops lists payments watching))
unfolding watching broadcaster instance_channel get
apply_each-delivers_example =
    apply_each-delivers libraries list_ops lists lists_laws "sub-1" "o-1" true payments watching
      broadcaster refl new_payments (omega (arith, one_payment))

abbrev three_instances : List (Instance ℕ)
three_instances =
    record an_instance { id = "a" }
    ∷ record an_instance { id = "b" }
    ∷ record an_instance { id = "c" }
    ∷ []

all_pages-all_example :
    all_pages
      (suc (length (filter_instances (some "order") none three_instances)))
      (some "order")
      none
      2
      0
      three_instances
    ≡ some (filter_instances (some "order") none three_instances)
all_pages-all_example = all_pages-all (some "order") none 2 (omega arith) three_instances

abbrev pub list_admin : WalAdmin list_ops
list_admin = record {
  compact_before = λ offset w. (0, w);
  segment_count = λ w. 1;
  total_size = length;
  next_sequence = λ w. length w + 1;
  latest_offset = λ w. some (length w);
  stats = λ w. record { bytes_written = 0; bytes_read = 0; writes = 0; reads = 0; fsyncs = 0 };
}

-- A session that has not authenticated gets a subscription to all events from the handler that the
-- connection calls directly.
watched_without_auth :
    (handle_watch_all libraries list_ops list_admin lists snapshot_libraries "sub-3" to_paid true
      (new "s" true)
      watching).0
    ≡ ok (("sub-3", 0), 0, to_paid)
unfolding handle_watch_all watching broadcaster get subscribe_all subscribe_instance
watched_without_auth = refl
