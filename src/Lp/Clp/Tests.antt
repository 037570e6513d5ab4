-- ===== src/Lp/Clp/Tests.antt =====
-- CLPs in a tree of seven, and the theorems on them.
use pdesmas_cloud.Base.{inl, inr}
use pdesmas_cloud.Base.{
  ℕ, ◌≡◌, refl, [], ◌∷◌, none, some, true, ◌==◌, if◌then◌else◌, arith, inl, inr,
}
use mathlib.Core.List.{Perm}
use pdesmas_cloud.Base.Int.{pos}
use pdesmas_cloud.Base.NatMap.{NatMap, find, assign}
use pdesmas_cloud.Lp.Clp.{Clp}
use pdesmas_cloud.Lp.Clp.Arrival.{process_state_migration-IsHosted}
use pdesmas_cloud.Lp.Clp.Climbing.{Climbs, process_end-Climbs}
use pdesmas_cloud.Lp.Clp.Counting.{white_count, prepare-white_count}
use pdesmas_cloud.Lp.Clp.EndMessages.{parent_clp, process_end}
use pdesmas_cloud.Lp.Clp.Forwarding.{passed, links, process_end-middle}
use pdesmas_cloud.Lp.Clp.Handlers.{process_write_anti}
use pdesmas_cloud.Lp.Clp.Hosting.{give_away-next_to_ssv}
use pdesmas_cloud.Lp.Clp.Migration.{give_away, process_state_migration, set_gvt}
use pdesmas_cloud.Lp.Clp.RangeQueries.{process_range_query_anti}
use pdesmas_cloud.Base.{List, ◌++◌, ◌≤◌, length}
use pdesmas_cloud.Lp.Clp.Late.{late_query, late_write, done, next, set_gvt-Receives}
use pdesmas_cloud.Lp.GvtCalculator.{GvtCalculator}
use pdesmas_cloud.Lp.LogicalProcess.{Received, handled, waiting, fatal}
use pdesmas_cloud.Messages.LpMessage.{AbstractMessage, write_anti}
use pdesmas_cloud.Lp.Clp.Traffic.{process_other, prepare}
use pdesmas_cloud.Lp.AccessCostCalculator.{initial_counter_map}
use pdesmas_cloud.Lp.GvtCalculator.{new_gvt_calculator}
use pdesmas_cloud.Lp.LpId.{LpId}
use pdesmas_cloud.Lp.MessageQueue.{other}
use pdesmas_cloud.Messages.LpMessage.{
  EndMessage, RangeQueryAntiMessage, WriteAntiMessage, StateMigrationMessage, range_query_anti,
}
use pdesmas_cloud.RangeQuery.RangeRoutingTable.{RangeRoutingTable}
use pdesmas_cloud.Routing.ForwardingTable.{left_of}
use pdesmas_cloud.Routing.Router.{next_to_ssv, next_towards}
use pdesmas_cloud.State.SharedState.{SharedState, History, contains_variable}
use pdesmas_cloud.State.StateVariable.{read_without_record, walk_back}
use pdesmas_cloud.Types.Direction.{left}
use pdesmas_cloud.Types.Value.{AbstractValue}
use pdesmas_cloud.Lp.Clp.Sample.{from_some, the_history, clp, host, anti}

abbrev from_left : EndMessage
from_left = record { origin = 3; destination = 1; sender_alp = 7 }

process_end-middle_example :
    (c' : Clp) × (one : ℕ) × (two : ℕ) × (process_end from_left (clp 1 []) ≡ some c')
    × (c'.lp.send_control_message_queue ≡ passed from_left 1 one ∷ passed from_left 1 two ∷ [])
    × Perm (3 ∷ one ∷ two ∷ []) (links 1)
    × (c'.end_message_processed ≡ true)
unfolding left_of
process_end-middle_example = process_end-middle from_left (clp 1 []) refl refl (inl refl)

from_alp : EndMessage
from_alp = record { origin = 7; destination = 3; sender_alp = 7 }

process_end-Climbs_example : Climbs (λ rank. clp rank []) from_alp 3
unfolding parent_clp from_alp
process_end-Climbs_example =
    process_end-Climbs 7 3 (λ rank. clp rank []) from_alp (omega arith) (λ rank lt. (refl, refl))
      (omega arith) (λ e. ground arith) (inl (omega arith))

abbrev a_write_anti : WriteAntiMessage
a_write_anti = record { base = anti 4; ssv_id = 10 }

abbrev query_anti : RangeQueryAntiMessage
query_anti = record {
  base = anti 5;
  range = record {
    min_range_value = record { x = pos 0; y = pos 0 };
    max_range_value = record { x = pos 1; y = pos 1 };
  };
  identifier = 8;
}

prepare-white_count_example : white_count 1 host.lp ≡ white_count 1 host.lp
unfolding prepare new_gvt_calculator
prepare-white_count_example =
    prepare-white_count (other (range_query_anti query_anti)) (other (range_query_anti query_anti))
      host host query_anti.base.simulation refl refl refl

at_gvt : Clp
at_gvt = from_some host (set_gvt (λ ssv. 0) 6 host)

given : NatMap History × Clp
given = from_some ([], host) (give_away (λ ssv. 0) left 10 ([], host))

give_away-next_to_ssv_example :
    (find 10 given.0 ≡ find 10 host.shared_state.state_variable_map)
    × (find 10 given.1.shared_state.state_variable_map ≡ none)
    × (next_to_ssv 10 given.1.router
        ≡ (if 10 == 10 then next_towards left host.router else next_to_ssv 10 host.router))
unfolding given give_away find pdesmas_cloud.State.SharedState.get_copy
    pdesmas_cloud.State.SharedState.Moves.remove_write_period_list
    pdesmas_cloud.State.SharedState.Moves.delete_variable
    pdesmas_cloud.State.SharedState.Moves.remove_periods
    pdesmas_cloud.State.SharedState.Moves.remove_period
    pdesmas_cloud.State.SharedState.update_ranges pdesmas_cloud.Types.Value.point_of
    read_without_record walk_back pdesmas_cloud.State.StateVariable.perform_write_rollback
    pdesmas_cloud.State.StateVariable.walk_to pdesmas_cloud.Lp.LpId.lp_ne
    pdesmas_cloud.State.StateVariable.erase_period assign
    pdesmas_cloud.Lp.AccessCostCalculator.remove_ssv_access_record
    pdesmas_cloud.Lp.AccessCostCalculator.contains_variable
    pdesmas_cloud.Lp.AccessCostCalculator.has_ssv
    pdesmas_cloud.Lp.AccessCostCalculator.remove_ssv_hop_record
    pdesmas_cloud.Lp.Clp.RangeUpdates.flush_range_updates pdesmas_cloud.Lp.Clp.table
    pdesmas_cloud.Lp.Clp.RangeUpdates.send_range_updates
give_away-next_to_ssv_example =
    give_away-next_to_ssv (λ ssv. 0) left 10 10 [] given.0 host given.1 refl (λ e. cc) refl

abbrev bringing : StateMigrationMessage
bringing = record { origin = 3; destination = 1; state_variable_map = (20, the_history) ∷ [] }

taken_in : Clp
taken_in = from_some host (process_state_migration (λ ssv. 0) bringing host)

process_state_migration-IsHosted_example :
    (contains_variable 20 taken_in.shared_state ≡ true)
    × (next_to_ssv 20 taken_in.router ≡ some none)
unfolding taken_in process_state_migration pdesmas_cloud.Lp.Clp.Migration.take_in
    pdesmas_cloud.State.SharedState.Moves.insert_variable find pdesmas_cloud.Lp.Clp.set_table
    pdesmas_cloud.Lp.Clp.RangeUpdates.flush_range_updates pdesmas_cloud.Lp.Clp.table
    pdesmas_cloud.Lp.Clp.RangeUpdates.send_range_updates
    pdesmas_cloud.State.SharedState.Moves.insert_periods
    pdesmas_cloud.State.SharedState.Moves.insert_period
    pdesmas_cloud.State.SharedState.update_ranges pdesmas_cloud.Types.Value.point_of
    read_without_record walk_back assign
    pdesmas_cloud.RangeQuery.RangeRoutingTable.clear_range_updates
process_state_migration-IsHosted_example =
    process_state_migration-IsHosted (λ ssv. 0) 20 bringing host taken_in refl (inr (inl refl))

-- The value of a result that is handled.
abbrev from_handled : Received Clp → Clp
from_handled (handled c) = c
from_handled (waiting c) = c
from_handled fatal = host

after_write_anti : Clp
after_write_anti = from_handled (process_other (λ ssv. 0) (write_anti a_write_anti) at_gvt)

after_query_anti : Clp
after_query_anti =
    from_handled (process_other (λ ssv. 0) (range_query_anti query_anti) after_write_anti)

set_gvt-Receives_example :
    (g : GvtCalculator) × (q : List AbstractMessage) × (after_query_anti ≡ record at_gvt {
      lp = record at_gvt.lp {
        gvt_calculator = g;
        send_message_queue = at_gvt.lp.send_message_queue ++ q;
      };
    })
    × (length q ≤ 2)
unfolding at_gvt after_write_anti after_query_anti set_gvt
    pdesmas_cloud.Lp.Clp.Migration.forget_before
    pdesmas_cloud.Lp.AccessCostCalculator.check_clp_load
    pdesmas_cloud.State.SharedState.remove_write_periods_before process_other
    pdesmas_cloud.Routing.Router.route_write_anti next_to_ssv
    pdesmas_cloud.Routing.RouteTable.get_direction_from_ssv_id find next_towards process_write_anti
    pdesmas_cloud.Lp.LogicalProcess.account process_range_query_anti
set_gvt-Receives_example =
    set_gvt-Receives (λ ssv. 0) (λ ssv. 0) 6
      (range_query_anti query_anti ∷ write_anti a_write_anti ∷ []) host at_gvt after_query_anti refl
      (late_query query_anti (omega arith), (late_write a_write_anti (omega arith), tt))
      (next (range_query_anti query_anti) (next (write_anti a_write_anti) done refl) refl)
