-- ===== src/Lp/Clp/Stragglers/Tests.antt =====
-- Reads and writes of one variable at a CLP, and the theorems on them.
use pdesmas_cloud.Base.{List, ◌++◌, ◌⊎◌, Any, inl}
use pdesmas_cloud.Messages.SharedStateMessage.{WriteMessage}
use pdesmas_cloud.Base.{◌≡◌, refl, [], ◌∷◌, Option, none, some, arith, inl}
use pdesmas_cloud.Base.NatMap.{find, assign}
use pdesmas_cloud.Lp.Clp.{Clp}
use pdesmas_cloud.Lp.Clp.Handlers.{
  process_single_read, process_write, process_write_anti, response_base,
}
use pdesmas_cloud.Lp.Clp.Reads.{reading}
use pdesmas_cloud.Lp.Clp.TakenBack.{process_write_anti-process_write}
use pdesmas_cloud.Lp.Clp.Stragglers.{process_write-process_single_read}
use pdesmas_cloud.Lp.RollbackList.Telling.{Tells}
use pdesmas_cloud.Lp.LogicalProcess.{send_simulation}
use pdesmas_cloud.Lp.LpId.{LpId}
use pdesmas_cloud.Lp.MessageQueue.{other}
use pdesmas_cloud.Messages.LpMessage.{
  WriteAntiMessage, AbstractMessage, WriteResponseMessage, single_read_response, write_response,
}
use pdesmas_cloud.RangeQuery.RangeRoutingTable.{RangeRoutingTable}
use pdesmas_cloud.Routing.Router.{next_to_ssv, next_towards}
use pdesmas_cloud.State.SharedState.{SharedState, History, contains_variable}
use pdesmas_cloud.State.StateVariable.{read_without_record, walk_back}
use pdesmas_cloud.Types.Direction.{white}
use pdesmas_cloud.Types.Value.{AbstractValue}
use pdesmas_cloud.Lp.Clp.Sample.{from_some, the_history, host, a_read, anti}
use pdesmas_cloud.Lp.Clp.Reads.{process_single_read_responds}
use pdesmas_cloud.Lp.Clp.Sample.{the_period}
use pdesmas_cloud.Routing.Router.{get_direction_by_lp_rank}
use pdesmas_cloud.Routing.RouteTable.{get_direction_from_rank}
use pdesmas_cloud.Types.Direction.{left}

read_done : Clp
read_done = from_some host (process_single_read a_read host)

process_single_read_responds_example :
    (c' : Clp) × (process_single_read a_read host ≡ some c')
    × (c'.lp
        ≡ send_simulation
            (other
              (single_read_response (record { base = response_base 1 a_read.base; value = none })))
            host.lp)
    × (reading 10 9 c'.shared_state ≡ reading 10 9 host.shared_state)
unfolding read_without_record walk_back find get_direction_by_lp_rank get_direction_from_rank
process_single_read_responds_example =
    process_single_read_responds a_read 10 9 host the_history
      (record { before = []; period = the_period; after = [] }) left refl refl refl

-- A write at time 3 behind the read at time 5.
abbrev late_write : WriteMessage
late_write = record {
  base = record {
    simulation = record { origin = 8; destination = 1; timestamp = 3; mattern_colour = white };
    number_of_hops = 2;
    identifier = 9;
    original_agent = record { identifier = 71; rank = 7 };
  };
  ssv_id = 10;
  value = none;
}

written : Clp
written = from_some host (process_write 0 late_write read_done)

process_write-process_single_read_example :
    (v : Option AbstractValue) × (answer : WriteResponseMessage) × (h' : History) × (q : List
      AbstractMessage)
    × (read_done.lp
        ≡ send_simulation
            (other
              (single_read_response (record { base = response_base 1 a_read.base; value = v })))
            host.lp)
    × (written.lp.send_message_queue
        ≡ (read_done.lp.send_message_queue ++ other (write_response answer) ∷ []) ++ q)
    × (find 10 written.shared_state.state_variable_map ≡ some h')
    × (((read_without_record 5 h').1 ≡ v) ⊎ Any (Tells (record { identifier = 70; rank = 7 }) 5) q)
unfolding written process_write read_done process_single_read pdesmas_cloud.State.SharedState.read
    find pdesmas_cloud.State.StateVariable.read walk_back pdesmas_cloud.Lp.Clp.count
    pdesmas_cloud.Routing.Router.get_direction_by_lp_rank
    pdesmas_cloud.Routing.RouteTable.get_direction_from_rank pdesmas_cloud.State.SharedState.write
    pdesmas_cloud.Lp.Clp.set_table pdesmas_cloud.State.SharedState.count_access assign
    pdesmas_cloud.Lp.Clp.RangeUpdates.flush_range_updates pdesmas_cloud.Lp.Clp.table
    pdesmas_cloud.Lp.Clp.RangeUpdates.send_range_updates
    pdesmas_cloud.State.SharedState.update_ranges pdesmas_cloud.Types.Value.point_of
    read_without_record pdesmas_cloud.State.WritePeriod.read
    pdesmas_cloud.RangeQuery.RangeRoutingTable.clear_range_updates
process_write-process_single_read_example =
    process_write-process_single_read 0 a_read late_write the_history host read_done written refl
      (inl refl, tt) (omega arith) refl refl refl

abbrev late_anti : WriteAntiMessage
late_anti = record {
  base = record (anti 3) { original_agent = record { identifier = 71; rank = 7 } };
  ssv_id = 10;
}

write_done : Clp
write_done = from_some host (process_write 0 late_write host)

taken_back : Clp
taken_back = from_some host (process_write_anti late_anti write_done)

process_write_anti-process_write_example :
    (h' : History) × (find 10 taken_back.shared_state.state_variable_map ≡ some h')
    × ((read_without_record 9 h').1 ≡ (read_without_record 9 the_history).1)
unfolding taken_back write_done process_write process_write_anti
    pdesmas_cloud.State.SharedState.read find pdesmas_cloud.State.StateVariable.read walk_back
    pdesmas_cloud.Lp.Clp.count pdesmas_cloud.Routing.Router.get_direction_by_lp_rank
    pdesmas_cloud.Routing.RouteTable.get_direction_from_rank pdesmas_cloud.State.SharedState.write
    pdesmas_cloud.Lp.Clp.set_table pdesmas_cloud.State.SharedState.count_access assign
    pdesmas_cloud.Lp.Clp.RangeUpdates.flush_range_updates pdesmas_cloud.Lp.Clp.table
    pdesmas_cloud.Lp.Clp.RangeUpdates.send_range_updates
    pdesmas_cloud.State.SharedState.update_ranges pdesmas_cloud.Types.Value.point_of
    read_without_record pdesmas_cloud.State.WritePeriod.read
    pdesmas_cloud.RangeQuery.RangeRoutingTable.clear_range_updates
    pdesmas_cloud.State.StateVariable.write_with_rollback
    pdesmas_cloud.Lp.RollbackList.Sending.send_rollbacks
    pdesmas_cloud.State.StateVariable.insert_write
    pdesmas_cloud.State.WritePeriod.remove_reads_after_inclusive
    pdesmas_cloud.State.WritePeriod.roll_back_reads send_simulation
    pdesmas_cloud.State.SharedState.rollback_write
    pdesmas_cloud.State.StateVariable.perform_write_rollback
    pdesmas_cloud.State.StateVariable.walk_to pdesmas_cloud.Lp.LpId.lp_ne
    pdesmas_cloud.State.StateVariable.erase_period pdesmas_cloud.State.StateVariable.set_last_end
process_write_anti-process_write_example =
    process_write_anti-process_write 0 9 late_write late_anti the_history host write_done taken_back
      refl ((λ e. omega (arith, e)), tt) refl refl refl refl refl (omega arith) refl
