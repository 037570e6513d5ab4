-- ===== src/Lp/Clp/Traffic.antt =====
-- lp/Clp.cpp: `Send` and `Receive`. What `Send` gives to MPI is part of its result. `clock` gives the
-- times at which rollback tags are made.
use pdesmas_cloud.Base.{
  ℕ, ◌+◌, ◌%◌, ◌^◌, Option, none, some, Bool, true, false, if◌then◌else◌, ◌>>=◌, ulong_max,
}
use pdesmas_cloud.Lp.Clp.{Clp}
use pdesmas_cloud.Lp.Clp.Handlers.{
  process_single_read, process_single_read_anti, process_write, process_write_anti,
}
use pdesmas_cloud.Lp.Clp.RangeUpdates.{process_range_update_message}
use pdesmas_cloud.Lp.Clp.EndMessages.{process_end}
use pdesmas_cloud.Lp.Clp.Migration.{process_state_migration, set_gvt}
use pdesmas_cloud.Lp.Clp.RangeQueries.{process_range_query, process_range_query_anti}
use pdesmas_cloud.Lp.GvtCalculator.{Effects, process_control, process_request, process_value}
use pdesmas_cloud.Lp.LogicalProcess.{
  LogicalProcess, Received, handled, waiting, or_fatal, stamp, stamp_other, account, queue_effects,
  simulation_of, with_simulation, send_simulation, send_load_balancing,
}
use pdesmas_cloud.Lp.MessageQueue.{shared_state, other, dequeue_message}
use pdesmas_cloud.Messages.SharedStateMessage.{
  SharedStateMessage, SimulationMessage, AnySharedState, single_read, write, range_query,
}
use pdesmas_cloud.Messages.LpMessage.{
  AbstractMessage, AntiMessage, OtherMessage, single_read_response, write_response, rollback,
  single_read_anti, write_anti, range_query_anti, state_migration, range_update, end_message,
  gvt_request, gvt_control, gvt_value,
}
use pdesmas_cloud.Routing.Router.{
  route_rollback, route_single_read, route_write, route_single_read_anti, route_write_anti,
  route_single_read_response, route_write_response, route_state_migration,
}

-- `GetLvt` of a CLP, which keeps no time of its own.
abbrev pub clp_lvt : ℕ
clp_lvt = ulong_max

unfoldable pub stamped : OtherMessage → Clp → Option (Clp × AbstractMessage)
stamped m c = do (lp, m') ← stamp_other m c.lp; some (record c { lp = lp }, other m')

-- The `switch` of `Send`. The verdict of a route does not matter, its destination does. The
-- anti-message of a range query has no case of its own, so nothing is done with it.
unfoldable pub prepare : AbstractMessage → Clp → Option (Clp × AbstractMessage)
prepare (shared_state m) c = do
  (lp, s) ← stamp (simulation_of m) c.lp
  some (record c { lp = lp }, shared_state (with_simulation s m))
prepare (other (single_read_response m)) c = do
  (_, routed) ← route_single_read_response m c.router
  stamped (single_read_response routed) c
prepare (other (write_response m)) c = do
  (_, routed) ← route_write_response m c.router
  stamped (write_response routed) c
prepare (other (rollback m)) c = do
  (_, routed) ← route_rollback m c.router
  stamped (rollback routed) c
prepare (other (single_read_anti m)) c = stamped (single_read_anti m) c
prepare (other (write_anti m)) c = stamped (write_anti m) c
prepare (other (range_query_anti m)) c = some (c, other (range_query_anti m))
prepare (other m) c = some (c, other m)

-- The message that `Send` takes: load balancing first, then control, then simulation.
unfoldable pub next_to_send : LogicalProcess → Option (LogicalProcess × AbstractMessage)
next_to_send lp = elim (dequeue_message lp.send_load_balancing_message_queue) [
  | some (q, m) ↦ some (record lp { send_load_balancing_message_queue = q }, m)
  | none ↦ elim (dequeue_message lp.send_control_message_queue) [
    | some (q, m) ↦ some (record lp { send_control_message_queue = q }, m)
    | none ↦ elim (dequeue_message lp.send_message_queue) [
      | some (q, m) ↦ some (record lp { send_message_queue = q }, m)
      | none ↦ none
    ]
  ]
]

-- `Send`.
unfoldable pub send : Clp → Option (Clp × Option AbstractMessage)
send c = elim (next_to_send c.lp) [
  | none ↦ some (c, none)
  | some (lp, m) ↦ do (c', sent) ← prepare m (record c { lp = lp }); some (c', some sent)
]

-- `GvtCalculator::ProcessMessage` on this LP.
unfoldable pub apply_effects : (ℕ → ℕ) → Effects → Clp → Option Clp
apply_effects clock e c =
    let queued = record c { lp = queue_effects e c.lp } in
    elim e.gvt [ none ↦ some queued | some gvt ↦ set_gvt clock gvt queued ]

-- `IncrementNumberOfHops`.
abbrev pub one_hop : SharedStateMessage → SharedStateMessage
one_hop m = record m { number_of_hops = (m.number_of_hops + 1) % 2 ^ 64 }

abbrev pub one_anti_hop : AntiMessage → AntiMessage
one_anti_hop m = record m { number_of_hops = (m.number_of_hops + 1) % 2 ^ 64 }

abbrev pub counted : SimulationMessage → Clp → Clp
counted s c = record c { lp = account s c.lp }

-- A message that is not for this CLP is queued to be sent on.
abbrev pub forward : AbstractMessage → Clp → Option Clp
forward m c = some (record c { lp = send_simulation m c.lp })

-- The requests.
unfoldable pub process_request_message : ℕ → AnySharedState → Clp → Option Clp
process_request_message now (single_read m) c = do
  let hop = record m { base = one_hop m.base }
  (mine, routed) ← route_single_read hop c.router
  if mine
      then process_single_read routed (counted m.base.simulation c)
      else forward (shared_state (single_read routed)) (counted m.base.simulation c)
process_request_message now (write m) c = do
  let hop = record m { base = one_hop m.base }
  (mine, routed) ← route_write hop c.router
  if mine
      then process_write now routed (counted m.base.simulation c)
      else forward (shared_state (write routed)) (counted m.base.simulation c)
process_request_message now (range_query m) c =
    process_range_query (record m { base = one_hop m.base }) (counted m.base.simulation c)

-- A response or a rollback that is for this CLP itself is logged, and goes no further.
abbrev pub pass_on : Bool → OtherMessage → Clp → Option Clp
pass_on true m c = some c
pass_on false m c = forward (other m) c

-- The other classes. `ReceiveToLp` never gives `waiting` but for a second cut.
unfoldable pub process_other : (ℕ → ℕ) → OtherMessage → Clp → Received Clp
process_other clock (single_read_response m) c = or_fatal (do
  (mine, routed) ← route_single_read_response m c.router
  pass_on mine (single_read_response routed) (counted m.base.simulation c))
process_other clock (write_response m) c = or_fatal (do
  (mine, routed) ← route_write_response m c.router
  pass_on mine (write_response routed) (counted m.base.simulation c))
process_other clock (rollback m) c = or_fatal (do
  (mine, routed) ← route_rollback m c.router
  pass_on mine (rollback routed) (counted m.simulation c))
process_other clock (single_read_anti m) c = or_fatal (do
  let hop = record m { base = one_anti_hop m.base }
  (mine, routed) ← route_single_read_anti hop c.router
  if mine
      then process_single_read_anti routed (counted m.base.simulation c)
      else forward (other (single_read_anti routed)) (counted m.base.simulation c))
process_other clock (write_anti m) c = or_fatal (do
  let hop = record m { base = one_anti_hop m.base }
  (mine, routed) ← route_write_anti hop c.router
  if mine
      then process_write_anti routed (counted m.base.simulation c)
      else forward (other (write_anti routed)) (counted m.base.simulation c))
process_other clock (range_query_anti m) c = or_fatal (
    process_range_query_anti (record m { base = one_anti_hop m.base })
      (counted m.base.simulation c))
process_other clock (range_update m) c = or_fatal (process_range_update_message (clock 0) m c)
process_other clock (end_message m) c = or_fatal (process_end m c)
process_other clock (state_migration m) c =
    if route_state_migration m c.router
    then or_fatal (process_state_migration clock m c)
    else handled (record c { lp = send_load_balancing (other (state_migration m)) c.lp })
process_other clock (gvt_request m) c =
    or_fatal (apply_effects clock (process_request c.lp.info c.lp.gvt_calculator) c)
process_other clock (gvt_value m) c =
    or_fatal (apply_effects clock (process_value c.lp.info m c.lp.gvt_calculator) c)
process_other clock (gvt_control m) c =
    elim (process_control c.lp.info clp_lvt m c.lp.gvt_calculator) [
      | none ↦ waiting c
      | some e ↦ or_fatal (apply_effects clock e c)
    ]

unfoldable pub process : (ℕ → ℕ) → AbstractMessage → Clp → Received Clp
process clock (shared_state m) c = or_fatal (process_request_message (clock 0) m c)
process clock (other m) c = process_other clock m c

-- The message that `Receive` takes: load balancing first.
unfoldable pub next_received : LogicalProcess → Option (LogicalProcess × AbstractMessage)
next_received lp = elim (dequeue_message lp.receive_load_balancing_message_queue) [
  | some (q, m) ↦ some (record lp { receive_load_balancing_message_queue = q }, m)
  | none ↦ elim (dequeue_message lp.receive_message_queue) [
    | some (q, m) ↦ some (record lp { receive_message_queue = q }, m)
    | none ↦ none
  ]
]

-- `Receive`.
unfoldable pub receive : (ℕ → ℕ) → Clp → Received Clp
receive clock c = elim (next_received c.lp) [
  | none ↦ handled c
  | some (lp, m) ↦ process clock m (record c { lp = lp })
]
