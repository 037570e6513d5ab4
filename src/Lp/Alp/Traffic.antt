-- ===== src/Lp/Alp/Traffic.antt =====
-- lp/Alp.cpp: `Send`, `Receive` and the handlers of the responses. What `Send` gives to MPI is part
-- of its result. The thread that `Receive` starts for `doSelfRestart` is a step of its own.
use pdesmas_cloud.Base.{ℕ, List, [], ◌∷◌, Option, none, some, Bool, ◌==◌, if◌then◌else◌, ◌>>=◌}
use pdesmas_cloud.Base.NatMap.{find, assign, insert}
use pdesmas_cloud.Interface.SendList.{add_to_send_list, remove_from_send_list}
use pdesmas_cloud.Lp.Alp.{Alp, set_message_arrive_flag, call_agent, get_lvt, set_gvt}
use pdesmas_cloud.Lp.Alp.Rollback.{process_rollback}
use pdesmas_cloud.Lp.GvtCalculator.{Effects, process_control, process_request, process_value}
use pdesmas_cloud.Lp.LogicalProcess.{
  Received, handled, waiting, fatal, or_fatal, stamp, stamp_other, account, queue_effects,
  simulation_of, with_simulation,
}
use pdesmas_cloud.Lp.MessageQueue.{shared_state, other, dequeue_message}
use pdesmas_cloud.Messages.SharedStateMessage.{
  AnySharedState, RangeQueryMessage, single_read, write, range_query, original_agent, identifier,
}
use pdesmas_cloud.Messages.LpMessage.{
  AbstractMessage, SingleReadResponseMessage, WriteResponseMessage, single_read_response,
  write_response, rollback, single_read_anti, write_anti, range_query_anti, state_migration,
  range_update, end_message, gvt_request, gvt_control, gvt_value,
}
use pdesmas_cloud.State.StateVariable.{write_success, write_failure}

-- A message of the simulation queue on its way out: a request goes on the send list first.
unfoldable pub prepare : AbstractMessage → Alp → Option (Alp × AbstractMessage)
prepare (shared_state m) a = do
  (lp, stamped) ← stamp (simulation_of m) a.lp
  some (
    record a {
      lp = lp;
      send_list = add_to_send_list m a.send_list;
      agent_response_message_id_map =
          assign (original_agent m).identifier (identifier m) a.agent_response_message_id_map;
    },
    shared_state (with_simulation stamped m),
  )
prepare (other m) a = do
  (lp, stamped) ← stamp_other m a.lp
  some (record a { lp = lp }, other stamped)

-- `Send`: control messages go first; the queues may be empty.
unfoldable pub send : Alp → Option (Alp × Option AbstractMessage)
send a = elim (dequeue_message a.lp.send_control_message_queue) [
  | some (q, m) ↦ some (record a { lp = record a.lp { send_control_message_queue = q } }, some m)
  | none ↦ elim (dequeue_message a.lp.send_message_queue) [
    | none ↦ some (a, none)
    | some (q, m) ↦ do
      (a', sent) ← prepare m (record a { lp = record a.lp { send_message_queue = q } })
      some (a', some sent)
  ]
]

-- `agent_response_message_id_map_[agent_id] == id`; `operator[]` enters 0 for an agent without an
-- entry.
unfoldable pub awaits : ℕ → ℕ → Alp → Alp × Bool
awaits agent id a = (
  record a { agent_response_message_id_map = insert agent 0 a.agent_response_message_id_map },
  elim (find agent a.agent_response_message_id_map) [ none ↦ 0 == id | some n ↦ n == id ],
)

-- The response is handed over, if the agent waits for it.
unfoldable pub hand_over : ℕ → ℕ → AbstractMessage → Alp → Option Alp
hand_over agent id m a =
    let (a', waits) = awaits agent id a in
    if waits
    then call_agent agent (set_message_arrive_flag ∷ [])
        (record a' { agent_response_map = assign agent (some m) a'.agent_response_map })
    else some a'

unfoldable pub process_single_read_response : SingleReadResponseMessage → Alp → Option Alp
process_single_read_response m =
    hand_over m.base.original_agent.identifier m.base.identifier (other (single_read_response m))

-- A write that failed leaves the send list.
unfoldable pub process_write_response : WriteResponseMessage → Alp → Option Alp
process_write_response m a =
    let kept : List AnySharedState = elim m.write_status [
      | write_success ↦ a.send_list
      | write_failure ↦ (remove_from_send_list m.base.identifier a.send_list).0
    ] in
    hand_over m.base.original_agent.identifier m.base.identifier (other (write_response m))
      (record a { send_list = kept })

unfoldable pub process_range_query : RangeQueryMessage → Alp → Option Alp
process_range_query m =
    hand_over m.base.original_agent.identifier m.base.identifier (shared_state (range_query m))

unfoldable pub apply_effects : Effects → Alp → Alp
apply_effects e a =
    let queued = record a { lp = queue_effects e a.lp } in
    elim e.gvt [ none ↦ queued | some gvt ↦ set_gvt gvt queued ]

abbrev pub counted : AnySharedState → Alp → Alp
counted m a = record a { lp = account (simulation_of m) a.lp }

-- The `switch` of `Receive`.
unfoldable pub process : AbstractMessage → Alp → Received Alp
process (shared_state (range_query m)) a =
    or_fatal (process_range_query m (counted (range_query m) a))
process (shared_state (single_read m)) a = fatal
process (shared_state (write m)) a = fatal
process (other (single_read_response m)) a =
    or_fatal (process_single_read_response m (record a { lp = account m.base.simulation a.lp }))
process (other (write_response m)) a =
    or_fatal (process_write_response m (record a { lp = account m.base.simulation a.lp }))
process (other (rollback m)) a =
    elim (process_rollback m (record a { lp = account m.simulation a.lp })) [
      | none ↦ fatal
      | some (a', carried_out) ↦ handled a'
    ]
process (other (gvt_control m)) a = elim (get_lvt a) [
  | none ↦ fatal
  | some lvt ↦ elim (process_control a.lp.info lvt m a.lp.gvt_calculator) [
    | none ↦ waiting a
    | some e ↦ handled (apply_effects e a)
  ]
]
process (other (gvt_request m)) a =
    handled (apply_effects (process_request a.lp.info a.lp.gvt_calculator) a)
process (other (gvt_value m)) a =
    handled (apply_effects (process_value a.lp.info m a.lp.gvt_calculator) a)
process (other (single_read_anti m)) a = fatal
process (other (write_anti m)) a = fatal
process (other (range_query_anti m)) a = fatal
process (other (state_migration m)) a = fatal
process (other (range_update m)) a = fatal
process (other (end_message m)) a = fatal

-- `Receive`. A process that receives with nothing in the queue is fatal.
unfoldable pub receive : Alp → Received Alp
receive a = elim (dequeue_message a.lp.receive_message_queue) [
  | none ↦ fatal
  | some (q, m) ↦ process m (record a { lp = record a.lp { receive_message_queue = q } })
]
