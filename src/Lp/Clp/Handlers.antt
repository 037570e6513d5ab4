-- ===== src/Lp/Clp/Handlers.antt =====
-- lp/Clp.cpp: the handlers of the requests for one variable, and of their anti-messages.
use pdesmas_cloud.Base.{ℕ, [], Option, some, ltb, if◌then◌else◌, ◌>>=◌}
use pdesmas_cloud.Lp.Clp.{Clp, clear_here, count, new_tag, rollback_by_write}
use pdesmas_cloud.Lp.Clp.RangeUpdates.{flush_range_updates}
use pdesmas_cloud.Lp.LogicalProcess.{send_simulation}
use pdesmas_cloud.Lp.MessageQueue.{other}
use pdesmas_cloud.Lp.RollbackList.Sending.{send_rollbacks}
use pdesmas_cloud.Messages.SharedStateMessage.{SharedStateMessage, SingleReadMessage, WriteMessage}
use pdesmas_cloud.Messages.LpMessage.{
  ResponseMessage, SingleReadResponseMessage, WriteResponseMessage, SingleReadAntiMessage,
  WriteAntiMessage, single_read_response, write_response,
}
use pdesmas_cloud.State.SharedState.{SharedState, rollback_read, rollback_write}
use pdesmas_cloud.State.SharedState
use pdesmas_cloud.Types.Direction.{here, white}

-- What the two responses to a request share. The colour is set when the message is sent.
abbrev pub response_base : ℕ → SharedStateMessage → ResponseMessage
response_base rank m = record {
  simulation = record {
    origin = rank;
    destination = m.original_agent.rank;
    timestamp = m.simulation.timestamp;
    mattern_colour = white;
  };
  identifier = m.identifier;
  original_agent = m.original_agent;
}

abbrev pub respond_read : SingleReadMessage → Clp → SharedState → SingleReadResponseMessage → Clp
respond_read m c s r = record c {
  shared_state = s;
  lp = send_simulation (other (single_read_response r)) c.lp;
}

-- `ProcessMessage(const SingleReadMessage*)`: a read from before GVT is made at GVT.
unfoldable pub process_single_read : SingleReadMessage → Clp → Option Clp
process_single_read m c = do
  let t = m.base.simulation.timestamp
  (s, v) ←
      SharedState.read m.ssv_id m.base.original_agent (if ltb t c.lp.gvt then c.lp.gvt else t)
        c.shared_state
  count m.ssv_id m.base.original_agent m.base.number_of_hops
      (respond_read m c s (record { base = response_base c.lp.info.rank m.base; value = v }))

-- `ProcessMessage(const SingleReadAntiMessage*)`. The rollback list stays empty.
unfoldable pub process_single_read_anti : SingleReadAntiMessage → Clp → Option Clp
process_single_read_anti m c = if ltb m.base.simulation.timestamp c.lp.gvt then some c else (do
  let cleared = clear_here c
  s ← rollback_read m.ssv_id m.base.original_agent m.base.simulation.timestamp cleared.shared_state
  flushed ← flush_range_updates here (record cleared { shared_state = s })
  count m.ssv_id m.base.original_agent m.base.number_of_hops flushed)

-- `ProcessMessage(const WriteMessage*)`. A rollback list that is empty sends nothing.
unfoldable pub process_write : ℕ → WriteMessage → Clp → Option Clp
process_write now m c = do
  let cleared = clear_here c
  let t = m.base.simulation.timestamp
  (s, status, rl) ←
      SharedState.write m.ssv_id m.base.original_agent m.value t cleared.shared_state []
  let response : WriteResponseMessage = record {
    base = response_base c.lp.info.rank m.base;
    write_status = status;
  }
  let answered = send_simulation (other (write_response response)) cleared.lp
  flushed ← flush_range_updates here (record cleared {
    shared_state = s;
    lp = send_rollbacks (new_tag m.ssv_id t rollback_by_write now) rl answered;
  })
  count m.ssv_id m.base.original_agent m.base.number_of_hops flushed

-- `ProcessMessage(const WriteAntiMessage*)`.
unfoldable pub process_write_anti : WriteAntiMessage → Clp → Option Clp
process_write_anti m c = if ltb m.base.simulation.timestamp c.lp.gvt then some c else (do
  let cleared = clear_here c
  (s, rl) ←
      rollback_write m.ssv_id m.base.original_agent m.base.simulation.timestamp cleared.shared_state
        []
  flushed ←
      flush_range_updates here
        (record cleared { shared_state = s; lp = send_rollbacks m.base.rollback_tag rl cleared.lp })
  count m.ssv_id m.base.original_agent m.base.number_of_hops flushed)
