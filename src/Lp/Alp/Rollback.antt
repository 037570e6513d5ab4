-- ===== src/Lp/Alp/Rollback.antt =====
-- lp/Alp.cpp: `ProcessRollback`.
use pdesmas_cloud.Base.{
  ℕ, List, [], ◌∷◌, Option, none, some, Bool, true, false, leb, ltb, ◌==◌, not, if◌then◌else◌,
  ◌>>=◌, ulong_max,
}
use pdesmas_cloud.Base.NatMap.{find, assign}
use pdesmas_cloud.Interface.SendList.{rollback_send_list}
use pdesmas_cloud.Interface.RollbackTagList.{check_rollback_tag_list}
use pdesmas_cloud.Lp.Alp.{
  Alp, abort, join, reset_message_arrive_flag, call_agent, set_cancel_flag, start_afresh,
}
use pdesmas_cloud.Lp.LpId.{LpId}
use pdesmas_cloud.Lp.LogicalProcess.{send_simulation}
use pdesmas_cloud.Lp.MessageQueue.{other, remove_messages}
use pdesmas_cloud.Lp.RollbackTag.{RollbackTag}
use pdesmas_cloud.Messages.SharedStateMessage.{
  AnySharedState, single_read, write, range_query, timestamp, SharedStateMessage,
}
use pdesmas_cloud.Messages.LpMessage.{
  AbstractMessage, AntiMessage, RollbackMessage, single_read_anti, write_anti, range_query_anti,
}
use pdesmas_cloud.Types.Direction.{white}

-- What the three kinds of anti-message share. The colour is set when the message is sent.
abbrev pub anti_base : ℕ → ℕ → RollbackTag → SharedStateMessage → AntiMessage
anti_base rank parent tag m = record {
  simulation = record {
    origin = rank;
    destination = parent;
    timestamp = m.simulation.timestamp;
    mattern_colour = white;
  };
  number_of_hops = 0;
  rollback_tag = tag;
  original_agent = m.original_agent;
}

-- The anti-message of a request.
unfoldable pub anti_message : ℕ → ℕ → RollbackTag → AnySharedState → AbstractMessage
anti_message rank parent tag (single_read m) =
    other (single_read_anti (record { base = anti_base rank parent tag m.base; ssv_id = m.ssv_id }))
anti_message rank parent tag (write m) =
    other (write_anti (record { base = anti_base rank parent tag m.base; ssv_id = m.ssv_id }))
anti_message rank parent tag (range_query m) = other (
    range_query_anti (record {
      base = anti_base rank parent tag m.base;
      range = m.range;
      identifier = m.base.identifier;
    }))

-- The anti-message of a read of variable 0 is not sent.
unfoldable pub is_cancelled : AnySharedState → Bool
is_cancelled (single_read m) = not (m.ssv_id == 0)
is_cancelled (write m) = true
is_cancelled (range_query m) = true

unfoldable pub cancel : RollbackTag → AnySharedState → Alp → Alp
cancel tag m a =
    if is_cancelled m
    then record a { lp = send_simulation (anti_message a.lp.info.rank a.parent_clp tag m) a.lp }
    else a

-- The loop over the messages that the rollback undoes; whether it came to its end.
unfoldable pub cancel_all : ℕ → RollbackTag → List AnySharedState → Alp → Alp × Bool
cancel_all agent tag [] a = (a, true)
cancel_all agent tag (m ∷ ms) a = elim (ltb (timestamp m) a.lp.gvt) [
  | true ↦ (record a { agent_lvt_map = assign agent a.lp.gvt a.agent_lvt_map }, false)
  | false ↦ cancel_all agent tag ms (cancel tag m a)
]

-- The agent is stopped, its time is put back, and what it has queued or sent since leaves the send
-- queue and the send list. The second part of the result is what was sent.
unfoldable pub stop_and_take_back : LpId → ℕ → Alp → Option (Alp × List AnySharedState)
stop_and_take_back agent t a = do
  a' ←
      call_agent agent.identifier (abort ∷ reset_message_arrive_flag ∷ join ∷ [])
        (set_cancel_flag agent.identifier true a)
  let (kept, undone) = rollback_send_list t agent a'.send_list
  some (
    record a' {
      agent_lvt_map = assign agent.identifier t a'.agent_lvt_map;
      lp = record a'.lp { send_message_queue = remove_messages agent t a'.lp.send_message_queue };
      send_list = kept;
    },
    undone,
  )

-- The part of `ProcessRollback` behind its refusals.
unfoldable pub carry_out : RollbackMessage → Alp → Option (Alp × Bool)
carry_out m a = do
  (stopped, undone) ← stop_and_take_back m.original_agent m.simulation.timestamp a
  let (cancelled, finished) = cancel_all m.original_agent.identifier m.rollback_tag undone stopped
  elim finished [
    | false ↦ some (cancelled, false)
    | true ↦ do a' ← start_afresh m.original_agent.identifier cancelled; some (a', true)
  ]

-- The second comparison with the LVT in the source is the first one again, so its branch is never
-- taken.
unfoldable pub process_rollback : RollbackMessage → Alp → Option (Alp × Bool)
process_rollback m a = do
  lvt ← find m.original_agent.identifier a.agent_lvt_map
  let (tags, seen) = check_rollback_tag_list m.rollback_tag a.rollback_tag_list
  let checked = record a { rollback_tag_list = tags }
  if seen
      then some (checked, false)
      else if leb lvt m.simulation.timestamp
      then some (checked, false)
      else if ltb m.simulation.timestamp ulong_max
      then carry_out m checked
      else none
