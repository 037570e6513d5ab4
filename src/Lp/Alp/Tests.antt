-- ===== src/Lp/Alp/Tests.antt =====
-- An ALP of rank 3 under the CLP 1, with one agent that has read and written, and the theorems on it.
use pdesmas_cloud.Base.{
  ℕ, ◌≡◌, refl, List, [], ◌∷◌, ◌++◌, none, some, true, false, not, keep, arith, inl, ulong_max,
}
use pdesmas_cloud.Base.Int.{pos, ◌+ℤ◌}
use pdesmas_cloud.Base.NatMap.{find, assign, insert}
use pdesmas_cloud.Interface.SendList.{is_undone, add_to_send_list, rollback_send_list}
use pdesmas_cloud.Interface.RollbackTagList.{has_tag, check_rollback_tag_list}
use pdesmas_cloud.Lp.Alp.{Alp, start, restart, call_agent, set_cancel_flag, start_afresh}
use pdesmas_cloud.Interface.SendList.{clear_send_list}
use pdesmas_cloud.Interface.RollbackTagList.{clear_rollback_tag_list}
use pdesmas_cloud.Lp.Alp.{set_gvt}
use pdesmas_cloud.Lp.Alp.Events.{nothing, then, takes_gvt}
use pdesmas_cloud.Lp.Alp.Rollback.{
  anti_message, is_cancelled, cancel_all, stop_and_take_back, carry_out, process_rollback,
}
use pdesmas_cloud.Lp.Alp.Traffic.{prepare, awaits, hand_over, process_write_response}
use pdesmas_cloud.Lp.Alp.Undo.{anti_messages, stopping, process_rollback_undoes}
use pdesmas_cloud.Lp.Alp.Requests.{
  process_rollback-prepare, process_rollback-before_gvt, process_rollback-again,
}
use pdesmas_cloud.Lp.Alp.Responses.{hand_over-process_rollback, process_write_response-prepare}
use pdesmas_cloud.Lp.GvtCalculator.{
  pre_process_send_message, increment_white_transient_message_counter, add_to_counter, counter_or,
  get_white_transient_message_counter,
}
use pdesmas_cloud.Lp.LogicalProcess.{LogicalProcess, stamp}
use pdesmas_cloud.Lp.LpId.{LpId, lp_eq}
use pdesmas_cloud.Lp.MessageQueue.{shared_state, other, remove_messages}
use pdesmas_cloud.Lp.RollbackTag.{RollbackTag, tag_eq}
use pdesmas_cloud.Messages.SharedStateMessage.{
  AnySharedState, SharedStateMessage, WriteMessage, single_read, write,
}
use pdesmas_cloud.Messages.LpMessage.{
  AbstractMessage, RollbackMessage, WriteResponseMessage, write_response,
}
use pdesmas_cloud.State.StateVariable.{write_failure}
use pdesmas_cloud.Types.Direction.{white}

abbrev agent : LpId
agent = record { identifier = 7; rank = 3 }

abbrev base : ℕ → ℕ → SharedStateMessage
base id t = record {
  simulation = record { origin = 3; destination = 1; timestamp = t; mattern_colour = white };
  number_of_hops = 0;
  identifier = id;
  original_agent = agent;
}

abbrev a_read : AnySharedState
a_read = single_read (record { base = base 1 5; ssv_id = 10 })

abbrev the_write : WriteMessage
the_write = record { base = base 2 6; ssv_id = 10; value = none }

abbrev the_lp : ℕ → LogicalProcess
the_lp gvt = record {
  info = record { rank = 3; size = 4; end_time = 100 };
  number_of_clps = 3;
  start_time = 0;
  gvt = gvt;
  end_messages_received = [];
  gvt_calculator = record {
    next_lp_in_ring = 0;
    is_gvt_starter = false;
    colour = white;
    red_time = ulong_max;
    is_accepting_requests = true;
    white_transient_message_counter = [];
  };
  receive_message_queue = [];
  send_message_queue = [];
  send_control_message_queue = [];
  receive_load_balancing_message_queue = [];
  send_load_balancing_message_queue = [];
}

-- The ALP at a GVT, with a send list.
abbrev alp : ℕ → List AnySharedState → Alp
alp gvt sent = record {
  lp = the_lp gvt;
  parent_clp = 1;
  message_id_handler = record { initial_id = 0; additional = 1; last_id = 2 };
  managed_agents = (7, start ∷ []) ∷ [];
  agent_lvt_map = (7, 9) ∷ [];
  agent_lvt_history_map = (7, 0 ∷ []) ∷ [];
  agent_cancel_flag_map = (7, false) ∷ [];
  agent_response_map = [];
  agent_response_message_id_map = (7, 2) ∷ [];
  send_list = sent;
  rollback_tag_list = [];
  restart_map = [];
  restart_p = false;
}

abbrev busy : Alp
busy = alp 2 (a_read ∷ write the_write ∷ [])

abbrev tag : RollbackTag
tag = record { original_ssv = 10; time = 4; tag_type = 1; real_time_stamp = 1000 }

abbrev back_to : ℕ → RollbackMessage
back_to t = record {
  simulation = record { origin = 1; destination = 3; timestamp = t; mattern_colour = white };
  rollback_tag = tag;
  original_agent = agent;
}

process_rollback_undoes_example :
    (a' : Alp) × (process_rollback (back_to 4) busy ≡ some (a', true))
    × (find 7 a'.agent_lvt_map ≡ some 4)
    × (a'.lp.send_message_queue
        ≡ remove_messages agent 4 busy.lp.send_message_queue
          ++ anti_messages tag (keep (is_undone 4 agent) busy.send_list) busy)
    × (a'.send_list ≡ keep (λ n. not (is_undone 4 agent n)) busy.send_list)
    × (find 7 a'.agent_cancel_flag_map ≡ some false)
    × (find 7 a'.agent_response_message_id_map ≡ some 0)
    × (find 7 a'.managed_agents ≡ some (stopping (start ∷ []) ++ restart ∷ []))
unfolding find has_tag
process_rollback_undoes_example =
    process_rollback_undoes (back_to 4) busy 9 (start ∷ []) refl refl refl (omega arith)
      (omega arith) (omega arith)

process_rollback-before_gvt_example :
    (a' : Alp) × (process_rollback (back_to 4) (alp 6 (a_read ∷ [])) ≡ some (a', false))
    × (find 7 a'.agent_lvt_map ≡ some 6)
    × (find 7 a'.agent_cancel_flag_map ≡ some true)
    × (find 7 a'.managed_agents ≡ some (stopping (start ∷ [])))
unfolding find has_tag is_undone lp_eq
process_rollback-before_gvt_example =
    process_rollback-before_gvt (back_to 4) (alp 6 (a_read ∷ [])) 9 (start ∷ []) refl refl refl
      (omega arith) (omega arith) (inl (omega arith))

-- The ALP behind the sending of a request.
abbrev counted : LogicalProcess
counted = record (the_lp 2) {
  gvt_calculator = record (the_lp 2).gvt_calculator {
    white_transient_message_counter = (1, pos 1) ∷ [];
  };
}

abbrev behind : ℕ → AnySharedState → Alp
behind id m = record (alp 2 []) {
  lp = counted;
  send_list = m ∷ [];
  agent_response_message_id_map = (7, id) ∷ [];
}

-- The same behind a GVT of 3.
abbrev later : Alp
later = set_gvt 3 (behind 1 a_read)

process_rollback-prepare_example :
    (c : Alp) × (q : List AbstractMessage) × (q' : List AbstractMessage) × (process_rollback
        (back_to 4)
        later
      ≡ some (c, true))
    × (c.lp.send_message_queue ≡ q ++ anti_message 3 1 tag a_read ∷ q')
unfolding find has_tag is_undone lp_eq is_cancelled prepare stamp pre_process_send_message
    increment_white_transient_message_counter add_to_counter counter_or
    get_white_transient_message_counter add_to_send_list assign ◌+ℤ◌ set_gvt clear_send_list
    clear_rollback_tag_list
process_rollback-prepare_example =
    process_rollback-prepare a_read (back_to 4) (alp 2 []) (behind 1 a_read) later
      (shared_state a_read) 9 (start ∷ []) refl (then (takes_gvt 3) nothing (omega arith) refl) refl
      refl refl refl refl (omega arith) (omega arith) (omega arith)

abbrev refusal : WriteResponseMessage
refusal = record {
  base = record {
    simulation = record { origin = 1; destination = 3; timestamp = 6; mattern_colour = white };
    identifier = 2;
    original_agent = agent;
  };
  write_status = write_failure;
}

process_write_response-prepare_example :
    (c : Alp) × (process_write_response refusal (behind 2 (write the_write)) ≡ some c)
    × (c.send_list ≡ [])
    × (find 7 c.agent_response_map ≡ some (some (other (write_response refusal))))
unfolding find prepare stamp pre_process_send_message increment_white_transient_message_counter
    add_to_counter counter_or get_white_transient_message_counter add_to_send_list assign ◌+ℤ◌
process_write_response-prepare_example =
    process_write_response-prepare the_write refusal (alp 2 []) (behind 2 (write the_write))
      (shared_state (write the_write)) (start ∷ []) refl tt refl refl refl refl

-- A rollback with nothing to undo, and its outcome.
abbrev rolled : Alp
rolled = record (alp 2 []) {
  managed_agents = (7, stopping (start ∷ []) ++ restart ∷ []) ∷ [];
  agent_lvt_map = (7, 4) ∷ [];
  agent_response_map = (7, none) ∷ [];
  agent_response_message_id_map = (7, 0) ∷ [];
  rollback_tag_list = tag ∷ [];
}

hand_over-process_rollback_example :
    (rolled.managed_agents ≡ rolled.managed_agents)
    × (rolled.agent_response_map ≡ rolled.agent_response_map)
    × (rolled.agent_lvt_map ≡ rolled.agent_lvt_map)
unfolding find has_tag tag_eq is_undone lp_eq process_rollback check_rollback_tag_list carry_out
    cancel_all stop_and_take_back rollback_send_list remove_messages call_agent set_cancel_flag
    start_afresh assign insert hand_over awaits
hand_over-process_rollback_example =
    hand_over-process_rollback (back_to 4) (alp 2 []) rolled rolled 2
      (other (write_response refusal)) refl (λ e. ground arith) refl

process_rollback-again_example :
    process_rollback (back_to 4) (set_gvt 3 rolled) ≡ some (set_gvt 3 rolled, false)
unfolding find has_tag tag_eq is_undone lp_eq process_rollback check_rollback_tag_list carry_out
    cancel_all stop_and_take_back rollback_send_list remove_messages call_agent set_cancel_flag
    start_afresh assign set_gvt clear_send_list clear_rollback_tag_list
process_rollback-again_example =
    process_rollback-again (back_to 4) (alp 2 []) rolled (set_gvt 3 rolled) true 4 refl
      (then (takes_gvt 3) nothing (omega arith) refl) refl
