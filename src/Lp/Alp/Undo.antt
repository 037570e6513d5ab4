-- ===== src/Lp/Alp/Undo.antt =====
-- Alp.cpp: what a rollback that is carried out undoes.
use pdesmas_cloud.Base.{
  ℕ, ◌≤◌, ◌<◌, ◌≡◌, refl, List, [], ◌∷◌, ◌++◌, none, some, true, false, leb, ltb, not, ◌>>=◌,
  ulong_max, arith, keep, All, map, Bool-cases, inl, inr, ap, ◌∙◌,
}
use mathlib.Core.List.{append-nil, append_assoc}
use pdesmas_cloud.Base.NatMap.{NatMap, find, assign, find-assign}
use pdesmas_cloud.Interface.SendList.{is_undone}
use pdesmas_cloud.Interface.SendList.Rollback.{rollback_send_list-keep, is_undone-le}
use pdesmas_cloud.Interface.RollbackTagList.{has_tag, check_rollback_tag_list}
use pdesmas_cloud.Lp.Alp.{
  Alp, AgentCall, abort, join, restart, reset_message_arrive_flag, call_agent, set_cancel_flag,
  start_afresh,
}
use pdesmas_cloud.Lp.Alp.Rollback.{
  anti_message, is_cancelled, cancel, cancel_all, stop_and_take_back, carry_out, process_rollback,
}
use pdesmas_cloud.Lp.LpId.{LpId}
use pdesmas_cloud.Lp.LogicalProcess.{send_simulation}
use pdesmas_cloud.Lp.MessageQueue.{queue_message, remove_messages}
use pdesmas_cloud.Lp.RollbackTag.{RollbackTag}
use pdesmas_cloud.Messages.SharedStateMessage.{AnySharedState, timestamp}
use pdesmas_cloud.Messages.LpMessage.{AbstractMessage, RollbackMessage}

-- The anti-messages of a list of requests, in its order.
abbrev pub anti_messages : RollbackTag → List AnySharedState → Alp → List AbstractMessage
anti_messages tag ms a = map (anti_message a.lp.info.rank a.parent_clp tag) (keep is_cancelled ms)

abbrev pub queueing : List AbstractMessage → Alp → Alp
queueing ms a = record a { lp = record a.lp { send_message_queue = a.lp.send_message_queue ++ ms } }

-- Where none of the messages is before GVT the loop comes to its end and has queued all of them.
cancel_all_lem :
    (agent : ℕ) (tag : RollbackTag) (ms : List AnySharedState) (a : Alp)
    → All (λ m. a.lp.gvt ≤ timestamp m) ms
    → cancel_all agent tag ms a ≡ (queueing (anti_messages tag ms a) a, true)
unfolding cancel_all cancel send_simulation queue_message
cancel_all_lem agent tag [] a late = simp append-nil
cancel_all_lem agent tag (m ∷ ms) a late =
    let on : ltb (timestamp m) a.lp.gvt ≡ false = ground (arith, late.0) in
    let sent = anti_message a.lp.info.rank a.parent_clp tag m in
    elim (Bool-cases (is_cancelled m)) [
      | inl c ↦
          rw (on, cancel_all, c, cancel)
            (cancel_all_lem agent tag ms (queueing (sent ∷ []) a) late.1
              ∙ ap (λ q. (record a { lp = record a.lp { send_message_queue = q } }, true))
                  (append_assoc a.lp.send_message_queue (sent ∷ []) (anti_messages tag ms a)))
      | inr c ↦ rw (on, cancel_all, c, cancel) (cancel_all_lem agent tag ms a late.1)
    ]

All-undone :
    (gvt t : ℕ) (agent : LpId) (ms : List AnySharedState)
    → gvt ≤ t
    → All (λ m. gvt ≤ timestamp m) (keep (is_undone t agent) ms)
All-undone gvt t agent [] le = tt
All-undone gvt t agent (m ∷ ms) le =
    ground (arith, All-undone gvt t agent ms le, is_undone-le t agent m)

pub call_agent_lem :
    (agent : ℕ) (calls made : List AgentCall) (a : Alp)
    → find agent a.managed_agents ≡ some made
    → call_agent agent calls a
      ≡ some (record a { managed_agents = assign agent (made ++ calls) a.managed_agents })
unfolding call_agent
call_agent_lem agent calls made a e = rw (e, call_agent) refl

-- The states of the ALP in a rollback that is carried out: with the agent stopped, and restarted.
abbrev pub stopped : RollbackMessage → List AgentCall → Alp → Alp
stopped m made a =
    let agent = m.original_agent in
    let t = m.simulation.timestamp in
    record a {
      managed_agents =
          assign agent.identifier (made ++ abort ∷ reset_message_arrive_flag ∷ join ∷ [])
            a.managed_agents;
      agent_cancel_flag_map = assign agent.identifier true a.agent_cancel_flag_map;
      agent_lvt_map = assign agent.identifier t a.agent_lvt_map;
      lp = record a.lp { send_message_queue = remove_messages agent t a.lp.send_message_queue };
      send_list = keep (λ m. not (is_undone t agent m)) a.send_list;
    }

pub stop_and_take_back_lem :
    (m : RollbackMessage) (made : List AgentCall) (a : Alp)
    → find m.original_agent.identifier a.managed_agents ≡ some made
    → stop_and_take_back m.original_agent m.simulation.timestamp a
      ≡ some
          (stopped m made a, keep (is_undone m.simulation.timestamp m.original_agent) a.send_list)
unfolding stop_and_take_back set_cancel_flag
stop_and_take_back_lem m made a e =
    rw
      (
        call_agent_lem m.original_agent.identifier (abort ∷ reset_message_arrive_flag ∷ join ∷ [])
            made (set_cancel_flag m.original_agent.identifier true a) e,
        rollback_send_list-keep m.simulation.timestamp m.original_agent a.send_list,
      )
      refl

abbrev restarted : ℕ → List AgentCall → Alp → Alp
restarted agent made a = record a {
  managed_agents = assign agent (made ++ restart ∷ []) a.managed_agents;
  agent_cancel_flag_map = assign agent false a.agent_cancel_flag_map;
  agent_response_map = assign agent none a.agent_response_map;
  agent_response_message_id_map = assign agent 0 a.agent_response_message_id_map;
}

start_afresh_lem :
    (agent : ℕ) (made : List AgentCall) (a : Alp)
    → find agent a.managed_agents ≡ some made
    → start_afresh agent a ≡ some (restarted agent made a)
unfolding start_afresh set_cancel_flag
start_afresh_lem agent made a e = call_agent_lem agent (restart ∷ []) made _ e

-- The calls on the agent's thread up to its restart.
abbrev pub stopping : List AgentCall → List AgentCall
stopping made = made ++ abort ∷ reset_message_arrive_flag ∷ join ∷ []

pub find-assign_self {ℓ} :
    {V : Type ℓ} (k : ℕ) (v : V) (m : NatMap V) → find k (assign k v m) ≡ some v
find-assign_self k v m = ground (arith, find-assign k k v m)

-- The state that a rollback leaves, where GVT is not past its time.
abbrev undone_state : RollbackMessage → List AgentCall → Alp → Alp
undone_state m made a =
    let t = m.simulation.timestamp in
    restarted m.original_agent.identifier (stopping made) (
      queueing (anti_messages m.rollback_tag (keep (is_undone t m.original_agent) a.send_list) a)
        (stopped m made a))

carry_out_lem :
    (m : RollbackMessage) (made : List AgentCall) (a : Alp)
    → find m.original_agent.identifier a.managed_agents ≡ some made
    → a.lp.gvt ≤ m.simulation.timestamp
    → carry_out m a ≡ some (undone_state m made a, true)
unfolding carry_out
carry_out_lem m made a e le =
    let t = m.simulation.timestamp in
    let agent = m.original_agent in
    let ms = keep (is_undone t agent) a.send_list in
    let after = stopped m made a in
    let all =
      cancel_all_lem agent.identifier m.rollback_tag ms after
        (All-undone a.lp.gvt t agent a.send_list le) in
    let again =
      start_afresh_lem agent.identifier (stopping made)
        (queueing (anti_messages m.rollback_tag ms a) after)
        (find-assign_self agent.identifier (stopping made) a.managed_agents) in
    rw (stop_and_take_back_lem m made a e, ◌>>=◌, all, all, again) refl

-- A rollback is carried out to its end where the ALP has the agent, has not seen the tag, the LVT of
-- the agent is past the time of the rollback, and GVT is not: the agent stands at that time; the
-- requests that the rollback undoes are off the send queue and off the send list; behind what is left
-- in the queue there is one anti-message for each one that was on the list, in its order, a read of
-- variable 0 apart; the agent waits for no response, its flag is down, and its thread has been
-- stopped and started again.
pub process_rollback_undoes :
    (m : RollbackMessage) (a : Alp) (lvt : ℕ) (made : List AgentCall)
    → find m.original_agent.identifier a.managed_agents ≡ some made
    → find m.original_agent.identifier a.agent_lvt_map ≡ some lvt
    → has_tag m.rollback_tag a.rollback_tag_list ≡ false
    → m.simulation.timestamp < lvt
    → lvt ≤ ulong_max
    → a.lp.gvt ≤ m.simulation.timestamp
    → (a' : Alp) × (process_rollback m a ≡ some (a', true))
      × (find m.original_agent.identifier a'.agent_lvt_map ≡ some m.simulation.timestamp)
      × (a'.lp.send_message_queue
          ≡ remove_messages m.original_agent m.simulation.timestamp a.lp.send_message_queue
            ++ anti_messages m.rollback_tag
                (keep (is_undone m.simulation.timestamp m.original_agent) a.send_list)
                a)
      × (a'.send_list
          ≡ keep (λ n. not (is_undone m.simulation.timestamp m.original_agent n)) a.send_list)
      × (find m.original_agent.identifier a'.agent_cancel_flag_map ≡ some false)
      × (find m.original_agent.identifier a'.agent_response_message_id_map ≡ some 0)
      × (find m.original_agent.identifier a'.managed_agents ≡ some (stopping made ++ restart ∷ []))
unfolding process_rollback check_rollback_tag_list
process_rollback_undoes m a lvt made managed there new back small gvt =
    let id = m.original_agent.identifier in
    let tags = a.rollback_tag_list ++ m.rollback_tag ∷ [] in
    let checked : Alp = record a { rollback_tag_list = tags } in
    let before : leb lvt m.simulation.timestamp ≡ false = ground arith in
    let fits : ltb m.simulation.timestamp ulong_max ≡ true = ground arith in
    let r : process_rollback m a ≡ some (undone_state m made checked, true) =
      rw (there, ◌>>=◌, new, before, fits) (carry_out_lem m made checked managed gvt) in
    (
      undone_state m made checked,
      r,
      find-assign_self id m.simulation.timestamp a.agent_lvt_map,
      refl,
      refl,
      find-assign_self id false (assign id true a.agent_cancel_flag_map),
      find-assign_self id 0 a.agent_response_message_id_map,
      find-assign_self id (stopping made ++ restart ∷ [])
          (assign id (stopping made) a.managed_agents),
    )
