-- ===== src/Lp/Alp/Responses.antt =====
-- Alp.cpp: which responses reach an agent.
use pdesmas_cloud.Base.{
  ℕ, ◌≡◌, ◌≢◌, refl, List, [], ◌∷◌, ◌++◌, Option, some, Bool, true, false, ◌==◌, arith, All,
  Bool-cases, inl, inr, >>=-eq-some, subst,
}
use pdesmas_cloud.Base.NatMap.{find, assign, insert, find-assign}
use pdesmas_cloud.Interface.SendList.{add_to_send_list}
use pdesmas_cloud.Interface.SendList.Rollback.{remove_from_send_list-add}
use pdesmas_cloud.Interface.RollbackTagList.{check_rollback_tag_list}
use pdesmas_cloud.Lp.Alp.{Alp, AgentCall, call_agent, set_message_arrive_flag, start_afresh}
use pdesmas_cloud.Lp.Alp.Rollback.{cancel_all, carry_out, process_rollback, stop_and_take_back}
use pdesmas_cloud.Lp.Alp.Traffic.{prepare, awaits, hand_over, process_write_response}
use pdesmas_cloud.Lp.Alp.Undo.{find-assign_self, call_agent_lem}
use pdesmas_cloud.Lp.LogicalProcess.{LogicalProcess, stamp}
use pdesmas_cloud.Lp.MessageQueue.{shared_state, other}
use pdesmas_cloud.Messages.SharedStateMessage.{WriteMessage, write, identifier}
use pdesmas_cloud.Messages.LpMessage.{
  AbstractMessage, RollbackMessage, WriteResponseMessage, write_response,
}
use pdesmas_cloud.State.StateVariable.{write_failure}

start_afresh_awaits :
    (agent : ℕ) (a a' : Alp)
    → start_afresh agent a ≡ some a'
    → find agent a'.agent_response_message_id_map ≡ some 0
unfolding start_afresh call_agent
start_afresh_awaits agent a a' e =
    ground (arith, find-assign agent agent 0 a.agent_response_message_id_map)

same_flag :
    (a b : Alp) (x y : Bool) → ◌≡◌ {A = Option (Alp × Bool)} (some (a, x)) (some (b, y)) → x ≡ y
same_flag a b x y e = cc

carry_out_awaits :
    (m : RollbackMessage) (a a' : Alp) (done : Bool)
    → carry_out m a ≡ some (a', done)
    → done ≡ true
    → find m.original_agent.identifier a'.agent_response_message_id_map ≡ some 0
unfolding carry_out
carry_out_awaits m a a' done e carried =
    let agent = m.original_agent.identifier in
    let ((b, undone), eb, rest) =
      >>=-eq-some (stop_and_take_back m.original_agent m.simulation.timestamp a) _ e in
    elim (Bool-cases (cancel_all agent m.rollback_tag undone b).1) [
      | inl finished ↦
          let (c, ec, last) = >>=-eq-some _ _ (rw finished at rest) in
          let same : c ≡ a' = cc in
          subst (λ (s : Alp). find agent s.agent_response_message_id_map ≡ some 0) same
            (start_afresh_awaits agent _ c ec)
      | inr given_up ↦
          let not_done =
            same_flag (cancel_all agent m.rollback_tag undone b).0 a' false done
              (rw given_up at rest) in
          cc
    ]

process_rollback_awaits :
    (m : RollbackMessage) (a a' : Alp)
    → process_rollback m a ≡ some (a', true)
    → find m.original_agent.identifier a'.agent_response_message_id_map ≡ some 0
unfolding process_rollback
process_rollback_awaits m a a' e = ground (
  arith,
  carry_out_awaits m
      (record a {
        rollback_tag_list = (check_rollback_tag_list m.rollback_tag a.rollback_tag_list).0;
      })
      a' true,
)

-- A rollback that was carried out makes the ALP drop the response to whatever the agent waited for:
-- a response under an identifier other than 0 calls nothing on any agent and is not kept.
pub hand_over-process_rollback :
    (m : RollbackMessage) (a a' b : Alp) (id : ℕ) (response : AbstractMessage)
    → process_rollback m a ≡ some (a', true)
    → id ≢ 0
    → hand_over m.original_agent.identifier id response a' ≡ some b
    → (b.managed_agents ≡ a'.managed_agents)
      × (b.agent_response_map ≡ a'.agent_response_map)
      × (b.agent_lvt_map ≡ a'.agent_lvt_map)
unfolding hand_over awaits
hand_over-process_rollback m a a' b id response e real h =
    let awaited = process_rollback_awaits m a a' e in ground arith

hand_over_lem :
    (agent id : ℕ) (m : AbstractMessage) (a : Alp) (made : List AgentCall)
    → find agent a.agent_response_message_id_map ≡ some id
    → find agent a.managed_agents ≡ some made
    → hand_over agent id m a
      ≡ some (record a {
        agent_response_message_id_map = insert agent 0 a.agent_response_message_id_map;
        agent_response_map = assign agent (some m) a.agent_response_map;
        managed_agents = assign agent (made ++ set_message_arrive_flag ∷ []) a.managed_agents;
      })
unfolding hand_over awaits
hand_over_lem agent id m a made awaited managed =
    let same : id == id ≡ true = ground arith in
    rw (awaited, awaits, same) (call_agent_lem agent (set_message_arrive_flag ∷ []) made _ managed)

-- The state behind the sending of a write.
abbrev sending : WriteMessage → LogicalProcess → Alp → Alp
sending w lp a = record a {
  lp = lp;
  send_list = add_to_send_list (write w) a.send_list;
  agent_response_message_id_map =
      assign w.base.original_agent.identifier w.base.identifier a.agent_response_message_id_map;
}

process_write_response-sending :
    (w : WriteMessage) (r : WriteResponseMessage) (a : Alp) (lp : LogicalProcess)
    (made : List AgentCall)
    → All (λ n. identifier n ≢ w.base.identifier) a.send_list
    → find w.base.original_agent.identifier a.managed_agents ≡ some made
    → r.base.identifier ≡ w.base.identifier
    → r.base.original_agent ≡ w.base.original_agent
    → r.write_status ≡ write_failure
    → (c : Alp) × (process_write_response r (sending w lp a) ≡ some c)
      × (c.send_list ≡ a.send_list)
      × (find w.base.original_agent.identifier c.agent_response_map
          ≡ some (some (other (write_response r))))
unfolding process_write_response
process_write_response-sending w r a lp made fresh managed id agent failed =
    let ids = a.agent_response_message_id_map in
    let key = w.base.original_agent.identifier in
    (
      record (sending w lp a) {
        send_list = a.send_list;
        agent_response_message_id_map = insert key 0 (assign key w.base.identifier ids);
        agent_response_map = assign key (some (other (write_response r))) a.agent_response_map;
        managed_agents = assign key (made ++ set_message_arrive_flag ∷ []) a.managed_agents;
      },
      rw (failed, id, agent, remove_from_send_list-add (write w) a.send_list fresh)
          (hand_over_lem key w.base.identifier _
            (record (sending w lp a) { send_list = a.send_list }) made
            (find-assign_self key w.base.identifier ids) managed),
      refl,
      find-assign_self key (some (other (write_response r))) a.agent_response_map,
    )

-- The answer that a write failed, under the identifier of a request that was just sent and that no
-- other request on the send list has: the agent gets the answer, and the write leaves the send list
-- as it was before, so that no rollback sends an anti-message for it.
pub process_write_response-prepare :
    (w : WriteMessage) (r : WriteResponseMessage) (a b : Alp) (sent : AbstractMessage)
    (made : List AgentCall)
    → prepare (shared_state (write w)) a ≡ some (b, sent)
    → All (λ n. identifier n ≢ w.base.identifier) a.send_list
    → find w.base.original_agent.identifier a.managed_agents ≡ some made
    → r.base.identifier ≡ w.base.identifier
    → r.base.original_agent ≡ w.base.original_agent
    → r.write_status ≡ write_failure
    → (c : Alp) × (process_write_response r b ≡ some c)
      × (c.send_list ≡ a.send_list)
      × (find w.base.original_agent.identifier c.agent_response_map
          ≡ some (some (other (write_response r))))
unfolding prepare
process_write_response-prepare w r a b sent made e fresh managed id agent failed =
    let ((lp, stamped), es, last) = >>=-eq-some (stamp w.base.simulation a.lp) _ e in
    let same : sending w lp a ≡ b = cc in
    subst
      (λ (s : Alp).
        (c : Alp) × (process_write_response r s ≡ some c)
        × (c.send_list ≡ a.send_list)
        × (find w.base.original_agent.identifier c.agent_response_map
            ≡ some (some (other (write_response r)))))
      same (process_write_response-sending w r a lp made fresh managed id agent failed)
