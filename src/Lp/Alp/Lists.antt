-- ===== src/Lp/Alp/Lists.antt =====
-- Alp.cpp: what each operation does to the send list and to the list of the rollbacks that were seen.
use pdesmas_cloud.Base.{
  ℕ, ◌≡◌, refl, List, [], ◌∷◌, ◌++◌, Option, some, Bool, true, false, arith, Bool-cases,
  Option-cases, ◌⊎◌, inl, inr, >>=-eq-some, subst, sym, ap, ◌∙◌,
}
use pdesmas_cloud.Interface.SendList.{rollback_send_list, add_to_send_list, remove_from_send_list}
use pdesmas_cloud.Interface.RollbackTagList.{check_rollback_tag_list}
use pdesmas_cloud.Lp.Alp.{
  Alp, AgentCall, call_agent, set_cancel_flag, start_afresh, set_agent_lvt, restart_agents,
  do_self_restart, add_agent, get_response_message,
}
use pdesmas_cloud.Lp.Alp.Rollback.{
  cancel, cancel_all, stop_and_take_back, carry_out, process_rollback,
}
use pdesmas_cloud.Lp.Alp.Traffic.{prepare, send, awaits, hand_over, process_write_response}
use pdesmas_cloud.Lp.LogicalProcess.{send_simulation, stamp, stamp_other, simulation_of}
use pdesmas_cloud.Lp.LpId.{LpId}
use pdesmas_cloud.Lp.MessageQueue.{dequeue_message, shared_state, other}
use pdesmas_cloud.Lp.RollbackTag.{RollbackTag}
use pdesmas_cloud.Messages.SharedStateMessage.{AnySharedState}
use pdesmas_cloud.Messages.LpMessage.{AbstractMessage, RollbackMessage, WriteResponseMessage}
use pdesmas_cloud.State.StateVariable.{write_failure}

-- The two lists.
abbrev pub SameLists : Alp → Alp → Type 0
SameLists a b = (b.send_list ≡ a.send_list) × (b.rollback_tag_list ≡ a.rollback_tag_list)

pub set_agent_lvt-SameLists :
    (agent t : ℕ) (a b : Alp) → set_agent_lvt agent t a ≡ some b → SameLists a b
unfolding set_agent_lvt
set_agent_lvt-SameLists agent t a b e = ground arith

call_agent-SameLists :
    (agent : ℕ) (calls : List AgentCall) (a b : Alp)
    → call_agent agent calls a ≡ some b
    → SameLists a b
unfolding call_agent
call_agent-SameLists agent calls a b e = ground arith

pub hand_over-SameLists :
    (agent id : ℕ) (m : AbstractMessage) (a b : Alp)
    → hand_over agent id m a ≡ some b
    → SameLists a b
unfolding hand_over awaits call_agent
hand_over-SameLists agent id m a b e = ground arith

start_afresh-SameLists : (agent : ℕ) (a b : Alp) → start_afresh agent a ≡ some b → SameLists a b
unfolding start_afresh set_cancel_flag call_agent
start_afresh-SameLists agent a b e = ground arith

restart_agents-SameLists :
    (agents : List ℕ) (a c : Alp) → restart_agents agents a ≡ some c → SameLists a c
unfolding restart_agents
restart_agents-SameLists [] a c e = ground arith
restart_agents-SameLists (agent ∷ agents) a d e =
    let (b, eb, rest) = >>=-eq-some _ _ e in
    let (c, ec, last) = >>=-eq-some _ _ rest in
    ground (
      arith,
      call_agent-SameLists _ _ a b eb,
      start_afresh-SameLists agent b c ec,
      restart_agents-SameLists agents c d last,
    )

pub do_self_restart-SameLists : (a c : Alp) → do_self_restart a ≡ some c → SameLists a c
unfolding do_self_restart
do_self_restart-SameLists a c e = elim (Bool-cases a.restart_p) [
  | inl busy ↦ ground arith
  | inr free ↦
      let (b, eb, last) = >>=-eq-some _ _ (rw (do_self_restart, free) at e) in
      ground (arith, restart_agents-SameLists a.restart_map (record a { restart_p = true }) b eb)
]

cancel_all-SameLists :
    (agent : ℕ) (tag : RollbackTag) (ms : List AnySharedState) (a : Alp)
    → SameLists a (cancel_all agent tag ms a).0
unfolding cancel_all cancel send_simulation
cancel_all-SameLists agent tag [] a = (refl, refl)
cancel_all-SameLists agent tag (m ∷ ms) a =
    ground (arith, cancel_all-SameLists agent tag ms (cancel tag m a))

stop_and_take_back-lists :
    (agent : LpId) (t : ℕ) (a b : Alp) (undone : List AnySharedState)
    → stop_and_take_back agent t a ≡ some (b, undone)
    → (b.send_list ≡ (rollback_send_list t agent a.send_list).0)
      × (b.rollback_tag_list ≡ a.rollback_tag_list)
unfolding stop_and_take_back set_cancel_flag call_agent
stop_and_take_back-lists agent t a b undone e = ground arith

carry_out-lists :
    (m : RollbackMessage) (a d : Alp) (done : Bool)
    → carry_out m a ≡ some (d, done)
    → (d.send_list ≡ (rollback_send_list m.simulation.timestamp m.original_agent a.send_list).0)
      × (d.rollback_tag_list ≡ a.rollback_tag_list)
unfolding carry_out
carry_out-lists m a d done e =
    let t = m.simulation.timestamp in
    let ((b, undone), eb, rest) = >>=-eq-some (stop_and_take_back m.original_agent t a) _ e in
    let (list, tags) = stop_and_take_back-lists m.original_agent t a b undone eb in
    let agent = m.original_agent.identifier in
    let (list', tags') = cancel_all-SameLists agent m.rollback_tag undone b in
    let after = (cancel_all agent m.rollback_tag undone b).0 in
    elim (Bool-cases (cancel_all agent m.rollback_tag undone b).1) [
      | inl finished ↦
          let (c, ec, last) =
            >>=-eq-some (start_afresh agent after) (λ a'. some (a', true)) (rw finished at rest) in
          let (list'', tags'') = start_afresh-SameLists agent after c ec in
          let same : c ≡ d = cc in
          (
            ap (λ (x : Alp). x.send_list) (sym same) ∙ list'' ∙ list' ∙ list,
            ap (λ (x : Alp). x.rollback_tag_list) (sym same) ∙ tags'' ∙ tags' ∙ tags,
          )
      | inr given_up ↦
          let last : some (after, false) ≡ some (d, done) = rw given_up at rest in
          let same : after ≡ d = cc in
          (
            ap (λ (x : Alp). x.send_list) (sym same) ∙ list' ∙ list,
            ap (λ (x : Alp). x.rollback_tag_list) (sym same) ∙ tags' ∙ tags,
          )
    ]

-- A rollback leaves the send list, or takes off what it undoes; its tag is checked.
pub process_rollback-lists :
    (m : RollbackMessage) (a b : Alp) (done : Bool)
    → process_rollback m a ≡ some (b, done)
    → ((b.send_list ≡ a.send_list)
        ⊎ (b.send_list
            ≡ (rollback_send_list m.simulation.timestamp m.original_agent a.send_list).0))
      × (b.rollback_tag_list ≡ (check_rollback_tag_list m.rollback_tag a.rollback_tag_list).0)
unfolding process_rollback
process_rollback-lists m a b done e = ground (
  arith,
  carry_out-lists m
      (record a {
        rollback_tag_list = (check_rollback_tag_list m.rollback_tag a.rollback_tag_list).0;
      })
      b done,
)

pub add_agent-SameLists : (agent : ℕ) (a : Alp) → SameLists a (add_agent agent a).0
unfolding add_agent
add_agent-SameLists agent a = ground arith

pub get_response_message-SameLists :
    (agent : ℕ) (m : Option AbstractMessage) (a b : Alp)
    → get_response_message agent a ≡ some (b, m)
    → SameLists a b
unfolding get_response_message call_agent
get_response_message-SameLists agent m a b e = ground arith

-- A request goes to the end of the send list on its way out.
prepare-lists :
    (m sent : AbstractMessage) (a b : Alp)
    → prepare m a ≡ some (b, sent)
    → ((b.send_list ≡ a.send_list) ⊎ ((n : AnySharedState) × (b.send_list ≡ a.send_list ++ n ∷ [])))
      × (b.rollback_tag_list ≡ a.rollback_tag_list)
unfolding prepare add_to_send_list
prepare-lists (shared_state n) sent a b e =
    let ((lp, stamped), es, last) = >>=-eq-some (stamp (simulation_of n) a.lp) _ e in
    (inr (n, ground arith), ground arith)
prepare-lists (other m) sent a b e =
    let ((lp, stamped), es, last) = >>=-eq-some (stamp_other m a.lp) _ e in
    (inl (ground arith), ground arith)

pub send-lists :
    (sent : Option AbstractMessage) (a b : Alp)
    → send a ≡ some (b, sent)
    → ((b.send_list ≡ a.send_list) ⊎ ((n : AnySharedState) × (b.send_list ≡ a.send_list ++ n ∷ [])))
      × (b.rollback_tag_list ≡ a.rollback_tag_list)
unfolding send
send-lists sent a b e = elim (Option-cases (dequeue_message a.lp.send_control_message_queue)) [
  | inr ((q, m), there) ↦ let last = rw (send, there) at e in (inl (ground arith), ground arith)
  | inl none_there ↦ elim (Option-cases (dequeue_message a.lp.send_message_queue)) [
    | inl nothing_there ↦
        let last = rw (send, none_there, nothing_there) at e in (inl (ground arith), ground arith)
    | inr ((q, m), there) ↦
        let rest = record a { lp = record a.lp { send_message_queue = q } } in
        let ((c, out), ec, last) =
          >>=-eq-some (prepare m rest) (λ x. some (x.0, some x.1))
            (rw (send, none_there, there) at e) in
        let same : c ≡ b = cc in
        subst
          (λ (x : Alp).
            ((x.send_list ≡ a.send_list)
              ⊎ ((n : AnySharedState) × (x.send_list ≡ a.send_list ++ n ∷ [])))
            × (x.rollback_tag_list ≡ a.rollback_tag_list))
          same (prepare-lists m out rest c ec)
  ]
]

-- A write that failed is taken off by its identifier.
pub process_write_response-lists :
    (r : WriteResponseMessage) (a b : Alp)
    → process_write_response r a ≡ some b
    → ((b.send_list ≡ a.send_list)
        ⊎ ((r.write_status ≡ write_failure)
            × (b.send_list ≡ (remove_from_send_list r.base.identifier a.send_list).0)))
      × (b.rollback_tag_list ≡ a.rollback_tag_list)
unfolding process_write_response hand_over awaits call_agent
process_write_response-lists r a b e = ground arith
