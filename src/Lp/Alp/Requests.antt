-- ===== src/Lp/Alp/Requests.antt =====
-- Alp.cpp: a request that was sent and the rollback that undoes it, and a rollback to before GVT.
use pdesmas_cloud.Base.{
  ℕ, ◌≤◌, ◌<◌, ◌≡◌, refl, List, [], ◌∷◌, ◌++◌, some, Bool, true, false, leb, ltb, ◌>>=◌, ulong_max,
  arith, Any, keep, map, Bool-cases, inl, inr, >>=-eq-some, ap, sym, ◌∙◌,
}
use mathlib.Core.List.{append_assoc}
use pdesmas_cloud.Base.NatMap.{find, assign}
use pdesmas_cloud.Interface.SendList.{is_undone, add_to_send_list}
use pdesmas_cloud.Interface.RollbackTagList.{has_tag, has_tag-check, check_rollback_tag_list}
use pdesmas_cloud.Lp.Alp.{Alp, AgentCall}
use pdesmas_cloud.Lp.Alp.Events.{Run}
use pdesmas_cloud.Lp.Alp.Kept.{Holds, Holds-last, Spares, Run-Holds, Remembers, Run-has_tag}
use pdesmas_cloud.Lp.Alp.Lists.{process_rollback-lists}
use pdesmas_cloud.Lp.Alp.Rollback.{
  anti_message, is_cancelled, cancel, cancel_all, carry_out, process_rollback,
}
use pdesmas_cloud.Lp.Alp.Traffic.{prepare}
use pdesmas_cloud.Lp.Alp.Undo.{
  process_rollback_undoes, stopped, stopping, stop_and_take_back_lem, find-assign_self,
}
use pdesmas_cloud.Lp.LogicalProcess.{stamp, simulation_of, send_simulation}
use pdesmas_cloud.Lp.MessageQueue.{shared_state, remove_messages}
use pdesmas_cloud.Lp.RollbackTag.{RollbackTag}
use pdesmas_cloud.Messages.SharedStateMessage.{AnySharedState, timestamp}
use pdesmas_cloud.Messages.LpMessage.{AbstractMessage, RollbackMessage}

-- What a test keeps of a list with an element that it holds of, around that element.
keep-Holds :
    (p : AnySharedState → Bool) (n : AnySharedState) (ms : List AnySharedState)
    → Holds n ms
    → p n ≡ true
    → Holds n (keep p ms)
keep-Holds p n [] h e = absurd h.lower
keep-Holds p n (m ∷ ms) (inl same) e = let ok : p m ≡ true = rw same e in rw ok (inl same)
keep-Holds p n (m ∷ ms) (inr h) e = elim (Bool-cases (p m)) [
  | inl ok ↦ rw ok (inr (keep-Holds p n ms h e))
  | inr no_more ↦ rw no_more (keep-Holds p n ms h e)
]

map-Holds :
    (f : AnySharedState → AbstractMessage) (n : AnySharedState) (ms : List AnySharedState)
    → Holds n ms
    → (q : List AbstractMessage) × (q' : List AbstractMessage) × (map f ms ≡ q ++ f n ∷ q')
map-Holds f n [] h = absurd h.lower
map-Holds f n (m ∷ ms) (inl same) = ([], map f ms, ap (λ x. f x ∷ map f ms) same)
map-Holds f n (m ∷ ms) (inr h) =
    let (q, q', e) = map-Holds f n ms h in (f m ∷ q, q', ap (◌∷◌ (f m)) e)

prepare-send_list :
    (n : AnySharedState) (a b : Alp) (sent : AbstractMessage)
    → prepare (shared_state n) a ≡ some (b, sent)
    → b.send_list ≡ a.send_list ++ n ∷ []
unfolding prepare add_to_send_list
prepare-send_list n a b sent e =
    let ((lp, stamped), es, last) = >>=-eq-some (stamp (simulation_of n) a.lp) _ e in ground arith

-- A request that `Send` has handed to MPI is cancelled by the next rollback that undoes it. Whatever
-- happens in between, but for a rollback that undoes the request, the answer that a write with its
-- identifier failed, and a GVT behind its time: then a rollback that undoes the request, where the ALP
-- has the agent, its tag is new, the LVT is past its time, and GVT is not, is carried out and leaves
-- the anti-message of that request in the send queue (a read of variable 0 has none).
pub process_rollback-prepare :
    (n : AnySharedState) (m : RollbackMessage) (a s b : Alp) (sent : AbstractMessage) (lvt : ℕ)
    (made : List AgentCall)
    → prepare (shared_state n) a ≡ some (s, sent)
    → Run (Spares n) s b
    → is_undone m.simulation.timestamp m.original_agent n ≡ true
    → is_cancelled n ≡ true
    → find m.original_agent.identifier b.managed_agents ≡ some made
    → find m.original_agent.identifier b.agent_lvt_map ≡ some lvt
    → has_tag m.rollback_tag b.rollback_tag_list ≡ false
    → m.simulation.timestamp < lvt
    → lvt ≤ ulong_max
    → b.lp.gvt ≤ m.simulation.timestamp
    → (c : Alp) × (q : List AbstractMessage) × (q' : List AbstractMessage) × (process_rollback m b
        ≡ some (c, true))
      × (c.lp.send_message_queue
          ≡ q ++ anti_message b.lp.info.rank b.parent_clp m.rollback_tag n ∷ q')
process_rollback-prepare n m a s b sent lvt made e run undone cancels managed there new back small
      gvt =
    let t = m.simulation.timestamp in
    let p = is_undone t m.original_agent in
    let f = anti_message b.lp.info.rank b.parent_clp m.rollback_tag in
    let (c, r, _, queue, _, _, _, _) =
      process_rollback_undoes m b lvt made managed there new back small gvt in
    let listed : Holds n s.send_list =
      rw (prepare-send_list n a s sent e) (Holds-last n a.send_list) in
    let held =
      keep-Holds is_cancelled n (keep p b.send_list)
        (keep-Holds p n b.send_list (Run-Holds n s b run listed) undone) cancels in
    let (q, q', place) = map-Holds f n (keep is_cancelled (keep p b.send_list)) held in
    let rest = remove_messages m.original_agent t b.lp.send_message_queue in
    (c, rest ++ q, q', r, queue ∙ ap (λ l. rest ++ l) place ∙ sym (append_assoc rest q (f n ∷ q')))

-- Some message on the list is before GVT.
cancel_all-false :
    (agent : ℕ) (tag : RollbackTag) (ms : List AnySharedState) (a : Alp)
    → Any (λ m. timestamp m < a.lp.gvt) ms
    → ((cancel_all agent tag ms a).1 ≡ false)
      × ((cancel_all agent tag ms a).0.agent_lvt_map ≡ assign agent a.lp.gvt a.agent_lvt_map)
      × ((cancel_all agent tag ms a).0.agent_cancel_flag_map ≡ a.agent_cancel_flag_map)
      × ((cancel_all agent tag ms a).0.managed_agents ≡ a.managed_agents)
unfolding cancel_all cancel send_simulation
cancel_all-false agent tag [] a some_before = ground arith
cancel_all-false agent tag (m ∷ ms) a some_before = elim (Bool-cases (ltb (timestamp m) a.lp.gvt)) [
  | inl before ↦ rw (before, cancel_all) (refl, refl, refl, refl)
  | inr late ↦
      rw (late, cancel_all) (ground (arith, cancel_all-false agent tag ms (cancel tag m a)))
]

-- The outcome of a rollback that gives up.
abbrev GivenUp : RollbackMessage → List AgentCall → Alp → Alp → Type 0
GivenUp m made a a' =
    (find m.original_agent.identifier a'.agent_lvt_map ≡ some a.lp.gvt)
    × (find m.original_agent.identifier a'.agent_cancel_flag_map ≡ some true)
    × (find m.original_agent.identifier a'.managed_agents ≡ some (stopping made))

carry_out-before_gvt :
    (m : RollbackMessage) (a : Alp) (made : List AgentCall)
    → find m.original_agent.identifier a.managed_agents ≡ some made
    → Any
        (λ n. timestamp n < a.lp.gvt)
        (keep (is_undone m.simulation.timestamp m.original_agent) a.send_list)
    → (a' : Alp) × (carry_out m a ≡ some (a', false)) × GivenUp m made a a'
unfolding carry_out
carry_out-before_gvt m a made managed early =
    let agent = m.original_agent in
    let ms = keep (is_undone m.simulation.timestamp agent) a.send_list in
    let after = stopped m made a in
    let (given, times, flags, agents) =
      cancel_all-false agent.identifier m.rollback_tag ms after early in
    (
      (cancel_all agent.identifier m.rollback_tag ms after).0,
      rw (stop_and_take_back_lem m made a managed, ◌>>=◌, given) refl,
      (
        rw times (find-assign_self agent.identifier a.lp.gvt after.agent_lvt_map),
        rw flags (find-assign_self agent.identifier true a.agent_cancel_flag_map),
        rw agents (find-assign_self agent.identifier (stopping made) a.managed_agents),
      ),
    )

-- A rollback that would undo a request from before GVT, of an agent that the ALP has, whose LVT is
-- past it and whose tag is new, gives up: the agent stands at GVT, its cancel flag stays up, and its
-- thread has been stopped and is not started again.
pub process_rollback-before_gvt :
    (m : RollbackMessage) (a : Alp) (lvt : ℕ) (made : List AgentCall)
    → find m.original_agent.identifier a.managed_agents ≡ some made
    → find m.original_agent.identifier a.agent_lvt_map ≡ some lvt
    → has_tag m.rollback_tag a.rollback_tag_list ≡ false
    → m.simulation.timestamp < lvt
    → lvt ≤ ulong_max
    → Any
        (λ n. timestamp n < a.lp.gvt)
        (keep (is_undone m.simulation.timestamp m.original_agent) a.send_list)
    → (a' : Alp) × (process_rollback m a ≡ some (a', false))
      × (find m.original_agent.identifier a'.agent_lvt_map ≡ some a.lp.gvt)
      × (find m.original_agent.identifier a'.agent_cancel_flag_map ≡ some true)
      × (find m.original_agent.identifier a'.managed_agents ≡ some (stopping made))
unfolding process_rollback check_rollback_tag_list
process_rollback-before_gvt m a lvt made managed there new back small early =
    let checked : Alp = record a {
      rollback_tag_list = a.rollback_tag_list ++ m.rollback_tag ∷ [];
    } in
    let before : leb lvt m.simulation.timestamp ≡ false = ground arith in
    let fits : ltb m.simulation.timestamp ulong_max ≡ true = ground arith in
    let (a', e, (t, flag, calls)) = carry_out-before_gvt m checked made managed early in
    (a', rw (there, ◌>>=◌, new, before, fits) e, t, flag, calls)

-- A rollback message that comes once more is ignored: once `ProcessRollback` has returned, whatever it
-- did, and whatever happened since but for a GVT behind the time of the tag, the same message changes
-- nothing of the ALP, which has the agent.
pub process_rollback-again :
    (m : RollbackMessage) (a s b : Alp) (done : Bool) (lvt : ℕ)
    → process_rollback m a ≡ some (s, done)
    → Run (Remembers m.rollback_tag) s b
    → find m.original_agent.identifier b.agent_lvt_map ≡ some lvt
    → process_rollback m b ≡ some (b, false)
unfolding process_rollback check_rollback_tag_list
process_rollback-again m a s b done lvt e run there =
    let listed : has_tag m.rollback_tag s.rollback_tag_list ≡ true =
      rw (process_rollback-lists m a s done e).1
        (has_tag-check m.rollback_tag a.rollback_tag_list) in
    let known = Run-has_tag m.rollback_tag s b run listed in
    rw (process_rollback, there, ◌>>=◌, check_rollback_tag_list, known) refl
