-- ===== src/Lp/Alp/Times.antt =====
-- Alp.cpp: the times of the agents against GVT, over whatever the ALP does.
use pdesmas_cloud.Base.{
  ℕ, ◌≤◌, ◌≡◌, List, [], ◌∷◌, Option, some, Bool, false, ltb, arith, Bool-cases, inl, inr,
  >>=-eq-some, subst,
}
use pdesmas_cloud.Base.NatMap.{NatMap}
use pdesmas_cloud.Interface.AgentLvt.Bounds.{AllFrom, assign-AllFrom}
use pdesmas_cloud.Interface.RollbackTagList.{check_rollback_tag_list}
use pdesmas_cloud.Lp.Alp.{
  Alp, call_agent, set_cancel_flag, start_afresh, set_agent_lvt, set_gvt, do_self_restart,
}
use pdesmas_cloud.Lp.Alp.Rollback.{
  cancel, cancel_all, stop_and_take_back, carry_out, process_rollback,
}
use pdesmas_cloud.Lp.Alp.Traffic.{send, hand_over}
use pdesmas_cloud.Lp.LpId.{LpId}
use pdesmas_cloud.Lp.LogicalProcess.{send_simulation}
use pdesmas_cloud.Lp.RollbackTag.{RollbackTag}
use pdesmas_cloud.Messages.SharedStateMessage.{AnySharedState, timestamp}
use pdesmas_cloud.Messages.LpMessage.{AbstractMessage, RollbackMessage}

-- No agent is before GVT.
abbrev pub IsTimely : Alp → Type 0
IsTimely a = AllFrom a.lp.gvt a.agent_lvt_map

-- The two parts of the state that this is about are the same.
abbrev SameTimes : Alp → Alp → Type 0
SameTimes a a' = (a'.agent_lvt_map ≡ a.agent_lvt_map) × (a'.lp.gvt ≡ a.lp.gvt)

start_afresh-SameTimes : (agent : ℕ) (a a' : Alp) → start_afresh agent a ≡ some a' → SameTimes a a'
unfolding start_afresh set_cancel_flag call_agent
start_afresh-SameTimes agent a a' e = ground arith

cancel-SameTimes : (tag : RollbackTag) (m : AnySharedState) (a : Alp) → SameTimes a (cancel tag m a)
unfolding cancel send_simulation
cancel-SameTimes tag m a = ground arith

cancel_all-IsTimely :
    (agent : ℕ) (tag : RollbackTag) (ms : List AnySharedState) (a : Alp)
    → IsTimely a
    → IsTimely (cancel_all agent tag ms a).0
unfolding cancel_all
cancel_all-IsTimely agent tag [] a h = h
cancel_all-IsTimely agent tag (m ∷ ms) a h = elim (Bool-cases (ltb (timestamp m) a.lp.gvt)) [
  | inl before ↦
      rw (before, cancel_all)
        (assign-AllFrom a.lp.gvt agent a.lp.gvt a.agent_lvt_map (omega arith) h)
  | inr late ↦
      let (l, g) = cancel-SameTimes tag m a in
      let h' : IsTimely (cancel tag m a) = rw (l, g) h in
      rw (late, cancel_all) (cancel_all-IsTimely agent tag ms (cancel tag m a) h')
]

stop_and_take_back-IsTimely :
    (agent : LpId) (t : ℕ) (a a' : Alp) (ms : List AnySharedState)
    → a.lp.gvt ≤ t
    → IsTimely a
    → stop_and_take_back agent t a ≡ some (a', ms)
    → IsTimely a'
unfolding stop_and_take_back set_cancel_flag call_agent
stop_and_take_back-IsTimely agent t a a' ms le h e =
    ground (arith, assign-AllFrom a.lp.gvt agent.identifier t a.agent_lvt_map le h)

carry_out-IsTimely :
    (m : RollbackMessage) (a a' : Alp) (done : Bool)
    → a.lp.gvt ≤ m.simulation.timestamp
    → IsTimely a
    → carry_out m a ≡ some (a', done)
    → IsTimely a'
unfolding carry_out
carry_out-IsTimely m a a' done le h e =
    let ((b, undone), eb, rest) = >>=-eq-some _ _ e in
    let hb =
      stop_and_take_back-IsTimely m.original_agent m.simulation.timestamp a b undone le h eb in
    let agent = m.original_agent.identifier in
    let hc = cancel_all-IsTimely agent m.rollback_tag undone b hb in
    elim (Bool-cases (cancel_all agent m.rollback_tag undone b).1) [
      | inl finished ↦
          let (c, ec, last) = >>=-eq-some _ _ (rw finished at rest) in
          let (l, g) = start_afresh-SameTimes agent _ c ec in
          let hc' : IsTimely c = rw (l, g) hc in let same : c ≡ a' = cc in subst IsTimely same hc'
      | inr given_up ↦
          let last : some ((cancel_all agent m.rollback_tag undone b).0, false) ≡ some (a', done) =
            rw given_up at rest in
          let same : (cancel_all agent m.rollback_tag undone b).0 ≡ a' = cc in
          subst IsTimely same hc
    ]

pub process_rollback-IsTimely :
    (m : RollbackMessage) (a a' : Alp) (done : Bool)
    → a.lp.gvt ≤ m.simulation.timestamp
    → IsTimely a
    → process_rollback m a ≡ some (a', done)
    → IsTimely a'
unfolding process_rollback
process_rollback-IsTimely m a a' done le h e = ground (
  arith,
  carry_out-IsTimely m
      (record a {
        rollback_tag_list = (check_rollback_tag_list m.rollback_tag a.rollback_tag_list).0;
      })
      a' done le h,
)

-- One step of an ALP between the start of its agents and the end: what the agents do through the
-- interface, the threads, and the messages. Rollbacks and GVT keep to what the GVT rounds promise.
pub data Step : Alp → Alp → Type 0 where
  sets_time : {a a' : Alp} (agent t : ℕ) → set_agent_lvt agent t a ≡ some a' → Step a a'
  sends : {a a' : Alp} (m : Option AbstractMessage) → send a ≡ some (a', m) → Step a a'
  takes_response :
      {a a' : Alp} (agent id : ℕ) (m : AbstractMessage)
      → hand_over agent id m a ≡ some a'
      → Step a a'
  rolls_back :
      {a a' : Alp} (m : RollbackMessage) (done : Bool)
      → a.lp.gvt ≤ m.simulation.timestamp
      → process_rollback m a ≡ some (a', done)
      → Step a a'
  restarts : {a a' : Alp} → do_self_restart a ≡ some a' → Step a a'
  takes_gvt : {a : Alp} (gvt : ℕ) → AllFrom gvt a.agent_lvt_map → Step a (set_gvt gvt a)

pub data Reachable (a : Alp) : Alp → Type 0 where
  started : Reachable a a
  stepped : {b c : Alp} → Reachable a b → Step b c → Reachable a c
