-- ===== src/Lp/Clp/Reads.antt =====
-- Clp.cpp: the answer to a read.
use pdesmas_cloud.Base.{
  ℕ, ◌≡◌, refl, Option, none, some, ltb, if◌then◌else◌, arith, Option-cases, inl, inr, >>=-eq-some,
  ap, ◌∙◌, ◌>>=◌, ◌∷◌, ◌++◌,
}
use pdesmas_cloud.Base.NatMap.{find, find-assign}
use pdesmas_cloud.Lp.Clp.{Clp, count}
use pdesmas_cloud.Lp.Clp.Frame.{count_frame}
use pdesmas_cloud.Lp.Clp.Handlers.{process_single_read, respond_read, response_base}
use pdesmas_cloud.Lp.LogicalProcess.{send_simulation}
use pdesmas_cloud.Lp.LpId.{LpId}
use pdesmas_cloud.Lp.MessageQueue.{other}
use pdesmas_cloud.Messages.SharedStateMessage.{SingleReadMessage}
use pdesmas_cloud.Messages.LpMessage.{single_read_response, SingleReadResponseMessage}
use pdesmas_cloud.State.SharedState.{SharedState, History, count_access, set_history}
use pdesmas_cloud.State.SharedState
use pdesmas_cloud.State.SsvId.{SsvId}
use pdesmas_cloud.State.StateVariable.{Place, walk_back, read_without_record}
use pdesmas_cloud.State.WritePeriod
use pdesmas_cloud.Routing.Router.{get_direction_by_lp_rank}
use pdesmas_cloud.State.StateVariable
use pdesmas_cloud.State.StateVariable.Reads.{read-read_without_record}
use pdesmas_cloud.Types.Direction.{Direction}
use pdesmas_cloud.Types.Value.{AbstractValue}

-- What is read of a variable at a time: the end of the period, and the value.
abbrev pub reading : SsvId → ℕ → SharedState → Option (ℕ × Option AbstractValue)
reading ssv t s = elim (find ssv s.state_variable_map) [
  | none ↦ none
  | some h ↦ some (read_without_record t h)
]

-- The time at which a request is read.
abbrev pub read_time : SingleReadMessage → Clp → ℕ
read_time m c =
    if ltb m.base.simulation.timestamp c.lp.gvt then c.lp.gvt else m.base.simulation.timestamp

read-reading :
    (ssv k : SsvId) (agent : LpId) (t u : ℕ) (s s' : SharedState) (v : Option AbstractValue)
    → SharedState.read ssv agent t s ≡ some (s', v)
    → ((end : ℕ) × (reading ssv t s ≡ some (end, v))) × (reading k u s' ≡ reading k u s)
unfolding SharedState.read
read-reading ssv k agent t u s s' v e = elim (Option-cases (find ssv s.state_variable_map)) [
  | inl n ↦ ground arith
  | inr (h, there) ↦ elim (Option-cases (StateVariable.read agent t h)) [
    | inl n ↦ ground arith
    | inr ((h', w), r) ↦
        let (value, unchanged) = read-read_without_record agent t u h h' w r in
        let same : v ≡ w = ground arith in
        let kept : set_history ssv h' s ≡ s' = ground arith in
        (
          ((read_without_record t h).0, ground arith),
          rw (← kept) (ground (arith, find-assign ssv k h' s.state_variable_map)),
        )
  ]
]

count_access-reading :
    (ssv k : SsvId) (d : Direction) (hops u : ℕ) (s : SharedState)
    → reading k u (count_access ssv d hops s) ≡ reading k u s
unfolding count_access
count_access-reading ssv k d hops u s = refl

-- A read that is answered, and so does not end the process: the response goes to the back of the send
-- queue, addressed to the process of the agent, with the time and the identifier of the request and
-- the value that the variable has at that time, or at GVT if that is later; what can be read of any
-- variable at any time stays as it was.
pub process_single_read_answers :
    (m : SingleReadMessage) (k : SsvId) (u : ℕ) (c c' : Clp)
    → process_single_read m c ≡ some c'
    → (v : Option AbstractValue) × (end : ℕ) × (reading m.ssv_id (read_time m c) c.shared_state
        ≡ some (end, v))
      × (c'.lp
          ≡ send_simulation
              (other (
                single_read_response
                  (record { base = response_base c.lp.info.rank m.base; value = v })))
              c.lp)
      × (reading k u c'.shared_state ≡ reading k u c.shared_state)
unfolding process_single_read
process_single_read_answers m k u c c' e =
    let agent = m.base.original_agent in
    let ((s, v), er, rest) =
      >>=-eq-some (SharedState.read m.ssv_id agent (read_time m c) c.shared_state) _ e in
    let ((end, value), unchanged) =
      read-reading m.ssv_id k agent (read_time m c) u c.shared_state s v er in
    let answered =
      respond_read m c s (record { base = response_base c.lp.info.rank m.base; value = v }) in
    let (d, frame) = count_frame m.ssv_id agent m.base.number_of_hops answered c' rest in
    (
      v,
      end,
      value,
      ap (λ (x : Clp). x.lp) frame,
      ap (λ (x : Clp). reading k u x.shared_state) frame
          ∙ count_access-reading m.ssv_id k d m.base.number_of_hops u s
          ∙ unchanged,
    )

process_single_read-some :
    (m : SingleReadMessage) (c : Clp) (h : History) (p : Place AbstractValue) (d : Direction)
    → find m.ssv_id c.shared_state.state_variable_map ≡ some h
    → walk_back (read_time m c) h ≡ some p
    → get_direction_by_lp_rank m.base.original_agent.rank c.router ≡ some d
    → (c' : Clp) × (process_single_read m c ≡ some c')
unfolding process_single_read SharedState.read count StateVariable.read WritePeriod.read
process_single_read-some m c h p d there found way = (
  (let h' =
        p.before ++ (WritePeriod.read m.base.original_agent (read_time m c) p.period).0 ∷ p.after in
      let s = set_history m.ssv_id h' c.shared_state in
      let response : SingleReadResponseMessage = record {
        base = response_base c.lp.info.rank m.base;
        value = p.period.value;
      } in
      record (respond_read m c s response) {
        shared_state = count_access m.ssv_id d m.base.number_of_hops s;
      }),
  rw (process_single_read, SharedState.read, there, StateVariable.read, found, ◌>>=◌, count, way)
      refl,
)

reading-find :
    (ssv : SsvId) (t : ℕ) (s : SharedState) (h : History) (r : ℕ × Option AbstractValue)
    → find ssv s.state_variable_map ≡ some h
    → reading ssv t s ≡ some r
    → read_without_record t h ≡ r
reading-find ssv t s h r there e = ground arith

-- A CLP that has a variable with a period at the time of a read, or at GVT if that is later, and that
-- knows the way to the agent, does answer the read: with the value that the variable has then, to the
-- process of the agent, at the back of the send queue; what can be read of any variable at any time
-- stays as it was.
pub process_single_read_responds :
    (m : SingleReadMessage) (k : SsvId) (u : ℕ) (c : Clp) (h : History) (p : Place AbstractValue)
    (d : Direction)
    → find m.ssv_id c.shared_state.state_variable_map ≡ some h
    → walk_back (read_time m c) h ≡ some p
    → get_direction_by_lp_rank m.base.original_agent.rank c.router ≡ some d
    → (c' : Clp) × (process_single_read m c ≡ some c')
      × (c'.lp
          ≡ send_simulation
              (other (
                single_read_response (record {
                  base = response_base c.lp.info.rank m.base;
                  value = (read_without_record (read_time m c) h).1;
                })))
              c.lp)
      × (reading k u c'.shared_state ≡ reading k u c.shared_state)
process_single_read_responds m k u c h p d there found way =
    let (c', done) = process_single_read-some m c h p d there found way in
    let (v, end, value, sent, unchanged) = process_single_read_answers m k u c c' done in
    let seen : (read_without_record (read_time m c) h).1 ≡ v =
      ap (λ x. x.1) (reading-find m.ssv_id (read_time m c) c.shared_state h (end, v) there value) in
    (c', done, rw seen sent, unchanged)
