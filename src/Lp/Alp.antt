-- ===== src/Lp/Alp.antt =====
-- lp/Alp.{h,cpp}: an agent logical process, which sends the requests of its agents, hands them the
-- responses, and rolls them back. An agent thread is known by the calls that the ALP has made of it,
-- oldest first. `none` is `exit(1)`, a failed assertion, or a call on a null pointer. Logging, the
-- mutexes and the start of the MPI threads are not state here.
pub mod Rollback
pub mod Traffic
pub mod Start
pub mod Undo
pub mod Responses
pub mod Times
pub mod Events
pub mod Lists
pub mod Kept
pub mod Requests
mod Tests
use pdesmas_cloud.Base.{
  ℕ, List, [], ◌∷◌, ◌++◌, Option, none, some, Bool, true, false, leb, ltb, ◌==◌, if◌then◌else◌,
  ◌>>=◌, ulong_max,
}
use pdesmas_cloud.Base.NatMap.{NatMap, find, assign, insert}
use pdesmas_cloud.Interface.IdentifierHandler.{IdentifierHandler, get_next_id}
use pdesmas_cloud.Interface.AgentLvt.{lvt_from}
use pdesmas_cloud.Interface.SendList.{clear_send_list}
use pdesmas_cloud.Interface.RollbackTagList.{clear_rollback_tag_list}
use pdesmas_cloud.Lp.LogicalProcess.{LogicalProcess, send_control}
use pdesmas_cloud.Lp.MessageQueue.{other}
use pdesmas_cloud.Lp.RollbackTag.{RollbackTag}
use pdesmas_cloud.Messages.SharedStateMessage.{AnySharedState}
use pdesmas_cloud.Messages.LpMessage.{AbstractMessage, end_message}

pub data AgentCall : Type 0 where
  attach_alp start abort join restart set_message_arrive_flag reset_message_arrive_flag : AgentCall

pub record Alp : Type 0 where
  pub lp : LogicalProcess
  pub parent_clp : ℕ
  pub message_id_handler : IdentifierHandler
  pub managed_agents : NatMap (List AgentCall)
  pub agent_lvt_map : NatMap ℕ
  pub agent_lvt_history_map : NatMap (List ℕ)
  pub agent_cancel_flag_map : NatMap Bool
  pub agent_response_map : NatMap (Option AbstractMessage)
  pub agent_response_message_id_map : NatMap ℕ
  pub send_list : List AnySharedState
  pub rollback_tag_list : List RollbackTag
  pub restart_map : List ℕ
  pub restart_p : Bool

-- Calls on `managed_agents_[agent_id]`.
unfoldable pub call_agent : ℕ → List AgentCall → Alp → Option Alp
call_agent agent calls a = elim (find agent a.managed_agents) [
  | none ↦ none
  | some made ↦ some (record a { managed_agents = assign agent (made ++ calls) a.managed_agents })
]

unfoldable pub add_agent : ℕ → Alp → Alp × Bool
add_agent agent a = elim (find agent a.managed_agents) [
  | some _ ↦ (a, false)
  | none ↦ (
    record a {
      managed_agents = assign agent (attach_alp ∷ []) a.managed_agents;
      agent_lvt_map = assign agent 0 a.agent_lvt_map;
      agent_lvt_history_map = assign agent (0 ∷ []) a.agent_lvt_history_map;
      agent_cancel_flag_map = assign agent false a.agent_cancel_flag_map;
    },
    true,
  )
]

unfoldable pub set_cancel_flag : ℕ → Bool → Alp → Alp
set_cancel_flag agent flag a = record a {
  agent_cancel_flag_map = assign agent flag a.agent_cancel_flag_map;
}

-- `operator[]` enters `false` for an agent that is not there.
unfoldable pub get_cancel_flag : ℕ → Alp → Alp × Bool
get_cancel_flag agent a = (
  record a { agent_cancel_flag_map = insert agent false a.agent_cancel_flag_map },
  elim (find agent a.agent_cancel_flag_map) [ none ↦ false | some flag ↦ flag ],
)

unfoldable pub has_agent : ℕ → Alp → Bool
has_agent agent a = elim (find agent a.agent_lvt_map) [ none ↦ false | some _ ↦ true ]

unfoldable pub get_agent_lvt : ℕ → Alp → Option ℕ
get_agent_lvt agent a = find agent a.agent_lvt_map

-- The result of the source is always `false`.
unfoldable pub set_agent_lvt : ℕ → ℕ → Alp → Option Alp
set_agent_lvt agent lvt a = do
  old ← find agent a.agent_lvt_map
  history ← find agent a.agent_lvt_history_map
  some (
      if leb old lvt
      then record a {
        agent_lvt_map = assign agent lvt a.agent_lvt_map;
        agent_lvt_history_map = assign agent (history ++ lvt ∷ []) a.agent_lvt_history_map;
      }
      else a)

unfoldable pub get_lvt : Alp → Option ℕ
get_lvt a =
    let least = lvt_from ulong_max a.agent_lvt_map in
    if least == ulong_max then none else some least

unfoldable pub set_gvt : ℕ → Alp → Alp
set_gvt gvt a = record a {
  lp = record a.lp { gvt = gvt };
  send_list = clear_send_list gvt a.send_list;
  rollback_tag_list = clear_rollback_tag_list gvt a.rollback_tag_list;
}

unfoldable pub get_new_message_id : Alp → Alp × ℕ
get_new_message_id a =
    let (h, id) = get_next_id a.message_id_handler in (record a { message_id_handler = h }, id)

-- Without a response the agent is stopped and started again; the result is then null.
unfoldable pub get_response_message : ℕ → Alp → Option (Alp × Option AbstractMessage)
get_response_message agent a = elim (find agent a.agent_response_map) [
  | some m ↦ some (a, m)
  | none ↦ do
    a' ← call_agent agent (abort ∷ join ∷ reset_message_arrive_flag ∷ restart ∷ []) a
    some (a', none)
]

-- The loops over `managed_agents_`.
unfoldable pub call_all : AgentCall → NatMap (List AgentCall) → NatMap (List AgentCall)
call_all call [] = []
call_all call ((agent, made) ∷ m) = (agent, made ++ call ∷ []) ∷ call_all call m

unfoldable pub start_all_agents : Alp → Alp
start_all_agents a = record a { managed_agents = call_all start a.managed_agents }

unfoldable pub send_end_message : Alp → Alp
send_end_message a = record a {
  lp =
      send_control
        (other (
          end_message (record {
            origin = a.lp.info.rank;
            destination = a.parent_clp;
            sender_alp = a.lp.info.rank;
          })))
        a.lp;
}

-- `Finalise` up to the end of the MPI threads.
unfoldable pub finalise : Alp → Alp
finalise a = send_end_message (record a { managed_agents = call_all abort a.managed_agents })

-- `restart_map_` is an ordered set.
unfoldable pub insert_agent : ℕ → List ℕ → List ℕ
insert_agent agent [] = agent ∷ []
insert_agent agent (x ∷ xs) =
    let rest = insert_agent agent xs in
    if agent == x then x ∷ xs else if ltb agent x then agent ∷ x ∷ xs else x ∷ rest

unfoldable pub trigger_self_restart : ℕ → Alp → Alp
trigger_self_restart agent a = record a { restart_map = insert_agent agent a.restart_map }

-- The end of a rollback and of a restart: the agent waits for nothing and starts again.
unfoldable pub start_afresh : ℕ → Alp → Option Alp
start_afresh agent a = call_agent agent (restart ∷ []) (record (set_cancel_flag agent false a) {
  agent_response_map = assign agent none a.agent_response_map;
  agent_response_message_id_map = assign agent 0 a.agent_response_message_id_map;
})

-- The loop of `doSelfRestart`.
unfoldable pub restart_agents : List ℕ → Alp → Option Alp
restart_agents [] a = some a
restart_agents (agent ∷ agents) a = do
  a' ← call_agent agent (abort ∷ reset_message_arrive_flag ∷ join ∷ []) a
  a'' ← start_afresh agent a'
  restart_agents agents a''

unfoldable pub do_self_restart : Alp → Option Alp
do_self_restart a = if a.restart_p then some a else (do
  a' ← restart_agents a.restart_map (record a { restart_p = true })
  some (record a' { restart_map = []; restart_p = false }))
