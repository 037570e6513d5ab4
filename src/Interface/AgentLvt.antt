-- ===== src/Interface/AgentLvt.antt =====
-- interface/HasIDLVTMap.{h,cpp}: the local virtual time (LVT) of each agent of an ALP. An agent's
-- identifier is the 64-bit pattern of the source's `long`.
pub mod Bounds
mod Tests
use pdesmas_cloud.Base.{
  ℕ, ◌+◌, ◌-◌, ◌%◌, ◌^◌, List, [], ◌∷◌, Option, none, some, Bool, true, false, ltb, leb, ◌==◌,
  if◌then◌else◌, ulong_max,
}
use pdesmas_cloud.Base.NatMap.{NatMap, find, assign}

pub record AgentIdLvtMap : Type 0 where
  pub last_agent_id : ℕ
  pub agent_id_lvt_map : NatMap ℕ

-- `SetAgentLVT`: a new agent, the same time, an earlier time (a warning), and a later time.
unfoldable pub set_agent_lvt : ℕ → ℕ → AgentIdLvtMap → AgentIdLvtMap
set_agent_lvt agent t s = elim (find agent s.agent_id_lvt_map) [
  | none ↦ record { last_agent_id = agent; agent_id_lvt_map = assign agent t s.agent_id_lvt_map }
  | some u ↦
      if t == u
      then record s { last_agent_id = agent }
      else if ltb t u
      then record s { last_agent_id = agent }
      else record { last_agent_id = agent; agent_id_lvt_map = assign agent t s.agent_id_lvt_map }
]

unfoldable pub set_agent_read_lvt : ℕ → ℕ → AgentIdLvtMap → AgentIdLvtMap
set_agent_read_lvt = set_agent_lvt

-- `pTime - 1` wraps at 0.
unfoldable pub set_agent_write_lvt : ℕ → ℕ → AgentIdLvtMap → AgentIdLvtMap
set_agent_write_lvt agent t = set_agent_lvt agent ((t + ulong_max) % 2 ^ 64)

unfoldable pub has_agent_id : ℕ → AgentIdLvtMap → Bool
has_agent_id agent s = elim (find agent s.agent_id_lvt_map) [ none ↦ false | some _ ↦ true ]

-- -1 as an unsigned long, where the agent is not known.
unfoldable pub get_agent_lvt : ℕ → AgentIdLvtMap → ℕ
get_agent_lvt agent s = elim (find agent s.agent_id_lvt_map) [ none ↦ ulong_max | some u ↦ u ]

-- `RollbackAgentLVT`. `none` is `exit(1)`: the agent is not known, or the time less one is negative
-- as a `long` (at 2^63 the subtraction overflows, and nothing is promised there).
unfoldable pub rollback_agent_lvt : ℕ → ℕ → AgentIdLvtMap → Option AgentIdLvtMap
rollback_agent_lvt agent t s = elim (find agent s.agent_id_lvt_map) [
  | none ↦ none
  | some u ↦
      if t == 0
      then none
      else if leb (2 ^ 63) t
      then none
      else some (record s { agent_id_lvt_map = assign agent (t - 1) s.agent_id_lvt_map })
]

-- The loop of `GetLVT` over the entries, with the result so far.
unfoldable pub lvt_from : ℕ → NatMap ℕ → ℕ
lvt_from result [] = result
lvt_from result ((agent, u) ∷ m) = lvt_from (if ltb u result then u else result) m

unfoldable pub get_lvt : AgentIdLvtMap → ℕ
get_lvt s = lvt_from ulong_max s.agent_id_lvt_map
