-- ===== src/Interface/AgentLvt/Tests.antt =====
-- A run of HasIDLVTMap.cpp, and a theorem on it.
use pdesmas_cloud.Base.{◌≤◌, ◌≡◌, ◌↔◌, refl, [], ◌∷◌, some, ulong_max}
use pdesmas_cloud.Base.NatMap.{find, assign}
use pdesmas_cloud.Interface.AgentLvt.{AgentIdLvtMap, rollback_agent_lvt, get_lvt}
use pdesmas_cloud.Interface.AgentLvt.Bounds.{AllFrom, get_lvt-AllFrom}

abbrev two_agents : AgentIdLvtMap
two_agents = record { last_agent_id = 1; agent_id_lvt_map = (1, 9) ∷ (2, 4) ∷ [] }

abbrev rolled_back : AgentIdLvtMap
rolled_back = record { last_agent_id = 1; agent_id_lvt_map = (1, 5) ∷ (2, 4) ∷ [] }

get_lvt-AllFrom_example :
    (4 ≤ get_lvt two_agents) ↔ ((4 ≤ ulong_max) × AllFrom 4 two_agents.agent_id_lvt_map)
get_lvt-AllFrom_example = get_lvt-AllFrom 4 two_agents

roll_back_to_6 : rollback_agent_lvt 1 6 two_agents ≡ some rolled_back
unfolding rollback_agent_lvt find assign
roll_back_to_6 = refl
