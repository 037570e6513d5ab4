-- ===== src/Interface/AgentLvt/Bounds.antt =====
-- The LVT of an ALP against the times of its agents.
use pdesmas_cloud.Base.{
  ℕ, ◌-◌, ◌≤◌, ◌<◌, ◌≡◌, [], ◌∷◌, none, some, ltb, ◌==◌, if◌then◌else◌, ulong_max, arith, All, ◌↔◌,
}
use pdesmas_cloud.Base.NatMap.{NatMap, find, assign, find-assign, map_laws}
use pdesmas_cloud.Interface.AgentLvt.{
  AgentIdLvtMap, set_agent_lvt, set_agent_read_lvt, get_agent_lvt, rollback_agent_lvt, lvt_from,
  get_lvt,
}

-- No agent is before `g`.
abbrev pub AllFrom : ℕ → NatMap ℕ → Type 0
AllFrom g = All (λ e. g ≤ e.1)

pub lvt_from-glb : (g r : ℕ) (m : NatMap ℕ) → (g ≤ lvt_from r m) ↔ ((g ≤ r) × AllFrom g m)
unfolding lvt_from
lvt_from-glb g r [] = ground arith
lvt_from-glb g r ((a, u) ∷ m) = ground (arith, lvt_from-glb g (if ltb u r then u else r) m)

-- `GetLVT` is the greatest time up to ULONG_MAX that no agent is before.
pub get_lvt-AllFrom :
    (g : ℕ) (s : AgentIdLvtMap) → (g ≤ get_lvt s) ↔ ((g ≤ ulong_max) × AllFrom g s.agent_id_lvt_map)
unfolding get_lvt
get_lvt-AllFrom g s = lvt_from-glb g ulong_max s.agent_id_lvt_map

-- After a read is recorded the agent stands at the later one of its time and the read's, where it
-- was known, and at the read's time, where it was not; all other agents stay where they are.
pub get_agent_lvt-set_agent_read_lvt :
    (agent other t : ℕ) (s : AgentIdLvtMap)
    → get_agent_lvt other (set_agent_read_lvt agent t s) ≡ (
        if agent == other
        then elim (find agent s.agent_id_lvt_map) [ none ↦ t | some u ↦ if ltb u t then t else u ]
        else get_agent_lvt other s)
unfolding get_agent_lvt set_agent_read_lvt set_agent_lvt
get_agent_lvt-set_agent_read_lvt agent other t s = grind map_laws

pub assign-AllFrom : (g k v : ℕ) (m : NatMap ℕ) → g ≤ v → AllFrom g m → AllFrom g (assign k v m)
unfolding assign
assign-AllFrom g k v [] le h = (le, tt)
assign-AllFrom g k v ((j, w) ∷ m) le h = ground (arith, assign-AllFrom g k v m le)

-- A rollback that is carried out puts the agent one step before its time, leaves all other agents
-- where they are, and keeps the LVT of the ALP at or past every bound that is less than that time
-- and not past the LVT before.
pub get_lvt-rollback_agent_lvt :
    (agent t : ℕ) (s s' : AgentIdLvtMap)
    → rollback_agent_lvt agent t s ≡ some s'
    → ((other : ℕ)
        → get_agent_lvt other s' ≡ (if agent == other then t - 1 else get_agent_lvt other s))
      × ((g : ℕ) → g < t → g ≤ get_lvt s → g ≤ get_lvt s')
unfolding rollback_agent_lvt get_agent_lvt get_lvt
get_lvt-rollback_agent_lvt agent t s s' e =
    let map : assign agent (t - 1) s.agent_id_lvt_map ≡ s'.agent_id_lvt_map = ground arith in
    (
      λ other. rw (← map) (ground (arith, find-assign agent other (t - 1) s.agent_id_lvt_map)),
      λ g lt h. rw (← map) (
          ground (
            arith,
            lvt_from-glb g ulong_max s.agent_id_lvt_map,
            lvt_from-glb g ulong_max (assign agent (t - 1) s.agent_id_lvt_map),
            assign-AllFrom g agent (t - 1) s.agent_id_lvt_map,
          )),
    )
