-- ===== src/Lp/AccessCostCalculator/Tests.antt =====
-- A run of AccessCostCalculator.cpp, and the theorems on it.
use pdesmas_cloud.Base.{◌≡◌, [], ◌∷◌, true, false, arith}
use pdesmas_cloud.Base.NatMap.{find}
use pdesmas_cloud.Types.Direction.{left, port}
use pdesmas_cloud.Lp.AccessCostCalculator.{
  AccessCostCalculator, count_in, get_access_count, get_hop_count, access_cost, port_access_cost,
  migrates, has_ssv, get_migration_map,
}
use pdesmas_cloud.Lp.AccessCostCalculator.Migration.{
  is_sent, IsCounted, get_migration_map-is_sent, get_migration_map_unique,
}

-- Variable 10 is used nine times from the left, three hops away.
abbrev busy : AccessCostCalculator
busy = record {
  is_parent_clp = false;
  port_threshold = 4;
  lp_threshold = 4;
  clp_load = 0;
  ssv_list = 10 ∷ [];
  ssv_port_access_map = (10, (1, 0) ∷ (2, 9) ∷ (3, 1) ∷ []) ∷ [];
  ssv_port_hop_map = (10, (1, 0) ∷ (2, 3) ∷ (3, 1) ∷ []) ∷ [];
}

get_migration_map-is_sent_example : is_sent left 10 (get_migration_map busy).1 ≡ true
unfolding port has_ssv migrates port_access_cost access_cost get_access_count get_hop_count count_in
    find
get_migration_map-is_sent_example = get_migration_map-is_sent busy 10 left

busy-IsCounted : IsCounted busy 10
unfolding get_access_count count_in find port
busy-IsCounted = omega arith

get_migration_map_unique_example : port left ≡ port left
get_migration_map_unique_example =
    get_migration_map_unique busy 10 left left busy-IsCounted get_migration_map-is_sent_example
      get_migration_map-is_sent_example
