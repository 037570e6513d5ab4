-- ===== src/Routing/RouteTable/Tests.antt =====
-- RouteTable.cpp on a tree of seven CLPs with two ALPs at each leaf.
use pdesmas_cloud.Base.{ℕ, ◌≡◌, refl, some, [], ◌∷◌}
use pdesmas_cloud.Base.NatMap.{NatMap, find, assign, insert}
use pdesmas_cloud.Types.Direction.{here, up, left, right, port}
use pdesmas_cloud.Routing.ForwardingTable.{
  left_of, right_of, parent_of, last_rank, has, stops, goes_up, walk_tree, new_forwarding_table,
  get_routing_info,
}
use pdesmas_cloud.Routing.RouteTable.{
  next_direction, direction_to_clp, insert_ssvs, place_ssvs, take_port, add_neighbours, add_distant,
  add_alps, new_route_table,
}

abbrev alps : NatMap ℕ
alps = (7, 3) ∷ (8, 3) ∷ (9, 4) ∷ (10, 4) ∷ (11, 5) ∷ (12, 5) ∷ (13, 6) ∷ (14, 6) ∷ []

leaf_of_seven :
    new_route_table 8 9 3 7 ((3, 100 ∷ []) ∷ (6, 200 ∷ []) ∷ []) alps
    ≡ some (record {
      rank_to_direction_map =
          (0, up)
          ∷ (1, up)
          ∷ (2, up)
          ∷ (3, here)
          ∷ (4, up)
          ∷ (5, up)
          ∷ (6, up)
          ∷ (7, left)
          ∷ (8, right)
          ∷ (9, up)
          ∷ (10, up)
          ∷ (11, up)
          ∷ (12, up)
          ∷ (13, up)
          ∷ (14, up)
          ∷ [];
      direction_to_rank_map = (1, 1) ∷ (2, 7) ∷ (3, 8) ∷ [];
      ssv_id_to_direction_map = (100, here) ∷ (200, up) ∷ [];
    })
unfolding new_route_table new_forwarding_table walk_tree stops last_rank left_of right_of parent_of
    has find insert assign goes_up get_routing_info next_direction direction_to_clp insert_ssvs
    place_ssvs take_port add_neighbours add_distant add_alps port
leaf_of_seven = refl
