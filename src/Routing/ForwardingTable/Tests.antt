-- ===== src/Routing/ForwardingTable/Tests.antt =====
-- ForwardingTable.cpp on a tree of seven CLPs.
use pdesmas_cloud.Base.{ℕ, ◌≡◌, refl, Option, none, some, map, List, [], ◌∷◌, arith}
use pdesmas_cloud.Base.NatMap.{find, assign, insert}
use pdesmas_cloud.Routing.ForwardingTable.Coverage.{get_routing_info-new_forwarding_table}
use pdesmas_cloud.Routing.ForwardingTable.{
  RoutingInfo, Table, left_of, right_of, parent_of, last_rank, has, stops, goes_up, walk_tree,
  new_forwarding_table, get_routing_info,
}

hops_of : ℕ × RoutingInfo → ℕ × ℕ × ℕ
hops_of (rank, r) = (rank, r.number_of_hops, r.next_node_rank)

summary : Option Table → List (ℕ × ℕ × ℕ)
unfolding hops_of
summary none = []
summary (some t) = map hops_of t

middle_of_seven :
    summary (new_forwarding_table 8 1 7)
    ≡ (0, 1, 0) ∷ (1, 0, 1) ∷ (2, 2, 0) ∷ (3, 1, 3) ∷ (4, 1, 4) ∷ (5, 3, 0) ∷ (6, 3, 0) ∷ []
unfolding summary new_forwarding_table walk_tree stops last_rank left_of right_of parent_of has find
    insert assign goes_up
middle_of_seven = refl

-- The CLP of rank 1 among seven finds the way to the one of rank 5.
get_routing_info-new_forwarding_table_example :
    (t : Table) × (new_forwarding_table 8 1 7 ≡ some t)
    × (i : RoutingInfo) × (get_routing_info 5 t ≡ some i)
get_routing_info-new_forwarding_table_example =
    get_routing_info-new_forwarding_table 1 7 5 (omega arith) (omega arith) (omega arith)
