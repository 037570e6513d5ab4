-- ===== src/Routing/RouteTable.antt =====
-- routing/RouteTable.{h,cpp}: the port behind which a rank or a variable is, and the rank of the
-- neighbour at a port. The maps of the parsed initialisation file are arguments. `none` is `exit(1)`
-- or a failed assertion.
mod Tests
use pdesmas_cloud.Base.{
  ℕ, zero, suc, ◌+◌, List, [], ◌∷◌, Option, none, some, Bool, true, false, ltb, leb, ◌==◌,
  if◌then◌else◌, ◌>>=◌, length,
}
use pdesmas_cloud.Base.NatMap.{NatMap, find, assign, insert}
use pdesmas_cloud.State.SsvId.{SsvId}
use pdesmas_cloud.Types.Direction.{Direction, here, up, left, right, direction_size, port}
use pdesmas_cloud.Routing.ForwardingTable.{
  Table, new_forwarding_table, get_routing_info, left_of, right_of, parent_of,
}

pub record RouteTable : Type 0 where
  pub rank_to_direction_map : NatMap Direction
  pub direction_to_rank_map : NatMap ℕ
  pub ssv_id_to_direction_map : NatMap Direction

-- `++direction`, which asserts that the direction is not the last one.
unfoldable pub next_direction : Direction → Option Direction
next_direction here = some up
next_direction up = some left
next_direction left = some right
next_direction right = some direction_size
next_direction direction_size = none

-- The direction that the first loop gives the variables of a CLP, where it finds one.
unfoldable pub direction_to_clp : ℕ → ℕ → Table → Option (Option Direction)
direction_to_clp lp clp table =
    if clp == lp then some (some here) else elim (get_routing_info clp table) [
      | none ↦ none
      | some i ↦ some (
          if i.next_node_rank == parent_of lp
          then some up
          else if i.next_node_rank == left_of lp
          then some left
          else if i.next_node_rank == right_of lp
          then some right
          else none)
    ]

unfoldable pub insert_ssvs : Option Direction → List SsvId → NatMap Direction → NatMap Direction
insert_ssvs none ssvs m = m
insert_ssvs (some d) [] m = m
insert_ssvs (some d) (ssv ∷ ssvs) m = insert_ssvs (some d) ssvs (insert ssv d m)

-- The first loop. A CLP without variables is not looked up.
unfoldable pub place_ssvs :
    ℕ → Table → NatMap (List SsvId) → NatMap Direction → Option (NatMap Direction)
place_ssvs lp table [] m = some m
place_ssvs lp table ((clp, []) ∷ clps) m = place_ssvs lp table clps m
place_ssvs lp table ((clp, ssv ∷ ssvs) ∷ clps) m = do
  d ← direction_to_clp lp clp table
  place_ssvs lp table clps (insert_ssvs d (ssv ∷ ssvs) m)

-- A rank behind the next free port.
unfoldable pub take_port : ℕ → RouteTable × Direction → Option (RouteTable × Direction)
take_port rank (r, d) = do
  d' ← next_direction d
  some (
    record r {
      rank_to_direction_map = assign rank d r.rank_to_direction_map;
      direction_to_rank_map = assign (port d) rank r.direction_to_rank_map;
    },
    d',
  )

-- The second loop, with the number of turns left and the rank: the neighbours take a port each.
unfoldable pub add_neighbours :
    ℕ → ℕ → ℕ → Table → RouteTable × Direction → Option (RouteTable × Direction)
add_neighbours zero rank lp table s = some s
add_neighbours (suc n) rank lp table s = do
  s' ← if rank == lp then some s else elim (get_routing_info rank table) [
    | none ↦ none
    | some i ↦ if leb i.number_of_hops 1 then take_port rank s else some s
  ]
  add_neighbours n (rank + 1) lp table s'

-- `map[key]` that is read: a missing key is entered as `HERE`.
abbrev pub direction_at : ℕ → NatMap Direction → Direction
direction_at k m = elim (find k m) [ some d ↦ d | none ↦ here ]

abbrev pub follow : ℕ → ℕ → NatMap Direction → NatMap Direction
follow rank via m = assign rank (direction_at via m) (insert via here m)

-- The third loop: the other CLPs are behind the port of the next node on the way.
unfoldable pub add_distant : ℕ → ℕ → Table → NatMap Direction → Option (NatMap Direction)
add_distant zero rank table m = some m
add_distant (suc n) rank table m = do
  m' ← elim (find rank m) [
    | some _ ↦ some m
    | none ↦ elim (get_routing_info rank table) [
      | none ↦ none
      | some i ↦ some (if ltb 1 i.number_of_hops then follow rank i.next_node_rank m else m)
    ]
  ]
  add_distant n (rank + 1) table m'

-- The last loop: an ALP of this CLP takes a port, any other is behind the port of its CLP. The bound
-- is the size of the map, which `alpToClpMap[rank]` makes larger where it enters a missing key with
-- CLP 0. `none` is also that the fuel ran out.
unfoldable pub add_alps :
    ℕ → ℕ → ℕ → ℕ → NatMap ℕ → RouteTable × Direction → Option (RouteTable × Direction)
add_alps zero rank lp clps alps s = none
add_alps (suc fuel) rank lp clps alps (r, d) = elim (ltb rank (clps + length alps)) [
  | false ↦ some (r, d)
  | true ↦ do
    let clp : ℕ = elim (find rank alps) [ some c ↦ c | none ↦ 0 ]
    s ←
        if clp == lp
        then take_port rank (r, d)
        else some (record r { rank_to_direction_map = follow rank clp r.rank_to_direction_map }, d)
    add_alps fuel (rank + 1) lp clps (insert rank 0 alps) s
]

-- The constructor, with the fuel of the walk and that of the last loop.
unfoldable pub new_route_table : ℕ → ℕ → ℕ → ℕ → NatMap (List SsvId) → NatMap ℕ → Option RouteTable
new_route_table fuel turns lp clps clp_to_ssv alp_to_clp = do
  table ← new_forwarding_table fuel lp clps
  ssvs ← place_ssvs lp table clp_to_ssv []
  (near, d) ← add_neighbours clps 0 lp table (
    record {
      rank_to_direction_map = (lp, here) ∷ [];
      direction_to_rank_map = [];
      ssv_id_to_direction_map = ssvs;
    },
    if lp == 0 then left else up,
  )
  ranks ← add_distant clps 0 table near.rank_to_direction_map
  (r, _) ← add_alps turns clps lp clps alp_to_clp (record near { rank_to_direction_map = ranks }, d)
  some r

-- `DIRECTION_SIZE`, where the variable is not known.
unfoldable pub get_direction_from_ssv_id : SsvId → RouteTable → Direction
get_direction_from_ssv_id ssv r = elim (find ssv r.ssv_id_to_direction_map) [
  | some d ↦ d
  | none ↦ direction_size
]

unfoldable pub get_direction_from_rank : ℕ → RouteTable → Option Direction
get_direction_from_rank rank r = find rank r.rank_to_direction_map

unfoldable pub get_rank_from_direction : Direction → RouteTable → Option ℕ
get_rank_from_direction d r = find (port d) r.direction_to_rank_map

unfoldable pub set_ssv_id_host : SsvId → Direction → RouteTable → RouteTable
set_ssv_id_host ssv d r = record r {
  ssv_id_to_direction_map = assign ssv d r.ssv_id_to_direction_map;
}
