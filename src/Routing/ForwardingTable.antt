-- ===== src/Routing/ForwardingTable.antt =====
-- routing/ForwardingTable.{h,cpp} and RoutingInfo.{h,cpp}: the way from one CLP to every other in
-- the tree where the CLP of rank r has the children 2r + 1 and 2r + 2. Ranks and hops are `unsigned
-- int`. `WalkTree` calls itself without a bound: fuel, which `Fuel` shows to be enough.
pub mod Fuel
pub mod Walk
pub mod Coverage
mod Tests
use pdesmas_cloud.Base.{
  ℕ, zero, suc, ◌+◌, ◌-◌, ◌*◌, ◌/◌, ◌%◌, ◌^◌, [], ◌∷◌, Option, none, some, Bool, true, false, ltb,
  ◌==◌, ◌&&◌, ◌||◌, not, if◌then◌else◌, ◌>>=◌,
}
use pdesmas_cloud.Base.NatMap.{NatMap, find, assign, insert}

pub record RoutingInfo : Type 0 where
  pub node_rank : ℕ
  pub destination : ℕ
  pub number_of_hops : ℕ
  pub next_node_rank : ℕ

abbrev pub Table : Type 0
Table = NatMap RoutingInfo

-- `2 * rank + 1`, `2 * rank + 2` and `(rank - 1) / 2` on `unsigned int`.
unfoldable pub left_of : ℕ → ℕ
left_of rank = (2 * rank + 1) % 2 ^ 32

unfoldable pub right_of : ℕ → ℕ
right_of rank = (2 * rank + 2) % 2 ^ 32

unfoldable pub parent_of : ℕ → ℕ
parent_of rank = ((rank + (2 ^ 32 - 1)) % 2 ^ 32) / 2

-- `fNumberOfClps - 1`.
unfoldable pub last_rank : ℕ → ℕ
last_rank clps = (clps + (2 ^ 32 - 1)) % 2 ^ 32

unfoldable pub has : ℕ → Table → Bool
has rank t = elim (find rank t) [ none ↦ false | some _ ↦ true ]

-- The two early returns, and the test of the third call.
unfoldable pub stops : ℕ → ℕ → Table → Bool
stops clps rank t = ltb (last_rank clps) rank || has rank t

unfoldable pub goes_up : ℕ → ℕ → ℕ → Bool
goes_up clp rank next = not (next == left_of clp) && not (next == right_of clp) && not (rank == 0)

abbrev pub routing_info : ℕ → ℕ → ℕ → ℕ → RoutingInfo
routing_info clp rank hops next = record {
  node_rank = clp;
  destination = rank;
  number_of_hops = hops;
  next_node_rank = next;
}

-- `WalkTree`. `none` means that the fuel ran out.
unfoldable pub walk_tree : ℕ → ℕ → ℕ → ℕ → ℕ → ℕ → Table → Option Table
walk_tree zero clp clps rank hops next t = none
walk_tree (suc fuel) clp clps rank hops next t = elim (stops clps rank t) [
  | true ↦ some t
  | false ↦ do
    let further = (hops + 1) % 2 ^ 32
    let entered = insert rank (routing_info clp rank hops next) t
    l ← walk_tree fuel clp clps (left_of rank) further next entered
    r ← walk_tree fuel clp clps (right_of rank) further next l
    elim (goes_up clp rank next) [
      | true ↦ walk_tree fuel clp clps (parent_of rank) further next r
      | false ↦ some r
    ]
]

-- The constructor.
unfoldable pub new_forwarding_table : ℕ → ℕ → ℕ → Option Table
new_forwarding_table fuel clp clps = do
  l ←
      walk_tree fuel clp clps (left_of clp) 1 (left_of clp)
        (insert clp (routing_info clp clp 0 clp) [])
  r ← walk_tree fuel clp clps (right_of clp) 1 (right_of clp) l
  if clp == 0 then some r else walk_tree fuel clp clps (parent_of clp) 1 (parent_of clp) r

-- `none` is `exit(1)`.
unfoldable pub get_routing_info : ℕ → Table → Option RoutingInfo
get_routing_info rank t = find rank t
