-- ===== src/Lp/Clp.antt =====
-- lp/Clp.{h,cpp}: a communication logical process, which hosts shared variables, answers the requests
-- for them, and routes everything else along the tree, with the flags RANGE_QUERIES and
-- SSV_LOCALISATION of CMakeLists.txt. `none` is `exit(1)`, a failed assertion, or an access that is
-- out of bounds. The time at which a rollback tag is made is an argument.
pub mod RangeUpdates
pub mod Handlers
pub mod EndMessages
pub mod Migration
pub mod RangeQueries
pub mod Traffic
pub mod Start
pub mod Frame
pub mod Reads
pub mod Hosting
pub mod Arrival
pub mod Forwarding
pub mod Climbing
pub mod Counting
pub mod Past
pub mod Late
pub mod Stragglers
pub mod TakenBack
mod Tests
pub mod Sample
use pdesmas_cloud.Base.{
  ℕ, ◌+◌, ◌%◌, ◌^◌, ◌/◌, List, [], ◌∷◌, Option, none, some, Bool, true, false, leb, ltb, ◌==◌, ◌&&◌,
  ◌||◌, if◌then◌else◌, ◌>>=◌,
}
use pdesmas_cloud.Lp.LogicalProcess.{LogicalProcess}
use pdesmas_cloud.Lp.LpId.{LpId}
use pdesmas_cloud.Lp.RollbackTag.{RollbackTag}
use pdesmas_cloud.RangeQuery.RangeRoutingTable.{RangeRoutingTable, clear_range_updates}
use pdesmas_cloud.RangeQuery.RangeTracker.{RangeTracker}
use pdesmas_cloud.Routing.Router.{Router, get_direction_by_lp_rank}
use pdesmas_cloud.State.SharedState.{SharedState, count_access, add_variable}
use pdesmas_cloud.State.SsvId.{SsvId}
use pdesmas_cloud.Types.Direction.{Direction, here, up, left, right, direction_size}
use pdesmas_cloud.Types.Value.{AbstractValue}

-- `fRangeRoutingTable[HERE]` and `fAccessCostCalculator` are those of the shared state.
pub record Clp : Type 0 where
  pub lp : LogicalProcess
  pub router : Router
  pub shared_state : SharedState
  pub up_table : RangeRoutingTable
  pub left_table : RangeRoutingTable
  pub right_table : RangeRoutingTable
  pub range_tracker : RangeTracker
  pub end_message_processed : Bool
  pub stop_load_balance_processing : Bool

-- `fRangeRoutingTable[direction]`, and a change of it.
unfoldable pub table : Direction → Clp → Option RangeRoutingTable
table here c = some c.shared_state.range_routing_table
table up c = some c.up_table
table left c = some c.left_table
table right c = some c.right_table
table direction_size c = none

unfoldable pub set_table : Direction → RangeRoutingTable → Clp → Clp
set_table here t c = record c { shared_state = record c.shared_state { range_routing_table = t } }
set_table up t c = record c { up_table = t }
set_table left t c = record c { left_table = t }
set_table right t c = record c { right_table = t }
set_table direction_size t c = c

-- `fRangeRoutingTable[HERE]->ClearRangeUpdates()`.
abbrev pub clear_here : Clp → Clp
clear_here c = set_table here (clear_range_updates c.shared_state.range_routing_table) c

-- `GetRank() >= GetNumberOfClps() / 2`, `GetRank() == 0`.
abbrev pub is_leaf : Clp → Bool
is_leaf c = leb (c.lp.number_of_clps / 2) c.lp.info.rank

abbrev pub is_root : Clp → Bool
is_root c = c.lp.info.rank == 0

-- The ports that lead to an ALP or nowhere.
unfoldable pub leads_to_no_clp : Direction → Clp → Bool
leads_to_no_clp left c = is_leaf c
leads_to_no_clp right c = is_leaf c
leads_to_no_clp up c = is_root c
leads_to_no_clp here c = false
leads_to_no_clp direction_size c = false

-- ROLLBACK_BY_WRITE, ROLLBACK_BY_RU and ROLLBACK_BY_SM.
abbrev pub rollback_by_write : ℕ
rollback_by_write = 1

abbrev pub rollback_by_ru : ℕ
rollback_by_ru = 2

abbrev pub rollback_by_sm : ℕ
rollback_by_sm = 3

abbrev pub new_tag : SsvId → ℕ → ℕ → ℕ → RollbackTag
new_tag ssv t type now = record {
  original_ssv = ssv;
  time = t;
  tag_type = type;
  real_time_stamp = now;
}

-- The access of an agent to a variable is counted for the port that the agent is behind.
unfoldable pub count : SsvId → LpId → ℕ → Clp → Option Clp
count ssv agent hops c = do
  d ← get_direction_by_lp_rank agent.rank c.router
  some (record c { shared_state = count_access ssv d hops c.shared_state })

-- `AddSSV`.
unfoldable pub add_ssv : SsvId → Option AbstractValue → Clp → Option Clp
add_ssv ssv v c = do
  s ← add_variable ssv v c.lp.start_time (record { identifier = 0; rank = 0 }) c.shared_state
  some (record c { shared_state = s })
