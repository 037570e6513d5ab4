-- ===== src/Lp/Clp/Start.antt =====
-- lp/Clp.cpp: the constructor, and `InitialisePortRanges`. The maps of the parsed initialisation file
-- and what the access cost calculator finds with floating-point logarithms are arguments.
use pdesmas_cloud.Base.{
  ℕ, zero, suc, List, [], ◌∷◌, Option, none, some, Bool, false, if◌then◌else◌, ◌>>=◌,
}
use pdesmas_cloud.Base.NatMap.{NatMap, find, assign}
use pdesmas_cloud.Lp.AccessCostCalculator.{new_access_cost_calculator}
use pdesmas_cloud.Lp.Clp.{Clp, table, set_table, clear_here, add_ssv}
use pdesmas_cloud.Lp.Clp.RangeUpdates.{no_range, widen, send_range_updates}
use pdesmas_cloud.Lp.GvtCalculator.{LpInfo, new_gvt_calculator}
use pdesmas_cloud.Lp.LogicalProcess.{LogicalProcess}
use pdesmas_cloud.RangeQuery.RangePeriod.{new_range_period}
use pdesmas_cloud.RangeQuery.RangeRoutingTable.{
  RangeRoutingTable, get_range_copy, insert_range_period, delete_range_period,
}
use pdesmas_cloud.Routing.RouteTable.{new_route_table}
use pdesmas_cloud.Routing.Router.{Router, get_direction_by_lp_rank}
use pdesmas_cloud.State.SharedState.{recalculate_range}
use pdesmas_cloud.State.SsvId.{SsvId}
use pdesmas_cloud.Types.Direction.{Direction, here, port, ports}
use pdesmas_cloud.Types.Range.{Range, range_ne}
use pdesmas_cloud.Types.Value.{AbstractValue}

-- `PortRange[direction]`, under the number of the direction.
unfoldable pub port_ranges : NatMap Range → Router → NatMap Range → Option (NatMap Range)
port_ranges [] r found = some found
port_ranges ((rank, range) ∷ m) r found = do
  d ← get_direction_by_lp_rank rank r
  port_ranges m r (
      if range_ne range no_range
      then (elim (widen (find (port d) found) range) [
        | none ↦ found
        | some joined ↦ assign (port d) joined found
      ])
      else found)

-- The first period of each port.
unfoldable pub first_periods : ℕ → NatMap Range → List Direction → Clp → Option Clp
first_periods t found [] c = some c
first_periods t found (d ∷ ds) c = do
  r ← table d c
  let period = new_range_period t (find (port d) found)
  first_periods t found ds (
      set_table d
        (record r { range_period_list = insert_range_period t period r.range_period_list }) c)

-- The range of the variables here replaces that of the file, and the neighbours are told.
unfoldable pub correct_here : ℕ → Range → Range → Clp → Option Clp
correct_here t new stored c =
    let r = c.shared_state.range_routing_table in
    let period = new_range_period t (some new) in
    send_range_updates (record { time = t; new_range = some new; old_range = some stored } ∷ [])
      here
      (set_table here
        (record r {
          range_period_list =
              insert_range_period t period (delete_range_period t r.range_period_list);
        })
        c)

unfoldable pub initialise_port_ranges : NatMap Range → Clp → Option Clp
initialise_port_ranges clp_to_range c = do
  let t = c.lp.start_time
  found ← port_ranges clp_to_range c.router []
  started ← first_periods t found ports c
  corrected ← elim (recalculate_range t started.shared_state) [
    | none ↦ some started
    | some new ↦ elim (get_range_copy t started.shared_state.range_routing_table) [
      | none ↦ some started
      | some stored ↦
          if range_ne new stored then correct_here t new stored started else some started
    ]
  ]
  some (clear_here corrected)

-- The initial values of the variables of this CLP; one without a value is a dereference of `end()`.
unfoldable pub add_ssvs : List SsvId → NatMap (Option AbstractValue) → Clp → Option Clp
add_ssvs [] values c = some c
add_ssvs (ssv ∷ ssvs) values c = do
  v ← find ssv values
  c' ← add_ssv ssv v c
  add_ssvs ssvs values c'

unfoldable pub falses : ℕ → List Bool
falses zero = []
falses (suc n) = false ∷ falses n

abbrev empty_table : RangeRoutingTable
empty_table = record { range_period_list = []; range_update_list = [] }

-- The parsed initialisation file.
pub record Initialisation : Type 0 where
  pub clp_to_ssv : NatMap (List SsvId)
  pub alp_to_clp : NatMap ℕ
  pub clp_to_range : NatMap Range
  pub ssv_values : NatMap (Option AbstractValue)

abbrev pub blank_lp : LpInfo → ℕ → ℕ → ℕ → LogicalProcess
blank_lp info clps alps start_time = record {
  info = info;
  number_of_clps = clps;
  start_time = start_time;
  gvt = start_time;
  end_messages_received = falses alps;
  gvt_calculator = new_gvt_calculator info;
  receive_message_queue = [];
  send_message_queue = [];
  send_control_message_queue = [];
  receive_load_balancing_message_queue = [];
  send_load_balancing_message_queue = [];
}

-- The constructor, with the fuel of the routing table. The router does not depend on the variables
-- that are added before it.
unfoldable pub new_clp : ℕ → ℕ → LpInfo → ℕ → ℕ → ℕ → Bool → ℕ → Initialisation → Option Clp
new_clp fuel turns info clps alps start_time is_parent threshold file = do
  routes ← new_route_table fuel turns info.rank clps file.clp_to_ssv file.alp_to_clp
  hosting ←
      add_ssvs (elim (find info.rank file.clp_to_ssv) [ none ↦ [] | some ssvs ↦ ssvs ])
        file.ssv_values
        (record {
          lp = blank_lp info clps alps start_time;
          router = record { lp_rank = info.rank; route_table = routes };
          shared_state = record {
            state_variable_map = [];
            range_routing_table = empty_table;
            access_cost_calculator = new_access_cost_calculator is_parent threshold;
          };
          up_table = empty_table;
          left_table = empty_table;
          right_table = empty_table;
          range_tracker = [];
          end_message_processed = false;
          stop_load_balance_processing = false;
        })
  initialise_port_ranges file.clp_to_range hosting
