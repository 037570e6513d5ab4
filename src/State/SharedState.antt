-- ===== src/State/SharedState.antt =====
-- state/SharedState.{h,cpp}: the variables that a CLP hosts, with the range table of the CLP's own
-- port and the access costs, which the source holds by pointer and shares with the CLP. `none` is
-- `exit(1)`. Deleting copies and logging change nothing here.
pub mod Moves
pub mod Box
pub mod Variables
pub mod Requests
mod Tests
use pdesmas_cloud.Base.{
  ℕ, ◌+◌, ◌%◌, ◌^◌, List, [], ◌∷◌, ◌++◌, Option, none, some, Bool, true, false, if◌then◌else◌,
}
use pdesmas_cloud.Base.NatMap.{NatMap, find, assign, insert, erase}
use pdesmas_cloud.Lp.LpId.{LpId}
use pdesmas_cloud.Lp.RollbackList.{RollbackList}
use pdesmas_cloud.Lp.AccessCostCalculator.{
  AccessCostCalculator, add, initialise_counters, update_access_count, update_hop_count,
  update_load,
}
use pdesmas_cloud.State.SsvId.{SsvId}
use pdesmas_cloud.State.WritePeriod.{WritePeriod}
use pdesmas_cloud.State.StateVariable.{
  WriteStatus, add_write_period, read_without_record, write_with_rollback, perform_write_rollback,
  perform_read_rollback, remove_write_periods,
}
use pdesmas_cloud.State.StateVariable
use pdesmas_cloud.Types.Direction.{Direction}
use pdesmas_cloud.Types.Point.{Point, min, max}
use pdesmas_cloud.Types.Range.{Range, is_value_overlapping}
use pdesmas_cloud.Types.Value.{AbstractValue, point_of}
use pdesmas_cloud.RangeQuery.RangeRoutingTable.{RangeRoutingTable, update}

-- The history of a variable, which is all that a `StateVariable` holds besides its identity.
abbrev pub History : Type 0
History = List (WritePeriod AbstractValue)

pub record SharedState : Type 0 where
  pub state_variable_map : NatMap History
  pub range_routing_table : RangeRoutingTable
  pub access_cost_calculator : AccessCostCalculator

unfoldable pub count_access : SsvId → Direction → ℕ → SharedState → SharedState
count_access ssv d number_of_hops s =
    let (c, access) = update_access_count d 1 ssv s.access_cost_calculator in
    let (c', hops) = update_hop_count d number_of_hops ssv c in
    record s {
      access_cost_calculator = update_load hops access (add number_of_hops hops) (add access 1) c';
    }

unfoldable pub contains_variable : SsvId → SharedState → Bool
contains_variable ssv s = elim (find ssv s.state_variable_map) [ none ↦ false | some _ ↦ true ]

abbrev pub set_history : SsvId → History → SharedState → SharedState
set_history ssv h s = record s { state_variable_map = assign ssv h s.state_variable_map }

unfoldable pub add_variable :
    SsvId → Option AbstractValue → ℕ → LpId → SharedState → Option SharedState
add_variable ssv v t agent s = elim (find ssv s.state_variable_map) [
  | some _ ↦ none
  | none ↦
      let s' = set_history ssv (add_write_period v t agent []) s in
      some
        (record s' { access_cost_calculator = initialise_counters ssv s'.access_cost_calculator })
]

-- The loop of `RecalculateRange`, with the points so far.
unfoldable pub range_from : ℕ → Option Range → NatMap History → Option Range
range_from t r [] = r
range_from t r ((ssv, h) ∷ m) = elim (point_of (read_without_record t h).1) [
  | none ↦ range_from t r m
  | some p ↦ elim r [
    | none ↦ range_from t (some (record { min_range_value = p; max_range_value = p })) m
    | some q ↦
        range_from t
          (some (record {
            min_range_value = min q.min_range_value p;
            max_range_value = max q.max_range_value p;
          }))
          m
  ]
]

unfoldable pub recalculate_range : ℕ → SharedState → Option Range
recalculate_range t s = range_from t none s.state_variable_map

-- `if (oldValue || newValue)` with the call of the range table's `Update`.
unfoldable pub update_ranges :
    Option Point → Option Point → ℕ → ℕ → SharedState → RollbackList → SharedState × RollbackList
update_ranges none none t end_time s rl = (s, rl)
update_ranges old new t end_time s rl =
    let (table, rl') =
      update old new t (recalculate_range t s) (λ u. recalculate_range u s) s.range_routing_table rl
        end_time in
    (record s { range_routing_table = table }, rl')

unfoldable pub get_copy : SsvId → SharedState → Option History
get_copy ssv s = find ssv s.state_variable_map

unfoldable pub read : SsvId → LpId → ℕ → SharedState → Option (SharedState × Option AbstractValue)
read ssv agent t s = elim (find ssv s.state_variable_map) [
  | none ↦ none
  | some h ↦ elim (StateVariable.read agent t h) [
    | none ↦ none
    | some (h', v) ↦ some (set_history ssv h' s, v)
  ]
]

unfoldable pub write :
    SsvId
    → LpId
    → Option AbstractValue
    → ℕ
    → SharedState
    → RollbackList
    → Option (SharedState × WriteStatus × RollbackList)
write ssv agent v t s rl = elim (find ssv s.state_variable_map) [
  | none ↦ none
  | some h ↦
      let (end_time, old) = read_without_record t h in
      let (h', status, rl') = write_with_rollback agent v t h rl in
      let (s', rl'') =
        update_ranges (point_of old) (point_of v) t end_time (set_history ssv h' s) rl' in
      some (s', status, rl'')
]

-- The loop of `RangeRead` over the variables: the points in the range, and the counted accesses.
unfoldable pub range_read_from :
    Range → Direction → ℕ → ℕ → NatMap History → SharedState → SharedState × NatMap Point
range_read_from r d hops t [] s = (s, [])
range_read_from r d hops t ((ssv, h) ∷ m) s = elim (point_of (read_without_record t h).1) [
  | none ↦ range_read_from r d hops t m s
  | some p ↦
      if is_value_overlapping r p
      then (let (s', points) = range_read_from r d hops t m (count_access ssv d hops s) in
          (s', insert ssv p points))
      else range_read_from r d hops t m s
]

unfoldable pub range_read : Range → Direction → ℕ → ℕ → SharedState → SharedState × NatMap Point
range_read r d hops t s = range_read_from r d hops t s.state_variable_map s

unfoldable pub rollback_write :
    SsvId → LpId → ℕ → SharedState → RollbackList → Option (SharedState × RollbackList)
rollback_write ssv agent t s rl = elim (find ssv s.state_variable_map) [
  | none ↦ none
  | some h ↦
      let (end_time, old) = read_without_record t h in
      let (h', rl') = perform_write_rollback agent t h rl in
      let new = (read_without_record t h').1 in
      some (update_ranges (point_of old) (point_of new) t end_time (set_history ssv h' s) rl')
]

unfoldable pub rollback_read : SsvId → LpId → ℕ → SharedState → Option SharedState
rollback_read ssv agent t s = elim (find ssv s.state_variable_map) [
  | none ↦ none
  | some h ↦ elim (perform_read_rollback agent t h) [
    | none ↦ none
    | some h' ↦ some (set_history ssv h' s)
  ]
]

-- The loop of `RemoveWritePeriods` over all variables.
unfoldable pub remove_all_periods : ℕ → NatMap History → NatMap History
remove_all_periods t [] = []
remove_all_periods t ((ssv, h) ∷ m) = (ssv, remove_write_periods t h) ∷ remove_all_periods t m

unfoldable pub remove_write_periods_before : ℕ → SharedState → SharedState
remove_write_periods_before t s = record s {
  state_variable_map = remove_all_periods t s.state_variable_map;
}
