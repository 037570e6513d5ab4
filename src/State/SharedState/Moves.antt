-- ===== src/State/SharedState/Moves.antt =====
-- state/SharedState.cpp: the operations that a migration of variables between CLPs is made of.
use pdesmas_cloud.Base.{[], ◌∷◌, Option, none, some}
use pdesmas_cloud.Base.NatMap.{find, erase}
use pdesmas_cloud.Lp.RollbackList.{RollbackList}
use pdesmas_cloud.Lp.AccessCostCalculator.{
  initialise_counters, remove_ssv_access_record, remove_ssv_hop_record, remove_ssv_from_list,
}
use pdesmas_cloud.State.SsvId.{SsvId}
use pdesmas_cloud.State.WritePeriod.{WritePeriod}
use pdesmas_cloud.State.StateVariable.{
  read_without_record, write_with_rollback, perform_write_rollback,
}
use pdesmas_cloud.State.SharedState.{SharedState, History, set_history, update_ranges}
use pdesmas_cloud.Types.Value.{AbstractValue, point_of}

-- The history of a variable that is there.
abbrev history : SsvId → SharedState → History
history ssv s = elim (find ssv s.state_variable_map) [ none ↦ [] | some h ↦ h ]

-- One turn of the loop of `Insert`, with the map that stands before it.
unfoldable pub insert_period :
    SsvId → WritePeriod AbstractValue → SharedState → RollbackList → SharedState × RollbackList
insert_period ssv w s rl =
    let h = history ssv s in
    let old = point_of (read_without_record w.start_time h).1 in
    let (h', status, rl') = write_with_rollback w.agent w.value w.start_time h rl in
    update_ranges old (point_of w.value) w.start_time w.end_time (set_history ssv h' s) rl'

unfoldable pub insert_periods :
    SsvId → History → SharedState → RollbackList → SharedState × RollbackList
insert_periods ssv [] s rl = (s, rl)
insert_periods ssv (w ∷ ws) s rl =
    let (s', rl') = insert_period ssv w s rl in insert_periods ssv ws s' rl'

unfoldable pub insert_variable :
    SsvId → History → SharedState → RollbackList → Option (SharedState × RollbackList)
insert_variable ssv h s rl = elim (find ssv s.state_variable_map) [
  | some _ ↦ none
  | none ↦
      let (s', rl') = insert_periods ssv h (set_history ssv [] s) rl in
      some (
        record s' { access_cost_calculator = initialise_counters ssv s'.access_cost_calculator },
        rl',
      )
]

unfoldable pub delete_variable : SsvId → SharedState → Option SharedState
delete_variable ssv s = elim (find ssv s.state_variable_map) [
  | none ↦ none
  | some _ ↦ elim (remove_ssv_access_record ssv s.access_cost_calculator) [
    | none ↦ none
    | some c ↦ elim (remove_ssv_hop_record ssv c) [
      | none ↦ none
      | some c' ↦ some (record s {
        state_variable_map = erase ssv s.state_variable_map;
        access_cost_calculator = remove_ssv_from_list ssv c';
      })
    ]
  ]
]

-- One turn of the loop of `RemoveWritePeriodList`.
unfoldable pub remove_period :
    SsvId → WritePeriod AbstractValue → SharedState → RollbackList → SharedState × RollbackList
remove_period ssv w s rl =
    let h = history ssv s in
    let old = point_of (read_without_record w.start_time h).1 in
    let (h', rl') = perform_write_rollback w.agent w.start_time h rl in
    let new = point_of (read_without_record w.start_time h').1 in
    update_ranges old new w.start_time w.end_time (set_history ssv h' s) rl'

unfoldable pub remove_periods :
    SsvId → History → SharedState → RollbackList → SharedState × RollbackList
remove_periods ssv [] s rl = (s, rl)
remove_periods ssv (w ∷ ws) s rl =
    let (s', rl') = remove_period ssv w s rl in remove_periods ssv ws s' rl'

unfoldable pub remove_write_period_list :
    SsvId → SharedState → RollbackList → Option (SharedState × RollbackList)
remove_write_period_list ssv s rl = elim (find ssv s.state_variable_map) [
  | none ↦ none
  | some h ↦ some (remove_periods ssv h s rl)
]
