-- ===== src/Lp/Clp/Migration.antt =====
-- lp/Clp.cpp: variables that move between neighbours, and `SetGvt`, which starts that.
use pdesmas_cloud.Base.{
  ℕ, zero, suc, List, [], ◌∷◌, Option, some, true, false, if◌then◌else◌, ◌>>=◌, ulong_max,
}
use pdesmas_cloud.Base.NatMap.{NatMap, insert}
use pdesmas_cloud.Lp.AccessCostCalculator.{MigrationMap, check_clp_load, get_migration_map}
use pdesmas_cloud.Lp.Clp.{Clp, clear_here, new_tag, rollback_by_sm}
use pdesmas_cloud.Lp.Clp.RangeUpdates.{flush_range_updates}
use pdesmas_cloud.Lp.LogicalProcess.{send_load_balancing}
use pdesmas_cloud.Lp.MessageQueue.{other}
use pdesmas_cloud.Lp.RollbackList.Sending.{send_rollbacks, send_rollbacks_after_state_migration}
use pdesmas_cloud.Messages.LpMessage.{StateMigrationMessage, state_migration}
use pdesmas_cloud.RangeQuery.RangeRoutingTable.{clear_range_periods}
use pdesmas_cloud.Routing.Router.{set_ssv_id_direction, get_lp_rank_by_direction}
use pdesmas_cloud.State.SharedState.{History, get_copy, remove_write_periods_before}
use pdesmas_cloud.State.SharedState.Moves.{
  insert_variable, delete_variable, remove_write_period_list,
}
use pdesmas_cloud.State.SsvId.{SsvId}
use pdesmas_cloud.Types.Direction.{Direction, here, up, left, right, direction_size}

-- The loop of `ProcessMessage(const StateMigrationMessage*)`, with the times at which the tags of the
-- variables are made.
unfoldable pub take_in : (SsvId → ℕ) → NatMap History → Clp → Option Clp
take_in now [] c = some c
take_in now ((ssv, h) ∷ m) c = do
  (s, rl) ← insert_variable ssv h c.shared_state []
  flushed ← flush_range_updates here (record c {
    router = set_ssv_id_direction ssv here c.router;
    shared_state = s;
    lp = send_rollbacks (new_tag ssv ulong_max rollback_by_sm (now ssv)) rl c.lp;
  })
  take_in now m flushed

unfoldable pub process_state_migration : (SsvId → ℕ) → StateMigrationMessage → Clp → Option Clp
process_state_migration now m c = take_in now m.state_variable_map (clear_here c)

-- One turn of the inner loop of `MigrateStateVariables`, with the variables of the message so far.
unfoldable pub give_away :
    (SsvId → ℕ) → Direction → SsvId → NatMap History × Clp → Option (NatMap History × Clp)
give_away now d ssv (taken, c) = do
  h ← get_copy ssv c.shared_state
  (emptied, rl) ← remove_write_period_list ssv c.shared_state []
  s ← delete_variable ssv emptied
  flushed ← flush_range_updates here (record c {
    router = set_ssv_id_direction ssv d c.router;
    shared_state = s;
    lp =
        send_rollbacks_after_state_migration (new_tag ssv ulong_max rollback_by_sm (now ssv)) rl
          c.lp;
  })
  some (insert ssv h taken, flushed)

unfoldable pub give_away_all :
    (SsvId → ℕ) → Direction → List SsvId → NatMap History × Clp → Option (NatMap History × Clp)
give_away_all now d [] s = some s
give_away_all now d (ssv ∷ ssvs) s = do s' ← give_away now d ssv s; give_away_all now d ssvs s'

-- The direction of a number.
unfoldable pub direction_of : ℕ → Direction
direction_of zero = here
direction_of (suc zero) = up
direction_of (suc (suc zero)) = left
direction_of (suc (suc (suc zero))) = right
direction_of (suc (suc (suc (suc n)))) = direction_size

-- `MigrateStateVariables`.
unfoldable pub migrate_state_variables : (SsvId → ℕ) → MigrationMap → Clp → Option Clp
migrate_state_variables now [] c = some c
migrate_state_variables now ((p, ssvs) ∷ m) c = do
  let d = direction_of p
  rank ← get_lp_rank_by_direction d c.router
  (taken, c') ← give_away_all now d ssvs ([], clear_here c)
  migrate_state_variables now m (record c' {
    lp =
        send_load_balancing
          (other (
            state_migration
              (record { origin = c.lp.info.rank; destination = rank; state_variable_map = taken })))
          c'.lp;
  })

-- The first half of `SetGvt`.
unfoldable pub forget_before : ℕ → Clp → Clp
forget_before gvt c =
    let s = remove_write_periods_before gvt c.shared_state in
    record c {
      lp = record c.lp { gvt = gvt };
      shared_state = record s {
        range_routing_table = clear_range_periods gvt s.range_routing_table;
      };
      up_table = clear_range_periods gvt c.up_table;
      left_table = clear_range_periods gvt c.left_table;
      right_table = clear_range_periods gvt c.right_table;
    }

-- `SetGvt`.
unfoldable pub set_gvt : (SsvId → ℕ) → ℕ → Clp → Option Clp
set_gvt now gvt c =
    let forgetful = forget_before gvt c in
    if forgetful.end_message_processed
    then some
        (record forgetful { end_message_processed = false; stop_load_balance_processing = true })
    else (let (checked, enough) = check_clp_load forgetful.shared_state.access_cost_calculator in
        let (mapped, m) = get_migration_map checked in
        let balancing = record forgetful { stop_load_balance_processing = false } in
        if enough
        then migrate_state_variables now m (record balancing {
          shared_state = record balancing.shared_state { access_cost_calculator = mapped };
        })
        else some (record balancing {
          shared_state = record balancing.shared_state { access_cost_calculator = checked };
        }))
