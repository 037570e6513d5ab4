-- ===== src/Lp/RollbackList/Sending.antt =====
-- lp/RollbackList.cpp: `SendRollbacks` and `SendRollbacksAfterStateMigration`, which give one message
-- to each agent on the list and empty it. The colour is set when the message is sent.
use pdesmas_cloud.Base.{ℕ, ◌+◌, ◌%◌, ◌^◌, [], ◌∷◌}
use pdesmas_cloud.Lp.LpId.{LpId}
use pdesmas_cloud.Lp.RollbackList.{RollbackList}
use pdesmas_cloud.Lp.RollbackTag.{RollbackTag}
use pdesmas_cloud.Lp.LogicalProcess.{LogicalProcess, send_simulation}
use pdesmas_cloud.Lp.MessageQueue.{other}
use pdesmas_cloud.Messages.LpMessage.{RollbackMessage, rollback}
use pdesmas_cloud.Types.Direction.{white}

abbrev pub rollback_message : ℕ → RollbackTag → LpId → ℕ → RollbackMessage
rollback_message rank tag agent t = record {
  simulation = record {
    origin = rank;
    destination = agent.rank;
    timestamp = t;
    mattern_colour = white;
  };
  rollback_tag = tag;
  original_agent = agent;
}

unfoldable pub send_rollbacks : RollbackTag → RollbackList → LogicalProcess → LogicalProcess
send_rollbacks tag [] lp = lp
send_rollbacks tag ((agent, t) ∷ l) lp =
    send_rollbacks tag l
      (send_simulation (other (rollback (rollback_message lp.info.rank tag agent t))) lp)

unfoldable pub send_rollbacks_after_state_migration :
    RollbackTag → RollbackList → LogicalProcess → LogicalProcess
send_rollbacks_after_state_migration tag [] lp = lp
send_rollbacks_after_state_migration tag ((agent, t) ∷ l) lp =
    send_rollbacks_after_state_migration tag l (
      send_simulation
        (other (rollback (rollback_message lp.info.rank tag agent ((t + 1) % 2 ^ 64)))) lp)
