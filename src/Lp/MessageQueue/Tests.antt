-- ===== src/Lp/MessageQueue/Tests.antt =====
-- Runs of MessageQueue.cpp, and a theorem on them.
use pdesmas_cloud.Base.{ℕ, ◌≡◌, [], ◌∷◌, map}
use pdesmas_cloud.Lp.LpId.{LpId}
use pdesmas_cloud.Messages.SharedStateMessage.{AnySharedState, single_read}
use pdesmas_cloud.Types.Direction.{white}
use pdesmas_cloud.Interface.SendList.{rollback_send_list}
use pdesmas_cloud.Lp.MessageQueue.{shared_state, remove_messages}
use pdesmas_cloud.Lp.MessageQueue.Removal.{remove_messages-rollback_send_list}

abbrev agent : LpId
agent = record { identifier = 7; rank = 3 }

abbrev a_read : AnySharedState
a_read = single_read (record {
  base = record {
    simulation = record { origin = 3; destination = 0; timestamp = 5; mattern_colour = white };
    number_of_hops = 0;
    identifier = 1;
    original_agent = agent;
  };
  ssv_id = 10;
})

remove_messages-rollback_send_list_example :
    remove_messages {M = ℕ} agent 4 (map shared_state (a_read ∷ []))
    ≡ map shared_state (rollback_send_list 4 agent (a_read ∷ [])).0
remove_messages-rollback_send_list_example =
    remove_messages-rollback_send_list ℕ agent 4 (a_read ∷ [])
