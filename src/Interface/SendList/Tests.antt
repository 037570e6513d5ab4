-- ===== src/Interface/SendList/Tests.antt =====
-- A run of HasSendList.cpp, and a theorem on it.
use pdesmas_cloud.Base.{ℕ, ◌≡◌, List, [], ◌∷◌, none, arith}
use pdesmas_cloud.Lp.LpId.{LpId}
use pdesmas_cloud.Messages.SharedStateMessage.{
  AnySharedState, SharedStateMessage, single_read, write,
}
use pdesmas_cloud.Types.Direction.{white}
use pdesmas_cloud.Interface.SendList.{rollback_send_list, clear_send_list}
use pdesmas_cloud.Interface.SendList.Rollback.{rollback_send_list-clear}

abbrev agent : LpId
agent = record { identifier = 7; rank = 3 }

abbrev base : ℕ → ℕ → SharedStateMessage
base id t = record {
  simulation = record { origin = 3; destination = 0; timestamp = t; mattern_colour = white };
  number_of_hops = 0;
  identifier = id;
  original_agent = agent;
}

abbrev a_read : AnySharedState
a_read = single_read (record { base = base 1 5; ssv_id = 10 })

abbrev a_write : AnySharedState
a_write = write (record { base = base 2 5; ssv_id = 10; value = none })

abbrev sent : List AnySharedState
sent = a_read ∷ a_write ∷ []

rollback_send_list-clear_example :
    (rollback_send_list 5 agent (clear_send_list 4 sent)).1 ≡ (rollback_send_list 5 agent sent).1
rollback_send_list-clear_example = rollback_send_list-clear 4 5 agent sent (omega arith)
