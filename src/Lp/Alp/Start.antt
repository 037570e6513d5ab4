-- ===== src/Lp/Alp/Start.antt =====
-- lp/Alp.cpp: the constructor. An ALP without a parent in the initialisation file is `exit(1)`.
use pdesmas_cloud.Base.{ℕ, [], Option, some, false, ◌>>=◌}
use pdesmas_cloud.Base.NatMap.{NatMap, find}
use pdesmas_cloud.Interface.IdentifierHandler.{new_identifier_handler}
use pdesmas_cloud.Lp.Alp.{Alp}
use pdesmas_cloud.Lp.GvtCalculator.{LpInfo, new_gvt_calculator}

unfoldable pub new_alp : LpInfo → ℕ → ℕ → ℕ → NatMap ℕ → Option Alp
new_alp info clps alps start_time alp_to_clp = do
  parent ← find info.rank alp_to_clp
  some (record {
    lp = record {
      info = info;
      number_of_clps = clps;
      start_time = start_time;
      gvt = start_time;
      end_messages_received = [];
      gvt_calculator = new_gvt_calculator info;
      receive_message_queue = [];
      send_message_queue = [];
      send_control_message_queue = [];
      receive_load_balancing_message_queue = [];
      send_load_balancing_message_queue = [];
    };
    parent_clp = parent;
    message_id_handler = new_identifier_handler info.rank clps alps;
    managed_agents = [];
    agent_lvt_map = [];
    agent_lvt_history_map = [];
    agent_cancel_flag_map = [];
    agent_response_map = [];
    agent_response_message_id_map = [];
    send_list = [];
    rollback_tag_list = [];
    restart_map = [];
    restart_p = false;
  })
