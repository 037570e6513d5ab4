-- ===== src/Lp/Clp/Sample.antt =====
-- A CLP in a tree of seven, and messages for it, which the tests share.
use pdesmas_cloud.State.WritePeriod.{WritePeriod}
use pdesmas_cloud.Types.Value.{AbstractValue}
use pdesmas_cloud.Base.{ℕ, [], ◌∷◌, Option, none, some, false, ulong_max}
use pdesmas_cloud.Base.NatMap.{NatMap}
use pdesmas_cloud.Lp.Clp.{Clp}
use pdesmas_cloud.Lp.Clp.Start.{blank_lp}
use pdesmas_cloud.Lp.AccessCostCalculator.{initial_counter_map}
use pdesmas_cloud.Messages.SharedStateMessage.{SingleReadMessage}
use pdesmas_cloud.Messages.LpMessage.{AntiMessage}
use pdesmas_cloud.RangeQuery.RangeRoutingTable.{RangeRoutingTable}
use pdesmas_cloud.State.SharedState.{History}
use pdesmas_cloud.Types.Direction.{here, left, white}

abbrev pub from_some {ℓ} : {A : Type ℓ} → A → Option A → A
from_some d none = d
from_some d (some a) = a

abbrev pub no_table : RangeRoutingTable
no_table = record { range_period_list = []; range_update_list = [] }

abbrev pub the_period : WritePeriod AbstractValue
the_period = record {
  start_time = 0;
  end_time = ulong_max;
  agent = record { identifier = 0; rank = 0 };
  value = none;
  agent_read_map = [];
}

abbrev pub the_history : History
the_history = the_period ∷ []

-- The CLP of a rank, with the variables that it hosts.
abbrev pub clp : ℕ → NatMap History → Clp
clp rank variables = record {
  lp = blank_lp (record { rank = rank; size = 15; end_time = 100 }) 7 8 0;
  router = record {
    lp_rank = rank;
    route_table = record {
      rank_to_direction_map = (1, here) ∷ (7, left) ∷ [];
      direction_to_rank_map = (1, 0) ∷ (2, 3) ∷ (3, 4) ∷ [];
      ssv_id_to_direction_map = (10, here) ∷ [];
    };
  };
  shared_state = record {
    state_variable_map = variables;
    range_routing_table = no_table;
    access_cost_calculator = record {
      is_parent_clp = false;
      port_threshold = 5;
      lp_threshold = 5;
      clp_load = 0;
      ssv_list = 10 ∷ [];
      ssv_port_access_map = (10, initial_counter_map) ∷ [];
      ssv_port_hop_map = (10, initial_counter_map) ∷ [];
    };
  };
  up_table = no_table;
  left_table = no_table;
  right_table = no_table;
  range_tracker = [];
  end_message_processed = false;
  stop_load_balance_processing = false;
}

abbrev pub host : Clp
host = clp 1 ((10, the_history) ∷ [])

abbrev pub a_read : SingleReadMessage
a_read = record {
  base = record {
    simulation = record { origin = 7; destination = 1; timestamp = 5; mattern_colour = white };
    number_of_hops = 2;
    identifier = 8;
    original_agent = record { identifier = 70; rank = 7 };
  };
  ssv_id = 10;
}

abbrev pub anti : ℕ → AntiMessage
anti t = record {
  simulation = record { origin = 7; destination = 1; timestamp = t; mattern_colour = white };
  number_of_hops = 2;
  rollback_tag = record { original_ssv = 10; time = t; tag_type = 1; real_time_stamp = 0 };
  original_agent = record { identifier = 70; rank = 7 };
}
