-- ===== src/Lp/GvtCalculator/Tests.antt =====
-- A round of GvtCalculator.cpp in a ring of two LPs, and the theorems on it.
use pdesmas_cloud.Base.{ℕ, ◌≡◌, ◌≤◌, ◌↔◌, refl, [], ◌∷◌, some, true, false, long_max}
use pdesmas_cloud.Base.NatMap.{find, assign}
use pdesmas_cloud.Types.Direction.{white, first, second}
use pdesmas_cloud.Messages.Gvt.{GvtControlMessage, get_message_count, set_message_count}
use pdesmas_cloud.Base.Int.{pos, negsuc, to_int, ◌+ℤ◌}
use pdesmas_cloud.Lp.GvtCalculator.{
  LpInfo, Effects, counter_or, get_white_transient_message_counter, gvt_of, send_and_set_gvt,
  lower_minimum, add_counts, has_white_transients, process_first_cut, process_second_cut,
  new_gvt_calculator, increment_white_transient_message_counter,
}
use pdesmas_cloud.Messages.SharedStateMessage.{SimulationMessage}
use pdesmas_cloud.Lp.GvtCalculator.Counters.{Network, get_message_count-add_counts}
use pdesmas_cloud.Lp.GvtCalculator.Bounds.{
  Station, after_first_cut, after_second_cut, LvtsFrom, RedsFrom, process_first_cut-LvtsFrom,
  process_second_cut-LvtsFrom,
}

abbrev info : ℕ → LpInfo
info r = record { rank = r; size = 2; end_time = 100 }

abbrev starter : Station
starter = record {
  lp = info 0;
  lvt = 7;
  calculator = record {
    next_lp_in_ring = 1;
    is_gvt_starter = true;
    colour = white;
    red_time = 12;
    is_accepting_requests = false;
    white_transient_message_counter = (0, pos 0) ∷ [];
  };
}

abbrev passing_lp : Station
passing_lp = record {
  lp = info 1;
  lvt = 9;
  calculator = record {
    next_lp_in_ring = 0;
    is_gvt_starter = false;
    colour = white;
    red_time = 5;
    is_accepting_requests = true;
    white_transient_message_counter = (0, pos 0) ∷ (1, pos 0) ∷ [];
  };
}

abbrev start : GvtControlMessage
start = record {
  origin = 0;
  destination = 1;
  message_minimum_time = long_max;
  red_message_time = long_max;
  mattern_cut = first;
  message_count = (0, pos 0) ∷ (1, pos 0) ∷ [];
}

abbrev passed : GvtControlMessage
passed = record start { message_minimum_time = 9; destination = 0 }

passes_first : after_first_cut (passing_lp ∷ []) start ≡ some passed
unfolding after_first_cut process_first_cut lower_minimum add_counts set_message_count
    get_message_count get_white_transient_message_counter counter_or find assign ◌+ℤ◌ to_int
passes_first = refl

gvt_is_7 : (process_first_cut starter.lp starter.lvt passed starter.calculator).gvt ≡ some 7
unfolding process_first_cut lower_minimum add_counts set_message_count get_message_count gvt_of
    get_white_transient_message_counter counter_or find assign has_white_transients send_and_set_gvt
    ◌+ℤ◌ to_int
gvt_is_7 = refl

process_first_cut-LvtsFrom_example :
    (3 ≤ 7) ↔ ((3 ≤ long_max) × (3 ≤ 7) × LvtsFrom 3 (passing_lp ∷ []))
process_first_cut-LvtsFrom_example =
    process_first_cut-LvtsFrom starter (passing_lp ∷ []) start passed 7 (refl, tt) refl refl
      passes_first gvt_is_7 3

abbrev passed_second : GvtControlMessage
passed_second = record start {
  message_minimum_time = 9;
  red_message_time = 5;
  mattern_cut = second;
  destination = 0;
}

passes_second :
    after_second_cut (passing_lp ∷ []) (record start { mattern_cut = second }) ≡ some passed_second
unfolding after_second_cut process_second_cut lower_minimum set_message_count get_message_count
    get_white_transient_message_counter counter_or find assign ◌+ℤ◌ to_int
passes_second = refl

abbrev at_end : Effects
at_end =
    send_and_set_gvt (info 0)
      (set_message_count 0 (pos 0)
        (record passed_second { message_minimum_time = 7; red_message_time = 5 }))
      (record starter.calculator { colour = white })

ends : process_second_cut starter.lp starter.lvt passed_second starter.calculator ≡ some at_end
unfolding process_second_cut lower_minimum get_message_count get_white_transient_message_counter
    counter_or find ◌+ℤ◌
ends = refl

gvt_is_5 : at_end.gvt ≡ some 5
unfolding send_and_set_gvt gvt_of set_message_count
gvt_is_5 = refl

process_second_cut-LvtsFrom_example : (4 ≤ 5) ↔ (
    (4 ≤ long_max)
    × (4 ≤ long_max)
    × LvtsFrom 4 (starter ∷ passing_lp ∷ [])
    × RedsFrom 4 (starter ∷ passing_lp ∷ []))
process_second_cut-LvtsFrom_example =
    process_second_cut-LvtsFrom starter (passing_lp ∷ []) (record start { mattern_cut = second })
      passed_second at_end 5 (refl, tt) passes_second ends gvt_is_5 4

abbrev message : SimulationMessage
message = record { origin = 0; destination = 1; timestamp = 3; mattern_colour = white }

-- LP 0 has sent two messages to LP 1, one of them uncounted.
abbrev two_sent : Network
two_sent = record {
  lps =
      (info 0, increment_white_transient_message_counter 1 (new_gvt_calculator (info 0)))
      ∷ (info 1, new_gvt_calculator (info 1))
      ∷ [];
  in_flight = message ∷ message ∷ [];
  uncounted = message ∷ [];
}

-- An LP that has sent nothing takes one off the count of each rank.
get_message_count-add_counts_example :
    get_message_count 1 (add_counts 2 (new_gvt_calculator (info 0)) start) ≡ negsuc 0
unfolding get_message_count new_gvt_calculator counter_or find to_int ◌+ℤ◌
get_message_count-add_counts_example =
    get_message_count-add_counts 2 1 (new_gvt_calculator (info 0)) start
