-- ===== src/State/SharedState/Tests.antt =====
-- Runs of SharedState.cpp, and the theorems on them.
use pdesmas_cloud.Base.{inl, ◌≡◌, refl, [], ◌∷◌, some, false, arith}
use pdesmas_cloud.Base.Int.{pos}
use pdesmas_cloud.Base.NatMap.{find}
use pdesmas_cloud.Lp.LpId.{LpId}
use pdesmas_cloud.Types.Direction.{here}
use pdesmas_cloud.Types.Point.{Point, point_lt, point_gt}
use pdesmas_cloud.Types.Range.{Range, is_value_overlapping}
use pdesmas_cloud.Types.Value.{value_point, value_int, point_of}
use pdesmas_cloud.State.WritePeriod.{new_write_period}
use pdesmas_cloud.State.StateVariable.{read_without_record, walk_back}
use pdesmas_cloud.State.SharedState.{
  SharedState, History, recalculate_range, remove_write_periods_before, range_read,
}
use pdesmas_cloud.State.SharedState.Variables.{
  recalculate_range-remove_write_periods_before, range_read-find,
}
use pdesmas_cloud.State.SharedState.Box.{
  HoldsPoint, HasPoint, PointsBelow, recalculate_range-HoldsPoint,
}

abbrev agent : LpId
agent = record { identifier = 7; rank = 3 }

abbrev point : Point
point = record { x = pos 1; y = pos 2 }

abbrev square : Range
square = record {
  min_range_value = record { x = pos 0; y = pos 0 };
  max_range_value = record { x = pos 4; y = pos 4 };
}

abbrev at_point : History
at_point = new_write_period (some (value_point point)) 0 agent ∷ []

abbrev hosted : SharedState
hosted = record {
  state_variable_map =
      (10, at_point) ∷ (11, new_write_period (some (value_int (pos 3))) 0 agent ∷ []) ∷ [];
  range_routing_table = record { range_period_list = []; range_update_list = [] };
  access_cost_calculator = record {
    is_parent_clp = false;
    port_threshold = 4;
    lp_threshold = 8;
    clp_load = 0;
    ssv_list = 10 ∷ 11 ∷ [];
    ssv_port_access_map = [];
    ssv_port_hop_map = [];
  };
}

has_10 : find 10 hosted.state_variable_map ≡ some at_point
unfolding find
has_10 = refl

recalculate_range-remove_write_periods_before_example :
    recalculate_range 9 (remove_write_periods_before 5 hosted) ≡ recalculate_range 9 hosted
recalculate_range-remove_write_periods_before_example =
    recalculate_range-remove_write_periods_before 9 5 hosted (omega arith)

range_read-find_example : find 10 (range_read square here 1 5 hosted).1 ≡ some point
unfolding find read_without_record walk_back point_of is_value_overlapping point_lt point_gt
range_read-find_example =
    range_read-find square here 1 5 10 hosted (((λ e. omega (arith, e)), tt), (tt, tt))

hosted-PointsBelow : PointsBelow 5 hosted.state_variable_map
unfolding read_without_record walk_back point_of
hosted-PointsBelow = ((λ p e. ground arith), ((λ p e. ground arith), tt))

hosted-HasPoint : HasPoint 5 point hosted.state_variable_map
unfolding read_without_record walk_back point_of
hosted-HasPoint = inl refl

recalculate_range-HoldsPoint_example : HoldsPoint (recalculate_range 5 hosted) point
recalculate_range-HoldsPoint_example =
    recalculate_range-HoldsPoint 5 point hosted hosted-PointsBelow hosted-HasPoint
