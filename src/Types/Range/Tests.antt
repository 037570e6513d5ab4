-- ===== src/Types/Range/Tests.antt =====
-- Runs of Range.cpp, and a theorem on them.
use pdesmas_cloud.Base.{◌≡◌, refl, true, false, arith}
use pdesmas_cloud.Base.Int.{pos, negsuc}
use pdesmas_cloud.Types.Point.{Point, point_lt, point_gt, is_max, same_int}
use pdesmas_cloud.Types.Range.{
  Range, is_value_overlapping, top_left, bottom_right, has_corner_of, is_range_overlapping,
}
use pdesmas_cloud.Types.Range.Overlap.{Contains, is_range_overlapping-Contains}

abbrev square : Range
square = record {
  min_range_value = record { x = pos 0; y = pos 0 };
  max_range_value = record { x = pos 4; y = pos 4 };
}

abbrev shifted : Range
shifted = record {
  min_range_value = record { x = pos 2; y = pos 3 };
  max_range_value = record { x = pos 9; y = pos 9 };
}

-- Two bars that cross without a corner of either in the other.
abbrev flat : Range
flat = record {
  min_range_value = record { x = negsuc 4; y = pos 1 };
  max_range_value = record { x = pos 9; y = pos 2 };
}

crossing : is_range_overlapping square flat ≡ false
unfolding is_range_overlapping has_corner_of is_value_overlapping top_left bottom_right point_lt
    point_gt
crossing = refl

shifted_overlaps : is_range_overlapping square shifted ≡ true
unfolding is_range_overlapping has_corner_of is_value_overlapping top_left bottom_right point_lt
    point_gt
shifted_overlaps = refl

is_range_overlapping-Contains_example :
    ((p : Point) × Contains square p × Contains shifted p)
    × (is_range_overlapping shifted square ≡ true)
is_range_overlapping-Contains_example =
    is_range_overlapping-Contains square shifted (omega arith) (omega arith) shifted_overlaps

not_max : (is_max square.min_range_value ≡ false) × (is_max square.max_range_value ≡ false)
unfolding is_max same_int
not_max = (refl, refl)

not_max_shifted :
    (is_max shifted.min_range_value ≡ false) × (is_max shifted.max_range_value ≡ false)
unfolding is_max same_int
not_max_shifted = (refl, refl)
