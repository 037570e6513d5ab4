-- ===== src/Types/Range.antt =====
-- types/Range.{h,cpp}: a rectangle between two corners, and the tests for an overlap.
pub mod Overlap
mod Tests
use pdesmas_cloud.Base.{Bool, ◌&&◌, ◌||◌}
use pdesmas_cloud.Types.Point.{Point, point_eq, point_ne, point_lt, point_gt, min, max}

-- `fX` is the minimum, `fY` the maximum.
pub record Range : Type 0 where
  pub min_range_value : Point
  pub max_range_value : Point

unfoldable pub range_ne : Range → Range → Bool
range_ne r s =
    point_ne r.min_range_value s.min_range_value || point_ne r.max_range_value s.max_range_value

unfoldable pub is_value_overlapping : Range → Point → Bool
is_value_overlapping r p = point_lt p r.max_range_value && point_gt p r.min_range_value

-- The corners that `IsRangeOverlapping` makes of a range besides its own two.
unfoldable pub top_left : Range → Point
top_left r = record { x = r.min_range_value.x; y = r.max_range_value.y }

unfoldable pub bottom_right : Range → Point
bottom_right r = record { x = r.max_range_value.x; y = r.min_range_value.y }

-- Some corner of the second range lies in the first.
unfoldable pub has_corner_of : Range → Range → Bool
has_corner_of r s =
    is_value_overlapping r s.min_range_value
    || is_value_overlapping r (bottom_right s)
    || is_value_overlapping r (top_left s)
    || is_value_overlapping r s.max_range_value

unfoldable pub is_range_overlapping : Range → Range → Bool
is_range_overlapping this r = has_corner_of this r || has_corner_of r this

unfoldable pub min_max_of_two_ranges : Range → Range → Range
min_max_of_two_ranges this r = record {
  min_range_value = min this.min_range_value r.min_range_value;
  max_range_value = max this.max_range_value r.max_range_value;
}
