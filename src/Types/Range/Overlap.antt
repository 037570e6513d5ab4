-- ===== src/Types/Range/Overlap.antt =====
-- What the overlap tests of Range.cpp promise, and what a range is after a join.
use pdesmas_cloud.Base.{Bool, true, false, ◌≡◌, refl, ◌||◌, arith, ◌⊎◌, inl, inr}
use pdesmas_cloud.Base.Int.{◌≤ℤ◌}
use pdesmas_cloud.Types.Point.{Point, point_lt, point_gt, min, max, is_max}
use pdesmas_cloud.Types.Range.{
  Range, is_value_overlapping, top_left, bottom_right, has_corner_of, is_range_overlapping,
  min_max_of_two_ranges,
}

-- A point of the rectangle between the corners, borders included.
abbrev pub Contains : Range → Point → Type 0
Contains r p =
    (r.min_range_value.x ≤ℤ p.x)
    × (r.min_range_value.y ≤ℤ p.y)
    × (p.x ≤ℤ r.max_range_value.x)
    × (p.y ≤ℤ r.max_range_value.y)

abbrev pub IsProper : Range → Type 0
IsProper r =
    (r.min_range_value.x ≤ℤ r.max_range_value.x) × (r.min_range_value.y ≤ℤ r.max_range_value.y)

is_value_overlapping-Contains :
    (r : Range) (p : Point) → is_value_overlapping r p ≡ true → Contains r p
unfolding is_value_overlapping point_lt point_gt
is_value_overlapping-Contains r p e = ground arith

||-cases : (a b : Bool) → a || b ≡ true → (a ≡ true) ⊎ (b ≡ true)
||-cases true b e = inl refl
||-cases false b e = inr e

has_corner_of-Contains :
    (r s : Range)
    → IsProper s
    → has_corner_of r s ≡ true
    → (p : Point) × Contains r p × Contains s p
unfolding has_corner_of top_left bottom_right
has_corner_of-Contains r s proper e =
    let hit : (p : Point)
        → is_value_overlapping r p ≡ true
        → Contains s p
        → (p : Point) × Contains r p × Contains s p =
      λ p yes inside. (p, is_value_overlapping-Contains r p yes, inside) in
    let a = is_value_overlapping r s.min_range_value in
    let b = is_value_overlapping r (bottom_right s) in
    let c = is_value_overlapping r (top_left s) in
    elim (||-cases (a || b || c) (is_value_overlapping r s.max_range_value) e) [
      | inr d ↦ hit s.max_range_value d (omega arith)
      | inl e' ↦ elim (||-cases (a || b) c e') [
        | inr c' ↦ hit (top_left s) c' (omega arith)
        | inl e'' ↦ elim (||-cases a b e'') [
          | inr b' ↦ hit (bottom_right s) b' (omega arith)
          | inl a' ↦ hit s.min_range_value a' (omega arith)
        ]
      ]
    ]

-- Two proper ranges that `IsRangeOverlapping` reports have a common point, and it reports them in
-- either order.
pub is_range_overlapping-Contains :
    (r s : Range)
    → IsProper r
    → IsProper s
    → is_range_overlapping r s ≡ true
    → ((p : Point) × Contains r p × Contains s p) × (is_range_overlapping s r ≡ true)
unfolding is_range_overlapping
is_range_overlapping-Contains r s pr ps e =
    elim (||-cases (has_corner_of r s) (has_corner_of s r) e) [
      | inl a ↦ (has_corner_of-Contains r s ps a, ground arith)
      | inr b ↦
          let (p, in_s, in_r) = has_corner_of-Contains s r pr b in ((p, in_r, in_s), ground arith)
    ]

-- The range that `MinMaxofTwoRanges` leaves holds every point of both ranges, where no corner of
-- either is the marker (INT_MAX, INT_MAX).
pub min_max_of_two_ranges-Contains :
    (r s : Range) (p : Point)
    → is_max r.min_range_value ≡ false
    → is_max r.max_range_value ≡ false
    → is_max s.min_range_value ≡ false
    → is_max s.max_range_value ≡ false
    → Contains r p ⊎ Contains s p
    → Contains (min_max_of_two_ranges r s) p
unfolding min_max_of_two_ranges min max
min_max_of_two_ranges-Contains r s p a b c d h = ground arith
