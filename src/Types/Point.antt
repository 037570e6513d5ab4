-- ===== src/Types/Point.antt =====
-- types/Pair.h and types/Point.{h,cpp}: pairs of signed integers in the product order, and the
-- joins that treat (INT_MAX, INT_MAX) as no point.
use pdesmas_cloud.Base.{Bool, ◌&&◌, ◌||◌, not, if◌then◌else◌, ◌-◌, ◌^◌}
use pdesmas_cloud.Base.Int.{ℤ, pos, ltb_ℤ, leb_ℤ}

pub record Point : Type 0 where
  pub x : ℤ
  pub y : ℤ

unfoldable pub same_int : ℤ → ℤ → Bool
same_int a b = leb_ℤ a b && leb_ℤ b a

abbrev pub int_max : ℤ
int_max = pos (2 ^ 31 - 1)

-- `Pair::operator==`, `!=`, `<` and `>`.
unfoldable pub point_eq : Point → Point → Bool
point_eq p q = same_int p.x q.x && same_int p.y q.y

unfoldable pub point_ne : Point → Point → Bool
point_ne p q = not (same_int p.x q.x) || not (same_int p.y q.y)

unfoldable pub point_lt : Point → Point → Bool
point_lt p q = leb_ℤ p.x q.x && leb_ℤ p.y q.y

unfoldable pub point_gt : Point → Point → Bool
point_gt p q = leb_ℤ q.x p.x && leb_ℤ q.y p.y

unfoldable pub is_max : Point → Bool
is_max p = same_int p.x int_max && same_int p.y int_max

unfoldable pub min : Point → Point → Point
min this p = if is_max p then this else if is_max this then p else record {
  x = if ltb_ℤ p.x this.x then p.x else this.x;
  y = if ltb_ℤ p.y this.y then p.y else this.y;
}

unfoldable pub max : Point → Point → Point
max this p = if is_max p then this else if is_max this then p else record {
  x = if ltb_ℤ this.x p.x then p.x else this.x;
  y = if ltb_ℤ this.y p.y then p.y else this.y;
}
