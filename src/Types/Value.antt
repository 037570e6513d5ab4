-- ===== src/Types/Value.antt =====
-- state/AbstractValue.h and state/Value.h: the values of shared state variables. A double is its
-- 64-bit pattern, a string the list of its bytes.
use pdesmas_cloud.Base.{ℕ, Option, none, some, List}
use pdesmas_cloud.Base.Int.{ℤ}
use pdesmas_cloud.Types.Point.{Point}

pub data AbstractValue : Type 0 where
  value_int value_long : ℤ → AbstractValue
  value_double : ℕ → AbstractValue
  value_point : Point → AbstractValue
  value_string : List ℕ → AbstractValue

-- `VALUEPOINT == value->GetType()`, and then the point.
unfoldable pub point_of : Option AbstractValue → Option Point
point_of (some (value_point p)) = some p
point_of _ = none
