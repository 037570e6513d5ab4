-- ===== src/Lp/LpId.antt =====
-- lp/LpId.{h,cpp}: the identity of a logical process or an agent, and its comparisons, which hold
-- of both fields at once or not at all.
use pdesmas_cloud.Base.{ℕ, ltb, ◌==◌, Bool, ◌&&◌, not}

pub record LpId : Type 0 where
  pub identifier : ℕ
  pub rank : ℕ

unfoldable pub lp_eq : LpId → LpId → Bool
lp_eq a b = a.identifier == b.identifier && a.rank == b.rank

unfoldable pub lp_ne : LpId → LpId → Bool
lp_ne a b = not (a.identifier == b.identifier) && not (a.rank == b.rank)

unfoldable pub lp_gt : LpId → LpId → Bool
lp_gt a b = ltb b.identifier a.identifier && ltb b.rank a.rank

unfoldable pub lp_lt : LpId → LpId → Bool
lp_lt a b = ltb a.identifier b.identifier && ltb a.rank b.rank

-- The keys that `std::map` takes for one key under `operator<`.
unfoldable pub lp_equiv : LpId → LpId → Bool
lp_equiv a b = not (lp_lt a b) && not (lp_lt b a)
