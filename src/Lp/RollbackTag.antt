-- ===== src/Lp/RollbackTag.antt =====
-- lp/RollbackTag.{h,cpp}: the mark of one rollback, and when two marks are the same one. The real
-- time at which it is made is an argument, since the clock is not part of this code.
use pdesmas_cloud.Base.{ℕ, Bool, ltb, ◌==◌, ◌&&◌}
use pdesmas_cloud.State.SsvId.{SsvId}

pub record RollbackTag : Type 0 where
  pub original_ssv : SsvId
  pub time : ℕ
  pub tag_type : ℕ
  pub real_time_stamp : ℕ

unfoldable pub tag_eq : RollbackTag → RollbackTag → Bool
tag_eq a b =
    a.original_ssv == b.original_ssv
    && a.time == b.time
    && a.tag_type == b.tag_type
    && a.real_time_stamp == b.real_time_stamp

unfoldable pub tag_lt : RollbackTag → RollbackTag → Bool
tag_lt a b = ltb a.time b.time
