-- ===== src/State/SsvId.antt =====
-- state/SsvId.{h,cpp}: the identity of a shared state variable. The constructors set `id_` alone,
-- and the comparisons and the text format read `id_` alone, so a variable is its `id_`, and a map
-- under `SsvId` is a map under that number.
use pdesmas_cloud.Base.{ℕ}

abbrev pub SsvId : Type 0
SsvId = ℕ
