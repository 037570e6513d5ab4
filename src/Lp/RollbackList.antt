-- ===== src/Lp/RollbackList.antt =====
-- lp/RollbackList.{h,cpp}: the agents to roll back, each with the earliest time that is asked for.
-- The member `list` is a `std::map` under `LpId::operator<`: the list of its entries in order.
pub mod Covers
pub mod Sending
pub mod Telling
use pdesmas_cloud.Base.{ℕ, List, [], ◌∷◌, Option, none, some, ltb, if◌then◌else◌}
use pdesmas_cloud.Lp.LpId.{LpId, lp_lt, lp_equiv}

abbrev pub RollbackList : Type 0
RollbackList = List (LpId × ℕ)

-- `list.count(lp)` and `list[lp]` of a key that is there.
unfoldable pub find : LpId → RollbackList → Option ℕ
find lp [] = none
find lp ((k, t) ∷ l) = if lp_equiv k lp then some t else find lp l

-- `list[lp] = t` of a key that is there.
unfoldable pub replace : LpId → ℕ → RollbackList → RollbackList
replace lp t [] = []
replace lp t ((k, u) ∷ l) = if lp_equiv k lp then (k, t) ∷ l else (k, u) ∷ replace lp t l

-- `list[lp] = t` of a new key, in front of the first greater one.
unfoldable pub insert_new : LpId → ℕ → RollbackList → RollbackList
insert_new lp t [] = (lp, t) ∷ []
insert_new lp t ((k, u) ∷ l) =
    if lp_lt lp k then (lp, t) ∷ (k, u) ∷ l else (k, u) ∷ insert_new lp t l

-- `RollbackList::AddLp`.
unfoldable pub add_lp : LpId → ℕ → RollbackList → RollbackList
add_lp lp t l = elim (find lp l) [
  | some u ↦ if ltb t u then replace lp t l else l
  | none ↦ insert_new lp t l
]
