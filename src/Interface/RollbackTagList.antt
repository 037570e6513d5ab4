-- ===== src/Interface/RollbackTagList.antt =====
-- interface/HasRollbackTagList.{h,cpp}: the rollbacks that an ALP has seen.
mod Tests
use pdesmas_cloud.Base.{
  ℕ, ◌≤◌, ◌≡◌, refl, List, [], ◌∷◌, ◌++◌, Bool, true, false, ltb, ◌&&◌, ◌||◌, if◌then◌else◌, arith,
  Bool-cases, inl, inr,
}
use pdesmas_cloud.Lp.RollbackTag.{RollbackTag, tag_eq}

-- `find(begin, end, tag) != end`.
unfoldable pub has_tag : RollbackTag → List RollbackTag → Bool
has_tag tag [] = false
has_tag tag (u ∷ us) = tag_eq u tag || has_tag tag us

unfoldable pub check_rollback_tag_list : RollbackTag → List RollbackTag → List RollbackTag × Bool
check_rollback_tag_list tag us = if has_tag tag us then (us, true) else (us ++ tag ∷ [], false)

unfoldable pub clear_rollback_tag_list : ℕ → List RollbackTag → List RollbackTag
clear_rollback_tag_list t [] = []
clear_rollback_tag_list t (u ∷ us) =
    let rest = clear_rollback_tag_list t us in if ltb u.time t then rest else u ∷ rest

tag_eq_self : (u : RollbackTag) → tag_eq u u ≡ true
unfolding tag_eq
tag_eq_self u = ground arith

tag_eq_time : (u v : RollbackTag) → tag_eq u v ≡ true → u.time ≡ v.time
unfolding tag_eq
tag_eq_time u v e = ground arith

has_tag-append : (u : RollbackTag) (us : List RollbackTag) → has_tag u (us ++ u ∷ []) ≡ true
unfolding has_tag
has_tag-append u [] = ground (arith, tag_eq_self u)
has_tag-append u (v ∷ us) = ground (arith, has_tag-append u us)

pub has_tag-longer :
    (u v : RollbackTag) (us : List RollbackTag)
    → has_tag u us ≡ true
    → has_tag u (us ++ v ∷ []) ≡ true
unfolding has_tag
has_tag-longer u v [] e = cc
has_tag-longer u v (w ∷ us) e = ground (arith, has_tag-longer u v us)

pub has_tag-check :
    (u : RollbackTag) (us : List RollbackTag) → has_tag u (check_rollback_tag_list u us).0 ≡ true
unfolding check_rollback_tag_list
has_tag-check u us = elim (Bool-cases (has_tag u us)) [
  | inl old ↦ rw (check_rollback_tag_list, old) old
  | inr new ↦ rw (check_rollback_tag_list, new) (has_tag-append u us)
]

pub has_tag-clear :
    (t : ℕ) (u : RollbackTag) (us : List RollbackTag)
    → t ≤ u.time
    → has_tag u us ≡ true
    → has_tag u (clear_rollback_tag_list t us) ≡ true
unfolding has_tag clear_rollback_tag_list
has_tag-clear t u [] le e = e
has_tag-clear t u (v ∷ us) le e = ground (arith, has_tag-clear t u us le, tag_eq_time v u)

-- A rollback that was seen is seen again after the GVT has cleared the list up to its time or
-- before, and then the list stays as it is.
pub check_rollback_tag_list-again :
    (t : ℕ) (u : RollbackTag) (us : List RollbackTag)
    → t ≤ u.time
    → check_rollback_tag_list u (clear_rollback_tag_list t (check_rollback_tag_list u us).0)
      ≡ (clear_rollback_tag_list t (check_rollback_tag_list u us).0, true)
unfolding check_rollback_tag_list
check_rollback_tag_list-again t u us le = rw (
  has_tag-clear t u (check_rollback_tag_list u us).0 le (has_tag-check u us),
  check_rollback_tag_list,
)
