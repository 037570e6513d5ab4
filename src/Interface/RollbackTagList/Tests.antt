-- ===== src/Interface/RollbackTagList/Tests.antt =====
-- A run of HasRollbackTagList.cpp: a tag that is new is not seen, and then it is.
use pdesmas_cloud.Base.{◌≡◌, refl, [], ◌∷◌, true, false}
use pdesmas_cloud.Interface.RollbackTagList.{has_tag, check_rollback_tag_list}
use pdesmas_cloud.Lp.RollbackTag.{RollbackTag, tag_eq}

abbrev tag : RollbackTag
tag = record { original_ssv = 10; time = 5; tag_type = 0; real_time_stamp = 99 }

first_seen : check_rollback_tag_list tag [] ≡ (tag ∷ [], false)
unfolding check_rollback_tag_list has_tag
first_seen = refl

then_known : check_rollback_tag_list tag (tag ∷ []) ≡ (tag ∷ [], true)
unfolding check_rollback_tag_list has_tag tag_eq
then_known = refl
