-- ===== src/RangeQuery/RangePeriod.antt =====
-- rangequery/RangePeriod.{h,cpp}, RangePeriodListEntry.{h,cpp} and RangeUpdates.{h,cpp}: the range
-- of the values behind a port from a time on, and the range queries that read it. A `Range*` is an
-- `Option`, a copy of a range is the range.
pub mod Tests
pub mod Queries
use pdesmas_cloud.Base.{
  ℕ, List, [], ◌∷◌, ◌++◌, Option, none, some, Bool, true, false, ltb, ◌==◌, ◌&&◌, ◌||◌, not,
  if◌then◌else◌, keep,
}
use pdesmas_cloud.Lp.LpId.{LpId}
use pdesmas_cloud.Lp.RollbackList.{RollbackList, add_lp}
use pdesmas_cloud.Types.Point.{Point}
use pdesmas_cloud.Types.Range.{Range, is_value_overlapping, is_range_overlapping}

pub record RangePeriodListEntry : Type 0 where
  pub block_status : Bool
  pub identifier : ℕ
  pub time : ℕ
  pub range : Range
  pub original_alp : LpId

pub record RangePeriod : Type 0 where
  pub time : ℕ
  pub range : Option Range
  pub range_query_info_list : List RangePeriodListEntry

pub record RangeUpdates : Type 0 where
  pub time : ℕ
  pub new_range : Option Range
  pub old_range : Option Range

unfoldable pub new_range_period : ℕ → Option Range → RangePeriod
new_range_period t r = record { time = t; range = r; range_query_info_list = [] }

-- The branches on NULL of `SetRange` leave a copy of the argument in each case.
unfoldable pub set_range : Option Range → RangePeriod → RangePeriod
set_range r p = record p { range = r }

unfoldable pub add_to_range_query_info_list : RangePeriodListEntry → RangePeriod → RangePeriod
add_to_range_query_info_list e p = record p {
  range_query_info_list = p.range_query_info_list ++ e ∷ [];
}

-- The loop stops at the first entry whose identifier is not 0, whichever identifier is asked for.
unfoldable pub block_status_in : List RangePeriodListEntry → Bool
block_status_in [] = true
block_status_in (e ∷ es) =
    let rest = block_status_in es in if e.identifier == 0 then rest else e.block_status

unfoldable pub get_block_status : ℕ → RangePeriod → Bool
get_block_status id p = block_status_in p.range_query_info_list

unfoldable pub delete_by_identifier : ℕ → RangePeriod → RangePeriod
delete_by_identifier id p = record p {
  range_query_info_list = keep (λ e. not (e.identifier == id)) p.range_query_info_list;
}

unfoldable pub delete_by_time : ℕ → RangePeriod → RangePeriod
delete_by_time t p = record p {
  range_query_info_list = keep (λ e. not (ltb e.time t)) p.range_query_info_list;
}

-- `pValue != NULL && range.IsValueOverlapping(*pValue)`.
unfoldable pub reads_value : Option Point → RangePeriodListEntry → Bool
reads_value none e = false
reads_value (some v) e = is_value_overlapping e.range v

-- The entries that are rolled back, in order, where the test holds.
unfoldable pub roll_back_entries :
    (RangePeriodListEntry → Bool) → List RangePeriodListEntry → RollbackList → RollbackList
roll_back_entries test [] rl = rl
roll_back_entries test (e ∷ es) rl =
    roll_back_entries test es (if test e then add_lp e.original_alp e.time rl else rl)

-- The three overloads of `PopulateRollbackList`: for a change of a value, for one from a time on,
-- and for a change of the range behind a port.
unfoldable pub is_stale : Option Point → Option Point → RangePeriodListEntry → Bool
is_stale old new e = reads_value old e || reads_value new e

unfoldable pub is_stale_after : Option Point → Option Point → ℕ → RangePeriodListEntry → Bool
is_stale_after old new t e = ltb t e.time && is_stale old new e

unfoldable pub is_blocked_on : ℕ → Option Range → RangePeriodListEntry → Bool
is_blocked_on t none e = false
is_blocked_on t (some r) e = ltb t e.time && e.block_status && is_range_overlapping r e.range

unfoldable pub populate_rollback_list :
    Option Point → Option Point → RollbackList → RangePeriod → RollbackList
populate_rollback_list old new rl p =
    roll_back_entries (is_stale old new) p.range_query_info_list rl

unfoldable pub populate_rollback_list_after :
    Option Point → Option Point → RollbackList → ℕ → RangePeriod → RollbackList
populate_rollback_list_after old new rl t p =
    roll_back_entries (is_stale_after old new t) p.range_query_info_list rl

unfoldable pub populate_rollback_list_for :
    RollbackList → ℕ → Option Range → RangePeriod → RollbackList
populate_rollback_list_for rl t r p =
    roll_back_entries (is_blocked_on t r) p.range_query_info_list rl

-- `MigrateRangeQueryInfo`: this period, and the other one.
unfoldable pub migrate_range_query_info : RangePeriod → ℕ → RangePeriod → RangePeriod × RangePeriod
migrate_range_query_info other t this = (
  record this { range_query_info_list = keep (λ e. not (ltb t e.time)) this.range_query_info_list },
  record other {
    range_query_info_list =
        other.range_query_info_list ++ keep (λ e. ltb t e.time) this.range_query_info_list;
  },
)
