-- ===== src/RangeQuery/RangeRoutingTable/Tests.antt =====
-- A run of RangeRoutingTable.cpp, and the theorem on it.
use pdesmas_cloud.Base.{◌≡◌, [], ◌∷◌, some, arith}
use pdesmas_cloud.RangeQuery.RangePeriod.Tests.{period, query}
use pdesmas_cloud.RangeQuery.RangeRoutingTable.{
  RangeRoutingTable, get_range_copy, clear_range_periods, walk_back,
}
use pdesmas_cloud.RangeQuery.RangeRoutingTable.Periods.{get_range_copy-clear_range_periods}

abbrev table : RangeRoutingTable
table = record { range_period_list = period ∷ []; range_update_list = [] }

get_range_copy-clear_range_periods_example :
    get_range_copy 9 (clear_range_periods 6 table) ≡ some query.range
unfolding get_range_copy walk_back
get_range_copy-clear_range_periods_example =
    get_range_copy-clear_range_periods 9 6 table (omega arith)
