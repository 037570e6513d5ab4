-- ===== src/RangeQuery/RangePeriod/Tests.antt =====
-- Runs of RangePeriod.cpp, and a theorem on them.
use pdesmas_cloud.Base.{◌≡◌, refl, inl, [], ◌∷◌, none, some, true}
use pdesmas_cloud.Base.Int.{pos}
use pdesmas_cloud.Lp.LpId.{LpId}
use pdesmas_cloud.Lp.RollbackList.Covers.{Covers}
use pdesmas_cloud.Types.Point.{Point, point_lt, point_gt}
use pdesmas_cloud.Types.Range.{is_value_overlapping}
use pdesmas_cloud.RangeQuery.RangePeriod.{
  RangePeriod, RangePeriodListEntry, populate_rollback_list_after,
}
use pdesmas_cloud.RangeQuery.RangePeriod.Queries.{populate_rollback_list_after-HasQuery}

abbrev agent : LpId
agent = record { identifier = 7; rank = 3 }

abbrev pub query : RangePeriodListEntry
query = record {
  block_status = true;
  identifier = 1;
  time = 5;
  range = record {
    min_range_value = record { x = pos 0; y = pos 0 };
    max_range_value = record { x = pos 4; y = pos 4 };
  };
  original_alp = agent;
}

abbrev pub period : RangePeriod
period = record { time = 2; range = some query.range; range_query_info_list = query ∷ [] }

abbrev point : Point
point = record { x = pos 1; y = pos 2 }

in_range : is_value_overlapping query.range point ≡ true
unfolding is_value_overlapping point_lt point_gt
in_range = refl

populate_rollback_list_after-HasQuery_example :
    Covers agent 5 (populate_rollback_list_after (some point) none [] 3 period)
populate_rollback_list_after-HasQuery_example =
    populate_rollback_list_after-HasQuery (some point) none point 3 [] period query (inl refl)
      (inl refl) refl in_range
