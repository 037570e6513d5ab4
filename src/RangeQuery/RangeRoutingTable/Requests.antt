-- ===== src/RangeQuery/RangeRoutingTable/Requests.antt =====
-- RangeRoutingTable.cpp: what `Update` keeps of the requests to roll back.
use pdesmas_cloud.Base.{ℕ, List, [], ◌∷◌, Option, ltb, leb, Option-cases, Bool-cases, inl, inr}
use pdesmas_cloud.Lp.LpId.{LpId}
use pdesmas_cloud.Lp.RollbackList.{RollbackList}
use pdesmas_cloud.Lp.RollbackList.Covers.{Covers}
use pdesmas_cloud.RangeQuery.RangePeriod.{
  RangePeriod, populate_rollback_list, populate_rollback_list_after, is_stale, is_stale_after,
}
use pdesmas_cloud.RangeQuery.RangePeriod.Queries.{roll_back_entries-Covers}
use pdesmas_cloud.RangeQuery.RangeRoutingTable.{
  RangeRoutingTable, walk_back, change_range, recalculate_periods, recalculate_later,
  has_later_part, update,
}
use pdesmas_cloud.Types.Point.{Point}
use pdesmas_cloud.Types.Range.{Range}

module _ (f : ℕ → Option Range) (old new : Option Point) (a : LpId) (s : ℕ) where
  recalculate_periods-Covers :
      (t end_time : ℕ) (ps : List RangePeriod) (rl : RollbackList)
      → Covers a s rl
      → Covers a s (recalculate_periods f old new t end_time ps rl).2
  unfolding recalculate_periods populate_rollback_list
  recalculate_periods-Covers t end_time [] rl c = c
  recalculate_periods-Covers t end_time (p ∷ ps) rl c = elim (Bool-cases (ltb p.time end_time)) [
    | inl before ↦
        rw (before, recalculate_periods)
          (recalculate_periods-Covers t end_time ps _
            (roll_back_entries-Covers (is_stale old new) a s p.range_query_info_list rl c))
    | inr behind ↦ rw (behind, recalculate_periods) c
  ]

  recalculate_later-Covers :
      (t end_time : ℕ) (ps : List RangePeriod) (rl : RollbackList)
      → Covers a s rl
      → Covers a s (recalculate_later f old new t end_time ps rl).2
  unfolding recalculate_later
  recalculate_later-Covers t end_time [] rl c = c
  recalculate_later-Covers t end_time (p ∷ ps) rl c = elim (Bool-cases (leb p.time t)) [
    | inl before ↦ rw (before, recalculate_later) (recalculate_later-Covers t end_time ps rl c)
    | inr behind ↦ rw (behind, recalculate_later) (recalculate_periods-Covers t end_time ps rl c)
  ]

  pub update-Covers :
      (t : ℕ) (range : Option Range) (r : RangeRoutingTable) (rl : RollbackList) (end_time : ℕ)
      → Covers a s rl
      → Covers a s (update old new t range f r rl end_time).1
  unfolding update populate_rollback_list_after
  update-Covers t range r rl end_time c = elim (Option-cases (walk_back t r.range_period_list)) [
    | inl n ↦ rw (n, update) c
    | inr (q, found) ↦
        let ps = (change_range t range q r).range_period_list in
        let kept =
          roll_back_entries-Covers (is_stale_after old new t) a s q.period.range_query_info_list rl
            c in
        elim (Bool-cases (has_later_part t ps)) [
          | inl more ↦ rw (found, update, more) (recalculate_later-Covers t end_time ps _ kept)
          | inr all ↦ rw (found, update, all) kept
        ]
  ]
