-- ===== src/RangeQuery/RangePeriod/Queries.antt =====
-- Which range queries RangePeriod.cpp rolls back.
use pdesmas_cloud.Base.{
  ℕ, ◌≡◌, ◌⊎◌, inl, inr, List, [], ◌∷◌, Option, some, Bool, true, ltb, arith, length, length-append,
  ◌+◌, keep, not,
}
use pdesmas_cloud.Lp.LpId.{LpId}
use pdesmas_cloud.Lp.RollbackList.{RollbackList}
use pdesmas_cloud.Lp.RollbackList.Covers.{Covers, add_lp-Covers, add_lp-Covers_self}
use pdesmas_cloud.Types.Point.{Point}
use pdesmas_cloud.Types.Range.{is_value_overlapping}
use pdesmas_cloud.RangeQuery.RangePeriod.{
  RangePeriod, RangePeriodListEntry, roll_back_entries, populate_rollback_list_after, is_stale,
  is_stale_after, reads_value, migrate_range_query_info,
}

-- A query on the list.
abbrev pub HasQuery : RangePeriodListEntry → List RangePeriodListEntry → Type 0
HasQuery e [] = ⊥
HasQuery e (q ∷ qs) = (q ≡ e) ⊎ HasQuery e qs

pub roll_back_entries-Covers :
    (test : RangePeriodListEntry → Bool) (agent : LpId) (s : ℕ) (es : List RangePeriodListEntry)
    (rl : RollbackList)
    → Covers agent s rl
    → Covers agent s (roll_back_entries test es rl)
unfolding roll_back_entries
roll_back_entries-Covers test agent s [] rl c = c
roll_back_entries-Covers test agent s (e ∷ es) rl c =
    roll_back_entries-Covers test agent s es _
      (ground (arith, add_lp-Covers e.original_alp agent e.time s rl c))

pub roll_back_entries-HasQuery :
    (test : RangePeriodListEntry → Bool) (e : RangePeriodListEntry) (es : List RangePeriodListEntry)
    (rl : RollbackList)
    → HasQuery e es
    → test e ≡ true
    → Covers e.original_alp e.time (roll_back_entries test es rl)
unfolding roll_back_entries
roll_back_entries-HasQuery test e [] rl h ok = absurd h
roll_back_entries-HasQuery test e (q ∷ qs) rl (inl same) ok =
    roll_back_entries-Covers test e.original_alp e.time qs _
      (rw same (rw ok (add_lp-Covers_self e.original_alp e.time rl)))
roll_back_entries-HasQuery test e (q ∷ qs) rl (inr h) ok =
    roll_back_entries-HasQuery test e qs _ h ok

stale_of :
    (old new : Option Point) (p : Point) (t : ℕ) (e : RangePeriodListEntry)
    → (old ≡ some p) ⊎ (new ≡ some p)
    → ltb t e.time ≡ true
    → is_value_overlapping e.range p ≡ true
    → is_stale_after old new t e ≡ true
unfolding is_stale_after is_stale reads_value
stale_of old new p t e (inl o) late hit = rw (o, late) (ground arith)
stale_of old new p t e (inr n) late hit = rw (n, late) (ground arith)

-- A change at a time from one point to another leaves on the rollback list, for every range query of
-- the period that was made behind that time and whose range holds either point, an entry under the key
-- of its agent, at the time of the query or before. The entry need not name that agent: the map of the
-- list takes other agents, all those of one process among them, for the same key.
pub populate_rollback_list_after-HasQuery :
    (old new : Option Point) (p : Point) (t : ℕ) (rl : RollbackList) (w : RangePeriod)
    (e : RangePeriodListEntry)
    → (old ≡ some p) ⊎ (new ≡ some p)
    → HasQuery e w.range_query_info_list
    → ltb t e.time ≡ true
    → is_value_overlapping e.range p ≡ true
    → Covers e.original_alp e.time (populate_rollback_list_after old new rl t w)
unfolding populate_rollback_list_after
populate_rollback_list_after-HasQuery old new p t rl w e changed h late hit =
    roll_back_entries-HasQuery (is_stale_after old new t) e w.range_query_info_list rl h
      (stale_of old new p t e changed late hit)

length-keep :
    (p : RangePeriodListEntry → Bool) (es : List RangePeriodListEntry)
    → length (keep (λ e. not (p e)) es) + length (keep p es) ≡ length es
length-keep p [] = omega arith
length-keep p (e ∷ es) = ground (arith, length-keep p es)

-- After `MigrateRangeQueryInfo` the two periods have together as many queries as before.
pub migrate_range_query_info-length :
    (other this : RangePeriod) (t : ℕ)
    → length (migrate_range_query_info other t this).0.range_query_info_list
        + length (migrate_range_query_info other t this).1.range_query_info_list
      ≡ length this.range_query_info_list + length other.range_query_info_list
unfolding migrate_range_query_info
migrate_range_query_info-length other this t = omega (
  arith,
  length-append other.range_query_info_list (keep (λ e. ltb t e.time) this.range_query_info_list),
  length-keep (λ e. ltb t e.time) this.range_query_info_list,
)
