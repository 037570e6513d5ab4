-- ===== src/RangeQuery/RangeRoutingTable.antt =====
-- rangequery/RangeRoutingTable.{h,cpp}: the range periods of one port, oldest first, and the
-- updates that are still to be sent to the neighbours.
pub mod Periods
pub mod Requests
mod Tests
use pdesmas_cloud.Base.{
  ℕ, List, [], ◌∷◌, ◌++◌, Option, none, some, Bool, true, false, ltb, leb, ◌==◌, ◌&&◌, not,
  if◌then◌else◌, keep,
}
use pdesmas_cloud.Lp.LpId.{LpId}
use pdesmas_cloud.Lp.RollbackList.{RollbackList}
use pdesmas_cloud.Types.Point.{Point}
use pdesmas_cloud.Types.Range.{Range, range_ne}
use pdesmas_cloud.RangeQuery.RangePeriod.{
  RangePeriod, RangePeriodListEntry, RangeUpdates, new_range_period, set_range,
  add_to_range_query_info_list, get_block_status, delete_by_identifier, delete_by_time,
  populate_rollback_list, populate_rollback_list_after, populate_rollback_list_for,
  migrate_range_query_info,
}

pub record RangeRoutingTable : Type 0 where
  pub range_period_list : List RangePeriod
  pub range_update_list : List RangeUpdates

-- Where an iterator of the list of periods stands.
pub record PeriodPlace : Type 0 where
  pub before : List RangePeriod
  pub period : RangePeriod
  pub after : List RangePeriod

-- The reverse walk that all operations share: past the periods later than `t`.
unfoldable pub walk_back : ℕ → List RangePeriod → Option PeriodPlace
walk_back t [] = none
walk_back t (p ∷ ps) = elim (walk_back t ps) [
  | some q ↦ some (record q { before = p ∷ q.before })
  | none ↦ if leb p.time t then some (record { before = []; period = p; after = ps }) else none
]

abbrev pub close : PeriodPlace → List RangePeriod
close q = q.before ++ q.period ∷ q.after

unfoldable pub clear_range_updates : RangeRoutingTable → RangeRoutingTable
clear_range_updates r = record r { range_update_list = [] }

unfoldable pub has_range_period : ℕ → RangeRoutingTable → Bool
has_range_period t r = elim (walk_back t r.range_period_list) [ none ↦ false | some _ ↦ true ]

unfoldable pub get_range_copy : ℕ → RangeRoutingTable → Option Range
get_range_copy t r = elim (walk_back t r.range_period_list) [
  | none ↦ none
  | some q ↦ q.period.range
]

-- An operation on the period that the reverse walk finds, where it finds one.
abbrev pub at_period : ℕ → (RangePeriod → RangePeriod) → RangeRoutingTable → RangeRoutingTable
at_period t f r = elim (walk_back t r.range_period_list) [
  | none ↦ r
  | some q ↦ record r { range_period_list = q.before ++ f q.period ∷ q.after }
]

unfoldable pub add_range_query_info :
    ℕ → ℕ → Range → Bool → LpId → RangeRoutingTable → RangeRoutingTable
add_range_query_info t id range blocked alp = at_period t (
    add_to_range_query_info_list (record {
      block_status = blocked;
      identifier = id;
      time = t;
      range = range;
      original_alp = alp;
    }))

unfoldable pub table_block_status : ℕ → ℕ → RangeRoutingTable → Bool
table_block_status t id r = elim (walk_back t r.range_period_list) [
  | none ↦ true
  | some q ↦ get_block_status id q.period
]

unfoldable pub delete_range_query_info : ℕ → ℕ → RangeRoutingTable → RangeRoutingTable
delete_range_query_info t id = at_period t (delete_by_identifier id)

-- `InsertRangePeriod`: in front of the first later period.
unfoldable pub insert_range_period : ℕ → RangePeriod → List RangePeriod → List RangePeriod
insert_range_period t p [] = p ∷ []
insert_range_period t p (q ∷ qs) =
    let rest = insert_range_period t p qs in if leb q.time t then q ∷ rest else p ∷ q ∷ qs

unfoldable pub delete_range_period : ℕ → List RangePeriod → List RangePeriod
delete_range_period t [] = []
delete_range_period t (q ∷ qs) =
    let rest = delete_range_period t qs in if q.time == t then qs else q ∷ rest

-- The erasing loop of `ClearRangePeriods`.
unfoldable pub erase_until : ℕ → List RangePeriod → List RangePeriod
erase_until t [] = []
erase_until t (p ∷ ps) = let rest = erase_until t ps in if p.time == t then p ∷ ps else rest

unfoldable pub clear_range_periods : ℕ → RangeRoutingTable → RangeRoutingTable
clear_range_periods t r = elim (walk_back t r.range_period_list) [
  | none ↦ r
  | some q ↦
      let p =
        if q.period.time == t then q.period else delete_by_time t (record q.period { time = t }) in
      record r { range_period_list = erase_until t (q.before ++ p ∷ q.after) }
]

abbrev pub push_update : ℕ → Option Range → Option Range → RangeRoutingTable → RangeRoutingTable
push_update t new old r = record r {
  range_update_list =
      r.range_update_list ++ record { time = t; new_range = new; old_range = old } ∷ [];
}

-- The part that `ProcessRangeUpdate` and `Update` share behind the rollbacks: the range of the
-- period that is current at `t` becomes `new`, from `t` on if both are ranges that differ.
unfoldable pub change_range : ℕ → Option Range → PeriodPlace → RangeRoutingTable → RangeRoutingTable
change_range t (some new) q r = elim q.period.range [
  | none ↦
      push_update t (some new) none
        (record r { range_period_list = q.before ++ set_range (some new) q.period ∷ q.after })
  | some old ↦
      if range_ne new old
      then push_update t (some new) (some old) (
          if q.period.time == t
          then record r { range_period_list = q.before ++ set_range (some new) q.period ∷ q.after }
          else (let (p, p') = migrate_range_query_info (new_range_period t (some new)) t q.period in
              record r { range_period_list = insert_range_period t p' (q.before ++ p ∷ q.after) }))
      else r
]
change_range t none q r =
    push_update t none q.period.range
      (record r { range_period_list = q.before ++ set_range none q.period ∷ q.after })

-- No period at `t` or before: a new one.
unfoldable pub add_first_range : ℕ → Option Range → RangeRoutingTable → RangeRoutingTable
add_first_range t new r = push_update t new none (record r {
  range_period_list = insert_range_period t (new_range_period t new) r.range_period_list;
})

unfoldable pub process_range_update :
    ℕ → Option Range → RangeRoutingTable → RollbackList → RangeRoutingTable × RollbackList
process_range_update t new r rl = elim (walk_back t r.range_period_list) [
  | none ↦ (add_first_range t new r, rl)
  | some q ↦ (change_range t new q r, populate_rollback_list_for rl t new q.period)
]

-- The last loop of `Update`, over the periods behind the first later one: up to the end time each
-- gets the range that the shared state recalculates for its start. The comparison of the two ranges
-- there is one of two pointers to copies, which differ, so every period is set.
unfoldable pub recalculate_periods :
    (ℕ → Option Range)
    → Option Point
    → Option Point
    → ℕ
    → ℕ
    → List RangePeriod
    → RollbackList
    → List RangePeriod × List RangeUpdates × RollbackList
recalculate_periods recalculate old new t end_time [] rl = ([], [], rl)
recalculate_periods recalculate old new t end_time (p ∷ ps) rl =
    if ltb p.time end_time
    then (let (ps', updates, rl') =
          recalculate_periods recalculate old new t end_time ps
            (populate_rollback_list old new rl p) in
        (
          set_range (recalculate p.time) p ∷ ps',
          record { time = t; new_range = recalculate p.time; old_range = p.range } ∷ updates,
          rl',
        ))
    else (p ∷ ps, [], rl)

-- The forward walk to the first later period, and one step past it.
unfoldable pub recalculate_later :
    (ℕ → Option Range)
    → Option Point
    → Option Point
    → ℕ
    → ℕ
    → List RangePeriod
    → RollbackList
    → List RangePeriod × List RangeUpdates × RollbackList
recalculate_later recalculate old new t end_time [] rl = ([], [], rl)
recalculate_later recalculate old new t end_time (p ∷ ps) rl =
    let (qs, updates, rl') =
      if leb p.time t
      then recalculate_later recalculate old new t end_time ps rl
      else recalculate_periods recalculate old new t end_time ps rl in
    (p ∷ qs, updates, rl')

-- `fRangePeriodList.rbegin()->GetTime()` of a list that is not empty.
unfoldable pub last_time : RangePeriod → List RangePeriod → ℕ
last_time p [] = p.time
last_time p (q ∷ qs) = last_time q qs

-- `size() > 1 && rbegin()->GetTime() != pTime`.
unfoldable pub has_later_part : ℕ → List RangePeriod → Bool
has_later_part t [] = false
has_later_part t (p ∷ []) = false
has_later_part t (p ∷ q ∷ qs) = not (last_time q qs == t)

-- `Update`; what it asks of the shared state is its `RecalculateRange`.
unfoldable pub update :
    Option Point
    → Option Point
    → ℕ
    → Option Range
    → (ℕ → Option Range)
    → RangeRoutingTable
    → RollbackList
    → ℕ
    → RangeRoutingTable × RollbackList
update old new t new_range recalculate r rl end_time = elim (walk_back t r.range_period_list) [
  | none ↦ (add_first_range t new_range r, rl)
  | some q ↦
      let r' = change_range t new_range q r in
      let rl' = populate_rollback_list_after old new rl t q.period in
      let (ps, updates, rl'') =
        recalculate_later recalculate old new t end_time r'.range_period_list rl' in
      if has_later_part t r'.range_period_list
      then (
        record { range_period_list = ps; range_update_list = r'.range_update_list ++ updates },
        rl'',
      )
      else (r', rl')
]
