-- ===== src/RangeQuery/RangeRoutingTable/Periods.antt =====
-- The range behind a port as a function of time, and what RangeRoutingTable.cpp does to it.
use pdesmas_cloud.Base.{
  ℕ, ◌≤◌, ◌≡◌, refl, inl, inr, List, [], ◌∷◌, ◌++◌, Option, none, some, leb, ◌==◌, if◌then◌else◌,
  arith, Option-cases,
}
use pdesmas_cloud.Types.Range.{Range}
use pdesmas_cloud.RangeQuery.RangePeriod.{RangePeriod, delete_by_time}
use pdesmas_cloud.RangeQuery.RangeRoutingTable.{
  RangeRoutingTable, PeriodPlace, walk_back, close, get_range_copy, erase_until,
  clear_range_periods,
}

-- The range of the last period at `t` or before, if there is such a period.
unfoldable range_at : ℕ → List RangePeriod → Option (Option Range)
range_at t [] = none
range_at t (p ∷ ps) = elim (range_at t ps) [
  | some r ↦ some r
  | none ↦ if leb p.time t then some p.range else none
]

abbrev or_else : Option (Option Range) → Option (Option Range) → Option (Option Range)
or_else (some r) o = some r
or_else none o = o

range_at-append :
    (t : ℕ) (ps qs : List RangePeriod)
    → range_at t (ps ++ qs) ≡ or_else (range_at t qs) (range_at t ps)
unfolding range_at
range_at-append t [] qs = ground arith
range_at-append t (p ∷ ps) qs = ground (arith, range_at-append t ps qs)

walk_back-some :
    (t : ℕ) (ps : List RangePeriod) (q : PeriodPlace)
    → walk_back t ps ≡ some q
    → (close q ≡ ps) × (q.period.time ≤ t)
unfolding walk_back
walk_back-some t [] q e = cc
walk_back-some t (p ∷ ps) q e = elim (Option-cases (walk_back t ps)) [
  | inl n ↦ ground arith
  | inr (u, s) ↦ ground (arith, walk_back-some t ps u s)
]

-- The reverse walk finds the period that the range at the time is of.
walk_back-range_at :
    (t : ℕ) (ps : List RangePeriod)
    → range_at t ps ≡ elim (walk_back t ps) [ none ↦ none | some q ↦ some q.period.range ]
unfolding walk_back range_at
walk_back-range_at t [] = refl
walk_back-range_at t (p ∷ ps) = ground (arith, walk_back-range_at t ps)

get_range_copy-range_at :
    (t : ℕ) (r : RangeRoutingTable)
    → get_range_copy t r
      ≡ elim (range_at t r.range_period_list) [ none ↦ none | some range ↦ range ]
unfolding get_range_copy
get_range_copy-range_at t r = ground (arith, walk_back-range_at t r.range_period_list)

range_at-erase_until :
    (s t : ℕ) (xs : List RangePeriod) (p : RangePeriod) (ys : List RangePeriod)
    → p.time ≡ t
    → t ≤ s
    → range_at s (erase_until t (xs ++ p ∷ ys)) ≡ range_at s (p ∷ ys)
unfolding erase_until range_at
range_at-erase_until s t [] p ys e le = ground arith
range_at-erase_until s t (x ∷ xs) p ys e le =
    ground (arith, range_at-erase_until s t xs p ys e le, range_at-append s xs (p ∷ ys))

range_at-cut :
    (s t : ℕ) (xs : List RangePeriod) (p p' : RangePeriod) (ys : List RangePeriod)
    → p.time ≤ t
    → p'.time ≡ t
    → p'.range ≡ p.range
    → t ≤ s
    → range_at s (erase_until t (xs ++ p' ∷ ys)) ≡ range_at s (xs ++ p ∷ ys)
unfolding range_at
range_at-cut s t xs p p' ys early e same le =
    rw (range_at-erase_until s t xs p' ys e le, range_at-append s xs (p ∷ ys)) (ground arith)

-- Clearing the periods up to `t`, as `SetGvt` does at each port, leaves the range behind the port
-- at `t` and later as it was.
pub get_range_copy-clear_range_periods :
    (s t : ℕ) (r : RangeRoutingTable)
    → t ≤ s
    → get_range_copy s (clear_range_periods t r) ≡ get_range_copy s r
unfolding clear_range_periods delete_by_time
get_range_copy-clear_range_periods s t r le =
    elim (Option-cases (walk_back t r.range_period_list)) [
      | inl n ↦ rw (n, clear_range_periods)
      | inr (q, found) ↦
          let (closed, early) = walk_back-some t r.range_period_list q found in
          let p =
            if q.period.time == t
            then q.period
            else delete_by_time t (record q.period { time = t }) in
          let cut : range_at s (erase_until t (q.before ++ p ∷ q.after)) ≡ range_at s (close q) =
            range_at-cut s t q.before q.period p q.after early (ground arith) (ground arith) le in
          rw (
            get_range_copy-range_at s (clear_range_periods t r),
            get_range_copy-range_at s r,
            found,
            clear_range_periods,
            ← closed,
            cut,
          )
    ]
