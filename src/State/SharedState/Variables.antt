-- ===== src/State/SharedState/Variables.antt =====
-- What the operations of SharedState.cpp do to the variables, and what they read of them.
use pdesmas_cloud.Base.{
  ℕ, ◌≤◌, ◌≡◌, ◌≢◌, refl, [], ◌∷◌, Option, none, some, ◌==◌, if◌then◌else◌, arith, All,
  Option-cases, Bool-cases, inl, inr,
}
use pdesmas_cloud.Base.NatMap.{NatMap, find, find-assign, find-insert}
use pdesmas_cloud.Lp.LpId.{LpId}
use pdesmas_cloud.Lp.RollbackList.{RollbackList}
use pdesmas_cloud.State.SsvId.{SsvId}
use pdesmas_cloud.State.StateVariable.{WriteStatus, read_without_record, write_with_rollback}
use pdesmas_cloud.State.StateVariable.Writes.{read_without_record-remove_write_periods}
use pdesmas_cloud.State.SharedState.{
  SharedState, History, set_history, update_ranges, write, range_from, recalculate_range,
  count_access, range_read_from, range_read, remove_all_periods, remove_write_periods_before,
}
use pdesmas_cloud.Types.Direction.{Direction}
use pdesmas_cloud.Types.Point.{Point}
use pdesmas_cloud.Types.Range.{Range, is_value_overlapping}
use pdesmas_cloud.Types.Value.{AbstractValue, point_of}

pub update_ranges-map :
    (old new : Option Point) (t e : ℕ) (s : SharedState) (rl : RollbackList)
    → (update_ranges old new t e s rl).0.state_variable_map ≡ s.state_variable_map
unfolding update_ranges
update_ranges-map none none t e s rl = refl
update_ranges-map (some p) none t e s rl = refl
update_ranges-map none (some q) t e s rl = refl
update_ranges-map (some p) (some q) t e s rl = refl

-- A write to a variable that is there is carried out, changes the history of that variable the way
-- `WriteWithRollback` of its history does, and leaves the history of every other variable.
pub write-find :
    (ssv other : SsvId) (agent : LpId) (v : Option AbstractValue) (t : ℕ) (h : History)
    (s : SharedState) (rl : RollbackList)
    → find ssv s.state_variable_map ≡ some h
    → (r : SharedState × WriteStatus × RollbackList) × (write ssv agent v t s rl ≡ some r)
      × (r.1 ≡ (write_with_rollback agent v t h rl).1)
      × (find other r.0.state_variable_map ≡ (
          if ssv == other
          then some (write_with_rollback agent v t h rl).0
          else find other s.state_variable_map))
unfolding write
write-find ssv other agent v t h s rl e =
    let w = write_with_rollback agent v t h rl in
    let before = read_without_record t h in
    let (s', rl') =
      update_ranges (point_of before.1) (point_of v) t before.0 (set_history ssv w.0 s) w.2 in
    (
      (s', w.1, rl'),
      rw (e, write),
      refl,
      rw (update_ranges-map (point_of before.1) (point_of v) t before.0 (set_history ssv w.0 s) w.2)
          (find-assign ssv other w.0 s.state_variable_map),
    )

-- Fossil collection.
range_from-remove :
    (s t : ℕ) (m : NatMap History) (r : Option Range)
    → t ≤ s
    → range_from s r (remove_all_periods t m) ≡ range_from s r m
unfolding range_from remove_all_periods
range_from-remove s t [] r le = refl
range_from-remove s t ((ssv, h) ∷ m) none le =
    rw (remove_all_periods, range_from, read_without_record-remove_write_periods s t h le)
      (elim (Option-cases (point_of (read_without_record s h).1)) [
        | inl n ↦ rw (n, range_from) (range_from-remove s t m none le)
        | inr (p, e) ↦ rw (e, range_from) (range_from-remove s t m _ le)
      ])
range_from-remove s t ((ssv, h) ∷ m) (some r) le =
    rw (remove_all_periods, range_from, read_without_record-remove_write_periods s t h le)
      (elim (Option-cases (point_of (read_without_record s h).1)) [
        | inl n ↦ rw (n, range_from) (range_from-remove s t m (some r) le)
        | inr (p, e) ↦ rw (e, range_from) (range_from-remove s t m _ le)
      ])

-- Fossil collection up to `t` leaves the range of the hosted points at `t` and later as it was.
pub recalculate_range-remove_write_periods_before :
    (s t : ℕ) (st : SharedState)
    → t ≤ s
    → recalculate_range s (remove_write_periods_before t st) ≡ recalculate_range s st
unfolding recalculate_range remove_write_periods_before
recalculate_range-remove_write_periods_before s t st le =
    range_from-remove s t st.state_variable_map none le

-- The point that a history has at a time, if it lies in the range.
abbrev pub point_in : Range → ℕ → History → Option Point
point_in r t h = elim (point_of (read_without_record t h).1) [
  | none ↦ none
  | some p ↦ if is_value_overlapping r p then some p else none
]

-- No variable has two entries in the map.
abbrev pub IsMap : NatMap History → Type 0
IsMap [] = Unit
IsMap ((ssv, h) ∷ m) = All (λ e. e.0 ≢ ssv) m × IsMap m

find-All : (ssv : ℕ) (m : NatMap History) → All (λ e. e.0 ≢ ssv) m → find ssv m ≡ none
unfolding find
find-All ssv [] h = refl
find-All ssv ((k, v) ∷ m) h = ground (arith, find-All ssv m h.1)

range_read_from-find :
    (r : Range) (d : Direction) (hops t ssv : ℕ) (m : NatMap History) (s : SharedState)
    → IsMap m
    → find ssv (range_read_from r d hops t m s).1
      ≡ elim (find ssv m) [ none ↦ none | some h ↦ point_in r t h ]
unfolding range_read_from find
range_read_from-find r d hops t ssv [] s h = refl
range_read_from-find r d hops t ssv ((k, w) ∷ m) s h =
    elim (Option-cases (point_of (read_without_record t w).1)) [
      | inl n ↦
          rw (n, range_read_from)
            (ground (arith, range_read_from-find r d hops t ssv m s h.1, find-All ssv m))
      | inr (p, e) ↦ elim (Bool-cases (is_value_overlapping r p)) [
        | inl hit ↦
            let points = (range_read_from r d hops t m (count_access k d hops s)).1 in
            rw (e, range_read_from, hit)
              (ground (
                arith,
                find-insert k ssv p points,
                range_read_from-find r d hops t k m (count_access k d hops s) h.1,
                range_read_from-find r d hops t ssv m (count_access k d hops s) h.1,
                find-All k m h.0,
              ))
        | inr miss ↦
            rw (e, range_read_from, miss)
              (ground (arith, range_read_from-find r d hops t ssv m s h.1, find-All ssv m))
      ]
    ]

-- In a map where no variable has two entries a range read at a time gives just the variables whose
-- value at that time is a point of the range, each with that point.
pub range_read-find :
    (r : Range) (d : Direction) (hops t ssv : ℕ) (s : SharedState)
    → IsMap s.state_variable_map
    → find ssv (range_read r d hops t s).1
      ≡ elim (find ssv s.state_variable_map) [ none ↦ none | some h ↦ point_in r t h ]
unfolding range_read
range_read-find r d hops t ssv s h = range_read_from-find r d hops t ssv s.state_variable_map s h
