-- ===== src/State/SharedState/Requests.antt =====
-- SharedState.cpp: a write, and the requests to roll back that come with it.
use pdesmas_cloud.Base.{ℕ, ◌≡◌, [], Option, none, some, arith}
use pdesmas_cloud.Base.NatMap.{find, find-assign}
use pdesmas_cloud.Lp.LpId.{LpId}
use pdesmas_cloud.Lp.RollbackList.{RollbackList}
use pdesmas_cloud.Lp.RollbackList.Covers.{Covers}
use pdesmas_cloud.RangeQuery.RangeRoutingTable.Requests.{update-Covers}
use pdesmas_cloud.State.SharedState.{
  SharedState, History, update_ranges, set_history, recalculate_range, count_access, rollback_write,
}
use pdesmas_cloud.State.SharedState
use pdesmas_cloud.State.SharedState.Variables.{update_ranges-map}
use pdesmas_cloud.State.SsvId.{SsvId}
use pdesmas_cloud.State.StateVariable.{
  WriteStatus, write_with_rollback, read_without_record, perform_write_rollback,
}
use pdesmas_cloud.Types.Point.{Point}
use pdesmas_cloud.Types.Value.{AbstractValue, point_of}

update_ranges-Covers :
    (a : LpId) (u : ℕ) (old new : Option Point) (t e : ℕ) (s : SharedState) (rl : RollbackList)
    → Covers a u rl
    → Covers a u (update_ranges old new t e s rl).1
unfolding update_ranges
update_ranges-Covers a u none none t e s rl c = c
update_ranges-Covers a u (some p) none t e s rl c =
    update-Covers (λ x. recalculate_range x s) (some p) none a u t (recalculate_range t s)
      s.range_routing_table rl e c
update_ranges-Covers a u none (some p) t e s rl c =
    update-Covers (λ x. recalculate_range x s) none (some p) a u t (recalculate_range t s)
      s.range_routing_table rl e c
update_ranges-Covers a u (some p) (some p') t e s rl c =
    update-Covers (λ x. recalculate_range x s) (some p) (some p') a u t (recalculate_range t s)
      s.range_routing_table rl e c

-- A write to a variable that is there changes its history, and keeps the requests to roll back.
pub write-Covers :
    (ssv : SsvId) (agent : LpId) (v : Option AbstractValue) (t : ℕ) (h : History)
    (s s' : SharedState) (status : WriteStatus) (rl : RollbackList) (a : LpId) (u : ℕ)
    → find ssv s.state_variable_map ≡ some h
    → SharedState.write ssv agent v t s [] ≡ some (s', status, rl)
    → (find ssv s'.state_variable_map ≡ some (write_with_rollback agent v t h []).0)
      × (status ≡ (write_with_rollback agent v t h []).1)
      × (Covers a u (write_with_rollback agent v t h []).2 → Covers a u rl)
unfolding SharedState.write
write-Covers ssv agent v t h s s' status rl a u there e =
    let w = write_with_rollback agent v t h [] in
    let (end_time, old) = read_without_record t h in
    let r = update_ranges (point_of old) (point_of v) t end_time (set_history ssv w.0 s) w.2 in
    let done : ◌≡◌ {A = Option (SharedState × WriteStatus × RollbackList)} (some (r.0, w.1, r.1))
        (some (s', status, rl)) =
      rw (there, SharedState.write) at e in
    let map : r.0.state_variable_map ≡ (set_history ssv w.0 s).state_variable_map =
      update_ranges-map (point_of old) (point_of v) t end_time (set_history ssv w.0 s) w.2 in
    let same : r.0 ≡ s' = cc in
    let list : r.1 ≡ rl = cc in
    (
      rw (← same, map) (ground (arith, find-assign ssv ssv w.0 s.state_variable_map)),
      cc,
      λ c. rw (← list) (
          update_ranges-Covers a u (point_of old) (point_of v) t end_time (set_history ssv w.0 s)
            w.2 c),
    )

-- A write that is rolled back, in the history of its variable.
pub rollback_write-find :
    (ssv : SsvId) (agent : LpId) (t : ℕ) (h : History) (s s' : SharedState) (rl : RollbackList)
    → find ssv s.state_variable_map ≡ some h
    → rollback_write ssv agent t s [] ≡ some (s', rl)
    → find ssv s'.state_variable_map ≡ some ((perform_write_rollback agent t h []).0)
unfolding rollback_write
rollback_write-find ssv agent t h s s' rl there e =
    let w = perform_write_rollback agent t h [] in
    let (end_time, old) = read_without_record t h in
    let new = (read_without_record t w.0).1 in
    let r = update_ranges (point_of old) (point_of new) t end_time (set_history ssv w.0 s) w.1 in
    let done : ◌≡◌ {A = Option (SharedState × RollbackList)} (some r) (some (s', rl)) =
      rw (there, rollback_write) at e in
    let map : r.0.state_variable_map ≡ (set_history ssv w.0 s).state_variable_map =
      update_ranges-map (point_of old) (point_of new) t end_time (set_history ssv w.0 s) w.1 in
    let same : r.0 ≡ s' = cc in
    rw (← same, map) (ground (arith, find-assign ssv ssv w.0 s.state_variable_map))
