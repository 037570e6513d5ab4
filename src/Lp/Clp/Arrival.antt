-- ===== src/Lp/Clp/Arrival.antt =====
-- Clp.cpp: the variables that a migration message brings.
use pdesmas_cloud.Base.{
  ℕ, [], ◌∷◌, Option, none, some, true, ◌≡◌, ◌⊎◌, ◌==◌, ◌||◌, arith, inl, inr, >>=-eq-some, sym,
  ◌∙◌, subst, ulong_max, Any,
}
use pdesmas_cloud.Base.NatMap.{NatMap, find-assign}
use pdesmas_cloud.Lp.Clp.{Clp, set_table, new_tag, rollback_by_sm, clear_here}
use pdesmas_cloud.Lp.Clp.Frame.{balancing, flush_range_updates_frame}
use pdesmas_cloud.Lp.Clp.Migration.{take_in, process_state_migration}
use pdesmas_cloud.Lp.Clp.RangeUpdates.{flush_range_updates}
use pdesmas_cloud.Lp.RollbackList.{RollbackList}
use pdesmas_cloud.Lp.RollbackList.Sending.{send_rollbacks}
use pdesmas_cloud.Messages.LpMessage.{StateMigrationMessage}
use pdesmas_cloud.Routing.Router.{Router, next_to_ssv, next_towards, set_ssv_id_direction}
use pdesmas_cloud.Routing.Router.Hosts.{next_to_ssv-set_ssv_id_direction}
use pdesmas_cloud.State.SharedState.{
  SharedState, History, set_history, update_ranges, contains_variable,
}
use pdesmas_cloud.State.SharedState.Moves.{insert_variable, insert_periods, insert_period}
use pdesmas_cloud.State.SharedState.Variables.{update_ranges-map}
use pdesmas_cloud.State.SsvId.{SsvId}
use pdesmas_cloud.State.WritePeriod.{WritePeriod}
use pdesmas_cloud.Types.Direction.{here}
use pdesmas_cloud.Types.Point.{Point}
use pdesmas_cloud.Types.Value.{AbstractValue}

set_history-contains :
    (k ssv : SsvId) (h : History) (s : SharedState)
    → contains_variable k (set_history ssv h s) ≡ (ssv == k || contains_variable k s)
unfolding contains_variable
set_history-contains k ssv h s = ground (arith, find-assign ssv k h s.state_variable_map)

-- A variable that is there stays there while write periods are inserted.
update_ranges-contains :
    (k ssv : SsvId) (h : History) (old new : Option Point) (t e : ℕ) (s : SharedState)
    (rl : RollbackList)
    → contains_variable k s ≡ true
    → contains_variable k (update_ranges old new t e (set_history ssv h s) rl).0 ≡ true
unfolding contains_variable
update_ranges-contains k ssv h old new t e s rl there =
    rw (contains_variable, update_ranges-map old new t e (set_history ssv h s) rl)
      (ground (arith, find-assign ssv k h s.state_variable_map))

insert_period-contains :
    (k ssv : SsvId) (w : WritePeriod AbstractValue) (s : SharedState) (rl : RollbackList)
    → contains_variable k s ≡ true
    → contains_variable k (insert_period ssv w s rl).0 ≡ true
unfolding insert_period
insert_period-contains k ssv w s rl h = update_ranges-contains k ssv _ _ _ _ _ s _ h

insert_periods-contains :
    (k ssv : SsvId) (ws : History) (s : SharedState) (rl : RollbackList)
    → contains_variable k s ≡ true
    → contains_variable k (insert_periods ssv ws s rl).0 ≡ true
unfolding insert_periods
insert_periods-contains k ssv [] s rl h = h
insert_periods-contains k ssv (w ∷ ws) s rl h =
    insert_periods-contains k ssv ws (insert_period ssv w s rl).0 (insert_period ssv w s rl).1
      (insert_period-contains k ssv w s rl h)

insert_variable-contains :
    (k ssv : SsvId) (h : History) (s s' : SharedState) (rl rl' : RollbackList)
    → insert_variable ssv h s rl ≡ some (s', rl')
    → (ssv == k || contains_variable k s) ≡ true
    → contains_variable k s' ≡ true
unfolding insert_variable contains_variable
insert_variable-contains k ssv h s s' rl rl' e there = ground (
  arith,
  insert_periods-contains k ssv h (set_history ssv [] s) rl,
  set_history-contains k ssv [] s,
)

-- This CLP has the variable, and keeps the requests for it.
abbrev pub IsHosted : SsvId → Clp → Type 0
IsHosted k c = (contains_variable k c.shared_state ≡ true) × (next_to_ssv k c.router ≡ some none)

-- The way to a variable whose host is set to this CLP, and to any other.
next_to_ssv-here :
    (k ssv : SsvId) (r : Router)
    → (next_to_ssv k r ≡ some none) ⊎ (ssv ≡ k)
    → next_to_ssv k (set_ssv_id_direction ssv here r) ≡ some none
unfolding next_towards
next_to_ssv-here k ssv r why =
    next_to_ssv-set_ssv_id_direction ssv k here r (λ e. cc) ∙ ground arith

is_there :
    (k ssv : SsvId) (c : Clp)
    → IsHosted k c ⊎ (ssv ≡ k)
    → (ssv == k || contains_variable k c.shared_state) ≡ true
is_there k ssv c (inl (h, _)) = ground arith
is_there k ssv c (inr e) = ground arith

route_there :
    (k ssv : SsvId) (c : Clp)
    → IsHosted k c ⊎ (ssv ≡ k)
    → (next_to_ssv k c.router ≡ some none) ⊎ (ssv ≡ k)
route_there k ssv c (inl (_, r)) = inl r
route_there k ssv c (inr e) = inr e

-- A variable that is there, or the next one of the message, is there behind one turn.
settles :
    (k ssv : SsvId) (h : History) (now : ℕ) (c f : Clp) (s : SharedState) (rl : RollbackList)
    → insert_variable ssv h c.shared_state [] ≡ some (s, rl)
    → flush_range_updates here (record c {
      router = set_ssv_id_direction ssv here c.router;
      shared_state = s;
      lp = send_rollbacks (new_tag ssv ulong_max rollback_by_sm now) rl c.lp;
    })
      ≡ some f
    → IsHosted k c ⊎ (ssv ≡ k)
    → IsHosted k f
unfolding set_table contains_variable
settles k ssv h now c f s rl es ef why =
    let moved : Clp = record c {
      router = set_ssv_id_direction ssv here c.router;
      shared_state = s;
      lp = send_rollbacks (new_tag ssv ulong_max rollback_by_sm now) rl c.lp;
    } in
    let (q, t, frame) = flush_range_updates_frame here moved f ef in
    let hosted : IsHosted k (set_table here t (balancing q moved)) = (
      insert_variable-contains k ssv h c.shared_state s [] rl es (is_there k ssv c why),
      next_to_ssv-here k ssv c.router (route_there k ssv c why),
    ) in
    subst (IsHosted k) (sym frame) hosted

take_in-IsHosted :
    (now : SsvId → ℕ) (k : SsvId) (m : NatMap History) (c c' : Clp)
    → take_in now m c ≡ some c'
    → IsHosted k c ⊎ Any (λ e. e.0 ≡ k) m
    → IsHosted k c'
unfolding take_in
take_in-IsHosted now k [] c c' e (inl h) = let same : c ≡ c' = cc in subst (IsHosted k) same h
take_in-IsHosted now k [] c c' e (inr never) = absurd never.lower
take_in-IsHosted now k ((ssv, h) ∷ m) c c' e why =
    let ((s, rl), es, rest) = >>=-eq-some (insert_variable ssv h c.shared_state []) _ e in
    let (f, ef, last) = >>=-eq-some (flush_range_updates here _) _ rest in
    let settled = settles k ssv h (now ssv) c f s rl es ef in
    take_in-IsHosted now k m f c' last (elim why [
      | inl hosted ↦ inl (settled (inl hosted))
      | inr (inl next) ↦ inl (settled (inr next))
      | inr (inr later) ↦ inr later
    ])

-- Once a migration message has been processed, this CLP has each variable that the message brings,
-- and each that it had and kept the requests for, and it routes the requests for these to itself.
pub process_state_migration-IsHosted :
    (now : SsvId → ℕ) (k : SsvId) (m : StateMigrationMessage) (c c' : Clp)
    → process_state_migration now m c ≡ some c'
    → IsHosted k c ⊎ Any (λ e. e.0 ≡ k) m.state_variable_map
    → (contains_variable k c'.shared_state ≡ true) × (next_to_ssv k c'.router ≡ some none)
unfolding process_state_migration set_table contains_variable
process_state_migration-IsHosted now k m c c' e why =
    take_in-IsHosted now k m.state_variable_map (clear_here c) c' e why
