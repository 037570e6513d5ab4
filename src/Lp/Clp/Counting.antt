-- ===== src/Lp/Clp/Counting.antt =====
-- Clp.cpp: what `Send` counts for GVT.
use pdesmas_cloud.Base.{
  ℕ, ◌≡◌, ◌≢◌, refl, Option, none, some, Bool, true, false, if◌then◌else◌, arith, Option-cases, inl,
  inr, >>=-eq-some, sym, subst,
}
use pdesmas_cloud.Base.Int.{ℤ, pos, ◌+ℤ◌}
use pdesmas_cloud.Base.NatMap.{find-assign}
use pdesmas_cloud.Lp.Clp.{Clp}
use pdesmas_cloud.Lp.Clp.Traffic.{prepare, stamped}
use pdesmas_cloud.Lp.GvtCalculator.{
  counter_or, add_to_counter, increment_white_transient_message_counter, pre_process_send_message,
}
use pdesmas_cloud.Lp.LogicalProcess.{
  LogicalProcess, stamp, stamp_other, simulation_of, other_simulation, with_simulation,
  with_other_simulation,
}
use pdesmas_cloud.Lp.MessageQueue.{shared_state, other}
use pdesmas_cloud.Messages.SharedStateMessage.{
  SimulationMessage, AnySharedState, single_read, write, range_query,
}
use pdesmas_cloud.Messages.LpMessage.{
  AbstractMessage, OtherMessage, single_read_response, write_response, rollback, single_read_anti,
  write_anti, range_query_anti, state_migration, range_update, end_message, gvt_request,
  gvt_control, gvt_value,
}
use pdesmas_cloud.Routing.Router.{route_single_read_response, route_write_response, route_rollback}
use pdesmas_cloud.Types.Direction.{white}

-- The white messages that are counted for a rank.
abbrev pub white_count : ℕ → LogicalProcess → ℤ
white_count rank lp = counter_or (pos 0) rank lp.gvt_calculator.white_transient_message_counter

abbrev pub message_simulation : AbstractMessage → Option SimulationMessage
message_simulation (shared_state m) = some (simulation_of m)
message_simulation (other m) = other_simulation m

abbrev pub is_range_query_anti : AbstractMessage → Bool
is_range_query_anti (other (range_query_anti m)) = true
is_range_query_anti (other m) = false
is_range_query_anti (shared_state m) = false

stamp-white :
    (m s : SimulationMessage) (lp lp' : LogicalProcess)
    → stamp m lp ≡ some (lp', s)
    → lp.gvt_calculator.colour ≡ white
    → white_count s.destination lp' ≡ white_count s.destination lp +ℤ pos 1
unfolding stamp pre_process_send_message increment_white_transient_message_counter add_to_counter
    counter_or
stamp-white m s lp lp' e w = ground (
  arith,
  find-assign m.destination m.destination (white_count m.destination lp +ℤ pos 1)
      lp.gvt_calculator.white_transient_message_counter,
)

-- A stamped message has the stamped part.
other_simulation-with :
    (st x : SimulationMessage) (m : OtherMessage)
    → other_simulation m ≡ some x
    → other_simulation (with_other_simulation st m) ≡ some st
other_simulation-with st x (single_read_response m) e = refl
other_simulation-with st x (write_response m) e = refl
other_simulation-with st x (rollback m) e = refl
other_simulation-with st x (single_read_anti m) e = refl
other_simulation-with st x (write_anti m) e = refl
other_simulation-with st x (range_query_anti m) e = refl
other_simulation-with st x (state_migration m) e = cc
other_simulation-with st x (range_update m) e = cc
other_simulation-with st x (end_message m) e = cc
other_simulation-with st x (gvt_request m) e = cc
other_simulation-with st x (gvt_control m) e = cc
other_simulation-with st x (gvt_value m) e = cc

same_parts :
    (l k : LogicalProcess) (m n : OtherMessage)
    → ◌≡◌ {A = Option (LogicalProcess × OtherMessage)} (some (l, m)) (some (k, n))
    → (l ≡ k) × (m ≡ n)
same_parts l k m n e = (cc, cc)

stamp_other-white :
    (m m' : OtherMessage) (lp lp' : LogicalProcess) (s : SimulationMessage)
    → stamp_other m lp ≡ some (lp', m')
    → lp.gvt_calculator.colour ≡ white
    → other_simulation m' ≡ some s
    → white_count s.destination lp' ≡ white_count s.destination lp +ℤ pos 1
unfolding stamp_other
stamp_other-white m m' lp lp' s e w sim = elim (Option-cases (other_simulation m)) [
  | inl n ↦
      let (_, same) = same_parts lp lp' m m' (rw (stamp_other, n) at e) in
      let sim' : other_simulation m ≡ some s =
        subst (λ x. other_simulation x ≡ some s) (sym same) sim in
      cc
  | inr (x, there) ↦
      let ((l, st), es, last) = >>=-eq-some (stamp x lp) _ (rw (stamp_other, there) at e) in
      let (same_lp, same) = same_parts l lp' (with_other_simulation st m) m' last in
      let with_st : other_simulation m' ≡ some st =
        subst (λ x. other_simulation x ≡ some st) same (other_simulation-with st x m there) in
      let part : st ≡ s = cc in
      subst (λ k. white_count s.destination k ≡ white_count s.destination lp +ℤ pos 1) same_lp
        (subst
          (λ (y : SimulationMessage).
            white_count y.destination l ≡ white_count y.destination lp +ℤ pos 1)
          part (stamp-white x st lp l es w))
]

same_sent :
    (c d : Clp) (m n : AbstractMessage)
    → ◌≡◌ {A = Option (Clp × AbstractMessage)} (some (c, m)) (some (d, n))
    → (c ≡ d) × (m ≡ n)
same_sent c d m n e = (cc, cc)

-- A message that is sent as it is and that has no simulation part.
not_counted :
    (c c' : Clp) (m : OtherMessage) (sent : AbstractMessage) (s : SimulationMessage)
    → ◌≡◌ {A = Option (Clp × AbstractMessage)} (some (c, other m)) (some (c', sent))
    → other_simulation m ≡ none
    → message_simulation sent ≢ some s
not_counted c c' m sent s e n sim =
    let (_, same) = same_sent c c' (other m) sent e in
    let sim' : message_simulation (other m) ≡ some s =
      subst (λ x. message_simulation x ≡ some s) (sym same) sim in
    cc

simulation_of-with :
    (st : SimulationMessage) (m : AnySharedState) → simulation_of (with_simulation st m) ≡ st
simulation_of-with st (single_read m) = refl
simulation_of-with st (write m) = refl
simulation_of-with st (range_query m) = refl

stamped-white :
    (m : OtherMessage) (c c' : Clp) (sent : AbstractMessage) (s : SimulationMessage)
    → stamped m c ≡ some (c', sent)
    → c.lp.gvt_calculator.colour ≡ white
    → message_simulation sent ≡ some s
    → white_count s.destination c'.lp ≡ white_count s.destination c.lp +ℤ pos 1
unfolding stamped
stamped-white m c c' sent s e w sim =
    let ((l, m'), es, last) = >>=-eq-some (stamp_other m c.lp) _ e in
    let (same, same') = same_sent (record c { lp = l }) c' (other m') sent last in
    let sim' : other_simulation m' ≡ some s =
      subst (λ x. message_simulation x ≡ some s) (sym same') sim in
    subst (λ (x : Clp). white_count s.destination x.lp ≡ white_count s.destination c.lp +ℤ pos 1)
      same (stamp_other-white m m' c.lp l s es w sim')

-- A CLP that is white counts each simulation message that it sends for the rank that it goes to, but
-- for the anti-message of a range query, for which it counts nothing.
pub prepare-white_count :
    (m sent : AbstractMessage) (c c' : Clp) (s : SimulationMessage)
    → prepare m c ≡ some (c', sent)
    → c.lp.gvt_calculator.colour ≡ white
    → message_simulation sent ≡ some s
    → white_count s.destination c'.lp ≡ (
        if is_range_query_anti m
        then white_count s.destination c.lp
        else white_count s.destination c.lp +ℤ pos 1)
unfolding prepare
prepare-white_count (shared_state m) sent c c' s e w sim =
    let ((l, st), es, last) = >>=-eq-some (stamp (simulation_of m) c.lp) _ e in
    let (same, same') =
      same_sent (record c { lp = l }) c' (shared_state (with_simulation st m)) sent last in
    let sim' : some (simulation_of (with_simulation st m)) ≡ some s =
      subst (λ x. message_simulation x ≡ some s) (sym same') sim in
    let with_st = simulation_of-with st m in
    let part : st ≡ s = cc in
    subst (λ (x : Clp). white_count s.destination x.lp ≡ white_count s.destination c.lp +ℤ pos 1)
      same
      (subst
        (λ (y : SimulationMessage).
          white_count y.destination l ≡ white_count y.destination c.lp +ℤ pos 1)
        part (stamp-white (simulation_of m) st c.lp l es w))
prepare-white_count (other (single_read_response m)) sent c c' s e w sim =
    let ((_, routed), _, last) = >>=-eq-some (route_single_read_response m c.router) _ e in
    stamped-white (single_read_response routed) c c' sent s last w sim
prepare-white_count (other (write_response m)) sent c c' s e w sim =
    let ((_, routed), _, last) = >>=-eq-some (route_write_response m c.router) _ e in
    stamped-white (write_response routed) c c' sent s last w sim
prepare-white_count (other (rollback m)) sent c c' s e w sim =
    let ((_, routed), _, last) = >>=-eq-some (route_rollback m c.router) _ e in
    stamped-white (rollback routed) c c' sent s last w sim
prepare-white_count (other (single_read_anti m)) sent c c' s e w sim =
    stamped-white (single_read_anti m) c c' sent s e w sim
prepare-white_count (other (write_anti m)) sent c c' s e w sim =
    stamped-white (write_anti m) c c' sent s e w sim
prepare-white_count (other (range_query_anti m)) sent c c' s e w sim =
    let (same, _) = same_sent c c' (other (range_query_anti m)) sent e in
    subst (λ (x : Clp). white_count s.destination x.lp ≡ white_count s.destination c.lp) same refl
prepare-white_count (other (state_migration m)) sent c c' s e w sim =
    absurd (not_counted c c' (state_migration m) sent s e refl sim)
prepare-white_count (other (range_update m)) sent c c' s e w sim =
    absurd (not_counted c c' (range_update m) sent s e refl sim)
prepare-white_count (other (end_message m)) sent c c' s e w sim =
    absurd (not_counted c c' (end_message m) sent s e refl sim)
prepare-white_count (other (gvt_request m)) sent c c' s e w sim =
    absurd (not_counted c c' (gvt_request m) sent s e refl sim)
prepare-white_count (other (gvt_control m)) sent c c' s e w sim =
    absurd (not_counted c c' (gvt_control m) sent s e refl sim)
prepare-white_count (other (gvt_value m)) sent c c' s e w sim =
    absurd (not_counted c c' (gvt_value m) sent s e refl sim)
