-- ===== src/Lp/Clp/TakenBack.antt =====
-- Clp.cpp: a write, and its anti-message behind it.
use pdesmas_cloud.Base.{
  ℕ, ◌≤◌, ◌≡◌, ◌≢◌, sym, ap, ◌∙◌, [], some, false, ltb, arith, >>=-eq-some, All,
}
use pdesmas_cloud.Base.NatMap.{find}
use pdesmas_cloud.Lp.Clp.{Clp, clear_here, set_table}
use pdesmas_cloud.Lp.Clp.Frame.{count_frame, flush_range_updates_frame}
use pdesmas_cloud.Lp.Clp.Handlers.{process_write, process_write_anti}
use pdesmas_cloud.Lp.Clp.RangeUpdates.{flush_range_updates}
use pdesmas_cloud.Lp.Clp.Stragglers.{process_write-find}
use pdesmas_cloud.Messages.SharedStateMessage.{WriteMessage}
use pdesmas_cloud.Messages.LpMessage.{WriteAntiMessage}
use pdesmas_cloud.State.SharedState.{History, rollback_write, count_access}
use pdesmas_cloud.State.SharedState.Requests.{rollback_write-find}
use pdesmas_cloud.State.StateVariable.{
  write_success, write_with_rollback, perform_write_rollback, read_without_record,
}
use pdesmas_cloud.State.StateVariable.Outcome.{value_at-read_without_record}
use pdesmas_cloud.State.StateVariable.Writes.{value_at-perform_write_rollback}
use pdesmas_cloud.Types.Direction.{here}

-- The anti-message of a write that is not from before GVT, in the history of the variable.
process_write_anti-find :
    (x : WriteAntiMessage) (h : History) (b c' : Clp)
    → find x.ssv_id b.shared_state.state_variable_map ≡ some h
    → b.lp.gvt ≤ x.base.simulation.timestamp
    → process_write_anti x b ≡ some c'
    → find x.ssv_id c'.shared_state.state_variable_map
      ≡ some ((perform_write_rollback x.base.original_agent x.base.simulation.timestamp h []).0)
unfolding process_write_anti set_table count_access
process_write_anti-find x h b c' there late e =
    let t = x.base.simulation.timestamp in
    let agent = x.base.original_agent in
    let timely : ltb t b.lp.gvt ≡ false = ground arith in
    let ((s, rl), es, rest) =
      >>=-eq-some (rollback_write x.ssv_id agent t (clear_here b).shared_state []) _
        (rw (process_write_anti, timely) at e) in
    let (f, ef, last) = >>=-eq-some (flush_range_updates here _) _ rest in
    let (l, table, frame) = flush_range_updates_frame here _ f ef in
    let (d, counted) = count_frame x.ssv_id agent x.base.number_of_hops f c' last in
    ap (λ (y : Clp). find x.ssv_id y.shared_state.state_variable_map) counted
    ∙ ap (λ (y : Clp). find x.ssv_id y.shared_state.state_variable_map) frame
    ∙ rollback_write-find x.ssv_id agent t h (clear_here b).shared_state s rl there es

-- A write that a CLP carries out, at a time at which no period of the variable starts and that is not
-- before GVT, and behind it the anti-message that an ALP makes of it: the variable has its old value
-- back at every time.
pub process_write_anti-process_write :
    (now u : ℕ) (w : WriteMessage) (x : WriteAntiMessage) (h : History) (c b c' : Clp)
    → find w.ssv_id c.shared_state.state_variable_map ≡ some h
    → All (λ p. p.start_time ≢ w.base.simulation.timestamp) h
    → (write_with_rollback w.base.original_agent w.value w.base.simulation.timestamp h []).1
      ≡ write_success
    → process_write now w c ≡ some b
    → x.ssv_id ≡ w.ssv_id
    → x.base.original_agent ≡ w.base.original_agent
    → x.base.simulation.timestamp ≡ w.base.simulation.timestamp
    → b.lp.gvt ≤ w.base.simulation.timestamp
    → process_write_anti x b ≡ some c'
    → (h' : History) × (find w.ssv_id c'.shared_state.state_variable_map ≡ some h')
      × ((read_without_record u h').1 ≡ (read_without_record u h).1)
process_write_anti-process_write now u w x h c b c' there fresh done ew ssv agent time late ex =
    let t = w.base.simulation.timestamp in
    let a = w.base.original_agent in
    let (_, _, _, _, _, now_there, _) = process_write-find now w h c b a u there ew in
    let changed = (write_with_rollback a w.value t h []).0 in
    let back = process_write_anti-find x changed b c' (rw ssv now_there) (rw time late) ex in
    let back' : find w.ssv_id c'.shared_state.state_variable_map
        ≡ some ((perform_write_rollback a t changed []).0) =
      rw (ssv, agent, time) at back in
    (
      _,
      back',
      value_at-read_without_record u _
          ∙ value_at-perform_write_rollback u t a w.value h [] [] fresh done
          ∙ sym (value_at-read_without_record u h),
    )
