-- ===== src/Lp/Clp/Stragglers.antt =====
-- Clp.cpp: a read and a write that comes after it, to the same variable.
mod Tests
use pdesmas_cloud.Base.{
  ℕ, ◌<◌, ◌≡◌, refl, ap, ◌∙◌, ◌⊎◌, inl, inr, List, [], ◌∷◌, ◌++◌, Option, some, long_max, arith,
  Option-cases, >>=-eq-some, Any,
}
use pdesmas_cloud.Base.NatMap.{find, find-assign}
use pdesmas_cloud.Lp.Clp.{Clp, clear_here, new_tag, rollback_by_write, set_table}
use pdesmas_cloud.Lp.Clp.Frame.{count_frame, flush_range_updates_frame}
use pdesmas_cloud.Lp.Clp.Handlers.{process_single_read, process_write, response_base, respond_read}
use pdesmas_cloud.Lp.Clp.RangeUpdates.{flush_range_updates}
use pdesmas_cloud.Lp.Clp.Reads.{read_time}
use pdesmas_cloud.Lp.LogicalProcess.{LogicalProcess, send_simulation}
use pdesmas_cloud.Lp.LpId.{LpId}
use pdesmas_cloud.Lp.MessageQueue.{other, queue_message}
use pdesmas_cloud.Lp.RollbackList.Covers.{Covers}
use pdesmas_cloud.Messages.SharedStateMessage.{SingleReadMessage, WriteMessage}
use pdesmas_cloud.Messages.LpMessage.{
  AbstractMessage, WriteResponseMessage, write_response, single_read_response,
}
use pdesmas_cloud.State.SharedState.{
  SharedState, History, update_ranges, set_history, recalculate_range, count_access,
}
use pdesmas_cloud.State.SharedState
use pdesmas_cloud.Lp.RollbackList.Telling.{Tells, send_rollbacks-Tells}
use pdesmas_cloud.State.SharedState.Requests.{write-Covers}
use pdesmas_cloud.State.StateVariable.Outcome.{value_at-read_without_record, write-outcome}
use pdesmas_cloud.State.StateVariable.{
  WriteStatus, write_success, write_failure, write_with_rollback, read_without_record,
}
use pdesmas_cloud.State.StateVariable
use pdesmas_cloud.State.StateVariable.Chain.{IsChain}
use pdesmas_cloud.State.StateVariable.Walk.{value_at}
use pdesmas_cloud.Types.Direction.{here}
use pdesmas_cloud.Types.Value.{AbstractValue}

-- A read that is answered is recorded in the history of the variable, and its value is in the answer.
process_single_read-find :
    (r : SingleReadMessage) (h : History) (c b : Clp)
    → find r.ssv_id c.shared_state.state_variable_map ≡ some h
    → process_single_read r c ≡ some b
    → (h' : History) × (v : Option AbstractValue) × (StateVariable.read r.base.original_agent
          (read_time r c)
          h
        ≡ some (h', v))
      × (find r.ssv_id b.shared_state.state_variable_map ≡ some h')
      × (b.lp
          ≡ send_simulation
              (other (
                single_read_response
                  (record { base = response_base c.lp.info.rank r.base; value = v })))
              c.lp)
unfolding process_single_read SharedState.read count_access
process_single_read-find r h c b there e =
    let agent = r.base.original_agent in
    let ((s, v), er, rest) =
      >>=-eq-some (SharedState.read r.ssv_id agent (read_time r c) c.shared_state) _ e in
    let answered =
      respond_read r c s (record { base = response_base c.lp.info.rank r.base; value = v }) in
    let (d, frame) = count_frame r.ssv_id agent r.base.number_of_hops answered b rest in
    elim (Option-cases (StateVariable.read agent (read_time r c) h)) [
      | inl n ↦ ground arith
      | inr ((h', w), got) ↦
          let done : ◌≡◌ {A = Option (SharedState × Option AbstractValue)}
              (some (set_history r.ssv_id h' c.shared_state, w)) (some (s, v)) =
            rw (SharedState.read, there, got) at er in
          let same : w ≡ v = cc in
          let state : set_history r.ssv_id h' c.shared_state ≡ s = cc in
          (
            h',
            v,
            got ∙ ap (λ x. some (h', x)) same,
            ap (λ (x : Clp). find r.ssv_id x.shared_state.state_variable_map) frame
                ∙ rw (← state) (
                    ground
                      (arith, find-assign r.ssv_id r.ssv_id h' c.shared_state.state_variable_map)),
            ap (λ (x : Clp). x.lp) frame,
          )
    ]

-- A write: its answer goes to the back of the send queue, and behind it the requests to roll back.
pub process_write-find :
    (now : ℕ) (w : WriteMessage) (h : History) (b c' : Clp) (a : LpId) (u : ℕ)
    → find w.ssv_id b.shared_state.state_variable_map ≡ some h
    → process_write now w b ≡ some c'
    → (answer : WriteResponseMessage) × (q : List AbstractMessage) × (c'.lp.send_message_queue
        ≡ (b.lp.send_message_queue ++ other (write_response answer) ∷ []) ++ q)
      × (answer.base ≡ response_base b.lp.info.rank w.base)
      × (answer.write_status
          ≡ (write_with_rollback w.base.original_agent w.value w.base.simulation.timestamp h []).1)
      × (find w.ssv_id c'.shared_state.state_variable_map
          ≡ some (
              (write_with_rollback w.base.original_agent w.value w.base.simulation.timestamp h
                []).0))
      × (Covers a u
            (write_with_rollback w.base.original_agent w.value w.base.simulation.timestamp h []).2
          → Any (Tells a u) q)
unfolding process_write set_table send_simulation queue_message count_access
process_write-find now w h b c' a u there e =
    let t = w.base.simulation.timestamp in
    let agent = w.base.original_agent in
    let ((s, status, rl), es, rest) =
      >>=-eq-some (SharedState.write w.ssv_id agent w.value t (clear_here b).shared_state []) _ e in
    let (map, result, kept) =
      write-Covers w.ssv_id agent w.value t h (clear_here b).shared_state s status rl a u there
        es in
    let answer : WriteResponseMessage = record {
      base = response_base b.lp.info.rank w.base;
      write_status = status;
    } in
    let lp = send_simulation (other (write_response answer)) b.lp in
    let (q, sent, told) =
      send_rollbacks-Tells a u (new_tag w.ssv_id t rollback_by_write now) rl lp in
    let (f, ef, last) = >>=-eq-some (flush_range_updates here _) _ rest in
    let (l, table, frame) = flush_range_updates_frame here _ f ef in
    let (d, counted) = count_frame w.ssv_id agent w.base.number_of_hops f c' last in
    (
      answer,
      q,
      ap (λ (x : Clp). x.lp.send_message_queue) counted
          ∙ ap (λ (x : Clp). x.lp.send_message_queue) frame
          ∙ ap (λ (x : LogicalProcess). x.send_message_queue) sent,
      refl,
      result,
      ap (λ (x : Clp). find w.ssv_id x.shared_state.state_variable_map) counted
          ∙ ap (λ (x : Clp). find w.ssv_id x.shared_state.state_variable_map) frame
          ∙ map,
      λ k. told (kept k),
    )

-- Whatever time a write has that a CLP processes next behind a read of the same variable, whose
-- periods meet, where the read is made at less than LONG_MAX: the value that the read was answered
-- with is still the value at that time, or a message behind the answer to the write in the send queue
-- tells the reader, or an agent that the rollback list takes for it, to go back to that time or to
-- before it.
pub process_write-process_single_read :
    (now : ℕ) (r : SingleReadMessage) (w : WriteMessage) (h : History) (c b c' : Clp)
    → find r.ssv_id c.shared_state.state_variable_map ≡ some h
    → IsChain h
    → read_time r c < long_max
    → process_single_read r c ≡ some b
    → w.ssv_id ≡ r.ssv_id
    → process_write now w b ≡ some c'
    → (v : Option AbstractValue) × (answer : WriteResponseMessage) × (h' : History) × (q : List
        AbstractMessage)
      × (b.lp
          ≡ send_simulation
              (other (
                single_read_response
                  (record { base = response_base c.lp.info.rank r.base; value = v })))
              c.lp)
      × (c'.lp.send_message_queue
          ≡ (b.lp.send_message_queue ++ other (write_response answer) ∷ []) ++ q)
      × (find r.ssv_id c'.shared_state.state_variable_map ≡ some h')
      × (((read_without_record (read_time r c) h').1 ≡ v)
          ⊎ Any (Tells r.base.original_agent (read_time r c)) q)
process_write-process_single_read now r w h c b c' there chain bound er same ew =
    let t = read_time r c in
    let reader = r.base.original_agent in
    let writer = w.base.original_agent in
    let (h', v, got, now_there, sent) = process_single_read-find r h c b there er in
    let (answer, q, queue, _, status, after, told) =
      process_write-find now w h' b c' reader t (rw same now_there) ew in
    let after' : find r.ssv_id c'.shared_state.state_variable_map
        ≡ some ((write_with_rollback writer w.value w.base.simulation.timestamp h' []).0) =
      rw (← same) after in
    let outcome : (value_at t
            (write_with_rollback writer w.value w.base.simulation.timestamp h' []).0
          ≡ v)
        ⊎ Covers reader t (write_with_rollback writer w.value w.base.simulation.timestamp h' []).2 =
      write-outcome reader writer t w.base.simulation.timestamp w.value v h h' chain bound got in
    (
      v,
      answer,
      _,
      q,
      sent,
      queue,
      after',
      elim outcome [
        | inl kept ↦ inl (value_at-read_without_record t _ ∙ kept)
        | inr covered ↦ inr (told covered)
      ],
    )
