-- ===== src/Lp/Clp/Frame.antt =====
-- Clp.cpp: what the helpers of the handlers leave as it is.
use pdesmas_cloud.Base.{
  ℕ, List, [], ◌∷◌, some, ◌||◌, ◌≡◌, refl, arith, Bool-cases, inl, inr, >>=-eq-some, sym, ap, ◌∙◌,
}
use pdesmas_cloud.Lp.Clp.{Clp, table, set_table, leads_to_no_clp, count}
use pdesmas_cloud.Lp.Clp.RangeUpdates.{
  merge_remote, send_range_update, send_range_updates, flush_range_updates,
}
use pdesmas_cloud.Lp.LogicalProcess.{LogicalProcess, send_load_balancing, send_simulation}
use pdesmas_cloud.Lp.LpId.{LpId}
use pdesmas_cloud.Lp.RollbackList.{RollbackList}
use pdesmas_cloud.Lp.RollbackList.Sending.{send_rollbacks, send_rollbacks_after_state_migration}
use pdesmas_cloud.Lp.RollbackTag.{RollbackTag}
use pdesmas_cloud.Messages.LpMessage.{AbstractMessage}
use pdesmas_cloud.RangeQuery.RangePeriod.{RangeUpdates}
use pdesmas_cloud.RangeQuery.RangeRoutingTable.{RangeRoutingTable, clear_range_updates}
use pdesmas_cloud.Routing.Router.{get_lp_rank_by_direction, get_direction_by_lp_rank}
use pdesmas_cloud.State.SharedState.{count_access}
use pdesmas_cloud.State.SsvId.{SsvId}
use pdesmas_cloud.Types.Direction.{Direction, same_direction, neighbours, ports}

-- A CLP with another queue of load balancing messages.
abbrev pub balancing : List AbstractMessage → Clp → Clp
balancing q c = record c { lp = record c.lp { send_load_balancing_message_queue = q } }

send_range_update_frame :
    (u : RangeUpdates) (source : Direction) (ds : List Direction) (c c' : Clp)
    → send_range_update u source ds c ≡ some c'
    → (q : List AbstractMessage) × (c' ≡ balancing q c)
unfolding send_range_update send_load_balancing
send_range_update_frame u source [] c c' e = (c.lp.send_load_balancing_message_queue, ground arith)
send_range_update_frame u source (port ∷ ds) c c' e =
    elim (Bool-cases (same_direction port source || leads_to_no_clp port c)) [
      | inl skip ↦ send_range_update_frame u source ds c c' (rw (send_range_update, skip) at e)
      | inr on ↦
          let ((old, new), er, rest) =
            >>=-eq-some (merge_remote u.time port source ports c (u.old_range, u.new_range)) _
              (rw (send_range_update, on) at e) in
          let (rank, ed, last) = >>=-eq-some (get_lp_rank_by_direction port c.router) _ rest in
          let (q, frame) = send_range_update_frame u source ds _ c' last in (q, frame)
    ]

send_range_updates_frame :
    (us : List RangeUpdates) (source : Direction) (c c' : Clp)
    → send_range_updates us source c ≡ some c'
    → (q : List AbstractMessage) × (c' ≡ balancing q c)
unfolding send_range_updates
send_range_updates_frame [] source c c' e = (c.lp.send_load_balancing_message_queue, ground arith)
send_range_updates_frame (u ∷ us) source c c' e =
    let (b, eb, rest) = >>=-eq-some (send_range_update u source neighbours c) _ e in
    let (q, first) = send_range_update_frame u source neighbours c b eb in
    let (q', second) = send_range_updates_frame us source b c' rest in
    (q', second ∙ ap (balancing q') first)

-- Only the queue of load balancing messages and the table of the port change.
pub flush_range_updates_frame :
    (d : Direction) (c c' : Clp)
    → flush_range_updates d c ≡ some c'
    → (q : List AbstractMessage) × (t : RangeRoutingTable) × (c' ≡ set_table d t (balancing q c))
unfolding flush_range_updates
flush_range_updates_frame d c c' e =
    let (t, et, rest) = >>=-eq-some (table d c) _ e in
    let (b, eb, rest') = >>=-eq-some (send_range_updates t.range_update_list d c) _ rest in
    let (t', et', last) = >>=-eq-some (table d b) _ rest' in
    let (q, frame) = send_range_updates_frame t.range_update_list d c b eb in
    let same : set_table d (clear_range_updates t') b ≡ c' = cc in
    (q, clear_range_updates t', sym same ∙ ap (set_table d (clear_range_updates t')) frame)

-- Only the access counts change.
pub count_frame :
    (ssv : SsvId) (agent : LpId) (hops : ℕ) (c c' : Clp)
    → count ssv agent hops c ≡ some c'
    → (d : Direction) × (c' ≡ record c { shared_state = count_access ssv d hops c.shared_state })
unfolding count
count_frame ssv agent hops c c' e =
    let (d, ed, last) = >>=-eq-some (get_direction_by_lp_rank agent.rank c.router) _ e in (d, cc)

-- Only the send queue changes.
pub send_rollbacks_frame :
    (tag : RollbackTag) (rl : RollbackList) (lp : LogicalProcess)
    → (q : List AbstractMessage) × (send_rollbacks tag rl lp ≡ record lp { send_message_queue = q })
unfolding send_rollbacks send_simulation
send_rollbacks_frame tag [] lp = (lp.send_message_queue, refl)
send_rollbacks_frame tag ((agent, t) ∷ rl) lp = let (q, e) = send_rollbacks_frame tag rl _ in (q, e)

pub send_rollbacks_after_state_migration_frame :
    (tag : RollbackTag) (rl : RollbackList) (lp : LogicalProcess)
    → (q : List AbstractMessage) × (send_rollbacks_after_state_migration tag rl lp
        ≡ record lp { send_message_queue = q })
unfolding send_rollbacks_after_state_migration send_simulation
send_rollbacks_after_state_migration_frame tag [] lp = (lp.send_message_queue, refl)
send_rollbacks_after_state_migration_frame tag ((agent, t) ∷ rl) lp =
    let (q, e) = send_rollbacks_after_state_migration_frame tag rl _ in (q, e)
