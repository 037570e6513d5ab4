-- ===== src/Lp/Clp/Hosting.antt =====
-- Clp.cpp: which CLP hosts a variable that moves, and where the requests for it go.
use pdesmas_cloud.Base.{
  ℕ, [], none, some, ◌≡◌, ◌≢◌, ◌==◌, if◌then◌else◌, arith, >>=-eq-some, sym, ◌∙◌, subst, ulong_max,
}
use pdesmas_cloud.Base.NatMap.{NatMap, find, insert, find-erase, find-insert}
use pdesmas_cloud.Lp.Clp.{Clp, set_table, new_tag, rollback_by_sm}
use pdesmas_cloud.Lp.Clp.Frame.{balancing, flush_range_updates_frame}
use pdesmas_cloud.Lp.Clp.Migration.{give_away}
use pdesmas_cloud.Lp.Clp.RangeUpdates.{flush_range_updates}
use pdesmas_cloud.Lp.RollbackList.Sending.{send_rollbacks_after_state_migration}
use pdesmas_cloud.Routing.Router.{next_to_ssv, next_towards, set_ssv_id_direction}
use pdesmas_cloud.Routing.Router.Hosts.{next_to_ssv-set_ssv_id_direction}
use pdesmas_cloud.State.SharedState.{SharedState, History, get_copy}
use pdesmas_cloud.State.SharedState.Moves.{delete_variable, remove_write_period_list}
use pdesmas_cloud.State.SsvId.{SsvId}
use pdesmas_cloud.Types.Direction.{Direction, here, direction_size}

delete_variable-find :
    (ssv : SsvId) (s s' : SharedState)
    → delete_variable ssv s ≡ some s'
    → find ssv s'.state_variable_map ≡ none
unfolding delete_variable
delete_variable-find ssv s s' e = ground (arith, find-erase ssv ssv s.state_variable_map)

find-insert_new :
    (ssv : SsvId) (h : History) (m : NatMap History)
    → find ssv m ≡ none
    → find ssv (insert ssv h m) ≡ some h
find-insert_new ssv h m e = ground (arith, find-insert ssv ssv h m)

-- A variable that is given away towards a neighbour: the message carries its history as it was, if
-- the message had none of it, this CLP no longer hosts it, and the requests for it go to that
-- neighbour from then on, while the way to all other variables stays as it was.
pub give_away-next_to_ssv :
    (now : SsvId → ℕ) (d : Direction) (ssv other : SsvId) (taken taken' : NatMap History)
    (c c' : Clp)
    → give_away now d ssv (taken, c) ≡ some (taken', c')
    → d ≢ direction_size
    → find ssv taken ≡ none
    → (find ssv taken' ≡ find ssv c.shared_state.state_variable_map)
      × (find ssv c'.shared_state.state_variable_map ≡ none)
      × (next_to_ssv other c'.router
          ≡ (if ssv == other then next_towards d c.router else next_to_ssv other c.router))
unfolding give_away get_copy set_table
give_away-next_to_ssv now d ssv other taken taken' c c' e known fresh =
    let (h, eh, rest) = >>=-eq-some (get_copy ssv c.shared_state) _ e in
    let ((emptied, rl), er, rest') =
      >>=-eq-some (remove_write_period_list ssv c.shared_state []) _ rest in
    let (s, es, rest'') = >>=-eq-some (delete_variable ssv emptied) _ rest' in
    let moved : Clp = record c {
      router = set_ssv_id_direction ssv d c.router;
      shared_state = s;
      lp =
          send_rollbacks_after_state_migration (new_tag ssv ulong_max rollback_by_sm (now ssv)) rl
            c.lp;
    } in
    let (f, ef, last) = >>=-eq-some (flush_range_updates here moved) _ rest'' in
    let (q, t, frame) = flush_range_updates_frame here moved f ef in
    let same : f ≡ c' = cc in
    let gone : find ssv moved.shared_state.state_variable_map ≡ none =
      delete_variable-find ssv emptied s es in
    let whole : set_table here t (balancing q moved) ≡ c' = sym frame ∙ same in
    let carried : insert ssv h taken ≡ taken' = cc in
    (
      subst (λ m. find ssv m ≡ find ssv c.shared_state.state_variable_map) carried
          (find-insert_new ssv h taken fresh ∙ sym eh),
      subst (λ (x : Clp). find ssv x.shared_state.state_variable_map ≡ none) whole gone,
      subst
          (λ (x : Clp).
            next_to_ssv other x.router
            ≡ (if ssv == other then next_towards d c.router else next_to_ssv other c.router))
          whole (next_to_ssv-set_ssv_id_direction ssv other d c.router known),
    )
