-- ===== src/Lp/Clp/Past.antt =====
-- Clp.cpp: the GVT that `SetGvt` leaves.
use pdesmas_cloud.Base.{
  ℕ, ◌≡◌, List, [], ◌∷◌, some, arith, Bool-cases, inl, inr, >>=-eq-some, sym, ap, ◌∙◌, ulong_max,
}
use pdesmas_cloud.Base.NatMap.{NatMap}
use pdesmas_cloud.Lp.AccessCostCalculator.{MigrationMap, check_clp_load, get_migration_map}
use pdesmas_cloud.Lp.Clp.{Clp, set_table, clear_here, new_tag, rollback_by_sm}
use pdesmas_cloud.Lp.Clp.Frame.{
  flush_range_updates_frame, send_rollbacks_after_state_migration_frame,
}
use pdesmas_cloud.Lp.Clp.Migration.{
  give_away, give_away_all, migrate_state_variables, forget_before, set_gvt, direction_of,
}
use pdesmas_cloud.Lp.Clp.RangeUpdates.{flush_range_updates}
use pdesmas_cloud.Lp.LogicalProcess.{LogicalProcess, send_load_balancing}
use pdesmas_cloud.Lp.RollbackList.Sending.{send_rollbacks_after_state_migration}
use pdesmas_cloud.Routing.Router.{set_ssv_id_direction, get_lp_rank_by_direction}
use pdesmas_cloud.State.SharedState.{History, get_copy}
use pdesmas_cloud.State.SharedState.Moves.{delete_variable, remove_write_period_list}
use pdesmas_cloud.State.SsvId.{SsvId}
use pdesmas_cloud.Types.Direction.{Direction, here}

give_away-gvt :
    (now : SsvId → ℕ) (d : Direction) (ssv : SsvId) (taken taken' : NatMap History) (c c' : Clp)
    → give_away now d ssv (taken, c) ≡ some (taken', c')
    → c'.lp.gvt ≡ c.lp.gvt
unfolding give_away set_table
give_away-gvt now d ssv taken taken' c c' e =
    let (h, eh, rest) = >>=-eq-some (get_copy ssv c.shared_state) _ e in
    let ((emptied, rl), er, rest') =
      >>=-eq-some (remove_write_period_list ssv c.shared_state []) _ rest in
    let (s, es, rest'') = >>=-eq-some (delete_variable ssv emptied) _ rest' in
    let tag = new_tag ssv ulong_max rollback_by_sm (now ssv) in
    let moved : Clp = record c {
      router = set_ssv_id_direction ssv d c.router;
      shared_state = s;
      lp = send_rollbacks_after_state_migration tag rl c.lp;
    } in
    let (f, ef, last) = >>=-eq-some (flush_range_updates here moved) _ rest'' in
    let (q, t, frame) = flush_range_updates_frame here moved f ef in
    let (q', sent) = send_rollbacks_after_state_migration_frame tag rl c.lp in
    let same : f ≡ c' = cc in
    ap (λ (x : Clp). x.lp.gvt) (sym same ∙ frame) ∙ ap (λ (x : LogicalProcess). x.gvt) sent

give_away_all-gvt :
    (now : SsvId → ℕ) (d : Direction) (ssvs : List SsvId) (taken taken' : NatMap History)
    (c c' : Clp)
    → give_away_all now d ssvs (taken, c) ≡ some (taken', c')
    → c'.lp.gvt ≡ c.lp.gvt
unfolding give_away_all
give_away_all-gvt now d [] taken taken' c c' e = ground arith
give_away_all-gvt now d (ssv ∷ ssvs) taken taken' c c' e =
    let ((t, b), eb, rest) = >>=-eq-some (give_away now d ssv (taken, c)) _ e in
    give_away_all-gvt now d ssvs t taken' b c' rest ∙ give_away-gvt now d ssv taken t c b eb

migrate_state_variables-gvt :
    (now : SsvId → ℕ) (m : MigrationMap) (c c' : Clp)
    → migrate_state_variables now m c ≡ some c'
    → c'.lp.gvt ≡ c.lp.gvt
unfolding migrate_state_variables send_load_balancing set_table
migrate_state_variables-gvt now [] c c' e = ground arith
migrate_state_variables-gvt now ((p, ssvs) ∷ m) c c' e =
    let (rank, er, rest) = >>=-eq-some (get_lp_rank_by_direction (direction_of p) c.router) _ e in
    let ((t, b), eb, last) =
      >>=-eq-some (give_away_all now (direction_of p) ssvs ([], clear_here c)) _ rest in
    migrate_state_variables-gvt now m _ c' last
    ∙ give_away_all-gvt now (direction_of p) ssvs [] t (clear_here c) b eb

-- `SetGvt` sets GVT, whatever it migrates.
pub set_gvt-gvt :
    (now : SsvId → ℕ) (gvt : ℕ) (c c' : Clp) → set_gvt now gvt c ≡ some c' → c'.lp.gvt ≡ gvt
unfolding set_gvt forget_before
set_gvt-gvt now gvt c c' e = elim (Bool-cases c.end_message_processed) [
  | inl processed ↦ ground arith
  | inr not_processed ↦
      let checked = check_clp_load (forget_before gvt c).shared_state.access_cost_calculator in
      elim (Bool-cases checked.1) [
        | inl enough ↦
            migrate_state_variables-gvt now (get_migration_map checked.0).1 _ c'
              (rw (not_processed, enough) at e)
        | inr little ↦ ground arith
      ]
]
