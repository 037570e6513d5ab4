-- ===== src/State/StateVariable/Reach.antt =====
-- The histories that a state variable can have: what the operations of StateVariable.cpp make of
-- the history that `SharedState::Add` starts with, in any order.
use pdesmas_cloud.Base.{ℕ, ◌≡◌, List, [], Option, some, inl, refl}
use pdesmas_cloud.Lp.LpId.{LpId}
use pdesmas_cloud.Lp.RollbackList.{RollbackList}
use pdesmas_cloud.State.WritePeriod.{WritePeriod}
use pdesmas_cloud.State.StateVariable.{
  add_write_period, read, write_with_rollback, perform_read_rollback, perform_write_rollback,
  remove_write_periods,
}
use pdesmas_cloud.State.StateVariable.Chain.{IsChain}
use pdesmas_cloud.State.StateVariable.Invariant.{
  read-IsChain, write_with_rollback-IsChain, perform_read_rollback-IsChain,
  perform_write_rollback-IsChain, remove_write_periods-IsChain,
}

module _ {V : Type 0} where
  -- One call of an operation that changes the history.
  pub data Step : List (WritePeriod V) → List (WritePeriod V) → Type 0 where
    by_read :
        {ws ws' : List (WritePeriod V)} (agent : LpId) (t : ℕ) (v : Option V)
        → read agent t ws ≡ some (ws', v)
        → Step ws ws'
    by_write :
        {ws : List (WritePeriod V)} (agent : LpId) (v : Option V) (t : ℕ) (rl : RollbackList)
        → Step ws (write_with_rollback agent v t ws rl).0
    by_read_rollback :
        {ws ws' : List (WritePeriod V)} (agent : LpId) (t : ℕ)
        → perform_read_rollback agent t ws ≡ some ws'
        → Step ws ws'
    by_write_rollback :
        {ws : List (WritePeriod V)} (agent : LpId) (t : ℕ) (rl : RollbackList)
        → Step ws (perform_write_rollback agent t ws rl).0
    by_gvt : {ws : List (WritePeriod V)} (t : ℕ) → Step ws (remove_write_periods t ws)

  pub data Reachable : List (WritePeriod V) → Type 0 where
    created : (v : Option V) (t : ℕ) (agent : LpId) → Reachable (add_write_period v t agent [])
    stepped : {ws ws' : List (WritePeriod V)} → Reachable ws → Step ws ws' → Reachable ws'

  Step-IsChain : {ws ws' : List (WritePeriod V)} → Step ws ws' → IsChain ws → IsChain ws'
  Step-IsChain (by_read agent t v e) h = read-IsChain agent t _ _ v h e
  Step-IsChain (by_write agent v t rl) h = write_with_rollback-IsChain agent v t _ rl h
  Step-IsChain (by_read_rollback agent t e) h = perform_read_rollback-IsChain agent t _ _ h e
  Step-IsChain (by_write_rollback agent t rl) h = perform_write_rollback-IsChain agent t _ rl h
  Step-IsChain (by_gvt t) h = remove_write_periods-IsChain t _ h

  -- In every history that the operations can make of one that `AddWritePeriod` starts, whatever
  -- their order, each period ends where the next one starts, the starts do not decrease, and the
  -- last period ends at ULONG_MAX or LONG_MAX.
  pub Reachable-IsChain : (ws : List (WritePeriod V)) → Reachable ws → IsChain ws
  unfolding add_write_period
  Reachable-IsChain _ (created v t agent) = (inl refl, tt)
  Reachable-IsChain _ (stepped r s) = Step-IsChain s (Reachable-IsChain _ r)
