-- ===== src/State/PrivateVariableStorage/Writes.antt =====
-- What the reads of PrivateVariableStorage.cpp can find.
use pdesmas_cloud.Base.{ℕ, ◌≤◌, ◌≡◌, refl, List, [], ◌∷◌, Option, none, some, arith, All}
use pdesmas_cloud.Base.NatMap.{find, insert, map_laws}
use pdesmas_cloud.Lp.LpId.{LpId}
use pdesmas_cloud.State.WritePeriod.{WritePeriod}
use pdesmas_cloud.State.PrivateVariableStorage.{
  Storage, add_variable, last_start, read_periods, read_variable, write_variable,
}

module _ {V : Type 0} where
  -- Each period ends where it starts or later.
  abbrev pub AreForward : List (WritePeriod V) → Type 0
  AreForward = All (λ w. w.start_time ≤ w.end_time)

  read_periods-AreForward :
      (t : ℕ) (ws : List (WritePeriod V)) → AreForward ws → read_periods t ws ≡ none
  unfolding read_periods
  read_periods-AreForward t [] h = refl
  read_periods-AreForward t (w ∷ ws) h = ground (arith, read_periods-AreForward t ws h.1)

  -- Where every period of a variable ends where it starts or later, `ReadVariable` finds no value of
  -- it at any time.
  pub read_variable-AreForward :
      (id t : ℕ) (s : Storage V) (ws : List (WritePeriod V))
      → find id s ≡ some ws
      → AreForward ws
      → read_variable id t s ≡ none
  unfolding read_variable
  read_variable-AreForward id t s ws e h = rw (e, read_variable) (read_periods-AreForward t ws h)

  -- A write to a variable that was not there and was just added reads the last period of an empty
  -- list, which is undefined, whatever the value and the time.
  pub write_variable-add_variable :
      (unset : LpId) (id t : ℕ) (v : Option V) (s : Storage V)
      → find id s ≡ none
      → write_variable unset id v t (add_variable id s).0 ≡ none
  unfolding write_variable add_variable last_start
  write_variable-add_variable unset id t v s new =
      let empty : find id (insert id [] s) ≡ some [] = grind map_laws in
      rw (new, add_variable, write_variable, empty)
