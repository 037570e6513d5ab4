-- ===== src/State/PrivateVariableStorage.antt =====
-- state/PrivateVariableStorage.{h,cpp}: the private variables of an agent, each with the list of its
-- write periods. `rbegin()` of an empty list is undefined: `none`.
pub mod Writes
mod Tests
use pdesmas_cloud.Base.{
  ℕ, List, [], ◌∷◌, ◌++◌, Option, none, some, Bool, true, false, ltb, leb, ◌&&◌, not, if◌then◌else◌,
  keep,
}
use pdesmas_cloud.Base.NatMap.{NatMap, find, assign, insert}
use pdesmas_cloud.Lp.LpId.{LpId}
use pdesmas_cloud.State.WritePeriod.{WritePeriod, new_write_period}
use pdesmas_cloud.State.StateVariable.{set_last_end}

module _ {ℓ} (V : Type ℓ) where
  abbrev pub Storage : Type ℓ
  Storage = NatMap (List (WritePeriod V))

module _ {ℓ} {V : Type ℓ} where
  unfoldable pub add_variable : ℕ → Storage V → Storage V × Bool
  add_variable id s = elim (find id s) [ some _ ↦ (s, false) | none ↦ (insert id [] s, true) ]

  -- The loop of `ReadVariable`: the first period that starts at the time or later and ends before.
  unfoldable pub read_periods : ℕ → List (WritePeriod V) → Option V
  read_periods t [] = none
  read_periods t (w ∷ ws) =
      let rest = read_periods t ws in
      if leb t w.start_time && ltb w.end_time t then w.value else rest

  unfoldable pub read_variable : ℕ → ℕ → Storage V → Option V
  read_variable id t s = elim (find id s) [ none ↦ none | some ws ↦ read_periods t ws ]

  -- `rbegin()->GetStartTime()`.
  unfoldable pub last_start : List (WritePeriod V) → Option ℕ
  last_start [] = none
  last_start (w ∷ ws) = elim (last_start ws) [ none ↦ some w.start_time | some t ↦ some t ]

  -- `LpId()` leaves its fields unset, so the agent of the new period is an argument.
  unfoldable pub write_variable : LpId → ℕ → Option V → ℕ → Storage V → Option (Storage V × Bool)
  write_variable unset id v t s = elim (find id s) [
    | none ↦ some (s, false)
    | some ws ↦ elim (last_start ws) [
      | none ↦ none
      | some u ↦
          if leb t u
          then some (s, false)
          else some (assign id (set_last_end t ws ++ new_write_period v t unset ∷ []) s, true)
    ]
  ]

  unfoldable pub perform_rollback : ℕ → Storage V → Storage V
  perform_rollback t [] = []
  perform_rollback t ((id, ws) ∷ s) =
      (id, keep (λ w. not (ltb w.start_time t)) ws) ∷ perform_rollback t s

  unfoldable pub clean_up : ℕ → Storage V → Storage V
  clean_up t [] = []
  clean_up t ((id, ws) ∷ s) = (id, keep (λ w. not (leb w.end_time t)) ws) ∷ clean_up t s
