-- ===== src/State/StateVariable.antt =====
-- state/StateVariable.{h,cpp}: the history of one shared state variable, a list of write periods,
-- oldest first. `exit(1)` and a dereference of `rend()` are `none`.
pub mod Walk
pub mod Chain
pub mod Invariant
pub mod Values
pub mod Writes
pub mod Stragglers
pub mod Outcome
pub mod Reach
pub mod Reads
mod Tests
use pdesmas_cloud.Base.{
  ℕ, List, [], ◌∷◌, ◌++◌, Option, none, some, leb, ◌==◌, ◌&&◌, if◌then◌else◌, ulong_max, long_max,
}
use pdesmas_cloud.Lp.LpId.{LpId, lp_gt, lp_ne}
use pdesmas_cloud.Lp.RollbackList.{RollbackList}
use pdesmas_cloud.State.WritePeriod.{
  WritePeriod, new_write_period, remove_reads_before, remove_reads_after_inclusive,
  remove_reads_by_agent, remove_all_reads,
}
use pdesmas_cloud.State.WritePeriod

pub data WriteStatus : Type 0 where
  write_success write_failure : WriteStatus

-- Where an iterator stands in a list: what comes before it, the element, and what comes after.
pub record Place {ℓ} (V : Type ℓ) : Type ℓ where
  pub before : List (WritePeriod V)
  pub period : WritePeriod V
  pub after : List (WritePeriod V)

module _ {ℓ} {V : Type ℓ} where
  abbrev pub under : WritePeriod V → Option (Place V) → Option (Place V)
  under w none = none
  under w (some p) = some (record p { before = w ∷ p.before })

  -- The reverse walk that all operations share: the last period that starts at `t` or before, where
  -- later periods are tried first. `none` is `rend()`.
  unfoldable pub walk_back : ℕ → List (WritePeriod V) → Option (Place V)
  walk_back t [] = none
  walk_back t (w ∷ ws) = elim (walk_back t ws) [
    | some p ↦ some (record p { before = w ∷ p.before })
    | none ↦
        if leb w.start_time t then some (record { before = []; period = w; after = ws }) else none
  ]

  -- The forward walk of `PerformWriteRollback`: the first period that starts at `t`.
  unfoldable pub walk_to : ℕ → List (WritePeriod V) → Option (Place V)
  walk_to t [] = none
  walk_to t (w ∷ ws) =
      if w.start_time == t
      then some (record { before = []; period = w; after = ws })
      else under w (walk_to t ws)

  -- The erasing loop of `RemoveWritePeriods`.
  unfoldable pub erase_until : ℕ → List (WritePeriod V) → List (WritePeriod V)
  erase_until t [] = []
  erase_until t (w ∷ ws) = if w.start_time == t then w ∷ ws else erase_until t ws

  -- `--iterator; iterator->SetEndTime(t)`: the end time of the period just before.
  unfoldable pub set_last_end : ℕ → List (WritePeriod V) → List (WritePeriod V)
  set_last_end t [] = []
  set_last_end t (w ∷ []) = record w { end_time = t } ∷ []
  set_last_end t (w ∷ w' ∷ ws) = w ∷ set_last_end t (w' ∷ ws)

  abbrev pub close : Place V → List (WritePeriod V)
  close p = p.before ++ p.period ∷ p.after

  unfoldable pub add_write_period :
      Option V → ℕ → LpId → List (WritePeriod V) → List (WritePeriod V)
  add_write_period v t agent ws = ws ++ new_write_period v t agent ∷ []

  unfoldable pub remove_write_periods : ℕ → List (WritePeriod V) → List (WritePeriod V)
  remove_write_periods t ws = elim (walk_back t ws) [
    | none ↦ ws
    | some p ↦
        erase_until t
          (close (record p { period = remove_reads_before t (record p.period { start_time = t }) }))
  ]

  unfoldable pub read : LpId → ℕ → List (WritePeriod V) → Option (List (WritePeriod V) × Option V)
  read agent t ws = elim (walk_back t ws) [
    | none ↦ none
    | some p ↦
        let (w, v) = WritePeriod.read agent t p.period in some (close (record p { period = w }), v)
  ]

  unfoldable pub read_without_record : ℕ → List (WritePeriod V) → ℕ × Option V
  read_without_record t ws = elim (walk_back t ws) [
    | some p ↦ (p.period.end_time, p.period.value)
    | none ↦ (ulong_max, none)
  ]

  -- The end time of the new period: the start of the next one, if a period is split.
  abbrev pub split_end : List (WritePeriod V) → ℕ
  split_end [] = ulong_max
  split_end (w ∷ ws) = w.start_time

  -- The part of `WriteWithRollback` behind its two refusals.
  unfoldable pub insert_write :
      LpId → Option V → ℕ → Place V → RollbackList → List (WritePeriod V) × RollbackList
  insert_write agent v t p rl =
      let (w, rl') = remove_reads_after_inclusive t (record p.period { end_time = t }) rl in
      let new = record (new_write_period v t agent) { end_time = split_end p.after } in
      (p.before ++ w ∷ new ∷ p.after, rl')

  unfoldable pub write_with_rollback :
      LpId
      → Option V
      → ℕ
      → List (WritePeriod V)
      → RollbackList
      → List (WritePeriod V) × WriteStatus × RollbackList
  write_with_rollback agent v t [] rl = (new_write_period v t agent ∷ [], write_success, rl)
  write_with_rollback agent v t (w ∷ ws) rl = elim (walk_back t (w ∷ ws)) [
    | none ↦ (w ∷ ws, write_failure, rl)
    | some p ↦
        if p.period.start_time == t && lp_gt p.period.agent agent
        then (w ∷ ws, write_failure, rl)
        else (let (ws', rl') = insert_write agent v t p rl in (ws', write_success, rl'))
  ]

  unfoldable pub perform_read_rollback :
      LpId → ℕ → List (WritePeriod V) → Option (List (WritePeriod V))
  perform_read_rollback agent t ws = elim (walk_back t ws) [
    | none ↦ none
    | some p ↦ some (close (record p { period = remove_reads_by_agent agent t p.period }))
  ]

  -- The four erasing branches of `PerformWriteRollback`: the only period, the last, the first, and
  -- one in the middle.
  unfoldable pub erase_period : Place V → List (WritePeriod V)
  erase_period p = elim p.before [
    | [] ↦ p.after
    | w ∷ ws ↦ elim p.after [
      | [] ↦ set_last_end long_max p.before
      | _ ∷ _ ↦ set_last_end p.period.end_time p.before ++ p.after
    ]
  ]

  unfoldable pub perform_write_rollback :
      LpId → ℕ → List (WritePeriod V) → RollbackList → List (WritePeriod V) × RollbackList
  perform_write_rollback agent t ws rl = elim (walk_to t ws) [
    | none ↦ (ws, rl)
    | some p ↦
        if lp_ne p.period.agent agent
        then (ws, rl)
        else let (w, rl') = remove_all_reads t p.period rl in
          (erase_period (record p { period = w }), rl')
  ]
