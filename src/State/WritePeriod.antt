-- ===== src/State/WritePeriod.antt =====
-- state/WritePeriod.{h,cpp}: one write of a shared state variable, the time for which it is the
-- current one, and the reads that saw it. `fValue` is `none` for NULL; a copy is the value itself.
use pdesmas_cloud.Base.{
  ℕ, List, [], ◌∷◌, Option, ltb, leb, ◌==◌, ◌&&◌, not, if◌then◌else◌, keep, ulong_max,
}
use pdesmas_cloud.Lp.LpId.{LpId, lp_lt, lp_eq}
use pdesmas_cloud.Lp.RollbackList.{RollbackList, add_lp}

-- `SerialisableMultiMap<LpId, unsigned long>` in iteration order.
abbrev pub AgentReadMap : Type 0
AgentReadMap = List (LpId × ℕ)

-- `multimap::insert`: behind the last entry that is not greater.
unfoldable pub insert_read : LpId → ℕ → AgentReadMap → AgentReadMap
insert_read agent t [] = (agent, t) ∷ []
insert_read agent t ((a, u) ∷ m) =
    if lp_lt agent a then (agent, t) ∷ (a, u) ∷ m else (a, u) ∷ insert_read agent t m

pub record WritePeriod {ℓ} (V : Type ℓ) : Type ℓ where
  pub start_time : ℕ
  pub end_time : ℕ
  pub value : Option V
  pub agent : LpId
  pub agent_read_map : AgentReadMap

-- The loop of `RemoveReadsAfterInclusive`: what is erased, and the rollback list.
unfoldable pub reads_before : ℕ → AgentReadMap → AgentReadMap
reads_before t = keep (λ r. ltb r.1 t)

unfoldable pub roll_back_reads : ℕ → AgentReadMap → RollbackList → RollbackList
roll_back_reads t [] rl = rl
roll_back_reads t ((a, u) ∷ m) rl = roll_back_reads t m (if leb t u then add_lp a u rl else rl)

-- The loop of `RemoveAllReads`.
unfoldable pub roll_back_all : ℕ → AgentReadMap → RollbackList → RollbackList
roll_back_all t [] rl = rl
roll_back_all t ((a, u) ∷ m) rl = roll_back_all t m (add_lp a t rl)

module _ {ℓ} {V : Type ℓ} where
  -- The constructor from a value, a start time and an agent.
  abbrev pub new_write_period : Option V → ℕ → LpId → WritePeriod V
  new_write_period v t agent = record {
    start_time = t;
    end_time = ulong_max;
    value = v;
    agent = agent;
    agent_read_map = [];
  }

  unfoldable pub read : LpId → ℕ → WritePeriod V → WritePeriod V × Option V
  read agent t w = (record w { agent_read_map = insert_read agent t w.agent_read_map }, w.value)

  unfoldable pub remove_reads_before : ℕ → WritePeriod V → WritePeriod V
  remove_reads_before t w = record w {
    agent_read_map = keep (λ r. not (ltb r.1 t)) w.agent_read_map;
  }

  unfoldable pub remove_reads_after_inclusive :
      ℕ → WritePeriod V → RollbackList → WritePeriod V × RollbackList
  remove_reads_after_inclusive t w rl = (
    record w { agent_read_map = reads_before t w.agent_read_map },
    roll_back_reads t w.agent_read_map rl,
  )

  unfoldable pub remove_reads_by_agent : LpId → ℕ → WritePeriod V → WritePeriod V
  remove_reads_by_agent agent t w = record w {
    agent_read_map = keep (λ r. not (lp_eq r.0 agent && r.1 == t)) w.agent_read_map;
  }

  unfoldable pub remove_all_reads : ℕ → WritePeriod V → RollbackList → WritePeriod V × RollbackList
  remove_all_reads t w rl = (record w { agent_read_map = [] }, roll_back_all t w.agent_read_map rl)
