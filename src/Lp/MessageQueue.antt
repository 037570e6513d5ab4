-- ===== src/Lp/MessageQueue.antt =====
-- lp/MessageQueue.{h,cpp}: a queue of messages between the threads of a logical process. Every
-- operation runs under the queue's lock. `front` of an empty deque is undefined: `none`.
pub mod Removal
mod Tests
use pdesmas_cloud.Base.{
  ℕ, List, [], ◌∷◌, ◌++◌, Option, none, some, Bool, true, false, ltb, leb, ◌&&◌, if◌then◌else◌,
}
use pdesmas_cloud.Lp.LpId.{LpId, lp_eq}
use pdesmas_cloud.Messages.SharedStateMessage.{
  AnySharedState, SingleReadMessage, WriteMessage, RangeQueryMessage, single_read, write,
  range_query,
}

-- An `AbstractMessage*`: one of the three classes that `RemoveMessages` looks for, or another.
pub data Queued {ℓ} (M : Type ℓ) : Type ℓ where
  shared_state : AnySharedState → Queued M
  other : M → Queued M

module _ {ℓ} {M : Type ℓ} where
  unfoldable pub is_empty : List (Queued M) → Bool
  is_empty [] = true
  is_empty (m ∷ q) = false

  unfoldable pub queue_message : Queued M → List (Queued M) → List (Queued M)
  queue_message m q = q ++ m ∷ []

  unfoldable pub dequeue_message : List (Queued M) → Option (List (Queued M) × Queued M)
  dequeue_message [] = none
  dequeue_message (m ∷ q) = some (q, m)

  -- The `switch` of `RemoveMessages`.
  unfoldable pub is_removed : LpId → ℕ → Queued M → Bool
  is_removed alp t (shared_state (single_read m)) =
      lp_eq m.base.original_agent alp && leb t m.base.simulation.timestamp
  is_removed alp t (shared_state (write m)) =
      lp_eq m.base.original_agent alp && ltb t m.base.simulation.timestamp
  is_removed alp t (shared_state (range_query m)) =
      lp_eq m.base.original_agent alp && leb t m.base.simulation.timestamp
  is_removed alp t (other m) = false

  unfoldable pub remove_messages : LpId → ℕ → List (Queued M) → List (Queued M)
  remove_messages alp t [] = []
  remove_messages alp t (m ∷ q) =
      let rest = remove_messages alp t q in if is_removed alp t m then rest else m ∷ rest
