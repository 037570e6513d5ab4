-- ===== src/Lp/MessageQueue/Removal.antt =====
-- The queue of MessageQueue.cpp as a first-in first-out queue, and what a rollback takes out of it.
use pdesmas_cloud.Base.{ℕ, ◌≡◌, refl, List, [], ◌∷◌, none, some, map, arith}
use pdesmas_cloud.Lp.LpId.{LpId}
use pdesmas_cloud.Messages.SharedStateMessage.{AnySharedState, single_read, write, range_query}
use pdesmas_cloud.Interface.SendList.{is_undone, rollback_send_list}
use pdesmas_cloud.Lp.MessageQueue.{
  Queued, shared_state, queue_message, dequeue_message, is_removed, remove_messages,
}

is_removed-is_undone :
    (M : Type 0) (alp : LpId) (t : ℕ) (m : AnySharedState)
    → is_removed {M = M} alp t (shared_state m) ≡ is_undone t alp m
unfolding is_removed is_undone
is_removed-is_undone M alp t (single_read m) = refl
is_removed-is_undone M alp t (write m) = refl
is_removed-is_undone M alp t (range_query m) = refl

-- A queue of the messages of the send list loses in `RemoveMessages` just those that
-- `RollbackSendList` takes off the send list: the two switches agree on all three classes.
pub remove_messages-rollback_send_list :
    (M : Type 0) (alp : LpId) (t : ℕ) (ms : List AnySharedState)
    → remove_messages {M = M} alp t (map shared_state ms)
      ≡ map shared_state (rollback_send_list t alp ms).0
unfolding remove_messages rollback_send_list
remove_messages-rollback_send_list M alp t [] = refl
remove_messages-rollback_send_list M alp t (m ∷ ms) =
    ground (arith, remove_messages-rollback_send_list M alp t ms, is_removed-is_undone M alp t m)

module _ {M : Type 0} where
  -- Messages leave the queue in the order in which they are queued: to dequeue after a message is
  -- queued gives what dequeuing before it gives, and the message itself only if the queue is empty.
  pub dequeue_message-queue_message :
      (m : Queued M) (q : List (Queued M))
      → dequeue_message (queue_message m q) ≡ elim (dequeue_message q) [
        | none ↦ some ([], m)
        | some r ↦ some (queue_message m r.0, r.1)
      ]
  unfolding dequeue_message queue_message
  dequeue_message-queue_message m [] = refl
  dequeue_message-queue_message m (n ∷ q) = refl

  -- What is removed for one agent and what for another does not depend on which comes first.
  pub remove_messages_comm :
      (alp alp' : LpId) (t t' : ℕ) (q : List (Queued M))
      → remove_messages alp t (remove_messages alp' t' q)
        ≡ remove_messages alp' t' (remove_messages alp t q)
  unfolding remove_messages
  remove_messages_comm alp alp' t t' [] = refl
  remove_messages_comm alp alp' t t' (m ∷ q) = ground (arith, remove_messages_comm alp alp' t t' q)
