-- ===== src/Lp/RollbackList/Telling.antt =====
-- RollbackList.cpp: what `SendRollbacks` tells the agents of the list.
use pdesmas_cloud.Base.{ℕ, ◌≤◌, ◌≡◌, refl, sym, ap, ◌∙◌, inl, inr, List, [], ◌∷◌, ◌++◌, true, Any}
use mathlib.Core.List.{append_assoc, append-nil}
use pdesmas_cloud.Lp.LogicalProcess.{LogicalProcess, send_simulation}
use pdesmas_cloud.Lp.LpId.{LpId, lp_equiv}
use pdesmas_cloud.Lp.MessageQueue.{other, queue_message}
use pdesmas_cloud.Lp.RollbackList.{RollbackList}
use pdesmas_cloud.Lp.RollbackList.Covers.{Covers}
use pdesmas_cloud.Lp.RollbackList.Sending.{send_rollbacks, rollback_message}
use pdesmas_cloud.Lp.RollbackTag.{RollbackTag}
use pdesmas_cloud.Messages.LpMessage.{AbstractMessage, RollbackMessage, rollback}

-- A message that tells an agent, or one that the rollback list takes for it, to go back to a time or
-- to before it.
abbrev pub Tells : LpId → ℕ → AbstractMessage → Type 0
Tells agent t m =
    (n : RollbackMessage) × (m ≡ other (rollback n))
    × (lp_equiv n.original_agent agent ≡ true)
    × (n.simulation.timestamp ≤ t)

pub send_rollbacks-Tells :
    (agent : LpId) (t : ℕ) (tag : RollbackTag) (rl : RollbackList) (lp : LogicalProcess)
    → (q : List AbstractMessage) × (send_rollbacks tag rl lp
        ≡ record lp { send_message_queue = lp.send_message_queue ++ q })
      × (Covers agent t rl → Any (Tells agent t) q)
unfolding send_rollbacks send_simulation queue_message
send_rollbacks-Tells agent t tag [] lp = (
  [],
  ap (λ q. record lp { send_message_queue = q }) (sym (append-nil lp.send_message_queue)),
  λ c. absurd c,
)
send_rollbacks-Tells agent t tag ((a, u) ∷ rl) lp =
    let n = rollback_message lp.info.rank tag a u in
    let lp' = send_simulation (other (rollback n)) lp in
    let (q, e, told) = send_rollbacks-Tells agent t tag rl lp' in
    (
      other (rollback n) ∷ q,
      e
          ∙ ap (λ l. record lp { send_message_queue = l })
              (append_assoc lp.send_message_queue (other (rollback n) ∷ []) q),
      λ c. elim c [ inl (k, le) ↦ inl (n, refl, k, le) | inr later ↦ inr (told later) ],
    )
