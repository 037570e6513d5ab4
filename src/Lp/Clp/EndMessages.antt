-- ===== src/Lp/Clp/EndMessages.antt =====
-- lp/Clp.cpp: the handler of an end message, which goes to every CLP so that the root knows when all
-- ALPs have ended.
use pdesmas_cloud.Base.{
  ℕ, zero, suc, ◌+◌, ◌-◌, ◌/◌, ◌%◌, ◌^◌, List, [], ◌∷◌, Option, none, some, Bool, true, ◌==◌,
  if◌then◌else◌, ◌>>=◌,
}
use pdesmas_cloud.Lp.Clp.{Clp, is_leaf, is_root}
use pdesmas_cloud.Lp.GvtCalculator.{process_request}
use pdesmas_cloud.Lp.LogicalProcess.{
  LogicalProcess, send_control, queue_effects, all_end_messages_received,
}
use pdesmas_cloud.Lp.MessageQueue.{other}
use pdesmas_cloud.Messages.LpMessage.{EndMessage, end_message}
use pdesmas_cloud.Routing.ForwardingTable.{left_of, right_of}

-- `((int) ((GetRank() + 1) / 2)) - 1`, which is a large number at the root.
unfoldable pub parent_clp : ℕ → ℕ
parent_clp rank = ((rank + 1) % 2 ^ 32 / 2 + (2 ^ 32 - 1)) % 2 ^ 32

-- A message goes on from this CLP.
unfoldable pub forward_end : EndMessage → ℕ → LogicalProcess → LogicalProcess
forward_end m destination lp =
    send_control
      (other (end_message (record m { origin = lp.info.rank; destination = destination }))) lp

-- The destinations of the two messages of a CLP in the middle. One from elsewhere goes on to where it
-- was going, with a warning.
unfoldable pub middle_targets : ℕ → EndMessage → ℕ × ℕ
middle_targets rank m =
    if m.origin == left_of rank
    then (right_of rank, parent_clp rank)
    else if m.origin == right_of rank
    then (left_of rank, parent_clp rank)
    else if m.origin == parent_clp rank
    then (left_of rank, right_of rank)
    else (m.destination, parent_clp rank)

-- `fEndMessagesReceived[i] = true`; `none` is out of bounds.
unfoldable pub set_received : ℕ → List Bool → Option (List Bool)
set_received i [] = none
set_received zero (b ∷ bs) = some (true ∷ bs)
set_received (suc i) (b ∷ bs) = do bs' ← set_received i bs; some (b ∷ bs')

-- The root asks for GVT once all ALPs have ended, unless it has asked since the last GVT.
unfoldable pub root_receives : EndMessage → Clp → Option Clp
root_receives m c = do
  received ←
      set_received ((m.sender_alp + (2 ^ 32 - c.lp.number_of_clps)) % 2 ^ 32)
        c.lp.end_messages_received
  let lp = record c.lp { end_messages_received = received }
  some (
      if all_end_messages_received received
      then record c {
        end_message_processed = true;
        lp =
            if c.end_message_processed
            then lp
            else queue_effects (process_request lp.info lp.gvt_calculator) lp;
      }
      else record c { lp = lp })

-- `ProcessMessage(const EndMessage*)`.
unfoldable pub process_end : EndMessage → Clp → Option Clp
process_end m c =
    let rank = c.lp.info.rank in
    let stopped = record c { stop_load_balance_processing = true } in
    if is_root c
    then (do
      c' ← root_receives m stopped
      some (
          if is_leaf c then c' else record c' {
            lp =
                forward_end m (if m.origin == left_of rank then right_of rank else left_of rank)
                  c'.lp;
          }))
    else if is_leaf c
    then some (
        let processed = record stopped { end_message_processed = true } in
        if m.origin == parent_clp rank
        then processed
        else record processed { lp = forward_end m (parent_clp rank) processed.lp })
    else let (one, two) = middle_targets rank m in
      some (record stopped {
        end_message_processed = true;
        lp = forward_end m two (forward_end m one stopped.lp);
      })
