-- ===== src/Lp/Clp/Climbing.antt =====
-- Clp.cpp: the way of an end message up the tree.
use pdesmas_cloud.Base.{
  ℕ, zero, suc, ◌+◌, ◌/◌, ◌%◌, ◌^◌, ◌≤◌, ◌<◌, ◌≡◌, ◌≢◌, ◌⊎◌, refl, List, [], ◌∷◌, ◌++◌, some, true,
  false, ◌==◌, arith, Bool-cases, inl, inr,
}
use pdesmas_cloud.Lp.Clp.{Clp, is_leaf, is_root}
use pdesmas_cloud.Lp.Clp.EndMessages.{parent_clp, forward_end, middle_targets, process_end}
use pdesmas_cloud.Lp.Clp.Forwarding.{passed}
use pdesmas_cloud.Lp.LogicalProcess.{send_control}
use pdesmas_cloud.Lp.MessageQueue.{queue_message}
use pdesmas_cloud.Messages.LpMessage.{AbstractMessage, EndMessage}
use pdesmas_cloud.Routing.ForwardingTable.{left_of, right_of}

-- An end message at a CLP comes to the root, where each CLP that it comes to is in some state and
-- sends it on to the next one.
pub data Climbs (cs : ℕ → Clp) : EndMessage → ℕ → Type 0 where
  arrives : {m : EndMessage} → Climbs cs m 0
  hops :
      {m : EndMessage} {rank : ℕ} (next : ℕ) (c : Clp) (q q' : List AbstractMessage)
      → process_end m (cs rank) ≡ some c
      → c.lp.send_control_message_queue ≡ q ++ passed m rank next ∷ q'
      → Climbs cs (record m { origin = rank; destination = next }) next
      → Climbs cs m rank

-- The tree of a number of CLPs, each in any state.
abbrev pub AreClps : ℕ → (ℕ → Clp) → Type 0
AreClps n cs =
    (rank : ℕ) → rank < n → ((cs rank).lp.info.rank ≡ rank) × ((cs rank).lp.number_of_clps ≡ n)

-- A message that does not come from above: at a CLP in the middle it comes from a child.
abbrev pub ComesUp : ℕ → ℕ → EndMessage → Type 0
ComesUp n rank m =
    (m.origin ≢ parent_clp rank)
    × ((n / 2 ≤ rank) ⊎ (m.origin ≡ left_of rank) ⊎ (m.origin ≡ right_of rank))

parent_below :
    (n rank : ℕ)
    → n < 2 ^ 31
    → 0 < rank
    → rank < n
    → (parent_clp rank < rank)
      × (parent_clp rank < n / 2)
      × ((rank ≡ left_of (parent_clp rank)) ⊎ (rank ≡ right_of (parent_clp rank)))
unfolding parent_clp left_of right_of
parent_below n rank small pos lt =
    let e : parent_clp rank + 1 ≡ (rank + 1) / 2 = omega arith in
    (
      omega arith,
      omega arith,
      elim (Bool-cases (rank % 2 == 0)) [
        | inl even ↦ let z : rank % 2 ≡ 0 = ground arith in inr (omega arith)
        | inr odd ↦ let z : rank % 2 ≡ 1 = ground arith in inl (omega arith)
      ],
    )

-- The CLP above a CLP's parent is not that CLP.
parent-ne : (n p rank : ℕ) → n < 2 ^ 31 → p < rank → rank < n → rank ≢ parent_clp p
unfolding parent_clp
parent-ne n p rank small below lt e = omega arith

-- A message from a child goes on to the parent as the second one.
from_child :
    (n rank : ℕ) (m : EndMessage)
    → rank < n / 2
    → (n / 2 ≤ rank) ⊎ (m.origin ≡ left_of rank) ⊎ (m.origin ≡ right_of rank)
    → (middle_targets rank m).1 ≡ parent_clp rank
unfolding middle_targets
from_child n rank m inner (inl leaf) = absurd (omega arith)
from_child n rank m inner (inr (inl l)) = ground arith
from_child n rank m inner (inr (inr r)) = ground arith

hop_up :
    (n rank : ℕ) (m : EndMessage) (c : Clp)
    → n < 2 ^ 31
    → 0 < rank
    → rank < n
    → c.lp.info.rank ≡ rank
    → c.lp.number_of_clps ≡ n
    → ComesUp n rank m
    → (c' : Clp) × (q : List AbstractMessage) × (process_end m c ≡ some c')
      × (c'.lp.send_control_message_queue ≡ q ++ passed m rank (parent_clp rank) ∷ [])
unfolding process_end forward_end send_control queue_message middle_targets
hop_up n rank m c small pos lt e f (from, child) =
    let inner : is_root c ≡ false = ground arith in
    let old = c.lp.send_control_message_queue in
    elim (Bool-cases (is_leaf c)) [
      | inl leaf ↦
          let other_way : m.origin == parent_clp rank ≡ false = ground arith in
          (
            record c {
              stop_load_balance_processing = true;
              end_message_processed = true;
              lp = forward_end m (parent_clp rank) c.lp;
            },
            old,
            rw (inner, leaf, e, other_way) refl,
            rw e refl,
          )
      | inr middle ↦
          let (one, two) = middle_targets rank m in
          let target : (middle_targets rank m).1 ≡ parent_clp rank =
            from_child n rank m (ground arith) child in
          (
            record c {
              stop_load_balance_processing = true;
              end_message_processed = true;
              lp = forward_end m two (forward_end m one c.lp);
            },
            old ++ passed m rank one ∷ [],
            rw (inner, middle, e) refl,
            rw (e, target) refl,
          )
    ]

climb :
    (n : ℕ) (cs : ℕ → Clp)
    → n < 2 ^ 31
    → AreClps n cs
    → (k rank : ℕ) (m : EndMessage) → rank ≤ k
    → rank < n
    → ComesUp n rank m
    → Climbs cs m rank
climb n cs small tree k zero m le lt up = arrives
climb n cs small tree zero (suc r) m le lt up = absurd (omega arith)
climb n cs small tree (suc k) (suc r) m le lt up =
    let rank : ℕ = suc r in
    let (er, en) = tree rank lt in
    let (c, q, e, sent) = hop_up n rank m (cs rank) small (omega arith) lt er en up in
    let (below, inner, child) = parent_below n rank small (omega arith) lt in
    hops (parent_clp rank) c q [] e sent (
      climb n cs small tree k (parent_clp rank) _ (omega arith) (omega arith)
        (parent-ne n (parent_clp rank) rank small below lt, inr child))

-- In a tree of fewer than 2^31 CLPs, an end message that a CLP gets from its ALP at
-- a leaf, or from a child, comes to the root after a finite number of hops, whatever the states: each
-- CLP on the way sends it on to its parent.
pub process_end-Climbs :
    (n rank : ℕ) (cs : ℕ → Clp) (m : EndMessage)
    → n < 2 ^ 31
    → AreClps n cs
    → rank < n
    → m.origin ≢ parent_clp rank
    → (n / 2 ≤ rank) ⊎ (m.origin ≡ left_of rank) ⊎ (m.origin ≡ right_of rank)
    → Climbs cs m rank
process_end-Climbs n rank cs m small tree lt above child =
    climb n cs small tree rank rank m (omega arith) lt (above, child)
