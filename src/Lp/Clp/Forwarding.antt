-- ===== src/Lp/Clp/Forwarding.antt =====
-- Clp.cpp: where an end message goes in the tree.
use pdesmas_cloud.Base.{
  ℕ, ◌≡◌, ◌⊎◌, refl, List, [], ◌∷◌, ◌++◌, some, true, false, ◌==◌, arith, Bool-cases, inl, inr,
}
use mathlib.Core.List.{Perm, append_assoc}
use mathlib.Core.List.Perm
use pdesmas_cloud.Lp.Clp.{Clp, is_leaf, is_root}
use pdesmas_cloud.Lp.Clp.EndMessages.{parent_clp, forward_end, middle_targets, process_end}
use pdesmas_cloud.Lp.LogicalProcess.{send_control}
use pdesmas_cloud.Lp.MessageQueue.{other, queue_message}
use pdesmas_cloud.Messages.LpMessage.{AbstractMessage, EndMessage, end_message}
use pdesmas_cloud.Routing.ForwardingTable.{left_of, right_of}

-- The end message as a CLP sends it on.
abbrev pub passed : EndMessage → ℕ → ℕ → AbstractMessage
passed m rank destination =
    other (end_message (record m { origin = rank; destination = destination }))

-- The neighbours of a CLP in the middle of the tree.
abbrev pub links : ℕ → List ℕ
links rank = left_of rank ∷ right_of rank ∷ parent_clp rank ∷ []

middle_targets-Perm :
    (rank : ℕ) (m : EndMessage)
    → (m.origin ≡ left_of rank) ⊎ (m.origin ≡ right_of rank) ⊎ (m.origin ≡ parent_clp rank)
    → Perm (m.origin ∷ (middle_targets rank m).0 ∷ (middle_targets rank m).1 ∷ []) (links rank)
unfolding middle_targets
middle_targets-Perm rank m from = elim (Bool-cases (m.origin == left_of rank)) [
  | inl l ↦ let e : m.origin ≡ left_of rank = ground arith in rw (l, e) (Perm.refl _)
  | inr not_l ↦ elim (Bool-cases (m.origin == right_of rank)) [
    | inl r ↦
        let e : m.origin ≡ right_of rank = ground arith in
        rw (not_l, r, e) (Perm.swap (left_of rank) (right_of rank) (parent_clp rank ∷ []))
    | inr not_r ↦
        let e : m.origin ≡ parent_clp rank = ground arith in
        let p : m.origin == parent_clp rank ≡ true = ground arith in
        rw (not_l, not_r, p, e)
          (Perm.trans (Perm.swap (left_of rank) (parent_clp rank) (right_of rank ∷ []))
            (Perm.cons (left_of rank) (Perm.swap (right_of rank) (parent_clp rank) [])))
  ]
]

-- A CLP in the middle of the tree that gets an end message from one of its three neighbours sends it
-- on to exactly the other two, as from itself, and remembers that it has processed one.
pub process_end-middle :
    (m : EndMessage) (c : Clp)
    → is_root c ≡ false
    → is_leaf c ≡ false
    → (m.origin ≡ left_of c.lp.info.rank)
      ⊎ (m.origin ≡ right_of c.lp.info.rank)
      ⊎ (m.origin ≡ parent_clp c.lp.info.rank)
    → (c' : Clp) × (one : ℕ) × (two : ℕ) × (process_end m c ≡ some c')
      × (c'.lp.send_control_message_queue
          ≡ c.lp.send_control_message_queue
            ++ passed m c.lp.info.rank one ∷ passed m c.lp.info.rank two ∷ [])
      × Perm (m.origin ∷ one ∷ two ∷ []) (links c.lp.info.rank)
      × (c'.end_message_processed ≡ true)
unfolding process_end forward_end send_control queue_message
process_end-middle m c inner wide from =
    let rank = c.lp.info.rank in
    let (one, two) = middle_targets rank m in
    (
      record c {
        stop_load_balance_processing = true;
        end_message_processed = true;
        lp = forward_end m two (forward_end m one c.lp);
      },
      one,
      two,
      rw (inner, wide) refl,
      append_assoc c.lp.send_control_message_queue (passed m rank one ∷ [])
          (passed m rank two ∷ []),
      middle_targets-Perm rank m from,
      refl,
    )
