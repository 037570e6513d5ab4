-- ===== src/Routing/ForwardingTable/Fuel.antt =====
-- ForwardingTable.cpp: `WalkTree` comes to an end.
use pdesmas_cloud.Base.{
  ℕ, zero, suc, ◌+◌, ◌≤◌, ◌<◌, ◌≡◌, refl, [], some, true, false, ◌==◌, if◌then◌else◌, arith,
  Bool-cases, inl, inr, ◌%◌, ◌^◌,
}
use pdesmas_cloud.Base.NatMap.{insert, find-insert}
use pdesmas_cloud.Routing.ForwardingTable.{
  RoutingInfo, Table, has, stops, goes_up, walk_tree, new_forwarding_table, last_rank, left_of,
  right_of, parent_of, routing_info,
}

-- How many of the ranks below a number have no entry.
pub missing : ℕ → Table → ℕ
missing zero t = 0
missing (suc n) t = (if has n t then 0 else 1) + missing n t

pub has-insert :
    (k j : ℕ) (v : RoutingInfo) (t : Table)
    → has j (insert k v t) ≡ (if k == j then true else has j t)
unfolding has
has-insert k j v t = ground (arith, find-insert k j v t)

missing-insert_above :
    (n k : ℕ) (v : RoutingInfo) (t : Table) → n ≤ k → missing n (insert k v t) ≡ missing n t
unfolding missing
missing-insert_above zero k v t le = refl
missing-insert_above (suc n) k v t le =
    ground (arith, has-insert k n v t, missing-insert_above n k v t)

missing-insert :
    (n k : ℕ) (v : RoutingInfo) (t : Table)
    → k < n
    → has k t ≡ false
    → missing n (insert k v t) + 1 ≡ missing n t
unfolding missing
missing-insert zero k v t lt e = elim lt [ ]
missing-insert (suc n) k v t lt e =
    ground (arith, has-insert k n v t, missing-insert n k v t, missing-insert_above n k v t)

pub stops-false :
    (clps rank : ℕ) (t : Table)
    → stops clps rank t ≡ false
    → (rank ≤ last_rank clps) × (has rank t ≡ false)
unfolding stops
stops-false clps rank t e = ground arith

pub missing-le : (n : ℕ) (t : Table) → missing n t ≤ n
unfolding missing
missing-le zero t = omega arith
missing-le (suc n) t = ground (arith, missing-le n t)

-- Where fewer ranks are missing than there is fuel, the walk ends, and no more are missing.
pub walk_tree_total :
    (fuel clp clps rank hops next : ℕ) (t : Table)
    → missing (suc (last_rank clps)) t < fuel
    → (r : Table) × (walk_tree fuel clp clps rank hops next t ≡ some r)
      × (missing (suc (last_rank clps)) r ≤ missing (suc (last_rank clps)) t)
unfolding walk_tree
walk_tree_total zero clp clps rank hops next t lt = elim lt [ ]
walk_tree_total (suc fuel) clp clps rank hops next t lt =
    let n = suc (last_rank clps) in
    elim (Bool-cases (stops clps rank t)) [
      | inl stop ↦ (t, rw (walk_tree, stop) refl, omega arith)
      | inr on ↦
          let (le, new) = stops-false clps rank t on in
          let further = (hops + 1) % 2 ^ 32 in
          let entered = insert rank (routing_info clp rank hops next) t in
          let fewer = missing-insert n rank (routing_info clp rank hops next) t (omega arith) new in
          let (l, el, ml) =
            walk_tree_total fuel clp clps (left_of rank) further next entered (omega arith) in
          let (r, er, mr) =
            walk_tree_total fuel clp clps (right_of rank) further next l (omega arith) in
          elim (Bool-cases (goes_up clp rank next)) [
            | inl up ↦
                let (p, ep, mp) =
                  walk_tree_total fuel clp clps (parent_of rank) further next r (omega arith) in
                (p, rw (walk_tree, on, el, er, up) ep, omega arith)
            | inr down ↦ (r, rw (walk_tree, on, el, er, down) refl, omega arith)
          ]
    ]

-- Walks with one unit of fuel more than there are CLPs come to an end at every CLP, so the
-- constructor of the forwarding table returns for any rank and any number of CLPs that an `unsigned
-- int` holds, 0 of them apart.
pub new_forwarding_table_total :
    (clp clps : ℕ)
    → 0 < clps
    → clps < 2 ^ 32
    → (t : Table) × (new_forwarding_table (clps + 1) clp clps ≡ some t)
unfolding last_rank new_forwarding_table
new_forwarding_table_total clp clps pos small =
    let e : suc (last_rank clps) ≡ clps = omega arith in
    let start = insert clp (routing_info clp clp 0 clp) [] in
    let b = missing-le (suc (last_rank clps)) start in
    let (l, el, ml) =
      walk_tree_total (clps + 1) clp clps (left_of clp) 1 (left_of clp) start (omega arith) in
    let (r, er, mr) =
      walk_tree_total (clps + 1) clp clps (right_of clp) 1 (right_of clp) l (omega arith) in
    elim (Bool-cases (clp == 0)) [
      | inl root ↦ (r, rw (new_forwarding_table, el, er, root) refl)
      | inr below ↦
          let (p, ep, mp) =
            walk_tree_total (clps + 1) clp clps (parent_of clp) 1 (parent_of clp) r (omega arith) in
          (p, rw (new_forwarding_table, el, er, below) ep)
    ]
