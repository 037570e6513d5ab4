-- ===== src/Routing/ForwardingTable/Coverage.antt =====
-- ForwardingTable.cpp: the table has every CLP of the tree.
use pdesmas_cloud.Base.{
  ℕ, zero, suc, ◌+◌, ◌/◌, ◌%◌, ◌^◌, ◌-◌, ◌≤◌, ◌<◌, ◌≡◌, [], some, true, false, ◌==◌, arith,
  Bool-cases, Option-cases, inl, inr, subst, >>=-eq-some,
}
use pdesmas_cloud.Base.NatMap.{find, insert}
use pdesmas_cloud.Routing.ForwardingTable.{
  RoutingInfo, Table, has, goes_up, walk_tree, new_forwarding_table, last_rank, left_of, right_of,
  parent_of, routing_info, get_routing_info,
}
use pdesmas_cloud.Routing.ForwardingTable.Fuel.{has-insert, new_forwarding_table_total}
use pdesmas_cloud.Routing.ForwardingTable.Walk.{
  Children, walk_tree-Grows, has-insert_self, walk_tree-has_rank, Closed-Grows, walk_tree-Closed,
  walk_tree-le,
}

-- A table that has the root, and the children of all that it has, has every CLP.
downwards :
    (clps : ℕ) (t : Table)
    → clps < 2 ^ 31
    → has 0 t ≡ true
    → ((j : ℕ) → has j t ≡ true → Children clps j t)
    → (n rank : ℕ) → rank ≤ n
    → rank < clps
    → has rank t ≡ true
unfolding left_of right_of last_rank
downwards clps t small root down n zero le lt = root
downwards clps t small root down zero (suc m) le lt = absurd (omega arith)
downwards clps t small root down (suc n) (suc m) le lt =
    let (l, r) =
      down (m / 2) (downwards clps t small root down n (m / 2) (omega arith) (omega arith)) in
    elim (Bool-cases (m % 2 == 0)) [
      | inl even ↦
          let e : left_of (m / 2) ≡ suc m = ground arith in
          subst (λ k. has k t ≡ true) e (l (omega arith))
      | inr odd ↦
          let e : right_of (m / 2) ≡ suc m = ground arith in
          subst (λ k. has k t ≡ true) e (r (omega arith))
    ]

-- A table that has the parent of all that it has before a rank, and one of those, has the root.
upwards :
    (clp : ℕ) (t : Table)
    → clp < 2 ^ 31
    → ((j : ℕ) → 0 < j → j < clp → has j t ≡ true → has (parent_of j) t ≡ true)
    → (n j : ℕ) → j ≤ n
    → j < clp
    → has j t ≡ true
    → has 0 t ≡ true
unfolding parent_of
upwards clp t small up n zero le lt h = h
upwards clp t small up zero (suc m) le lt h = absurd (omega arith)
upwards clp t small up (suc n) (suc m) le lt h =
    upwards clp t small up n (parent_of (suc m)) (omega arith) (omega arith)
      (up (suc m) (omega arith) lt h)

goes_up-left : (clp j : ℕ) → goes_up clp j (left_of clp) ≡ false
unfolding goes_up
goes_up-left clp j = ground arith

goes_up-right : (clp j : ℕ) → goes_up clp j (right_of clp) ≡ false
unfolding goes_up
goes_up-right clp j = ground arith

-- Within the tree the parent of a CLP is neither of its children, so the walk there goes up.
goes_up-parent :
    (clp j : ℕ) → 0 < clp → clp < 2 ^ 31 - 1 → 0 < j → goes_up clp j (parent_of clp) ≡ true
unfolding goes_up parent_of left_of right_of
goes_up-parent clp j pos small behind = ground arith

module _ (clp clps fuel : ℕ) (inside : clp < clps) (small : clps < 2 ^ 31) where
  abbrev start : Table
  start = insert clp (routing_info clp clp 0 clp) []

  has-start : (j : ℕ) → has j start ≡ true → clp ≡ j
  unfolding has find
  has-start j h = ground (arith, has-insert clp j (routing_info clp clp 0 clp) [])

  -- What the two walks below a CLP enter.
  module _ {l r : Table} (el : walk_tree fuel clp clps (left_of clp) 1 (left_of clp) start ≡ some l)
      (er : walk_tree fuel clp clps (right_of clp) 1 (right_of clp) l ≡ some r) where
    below-Children : (j : ℕ) → has j r ≡ true → Children clps j r
    below-Children j there = elim (Bool-cases (has j l)) [
      | inr not_l ↦
          (walk_tree-Closed fuel clp clps (right_of clp) 1 (right_of clp) l r er j not_l there).0
      | inl in_l ↦
          let gr = walk_tree-Grows fuel clp clps (right_of clp) 1 (right_of clp) l r er in
          elim (Bool-cases (has j start)) [
            | inl first ↦
                let own : Children clps clp r = (
                  λ le. gr _ (
                      walk_tree-has_rank fuel clp clps (left_of clp) 1 (left_of clp) start l el le),
                  λ le. walk_tree-has_rank fuel clp clps (right_of clp) 1 (right_of clp) l r er le,
                ) in
                subst (λ k. Children clps k r) (has-start j first) own
            | inr new ↦
                (Closed-Grows clp clps (left_of clp) j l r gr (
                  walk_tree-Closed fuel clp clps (left_of clp) 1 (left_of clp) start l el j new
                    in_l)).0
          ]
    ]

    below-has : has clp r ≡ true
    below-has = walk_tree-Grows fuel clp clps (right_of clp) 1 (right_of clp) l r er clp (
        walk_tree-Grows fuel clp clps (left_of clp) 1 (left_of clp) start l el clp
          (has-insert_self clp (routing_info clp clp 0 clp) []))

    below-le : (j : ℕ) → j < clp → has j r ≡ false
    unfolding left_of right_of
    below-le j before = elim (Bool-cases (has j r)) [
      | inr not_there ↦ not_there
      | inl there ↦ elim (Bool-cases (has j l)) [
        | inr not_l ↦
            let le : right_of clp ≤ j =
              walk_tree-le fuel clp clps (right_of clp) 1 (right_of clp) l r (omega arith) small
                (goes_up-right clp) er j not_l there in
            absurd (omega arith)
        | inl in_l ↦ elim (Bool-cases (has j start)) [
          | inl first ↦ let same = has-start j first in absurd (omega arith)
          | inr new ↦
              let le : left_of clp ≤ j =
                walk_tree-le fuel clp clps (left_of clp) 1 (left_of clp) start l (omega arith) small
                  (goes_up-left clp) el j new in_l in
              absurd (omega arith)
        ]
      ]
    ]

    -- The root fills the tree by the two walks alone; any other CLP by the third one as well.
    root_covers : clp ≡ 0 → (rank : ℕ) → rank < clps → has rank r ≡ true
    root_covers root rank lt =
        downwards clps r small (subst (λ k. has k r ≡ true) root below-has) below-Children rank rank
          (omega arith) lt

    third_covers :
        {p : Table}
        → 0 < clp
        → walk_tree fuel clp clps (parent_of clp) 1 (parent_of clp) r ≡ some p
        → (rank : ℕ) → rank < clps
        → has rank p ≡ true
    unfolding parent_of last_rank
    third_covers {p} pos ep rank lt =
        let gp = walk_tree-Grows fuel clp clps (parent_of clp) 1 (parent_of clp) r p ep in
        let closed = walk_tree-Closed fuel clp clps (parent_of clp) 1 (parent_of clp) r p ep in
        let all : (j : ℕ) → has j p ≡ true → Children clps j p = λ j there.
          elim (Bool-cases (has j r)) [
            | inl old ↦
                let (cl, cr) = below-Children j old in (λ le. gp _ (cl le), λ le. gp _ (cr le))
            | inr new ↦ (closed j new there).0
          ] in
        let up : (j : ℕ) → 0 < j → j < clp → has j p ≡ true → has (parent_of j) p ≡ true =
          λ j behind before there.
            (closed j (below-le j before) there).1 (goes_up-parent clp j pos (omega arith) behind)
              (omega arith) in
        let root = upwards clp p (omega arith) up clp (parent_of clp) (omega arith) (omega arith) (
          walk_tree-has_rank fuel clp clps (parent_of clp) 1 (parent_of clp) r p ep
            (omega arith)) in
        downwards clps p small root all rank rank (omega arith) lt

has-some :
    (rank : ℕ) (t : Table)
    → has rank t ≡ true
    → (i : RoutingInfo) × (get_routing_info rank t ≡ some i)
unfolding has get_routing_info
has-some rank t h = elim (Option-cases (find rank t)) [
  | inl e ↦ let w : false ≡ true = rw (has, e) at h in cc
  | inr (i, e) ↦ (i, e)
]

-- Every CLP of a tree of fewer than 2^31 comes to a forwarding table, and finds in it the way to
-- every CLP, its own rank included, so `GetRoutingInfo` does not exit.
pub get_routing_info-new_forwarding_table :
    (clp clps rank : ℕ)
    → clp < clps
    → clps < 2 ^ 31
    → rank < clps
    → (t : Table) × (new_forwarding_table (clps + 1) clp clps ≡ some t)
      × (i : RoutingInfo) × (get_routing_info rank t ≡ some i)
unfolding new_forwarding_table
get_routing_info-new_forwarding_table clp clps rank inside small lt =
    let (t, e) = new_forwarding_table_total clp clps (omega arith) (omega arith) in
    let (l, el, rest) = >>=-eq-some _ _ e in
    let (r, er, last) = >>=-eq-some _ _ rest in
    let covered : has rank t ≡ true = elim (Bool-cases (clp == 0)) [
      | inl root ↦
          let same : some r ≡ some t = rw root at last in
          let e0 : clp ≡ 0 = ground arith in
          let same' : r ≡ t = cc in
          subst (λ a. has rank a ≡ true) same'
            (root_covers clp clps (clps + 1) inside small el er e0 rank lt)
      | inr other ↦
          third_covers clp clps (clps + 1) inside small el er (ground arith) (rw other at last) rank
            lt
    ] in
    let (i, found) = has-some rank t covered in (t, e, i, found)
