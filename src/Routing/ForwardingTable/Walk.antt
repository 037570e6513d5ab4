-- ===== src/Routing/ForwardingTable/Walk.antt =====
-- ForwardingTable.cpp: what one call of `WalkTree` enters.
use pdesmas_cloud.Base.{
  ℕ, zero, suc, ◌+◌, ◌%◌, ◌^◌, ◌≤◌, ◌<◌, ◌≡◌, ◌⊎◌, some, true, false, arith, Bool-cases, inl, inr,
  sym, subst, >>=-eq-some,
}
use pdesmas_cloud.Base.NatMap.{insert}
use pdesmas_cloud.Routing.ForwardingTable.{
  RoutingInfo, Table, has, stops, goes_up, walk_tree, last_rank, left_of, right_of, parent_of,
  routing_info,
}
use pdesmas_cloud.Routing.ForwardingTable.Fuel.{has-insert}

-- What a call that returns has done: stopped at once, or made two further calls, or three.
walk_tree_cases :
    (fuel clp clps rank hops next : ℕ) (t t' : Table)
    → walk_tree (suc fuel) clp clps rank hops next t ≡ some t'
    → ((stops clps rank t ≡ true) × (t ≡ t'))
      ⊎ ((stops clps rank t ≡ false)
          × (l : Table) × (walk_tree fuel clp clps
                (left_of rank)
                ((hops + 1) % 2 ^ 32)
                next
                (insert rank (routing_info clp rank hops next) t)
              ≡ some l)
          × (r : Table) × (walk_tree fuel clp clps (right_of rank) ((hops + 1) % 2 ^ 32) next l
              ≡ some r)
          × (((goes_up clp rank next ≡ true)
                × (walk_tree fuel clp clps (parent_of rank) ((hops + 1) % 2 ^ 32) next r ≡ some t'))
              ⊎ ((goes_up clp rank next ≡ false) × (r ≡ t'))))
unfolding walk_tree
walk_tree_cases fuel clp clps rank hops next t t' e = elim (Bool-cases (stops clps rank t)) [
  | inl stop ↦ let same : some t ≡ some t' = rw (walk_tree, stop) at e in inl (stop, cc)
  | inr on ↦
      let (l, el, rest) = >>=-eq-some _ _ (rw (walk_tree, on) at e) in
      let (r, er, last) = >>=-eq-some _ _ rest in
      inr (
        on,
        l,
        el,
        r,
        er,
        elim (Bool-cases (goes_up clp rank next)) [
          | inl up ↦ inl (up, (rw up at last))
          | inr down ↦ let same : some r ≡ some t' = rw down at last in inr (down, cc)
        ],
      )
]

abbrev pub Grows : Table → Table → Type 0
Grows t t' = (j : ℕ) → has j t ≡ true → has j t' ≡ true

pub insert-Grows : (k : ℕ) (v : RoutingInfo) (t : Table) → Grows t (insert k v t)
insert-Grows k v t j h = ground (arith, has-insert k j v t)

pub has-insert_self : (k : ℕ) (v : RoutingInfo) (t : Table) → has k (insert k v t) ≡ true
has-insert_self k v t = ground (arith, has-insert k k v t)

-- No entry is lost.
pub walk_tree-Grows :
    (fuel clp clps rank hops next : ℕ) (t t' : Table)
    → walk_tree fuel clp clps rank hops next t ≡ some t'
    → Grows t t'
unfolding walk_tree
walk_tree-Grows zero clp clps rank hops next t t' e j h = cc
walk_tree-Grows (suc fuel) clp clps rank hops next t t' e j h =
    let further = (hops + 1) % 2 ^ 32 in
    let entered = insert rank (routing_info clp rank hops next) t in
    elim (walk_tree_cases fuel clp clps rank hops next t t' e) [
      | inl (stop, same) ↦ subst (λ a. has j a ≡ true) same h
      | inr (on, l, el, r, er, last) ↦
          let hl =
            walk_tree-Grows fuel clp clps (left_of rank) further next entered l el j
              (insert-Grows rank (routing_info clp rank hops next) t j h) in
          let hr = walk_tree-Grows fuel clp clps (right_of rank) further next l r er j hl in
          elim last [
            | inl (up, ep) ↦
                walk_tree-Grows fuel clp clps (parent_of rank) further next r t' ep j hr
            | inr (down, same) ↦ subst (λ a. has j a ≡ true) same hr
          ]
    ]

-- The rank of the call has an entry, if it is one of a CLP.
pub walk_tree-has_rank :
    (fuel clp clps rank hops next : ℕ) (t t' : Table)
    → walk_tree fuel clp clps rank hops next t ≡ some t'
    → rank ≤ last_rank clps
    → has rank t' ≡ true
unfolding walk_tree stops
walk_tree-has_rank zero clp clps rank hops next t t' e le = cc
walk_tree-has_rank (suc fuel) clp clps rank hops next t t' e le =
    let further = (hops + 1) % 2 ^ 32 in
    let entered = insert rank (routing_info clp rank hops next) t in
    elim (walk_tree_cases fuel clp clps rank hops next t t' e) [
      | inl (stop, same) ↦
          let there : has rank t ≡ true = ground arith in subst (λ a. has rank a ≡ true) same there
      | inr (on, l, el, r, er, last) ↦
          let hl =
            walk_tree-Grows fuel clp clps (left_of rank) further next entered l el rank
              (has-insert_self rank (routing_info clp rank hops next) t) in
          let hr = walk_tree-Grows fuel clp clps (right_of rank) further next l r er rank hl in
          elim last [
            | inl (up, ep) ↦
                walk_tree-Grows fuel clp clps (parent_of rank) further next r t' ep rank hr
            | inr (down, same) ↦ subst (λ a. has rank a ≡ true) same hr
          ]
    ]

-- The neighbours that the walk goes on to from a rank are there, as far as they are CLPs.
abbrev pub Children : ℕ → ℕ → Table → Type 0
Children clps j t =
    (left_of j ≤ last_rank clps → has (left_of j) t ≡ true)
    × (right_of j ≤ last_rank clps → has (right_of j) t ≡ true)

abbrev pub Closed : ℕ → ℕ → ℕ → ℕ → Table → Type 0
Closed clp clps next j t =
    Children clps j t
    × (goes_up clp j next ≡ true → parent_of j ≤ last_rank clps → has (parent_of j) t ≡ true)

pub Closed-Grows :
    (clp clps next j : ℕ) (t t' : Table)
    → Grows t t'
    → Closed clp clps next j t
    → Closed clp clps next j t'
Closed-Grows clp clps next j t t' g ((cl, cr), cp) = (
  (λ le. g (left_of j) (cl le), λ le. g (right_of j) (cr le)),
  λ up le. g (parent_of j) (cp up le),
)

-- What the walk has entered is closed under the links that it goes on to.
pub walk_tree-Closed :
    (fuel clp clps rank hops next : ℕ) (t t' : Table)
    → walk_tree fuel clp clps rank hops next t ≡ some t'
    → (j : ℕ) → has j t ≡ false
    → has j t' ≡ true
    → Closed clp clps next j t'
unfolding walk_tree
walk_tree-Closed zero clp clps rank hops next t t' e j new there = cc
walk_tree-Closed (suc fuel) clp clps rank hops next t t' e j new there =
    let further = (hops + 1) % 2 ^ 32 in
    let info = routing_info clp rank hops next in
    let entered = insert rank info t in
    elim (walk_tree_cases fuel clp clps rank hops next t t' e) [
      | inl (stop, same) ↦
          let w : has j t ≡ true = subst (λ a. has j a ≡ true) (sym same) there in cc
      | inr (on, l, el, r, er, last) ↦
          let gl = walk_tree-Grows fuel clp clps (left_of rank) further next entered l el in
          let gr = walk_tree-Grows fuel clp clps (right_of rank) further next l r er in
          let gp : Grows r t' = elim last [
            | inl (up, ep) ↦ walk_tree-Grows fuel clp clps (parent_of rank) further next r t' ep
            | inr (down, same) ↦ λ k h. subst (λ a. has k a ≡ true) same h
          ] in
          elim (Bool-cases (has j entered)) [
            | inl first ↦
                let here : rank ≡ j = ground (arith, has-insert rank j info t) in
                let own : Closed clp clps next rank t' = (
                  (
                    λ le. gp _ (
                        gr _ (
                          walk_tree-has_rank fuel clp clps (left_of rank) further next entered l el
                            le)),
                    λ le.
                        gp _
                          (walk_tree-has_rank fuel clp clps (right_of rank) further next l r er le),
                  ),
                  λ up le. elim last [
                    | inl (_, ep) ↦
                        walk_tree-has_rank fuel clp clps (parent_of rank) further next r t' ep le
                    | inr (down, _) ↦ cc
                  ],
                ) in
                subst (λ k. Closed clp clps next k t') here own
            | inr not_first ↦ elim (Bool-cases (has j l)) [
              | inl in_l ↦
                  Closed-Grows clp clps next j l t' (λ k h. gp k (gr k h))
                    (walk_tree-Closed fuel clp clps (left_of rank) further next entered l el j
                      not_first in_l)
              | inr not_l ↦ elim (Bool-cases (has j r)) [
                | inl in_r ↦ Closed-Grows clp clps next j r t' gp (
                    walk_tree-Closed fuel clp clps (right_of rank) further next l r er j not_l in_r)
                | inr not_r ↦ elim last [
                  | inl (up, ep) ↦
                      walk_tree-Closed fuel clp clps (parent_of rank) further next r t' ep j not_r
                        there
                  | inr (down, same) ↦
                      let w : has j r ≡ true = subst (λ a. has j a ≡ true) (sym same) there in cc
                ]
              ]
            ]
          ]
    ]

-- A walk that goes down only stays behind its first rank.
pub walk_tree-le :
    (fuel clp clps rank hops next : ℕ) (t t' : Table)
    → 0 < clps
    → clps < 2 ^ 31
    → ((j : ℕ) → goes_up clp j next ≡ false)
    → walk_tree fuel clp clps rank hops next t ≡ some t'
    → (j : ℕ) → has j t ≡ false
    → has j t' ≡ true
    → rank ≤ j
unfolding walk_tree stops last_rank left_of right_of
walk_tree-le zero clp clps rank hops next t t' pos small only e j new there = cc
walk_tree-le (suc fuel) clp clps rank hops next t t' pos small only e j new there =
    let further = (hops + 1) % 2 ^ 32 in
    let info = routing_info clp rank hops next in
    let entered = insert rank info t in
    elim (walk_tree_cases fuel clp clps rank hops next t t' e) [
      | inl (stop, same) ↦
          let w : has j t ≡ true = subst (λ a. has j a ≡ true) (sym same) there in cc
      | inr (on, l, el, r, er, last) ↦
          let fits : rank ≤ last_rank clps = ground arith in
          let a : rank ≤ left_of rank = omega arith in
          let b : rank ≤ right_of rank = omega arith in
          elim (Bool-cases (has j entered)) [
            | inl first ↦ ground (arith, has-insert rank j info t)
            | inr not_first ↦ elim (Bool-cases (has j l)) [
              | inl in_l ↦
                  let b : left_of rank ≤ j =
                    walk_tree-le fuel clp clps (left_of rank) further next entered l pos small only
                      el j not_first in_l in
                  omega arith
              | inr not_l ↦ elim (Bool-cases (has j r)) [
                | inl in_r ↦
                    let b' : right_of rank ≤ j =
                      walk_tree-le fuel clp clps (right_of rank) further next l r pos small only er
                        j not_l in_r in
                    omega arith
                | inr not_r ↦ elim last [
                  | inl (up, ep) ↦ let d = only rank in cc
                  | inr (down, same) ↦
                      let w : has j r ≡ true = subst (λ a. has j a ≡ true) (sym same) there in cc
                ]
              ]
            ]
          ]
    ]
