-- ===== src/State/StateVariable/Stragglers.antt =====
-- A write that comes after the reads that it should have come before.
use pdesmas_cloud.Base.{
  ℕ, ◌≤◌, ◌<◌, ◌≡◌, ◌≢◌, refl, sym, subst, ◌∙◌, ◌⊎◌, inl, inr, List, [], ◌∷◌, ◌++◌, Option, some,
  long_max, arith, Option-cases, Bool-cases, ◌==◌, ◌&&◌,
}
use native.Mathlib.Decide.{dec_lt}
use pdesmas_cloud.Lp.LpId.{LpId, lp_gt}
use pdesmas_cloud.Lp.RollbackList.{RollbackList}
use pdesmas_cloud.Lp.RollbackList.Covers.{Covers, add_lp-Covers, add_lp-Covers_self}
use pdesmas_cloud.State.WritePeriod.{
  WritePeriod, AgentReadMap, insert_read, roll_back_reads, remove_reads_after_inclusive,
  new_write_period,
}
use pdesmas_cloud.State.WritePeriod
use pdesmas_cloud.State.StateVariable.{
  Place, walk_back, read, insert_write, write_with_rollback, read_without_record, write_success,
}
use pdesmas_cloud.State.StateVariable.Walk.{
  walk_back-some, walk_back-close, walk_back-Later, Later, value_at, current, current-append,
  current-Later,
}
use pdesmas_cloud.State.StateVariable.Chain.{IsChain, IsChain-le}
use pdesmas_cloud.State.StateVariable.Invariant.{read-IsChain}
use pdesmas_cloud.State.StateVariable.Values.{Later-of-chain}
use pdesmas_cloud.State.StateVariable.Writes.{value_at-write_with_rollback}

-- A read that is recorded under the agent at the time.
abbrev pub HasRead : LpId → ℕ → AgentReadMap → Type 0
HasRead agent t [] = ⊥
HasRead agent t ((a, u) ∷ m) = ((a ≡ agent) × (u ≡ t)) ⊎ HasRead agent t m

insert_read-HasRead :
    (agent : LpId) (t : ℕ) (m : AgentReadMap) → HasRead agent t (insert_read agent t m)
unfolding insert_read
insert_read-HasRead agent t [] = inl (refl, refl)
insert_read-HasRead agent t ((a, u) ∷ m) = ground (arith, insert_read-HasRead agent t m)

roll_back_reads-Covers :
    (agent : LpId) (t s : ℕ) (m : AgentReadMap) (rl : RollbackList)
    → Covers agent s rl
    → Covers agent s (roll_back_reads t m rl)
unfolding roll_back_reads
roll_back_reads-Covers agent t s [] rl c = c
roll_back_reads-Covers agent t s ((a, u) ∷ m) rl c =
    roll_back_reads-Covers agent t s m _ (ground (arith, add_lp-Covers a agent u s rl c))

-- `RemoveReadsAfterInclusive` answers every read at its time or later.
pub roll_back_reads-HasRead :
    (agent : LpId) (t s : ℕ) (m : AgentReadMap) (rl : RollbackList)
    → HasRead agent s m
    → t ≤ s
    → Covers agent s (roll_back_reads t m rl)
unfolding roll_back_reads
roll_back_reads-HasRead agent t s [] rl h le = absurd h
roll_back_reads-HasRead agent t s ((a, u) ∷ m) rl (inl h) le =
    roll_back_reads-Covers agent t s m _ (ground (arith, add_lp-Covers_self a u rl))
roll_back_reads-HasRead agent t s ((a, u) ∷ m) rl (inr h) le =
    roll_back_reads-HasRead agent t s m _ h le

module _ {V : Type 0} where
  -- Before the start of a period the current one ends at that start or earlier.
  end-before :
      (t : ℕ) (xs : List (WritePeriod V)) (w : WritePeriod V) (ys : List (WritePeriod V))
      (p : Place V)
      → IsChain (xs ++ w ∷ ys)
      → t < w.start_time
      → walk_back t (xs ++ w ∷ ys) ≡ some p
      → p.period.end_time ≤ w.start_time
  unfolding walk_back
  end-before t [] w ys p h lt e =
      ground (arith, walk_back-Later t (w ∷ ys) (Later-of-chain t w ys h lt))
  end-before t (x ∷ []) w ys p h lt e =
      ground (arith, walk_back-Later t (w ∷ ys) (Later-of-chain t w ys h.1 lt))
  end-before t (x ∷ x' ∷ xs) w ys p h lt e = elim (Option-cases (walk_back t (x' ∷ xs ++ w ∷ ys))) [
    | inl n ↦
        let first : p.period ≡ x = ground arith in
        rw first (omega (arith, IsChain-le xs x' w ys h.1))
    | inr (q, s) ↦
        let same : p.period ≡ q.period = ground arith in
        rw same (end-before t (x' ∷ xs) w ys q h.1 lt s)
  ]

  Later-le : (s t : ℕ) (ws : List (WritePeriod V)) → s ≤ t → Later t ws → Later s ws
  Later-le s t [] le h = tt
  Later-le s t (w ∷ ws) le h = (omega arith, Later-le s t ws le h.1)

  -- A write that succeeds on a history that is not empty finds the period that it splits.
  write-success :
      (agent : LpId) (v : Option V) (t : ℕ) (ws : List (WritePeriod V)) (rl : RollbackList)
      → (write_with_rollback agent v t ws rl).1 ≡ write_success
      → (ws ≡ [])
        ⊎ ((p : Place V) × (walk_back t ws ≡ some p)
            × ((write_with_rollback agent v t ws rl).2 ≡ (insert_write agent v t p rl).1))
  unfolding write_with_rollback
  write-success agent v t [] rl done = inl refl
  write-success agent v t (w ∷ ws) rl done = elim (Option-cases (walk_back t (w ∷ ws))) [
    | inl n ↦ cc (rw (n, write_with_rollback) at done)
    | inr (p, found) ↦ elim (Bool-cases (p.period.start_time == t && lp_gt p.period.agent agent)) [
      | inl refused ↦ cc (rw (found, write_with_rollback, refused) at done)
      | inr taken ↦ inr (p, found, rw (found, write_with_rollback, taken))
    ]
  ]

  append-ne-nil :
      (xs : List (WritePeriod V)) (w : WritePeriod V) (ys : List (WritePeriod V))
      → xs ++ w ∷ ys ≢ []
  append-ne-nil [] w ys e = cc
  append-ne-nil (x ∷ xs) w ys e = cc

  straggler :
      (reader writer : LpId) (s t : ℕ) (v : Option V) (xs : List (WritePeriod V))
      (w : WritePeriod V) (ys : List (WritePeriod V)) (rl : RollbackList)
      → IsChain (xs ++ w ∷ ys)
      → w.start_time ≤ t
      → Later t ys
      → HasRead reader t w.agent_read_map
      → t < long_max
      → (write_with_rollback writer v s (xs ++ w ∷ ys) rl).1 ≡ write_success
      → (value_at t (write_with_rollback writer v s (xs ++ w ∷ ys) rl).0
          ≡ value_at t (xs ++ w ∷ ys))
        ⊎ Covers reader t (write_with_rollback writer v s (xs ++ w ∷ ys) rl).2
  unfolding insert_write remove_reads_after_inclusive read_without_record
  straggler reader writer s t v xs w ys rl h early later seen bound done =
      let ws = xs ++ w ∷ ys in
      let val = value_at-write_with_rollback t s writer v ws rl h bound in
      elim (write-success writer v s ws rl done) [
        | inl none_yet ↦ absurd (append-ne-nil xs w ys none_yet)
        | inr (p, found, list) ↦ elim (dec_lt t s) [
          | yes after ↦ inl (ground arith)
          | no upto ↦ elim (dec_lt s w.start_time) [
            | yes before ↦ inl (ground (arith, end-before s xs w ys p h before found))
            | no from ↦
                let hit : p ≡ record { before = xs; period = w; after = ys } = ground (
                  arith,
                  walk_back-close s xs w ys (omega arith) (Later-le s t ys (omega arith) later),
                ) in
                inr (
                  rw (list, hit)
                    (roll_back_reads-HasRead reader s t w.agent_read_map rl seen (omega arith)))
          ]
        ]
      ]

  value_at-behind :
      (t : ℕ) (xs : List (WritePeriod V)) (w : WritePeriod V) (ys : List (WritePeriod V))
      → w.start_time ≤ t
      → Later t ys
      → value_at t (xs ++ w ∷ ys) ≡ w.value
  unfolding value_at current
  value_at-behind t xs w ys early later =
      ground (arith, current-append t xs (w ∷ ys), current-Later t ys later)

  -- After a read at `t` from a history whose periods meet, with `t` less than LONG_MAX, a write
  -- that succeeds either leaves the value that the read saw, or leaves an entry on the rollback
  -- list under the key of the reader, at `t` or before.
  pub write-read :
      (reader writer : LpId) (s t : ℕ) (v seen : Option V) (ws ws' : List (WritePeriod V))
      (rl : RollbackList)
      → IsChain ws
      → t < long_max
      → read reader t ws ≡ some (ws', seen)
      → (write_with_rollback writer v s ws' rl).1 ≡ write_success
      → (value_at t (write_with_rollback writer v s ws' rl).0 ≡ seen)
        ⊎ Covers reader t (write_with_rollback writer v s ws' rl).2
  unfolding read WritePeriod.read
  write-read reader writer s t v seen ws ws' rl h bound e done =
      elim (Option-cases (walk_back t ws)) [
        | inl n ↦ cc (rw (n, read) at e)
        | inr (p, found) ↦
            let (closed, early, later) = walk_back-some t ws p found in
            let w = (WritePeriod.read reader t p.period).0 in
            let l = p.before ++ w ∷ p.after in
            let there : ◌≡◌ {A = Option (List (WritePeriod V) × Option V)}
                (some (l, p.period.value)) (some (ws', seen)) =
              rw (found, read) at e in
            let list : l ≡ ws' = cc in
            let value : value_at t l ≡ seen =
              value_at-behind t p.before w p.after early later ∙ cc in
            let chain : IsChain l =
              subst IsChain (sym list) (read-IsChain reader t ws ws' seen h e) in
            subst
              (λ u.
                (value_at t (write_with_rollback writer v s u rl).0 ≡ seen)
                ⊎ Covers reader t (write_with_rollback writer v s u rl).2)
              list
              (ground (
                arith,
                straggler reader writer s t v p.before w p.after rl chain early later
                    (insert_read-HasRead reader t p.period.agent_read_map) bound,
              ))
      ]
