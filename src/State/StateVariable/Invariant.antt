-- ===== src/State/StateVariable/Invariant.antt =====
-- Every operation of StateVariable.cpp that changes the list keeps it well-formed.
use pdesmas_cloud.Base.{
  ℕ, ◌≡◌, refl, sym, subst, inl, inr, List, [], ◌∷◌, ◌++◌, Option, some, arith, Option-cases,
  Bool-cases, ◌==◌, ◌&&◌,
}
use pdesmas_cloud.Lp.LpId.{LpId, lp_gt, lp_ne}
use pdesmas_cloud.Lp.RollbackList.{RollbackList}
use pdesmas_cloud.State.WritePeriod.{
  WritePeriod, remove_reads_after_inclusive, remove_reads_before, remove_all_reads,
  remove_reads_by_agent, new_write_period,
}
use pdesmas_cloud.State.WritePeriod
use pdesmas_cloud.State.StateVariable.{
  Place, close, walk_back, walk_to, read, remove_write_periods, insert_write, write_with_rollback,
  perform_read_rollback, erase_period, perform_write_rollback,
}
use pdesmas_cloud.State.StateVariable.Walk.{walk_back-some}
use pdesmas_cloud.State.StateVariable.Chain.{
  IsChain, Meets, IsChain-suffix, IsChain-replace, Meets-of-Later, Meets-split_end,
  IsChain-set_last_end_open, IsChain-set_last_end, IsChain-erase_until,
}

module _ {ℓ} {V : Type ℓ} where
  pub walk_to-some :
      (t : ℕ) (ws : List (WritePeriod V)) (p : Place V)
      → walk_to t ws ≡ some p
      → (close p ≡ ws) × (p.period.start_time ≡ t)
  unfolding walk_to
  walk_to-some t [] p e = cc
  walk_to-some t (w ∷ ws) p e = elim (Option-cases (walk_to t ws)) [
    | inl n ↦ ground arith
    | inr (q, s) ↦ ground (arith, walk_to-some t ws q s)
  ]

  -- A period whose reads alone change.
  replace_period :
      (t : ℕ) (ws : List (WritePeriod V)) (p : Place V) (w : WritePeriod V)
      → walk_back t ws ≡ some p
      → w.start_time ≡ p.period.start_time
      → w.end_time ≡ p.period.end_time
      → IsChain ws
      → IsChain (p.before ++ w ∷ p.after)
  replace_period t ws p w s e e' h =
      let (closed, early, later) = walk_back-some t ws p s in
      let h' : IsChain (close p) = subst IsChain (sym closed) h in
      let (m, tail) = IsChain-suffix p.before (p.period ∷ p.after) h' in
      IsChain-replace p.before p.period w p.after p.after e h' (
        subst (λ a. Meets w.start_time a p.after) (sym e')
            (subst (λ a. Meets a p.period.end_time p.after) (sym e) m),
        tail,
      )

  -- `Read` succeeds just when a period starts at the time or before.
  pub read-IsChain :
      (agent : LpId) (t : ℕ) (ws ws' : List (WritePeriod V)) (v : Option V)
      → IsChain ws
      → read agent t ws ≡ some (ws', v)
      → IsChain ws'
  unfolding read WritePeriod.read
  read-IsChain agent t ws ws' v h e = elim (Option-cases (walk_back t ws)) [
    | inl n ↦ ground arith
    | inr (p, s) ↦
        let r = replace_period t ws p (WritePeriod.read agent t p.period).0 s refl refl h in
        subst IsChain (ground arith) r
  ]

  pub perform_read_rollback-IsChain :
      (agent : LpId) (t : ℕ) (ws ws' : List (WritePeriod V))
      → IsChain ws
      → perform_read_rollback agent t ws ≡ some ws'
      → IsChain ws'
  unfolding perform_read_rollback remove_reads_by_agent
  perform_read_rollback-IsChain agent t ws ws' h e = elim (Option-cases (walk_back t ws)) [
    | inl n ↦ ground arith
    | inr (p, s) ↦
        let r = replace_period t ws p (remove_reads_by_agent agent t p.period) s refl refl h in
        subst IsChain (ground arith) r
  ]

  pub insert_write-IsChain :
      (agent : LpId) (v : Option V) (t : ℕ) (ws : List (WritePeriod V)) (p : Place V)
      (rl : RollbackList)
      → walk_back t ws ≡ some p
      → IsChain ws
      → IsChain (insert_write agent v t p rl).0
  unfolding insert_write remove_reads_after_inclusive
  insert_write-IsChain agent v t ws p rl s h =
      let (closed, early, later) = walk_back-some t ws p s in
      let h' : IsChain (close p) = subst IsChain (sym closed) h in
      let (m, tail) = IsChain-suffix p.before (p.period ∷ p.after) h' in
      IsChain-replace p.before p.period _ p.after _ refl h' (
        (refl, early),
        (Meets-split_end p.period.start_time t p.period.end_time p.after m later, tail),
      )

  pub write_with_rollback-IsChain :
      (agent : LpId) (v : Option V) (t : ℕ) (ws : List (WritePeriod V)) (rl : RollbackList)
      → IsChain ws
      → IsChain (write_with_rollback agent v t ws rl).0
  unfolding write_with_rollback
  write_with_rollback-IsChain agent v t [] rl h = (inl refl, tt)
  write_with_rollback-IsChain agent v t (w ∷ ws) rl h = elim (Option-cases (walk_back t (w ∷ ws))) [
    | inl n ↦ rw (n, write_with_rollback) h
    | inr (p, s) ↦ elim (Bool-cases (p.period.start_time == t && lp_gt p.period.agent agent)) [
      | inl refused ↦ rw (s, write_with_rollback, refused) h
      | inr taken ↦
          rw (s, write_with_rollback, taken) (insert_write-IsChain agent v t (w ∷ ws) p rl s h)
    ]
  ]

  erase_period-IsChain :
      (xs : List (WritePeriod V)) (w : WritePeriod V) (ys : List (WritePeriod V))
      → IsChain (xs ++ w ∷ ys)
      → IsChain (erase_period (record { before = xs; period = w; after = ys }))
  unfolding erase_period
  erase_period-IsChain [] w ys h = h.1
  erase_period-IsChain (x ∷ xs) w [] h = IsChain-set_last_end_open x xs w h
  erase_period-IsChain (x ∷ xs) w (y ∷ ys) h = IsChain-set_last_end x xs w y ys h

  pub perform_write_rollback-IsChain :
      (agent : LpId) (t : ℕ) (ws : List (WritePeriod V)) (rl : RollbackList)
      → IsChain ws
      → IsChain (perform_write_rollback agent t ws rl).0
  unfolding perform_write_rollback remove_all_reads
  perform_write_rollback-IsChain agent t ws rl h = elim (Option-cases (walk_to t ws)) [
    | inl n ↦ rw (n, perform_write_rollback) h
    | inr (p, s) ↦ elim (Bool-cases (lp_ne p.period.agent agent)) [
      | inl other ↦ rw (s, perform_write_rollback, other) h
      | inr own ↦
          let h' : IsChain (close p) = subst IsChain (sym (walk_to-some t ws p s).0) h in
          let tail = IsChain-suffix p.before (p.period ∷ p.after) h' in
          rw (s, perform_write_rollback, own)
            (erase_period-IsChain p.before _ p.after
              (IsChain-replace p.before p.period _ p.after p.after refl h' tail))
    ]
  ]

  pub remove_write_periods-IsChain :
      (t : ℕ) (ws : List (WritePeriod V)) → IsChain ws → IsChain (remove_write_periods t ws)
  unfolding remove_write_periods remove_reads_before
  remove_write_periods-IsChain t ws h = elim (Option-cases (walk_back t ws)) [
    | inl n ↦ rw (n, remove_write_periods) h
    | inr (p, s) ↦
        let (closed, early, later) = walk_back-some t ws p s in
        let h' : IsChain (close p) = subst IsChain (sym closed) h in
        let (m, tail) = IsChain-suffix p.before (p.period ∷ p.after) h' in
        rw (s, remove_write_periods)
          (IsChain-erase_until t p.before p.period _ p.after early refl h'
            (Meets-of-Later p.period.start_time t p.period.end_time p.after m later, tail))
  ]
