-- ===== src/State/StateVariable/Writes.antt =====
-- What a write, a rollback of a write and fossil collection do to the values that reads see.
use mathlib.Core.List.{append_assoc}
use pdesmas_cloud.Base.{
  ℕ, ◌≤◌, ◌<◌, ◌≡◌, ◌≢◌, refl, ap, sym, subst, ◌∙◌, inl, inr, List, [], ◌∷◌, ◌++◌, Option, none,
  some, leb, false, ltb, All, if◌then◌else◌, ulong_max, long_max, arith, Option-cases, Bool-cases,
  ◌==◌, ◌&&◌,
}
use pdesmas_cloud.Lp.LpId.{LpId, lp_gt, lp_ne}
use pdesmas_cloud.Lp.RollbackList.{RollbackList}
use pdesmas_cloud.State.WritePeriod.{
  WritePeriod, remove_reads_after_inclusive, remove_reads_before, remove_all_reads,
  new_write_period,
}
use pdesmas_cloud.State.StateVariable.{
  Place, close, walk_back, walk_to, remove_write_periods, insert_write, write_with_rollback,
  perform_write_rollback, read_without_record, write_success, write_failure, erase_until,
}
use pdesmas_cloud.State.StateVariable.Walk.{
  walk_back-some, current, value_at, current-append, read_without_record-current,
}
use pdesmas_cloud.State.StateVariable.Chain.{IsChain, IsChain-suffix}
use pdesmas_cloud.State.StateVariable.Values.{value_at-split, value_at-erase_period, value_at-same}

lp_ne_self : (a : LpId) → lp_ne a a ≡ false
unfolding lp_ne
lp_ne_self a = ground arith

module _ {V : Type 0} where
  -- The end of the period that is current at `t`.
  end_at :
      (t : ℕ) (ws : List (WritePeriod V)) (p : Place V)
      → walk_back t ws ≡ some p
      → (read_without_record t ws).0 ≡ p.period.end_time
  unfolding read_without_record
  end_at t ws p s = rw (s, read_without_record)

  value_at-insert_write :
      (s t : ℕ) (agent : LpId) (v : Option V) (ws : List (WritePeriod V)) (p : Place V)
      (rl : RollbackList)
      → walk_back t ws ≡ some p
      → IsChain ws
      → s < long_max
      → value_at s (insert_write agent v t p rl).0
        ≡ (if leb t s && ltb s (read_without_record t ws).0 then v else value_at s ws)
  unfolding insert_write remove_reads_after_inclusive
  value_at-insert_write s t agent v ws p rl found h bound =
      let (closed, early, later) = walk_back-some t ws p found in
      let h' : IsChain (close p) = subst IsChain (sym closed) h in
      let (m, tail) = IsChain-suffix p.before (p.period ∷ p.after) h' in
      rw (end_at t ws p found, ← closed)
        (value_at-split s t p.period.end_time v p.before p.period _ _ p.after tail m early
          (refl, refl) (refl, refl) later bound)

  -- The values of a history whose periods meet after `WriteWithRollback`, on all its branches and
  -- at times less than LONG_MAX: a write that is refused changes none, and a write that succeeds
  -- changes those from its time up to the end of the period that was current then.
  pub value_at-write_with_rollback :
      (s t : ℕ) (agent : LpId) (v : Option V) (ws : List (WritePeriod V)) (rl : RollbackList)
      → IsChain ws
      → s < long_max
      → value_at s (write_with_rollback agent v t ws rl).0
        ≡ (elim (write_with_rollback agent v t ws rl).1 [
          | write_success ↦
              if leb t s && ltb s (read_without_record t ws).0 then v else value_at s ws
          | write_failure ↦ value_at s ws
        ])
  unfolding write_with_rollback value_at current read_without_record walk_back
  value_at-write_with_rollback s t agent v [] rl h bound = ground arith
  value_at-write_with_rollback s t agent v (w ∷ ws) rl h bound =
      elim (Option-cases (walk_back t (w ∷ ws))) [
        | inl n ↦ rw (n, write_with_rollback)
        | inr (p, found) ↦
            elim (Bool-cases (p.period.start_time == t && lp_gt p.period.agent agent)) [
              | inl refused ↦ rw (found, write_with_rollback, refused)
              | inr taken ↦
                  rw (found, write_with_rollback, taken)
                    (value_at-insert_write s t agent v (w ∷ ws) p rl found h bound)
            ]
      ]

  current-erase_until :
      (s t : ℕ) (xs : List (WritePeriod V)) (w : WritePeriod V) (ys : List (WritePeriod V))
      → w.start_time ≡ t
      → t ≤ s
      → current s (erase_until t (xs ++ w ∷ ys)) ≡ current s (w ∷ ys)
  unfolding erase_until current
  current-erase_until s t [] w ys e le = ground arith
  current-erase_until s t (x ∷ xs) w ys e le =
      ground (arith, current-erase_until s t xs w ys e le, current-append s xs (w ∷ ys))

  abbrev reading : Option (WritePeriod V) → ℕ × Option V
  reading o = elim o [ some w ↦ (w.end_time, w.value) | none ↦ (ulong_max, none) ]

  reading-erase_until :
      (s t : ℕ) (xs : List (WritePeriod V)) (w w' : WritePeriod V) (ys : List (WritePeriod V))
      → w'.start_time ≡ t
      → w.start_time ≤ t
      → t ≤ s
      → (w'.end_time ≡ w.end_time) × (w'.value ≡ w.value)
      → reading (current s (erase_until t (xs ++ w' ∷ ys))) ≡ reading (current s (xs ++ w ∷ ys))
  unfolding current
  reading-erase_until s t xs w w' ys e early le same =
      rw (current-erase_until s t xs w' ys e le, current-append) (ground arith)

  -- Fossil collection up to `t`, as `SetGvt` calls it, leaves what is read at `t` and later as it
  -- was: the value, and the end of the period that it comes from.
  pub read_without_record-remove_write_periods :
      (s t : ℕ) (ws : List (WritePeriod V))
      → t ≤ s
      → read_without_record s (remove_write_periods t ws) ≡ read_without_record s ws
  unfolding remove_write_periods remove_reads_before
  read_without_record-remove_write_periods s t ws le = elim (Option-cases (walk_back t ws)) [
    | inl n ↦ rw (n, remove_write_periods)
    | inr (p, found) ↦
        let (closed, early, later) = walk_back-some t ws p found in
        rw (found, remove_write_periods, ← closed)
          (read_without_record-current s _
            ∙ reading-erase_until s t p.before p.period _ p.after refl early le (refl, refl)
            ∙ sym (read_without_record-current s (close p)))
  ]

  walk_to-behind :
      (t : ℕ) (xs : List (WritePeriod V)) (n : WritePeriod V) (ys : List (WritePeriod V))
      → All (λ w. w.start_time ≢ t) xs
      → n.start_time ≡ t
      → walk_to t (xs ++ n ∷ ys) ≡ some (record { before = xs; period = n; after = ys })
  unfolding walk_to
  walk_to-behind t [] n ys h e = ground arith
  walk_to-behind t (x ∷ xs) n ys h e = ground (arith, walk_to-behind t xs n ys h.1 e)

  fresh_front :
      (t : ℕ) (xs : List (WritePeriod V)) (w w' : WritePeriod V) (ys : List (WritePeriod V))
      → w'.start_time ≡ w.start_time
      → All (λ u. u.start_time ≢ t) (xs ++ w ∷ ys)
      → All (λ u. u.start_time ≢ t) (xs ++ w' ∷ [])
  fresh_front t [] w w' ys e h = (λ q. h.0 (sym e ∙ q), tt)
  fresh_front t (x ∷ xs) w w' ys e h = (h.0, fresh_front t xs w w' ys e h.1)

  erase_behind :
      (s t : ℕ) (agent : LpId) (xs : List (WritePeriod V)) (n : WritePeriod V)
      (ys : List (WritePeriod V)) (rl : RollbackList)
      → All (λ w. w.start_time ≢ t) xs
      → n.start_time ≡ t
      → n.agent ≡ agent
      → value_at s (perform_write_rollback agent t (xs ++ n ∷ ys) rl).0 ≡ value_at s (xs ++ ys)
  unfolding perform_write_rollback remove_all_reads
  erase_behind s t agent xs n ys rl fresh e own =
      rw (walk_to-behind t xs n ys fresh e, perform_write_rollback, own, lp_ne_self agent)
        (value_at-erase_period s xs _ ys)

  undo_insert_write :
      (s t : ℕ) (agent : LpId) (v : Option V) (ws : List (WritePeriod V)) (p : Place V)
      (rl rl' : RollbackList)
      → walk_back t ws ≡ some p
      → All (λ w. w.start_time ≢ t) ws
      → value_at s (perform_write_rollback agent t (insert_write agent v t p rl).0 rl').0
        ≡ value_at s ws
  unfolding insert_write remove_reads_after_inclusive
  undo_insert_write s t agent v ws p rl rl' found fresh =
      let (closed, early, later) = walk_back-some t ws p found in
      let w = (remove_reads_after_inclusive t (record p.period { end_time = t }) rl).0 in
      let front = p.before ++ w ∷ [] in
      let behind =
        fresh_front t p.before p.period w p.after refl
          (subst (All (λ u. u.start_time ≢ t)) (sym closed) fresh) in
      ap (λ l. value_at s (perform_write_rollback agent t l rl').0)
        (sym (append_assoc p.before (w ∷ []) _))
      ∙ erase_behind s t agent front _ p.after rl' behind refl refl
      ∙ ap (value_at s) (append_assoc p.before (w ∷ []) p.after)
      ∙ value_at-same s p.before p.period w p.after refl refl
      ∙ ap (value_at s) closed

  -- Rolling back a write that succeeded, by its agent and at its time, gives every time its value
  -- back, where no other period starts at that time.
  pub value_at-perform_write_rollback :
      (s t : ℕ) (agent : LpId) (v : Option V) (ws : List (WritePeriod V)) (rl rl' : RollbackList)
      → All (λ w. w.start_time ≢ t) ws
      → (write_with_rollback agent v t ws rl).1 ≡ write_success
      → value_at s (perform_write_rollback agent t (write_with_rollback agent v t ws rl).0 rl').0
        ≡ value_at s ws
  unfolding write_with_rollback value_at current
  value_at-perform_write_rollback s t agent v [] rl rl' fresh done =
      erase_behind s t agent [] (new_write_period v t agent) [] rl' tt refl refl
  value_at-perform_write_rollback s t agent v (w ∷ ws) rl rl' fresh done =
      elim (Option-cases (walk_back t (w ∷ ws))) [
        | inl n ↦ cc (rw (n, write_with_rollback) at done)
        | inr (p, found) ↦
            elim (Bool-cases (p.period.start_time == t && lp_gt p.period.agent agent)) [
              | inl refused ↦ cc (rw (found, write_with_rollback, refused) at done)
              | inr taken ↦
                  rw (found, write_with_rollback, taken)
                    (undo_insert_write s t agent v (w ∷ ws) p rl rl' found fresh)
            ]
      ]
