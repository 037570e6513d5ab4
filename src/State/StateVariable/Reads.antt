-- ===== src/State/StateVariable/Reads.antt =====
-- StateVariable.cpp: a read against the reading that leaves no record.
use pdesmas_cloud.Base.{
  ℕ, ◌≡◌, refl, ◌∙◌, List, ◌∷◌, ◌++◌, Option, none, some, ulong_max, arith, Option-cases, inl, inr,
  sym,
}
use pdesmas_cloud.Lp.LpId.{LpId}
use pdesmas_cloud.State.WritePeriod.{WritePeriod}
use pdesmas_cloud.State.WritePeriod
use pdesmas_cloud.State.StateVariable.{walk_back, read, read_without_record}
use pdesmas_cloud.State.StateVariable.Walk.{
  current, current-append, read_without_record-current, walk_back-some,
}

module _ {V : Type 0} where
  abbrev reading : Option (WritePeriod V) → ℕ × Option V
  reading o = elim o [ some w ↦ (w.end_time, w.value) | none ↦ (ulong_max, none) ]

  reading-replace :
      (u : ℕ) (xs : List (WritePeriod V)) (w w' : WritePeriod V) (ys : List (WritePeriod V))
      → (w'.start_time ≡ w.start_time) × (w'.end_time ≡ w.end_time) × (w'.value ≡ w.value)
      → reading (current u (xs ++ w' ∷ ys)) ≡ reading (current u (xs ++ w ∷ ys))
  unfolding current
  reading-replace u xs w w' ys same =
      ground (arith, current-append u xs (w' ∷ ys), current-append u xs (w ∷ ys))

  -- A read gives the value that reading without a record gives, and changes no such reading.
  pub read-read_without_record :
      (agent : LpId) (t u : ℕ) (h h' : List (WritePeriod V)) (v : Option V)
      → read agent t h ≡ some (h', v)
      → (v ≡ (read_without_record t h).1) × (read_without_record u h' ≡ read_without_record u h)
  unfolding read WritePeriod.read read_without_record
  read-read_without_record agent t u h h' v e = elim (Option-cases (walk_back t h)) [
    | inl n ↦ ground arith
    | inr (p, s) ↦
        let (closed, _, _) = walk_back-some t h p s in
        let w = (WritePeriod.read agent t p.period).0 in
        let new : p.before ++ w ∷ p.after ≡ h' = ground arith in
        let value : v ≡ (read_without_record t h).1 = rw (read_without_record, s) (ground arith) in
        (
          value,
          rw (← new, ← closed)
              (read_without_record-current u (p.before ++ w ∷ p.after)
                ∙ reading-replace u p.before p.period w p.after (refl, refl, refl)
                ∙ sym (read_without_record-current u (p.before ++ p.period ∷ p.after))),
        )
  ]
