-- ===== src/State/StateVariable/Chain.antt =====
-- The well-formed histories: each period ends where the next one starts, and the last one is open.
use pdesmas_cloud.Base.{
  ℕ, ◌≤◌, ◌≡◌, refl, sym, ◌∙◌, ◌⊎◌, inl, inr, List, [], ◌∷◌, ◌++◌, ulong_max, long_max, arith,
  Bool-cases, ◌==◌, ==_iff,
}
use pdesmas_cloud.State.WritePeriod.{WritePeriod}
use pdesmas_cloud.State.StateVariable.{split_end, set_last_end, erase_until}
use pdesmas_cloud.State.StateVariable.Walk.{Later}

module _ {ℓ} {V : Type ℓ} where
  -- A period that starts at `s` and ends at `e` fits before these.
  abbrev pub Meets : ℕ → ℕ → List (WritePeriod V) → Type 0
  Meets s e [] = (e ≡ ulong_max) ⊎ (e ≡ long_max)
  Meets s e (w ∷ ws) = (e ≡ w.start_time) × (s ≤ w.start_time)

  abbrev pub IsChain : List (WritePeriod V) → Type 0
  IsChain [] = Unit
  IsChain (w ∷ ws) = Meets w.start_time w.end_time ws × IsChain ws

  pub IsChain-suffix : (xs ys : List (WritePeriod V)) → IsChain (xs ++ ys) → IsChain ys
  IsChain-suffix [] ys h = h
  IsChain-suffix (x ∷ xs) ys h = IsChain-suffix xs ys h.1

  -- The periods in front do not see what follows but for the start of the next one.
  pub IsChain-replace :
      (xs : List (WritePeriod V)) (w w' : WritePeriod V) (ys ys' : List (WritePeriod V))
      → w'.start_time ≡ w.start_time
      → IsChain (xs ++ w ∷ ys)
      → IsChain (w' ∷ ys')
      → IsChain (xs ++ w' ∷ ys')
  IsChain-replace [] w w' ys ys' e h h' = h'
  IsChain-replace (x ∷ []) w w' ys ys' e h h' = (ground arith, h')
  IsChain-replace (x ∷ x' ∷ xs) w w' ys ys' e h h' =
      (h.0, IsChain-replace (x' ∷ xs) w w' ys ys' e h.1 h')

  pub IsChain-le :
      (xs : List (WritePeriod V)) (x w : WritePeriod V) (ys : List (WritePeriod V))
      → IsChain (x ∷ xs ++ w ∷ ys)
      → x.start_time ≤ w.start_time
  IsChain-le [] x w ys h = h.0.1
  IsChain-le (x' ∷ xs) x w ys h = omega (arith, IsChain-le xs x' w ys h.1)

  pub Meets-of-Later :
      (s t e : ℕ) (ys : List (WritePeriod V)) → Meets s e ys → Later t ys → Meets t e ys
  Meets-of-Later s t e [] h later = h
  Meets-of-Later s t e (y ∷ ys) h later = (h.0, omega arith)

  pub Meets-split_end :
      (s t e : ℕ) (ys : List (WritePeriod V))
      → Meets s e ys
      → Later t ys
      → Meets t (split_end ys) ys
  Meets-split_end s t e [] h later = inl refl
  Meets-split_end s t e (y ∷ ys) h later = (refl, omega arith)

  -- The last period is dropped, and the one before it opened.
  pub IsChain-set_last_end_open :
      (x : WritePeriod V) (xs : List (WritePeriod V)) (w : WritePeriod V)
      → IsChain (x ∷ xs ++ w ∷ [])
      → IsChain (set_last_end long_max (x ∷ xs))
  unfolding set_last_end
  IsChain-set_last_end_open x [] w h = (inr refl, tt)
  IsChain-set_last_end_open x (x' ∷ []) w h = (h.0, (inr refl, tt))
  IsChain-set_last_end_open x (x' ∷ x'' ∷ xs) w h =
      (h.0, IsChain-set_last_end_open x' (x'' ∷ xs) w h.1)

  -- A period in the middle is dropped, and the one before it lasts until its end.
  pub IsChain-set_last_end :
      (x : WritePeriod V) (xs : List (WritePeriod V)) (w y : WritePeriod V)
      (ys : List (WritePeriod V))
      → IsChain (x ∷ xs ++ w ∷ y ∷ ys)
      → IsChain (set_last_end w.end_time (x ∷ xs) ++ y ∷ ys)
  unfolding set_last_end
  IsChain-set_last_end x [] w y ys h = ((h.1.0.0, omega arith), h.1.1)
  IsChain-set_last_end x (x' ∷ []) w y ys h = (h.0, IsChain-set_last_end x' [] w y ys h.1)
  IsChain-set_last_end x (x' ∷ x'' ∷ xs) w y ys h =
      (h.0, IsChain-set_last_end x' (x'' ∷ xs) w y ys h.1)

  -- `RemoveWritePeriods` erases up to a period that starts at `t`.
  pub IsChain-erase_until :
      (t : ℕ) (xs : List (WritePeriod V)) (w w' : WritePeriod V) (ys : List (WritePeriod V))
      → w.start_time ≤ t
      → w'.start_time ≡ t
      → IsChain (xs ++ w ∷ ys)
      → IsChain (w' ∷ ys)
      → IsChain (erase_until t (xs ++ w' ∷ ys))
  unfolding erase_until
  IsChain-erase_until t [] w w' ys le e h h' = rw ((==_iff _ t).1 e) h'
  IsChain-erase_until t (x ∷ xs) w w' ys le e h h' = elim (Bool-cases (x.start_time == t)) [
    | inl at ↦
        let here : x.start_time ≡ t = (==_iff _ _).0 at in
        let same : w.start_time ≡ t = omega (arith, IsChain-le xs x w ys h) in
        rw at (IsChain-replace (x ∷ xs) w w' ys ys (e ∙ sym same) h h')
    | inr other ↦ rw other (IsChain-erase_until t xs w w' ys le e h.1 h')
  ]
